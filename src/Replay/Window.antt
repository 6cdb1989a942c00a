-- ===== src/Replay/Window.antt =====
-- How long an accepted nonce is remembered, and that the cache stays well formed.
use mathlib.Core.Bool.{false≢true}
use fwknox.Base.{
  ℕ, suc, ◌+◌, ◌≡◌, ◌≤◌, ◌<◌, ◌≢◌, refl, ap, sym, ◌∙◌, true, false, Option, none, some, List, [],
  ◌∷◌, arith, is_some, length, take, ok, nat_eq, list_eq, Bool-cases, Result-cases, inl, inr, ◌==◌,
  ==-eq,
}
use fwknox.Base.Assoc.{
  lookup, erase, Distinct-erase, length-erase-le, lookup-take-suc, lookup-take-erase,
  is_some-lookup_of_take,
}
use fwknox.Base.Lru.{
  Lru, IsLru, IsEntries, put_entry, put_entry-IsEntries, recent-put_entry, recent-put_entry_self,
}
use fwknox.Config.Types.{FilePath}
use fwknox.Replay.Cache.{
  Nonce, Entries, WriteCalls, write_outcome, Store, save_or_roll_back, check_and_insert,
}
use fwknox.Replay.Check.{
  IsStore, check_and_insert-Checked, Checked-entries, check_old, check_new, saved, rolled_back,
}

-- What one call makes of the entries.
pub data Change (size : ℕ) (n : Nonce) (now : ℕ) (before : Entries) : Entries → Type 0 where
  kept : {after : Entries} → after ≡ before → Change size n now before after
  inserted :
      {after : Entries} → after ≡ put_entry size n now before → Change size n now before after
  taken_back :
      {after : Entries}
      → after ≡ erase n (put_entry size n now before)
      → Change size n now before after

pub Change-IsEntries :
    {size now : ℕ} {n : Nonce} {m m' : Entries}
    → Change size n now m m'
    → 0 < size
    → IsEntries size m
    → IsEntries size m'
Change-IsEntries (kept e) pos h = rw e h
Change-IsEntries {size} {now} {n} {m} (inserted e) pos h =
    rw e (put_entry-IsEntries size n now m pos h)
Change-IsEntries {size} {now} {n} {m} (taken_back e) pos h =
    let p = put_entry-IsEntries size n now m pos h in
    rw e (record {
      bounded = omega (arith, length-erase-le n (put_entry size n now m), p.bounded);
      distinct = Distinct-erase n (put_entry size n now m) p.distinct;
    })

-- A call on another nonce pushes a remembered one back by one place at most.
Change-recent :
    {size now : ℕ} {k n : Nonce} {m m' : Entries} {j : ℕ}
    → Change size k now m m'
    → n ≢ k
    → j < size
    → is_some (lookup n (take j m)) ≡ true
    → is_some (lookup n (take (suc j) m')) ≡ true
Change-recent {n} {m} {j} (kept e) ne lt h = rw e (lookup-take-suc n j m h)
Change-recent {size} {now} {k} {n} {m} {j} (inserted e) ne lt h =
    rw e (recent-put_entry size j n k now m ne lt h)
Change-recent {size} {now} {k} {n} {m} {j} (taken_back e) ne lt h = rw e (
    lookup-take-erase n k (suc j) (put_entry size k now m) ne
      (recent-put_entry size j n k now m ne lt h))

module _ {l : Lru Nonce ℕ} (lru : IsLru l) where
  unfoldable pub after : ℕ → WriteCalls → Nonce → Store l → Store l
  after now w n s = (check_and_insert l now w n s).0

  pub after_old :
      (now : ℕ) (w : WriteCalls) (n : Nonce) (s : Store l)
      → l.contains n s.inner ≡ true
      → after now w n s ≡ s
  unfolding after
  after_old now w n s old = ap (λ r. r.0) (check_old lru now w n s old)

  after_new :
      (now : ℕ) (w : WriteCalls) (n : Nonce) (s : Store l)
      → l.contains n s.inner ≡ false
      → after now w n s
        ≡ (save_or_roll_back l w n s.persist_path (record s { inner = l.put n now s.inner })).0
  unfolding after
  after_new now w n s new = ap (λ r. r.0) (check_new lru now w n s new)

  save_or_roll_back-Change :
      (now : ℕ) (w : WriteCalls) (n : Nonce) (s : Store l) (path : Option FilePath)
      → let s' = (save_or_roll_back l w n path (record s { inner = l.put n now s.inner })).0 in
        Change (l.cap s.inner) n now (l.iter s.inner) (l.iter s'.inner)
        × (l.cap s'.inner ≡ l.cap s.inner)
  unfolding save_or_roll_back
  save_or_roll_back-Change now w n s none =
      (inserted (lru.iter-put n now s.inner), lru.cap-put n now s.inner)
  save_or_roll_back-Change now w n s (some path) = elim (Result-cases (write_outcome w path)) [
    | inl (u, done) ↦
        rw (saved lru w n _ path done)
          (inserted (lru.iter-put n now s.inner), lru.cap-put n now s.inner)
    | inr (d, failed) ↦ rw (rolled_back lru w n _ path failed) (
      taken_back (lru.iter-pop n _ ∙ ap (erase n) (lru.iter-put n now s.inner)),
      lru.cap-pop n _ ∙ lru.cap-put n now s.inner,
    )
  ]

  pub check_and_insert-Change :
      (now : ℕ) (w : WriteCalls) (n : Nonce) (s : Store l)
      → let s' = after now w n s in
        Change (l.cap s.inner) n now (l.iter s.inner) (l.iter s'.inner)
        × (l.cap s'.inner ≡ l.cap s.inner)
  check_and_insert-Change now w n s = elim (Bool-cases (l.contains n s.inner)) [
    | inl old ↦ rw (after_old now w n s old) (kept refl, refl)
    | inr new ↦ rw (after_new now w n s new) (save_or_roll_back-Change now w n s s.persist_path)
  ]

  -- With the laws of the `lru` crate, every call of `check_and_insert` on a well-formed cache
  -- leaves it well formed, whatever its outcome.
  pub check_and_insert-IsStore :
      (now : ℕ) (w : WriteCalls) (n : Nonce) (s : Store l)
      → IsStore lru s
      → IsStore lru (after now w n s)
  check_and_insert-IsStore now w n s h =
      let (change, size) = check_and_insert-Change now w n s in
      record { room = rw size h.room; entries = rw size (Change-IsEntries change h.room h.entries) }

  -- The nonce is among the `j` most recent entries.
  abbrev pub Recent : ℕ → Nonce → Store l → Type 0
  Recent j n s = is_some (lookup n (take j (l.iter s.inner))) ≡ true

  pub check_and_insert-Recent :
      (now : ℕ) (w : WriteCalls) (k n : Nonce) (j : ℕ) (s : Store l)
      → j < l.cap s.inner
      → Recent j n s
      → Recent (suc j) n (after now w k s)
  check_and_insert-Recent now w k n j s lt h = elim (Bool-cases (k == n)) [
    | inl same ↦
        let old : l.contains k s.inner ≡ true =
          lru.contains-iter k s.inner
          ∙ ap (λ x. is_some (lookup x (l.iter s.inner))) (==-eq k n same)
          ∙ is_some-lookup_of_take n j (l.iter s.inner) h in
        rw (after_old now w k s old) (lookup-take-suc n j (l.iter s.inner) h)
    | inr other ↦
        Change-recent (check_and_insert-Change now w k s).0
          (λ e. false≢true (sym other ∙ (list_eq.decides k n).1 (sym e))) lt h
  ]

  -- A run of calls: the clock, the outcome of the save and the nonce of each.
  unfoldable pub run : List (ℕ × WriteCalls × Nonce) → Store l → Store l
  run [] s = s
  run ((now, w, n) ∷ calls) s = run calls (after now w n s)

  run-Recent :
      (calls : List (ℕ × WriteCalls × Nonce)) (n : Nonce) (j : ℕ) (s : Store l)
      → j + length calls ≤ l.cap s.inner
      → Recent j n s
      → is_some (lookup n (l.iter (run calls s).inner)) ≡ true
  unfolding run
  run-Recent [] n j s le h = is_some-lookup_of_take n j (l.iter s.inner) h
  run-Recent ((now, w, k) ∷ calls) n j s le h =
      run-Recent calls n (suc j) (after now w k s)
        (omega (arith, (check_and_insert-Change now w k s).1))
        (check_and_insert-Recent now w k n j s (omega arith) h)

  -- An accepted nonce is the most recent entry.
  pub accepted-Recent :
      (now : ℕ) (w : WriteCalls) (n : Nonce) (s : Store l)
      → IsStore lru s
      → (check_and_insert l now w n s).1 ≡ ok true
      → Recent 1 n (after now w n s)
  unfolding after
  accepted-Recent now w n s h accepted =
      let (s', r) = check_and_insert l now w n s in
      let entries =
        Checked-entries lru now n s s' r (check_and_insert-Checked lru now w n s h) accepted in
      rw entries (recent-put_entry_self (l.cap s.inner) n now (l.iter s.inner))

  -- With the laws of the `lru` crate, a nonce that a well-formed cache has accepted is refused as
  -- a replay as long as fewer calls than the capacity have come in between, whatever nonces they
  -- carry and whether or not their saves fail.
  pub check_and_insert-replay :
      (now now' : ℕ) (w w' : WriteCalls) (n : Nonce) (calls : List (ℕ × WriteCalls × Nonce))
      (s : Store l)
      → IsStore lru s
      → (check_and_insert l now w n s).1 ≡ ok true
      → length calls < l.cap s.inner
      → (check_and_insert l now' w' n (run calls (after now w n s))).1 ≡ ok false
  check_and_insert-replay now now' w w' n calls s h accepted few =
      let s' = after now w n s in
      let kept =
        run-Recent calls n 1 s' (omega (arith, (check_and_insert-Change now w n s).1))
          (accepted-Recent now w n s h accepted) in
      ap (λ r. r.1) (check_old lru now' w' n _ (lru.contains-iter n _ ∙ kept))
