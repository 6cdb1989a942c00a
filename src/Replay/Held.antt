-- ===== src/Replay/Held.antt =====
-- A nonce stays in the cache while other nonces come and stale ones go.
use fwknox.Base.{
  ℕ, zero, suc, ◌+◌, ◌-◌, ◌≡◌, ◌<◌, ◌≤◌, ap, subst, ◌∙◌, true, false, some, [], ◌∷◌, arith, is_some,
  take, ok, ◌==◌, ==-eq, nat_eq, list_eq, Bool-cases, inl, inr,
}
use fwknox.Base.Assoc.{
  lookup, erase, Distinct, lookup-erase, lookup-take-suc, is_some-lookup_of_take,
}
use fwknox.Base.Lru.{Lru, IsLru, put_entry, put_entry-IsEntries, lookup-put_entry_self}
use fwknox.Config.Types.{Duration, as_secs}
use fwknox.Replay.Cache.{Nonce, Entries, WriteCalls, Store, check_and_insert, prune_older_than}
use fwknox.Replay.Check.{IsStore, check_and_insert-Checked, Checked-entries}
use fwknox.Replay.Window.{
  after_old, Change, kept, inserted, taken_back, after, Recent, check_and_insert-Change,
  check_and_insert-Recent, accepted-Recent,
}
use fwknox.Replay.Prune.{fresh}
use fwknox.Replay.Kept.{prune_older_than-iter}

-- The front of a list has the entries of the list.
lookup-take-eq :
    (n : Nonce) (p : ℕ) (m : Entries)
    → is_some (lookup n (take p m)) ≡ true
    → lookup n (take p m) ≡ lookup n m
unfolding lookup
lookup-take-eq n zero m h = absurd (cc)
lookup-take-eq n (suc p) [] h = absurd (cc)
lookup-take-eq n (suc p) ((k, ts) ∷ m) h = ground (arith, lookup-take-eq n p m)

lookup-put_entry :
    (size : ℕ) (n k : Nonce) (now : ℕ) (m : Entries)
    → (k == n) ≡ false
    → Distinct m
    → is_some (lookup n (put_entry size k now m)) ≡ true
    → lookup n (put_entry size k now m) ≡ lookup n m
unfolding put_entry lookup
lookup-put_entry size n k now m ne d h =
    ground (arith, lookup-erase k n m d, lookup-take-eq n (size - 1) m)

Change-lookup :
    {size now : ℕ} {k : Nonce} (n : Nonce) {m m' : Entries}
    → Change size k now m m'
    → (k == n) ≡ false
    → Distinct m
    → Distinct (put_entry size k now m)
    → is_some (lookup n m') ≡ true
    → lookup n m' ≡ lookup n m
Change-lookup n (kept e) ne d dp h = ap (lookup n) e
Change-lookup {size} {now} {k} n {m} (inserted e) ne d dp h =
    ap (lookup n) e
    ∙ lookup-put_entry size n k now m ne d (subst (λ x. is_some (lookup n x) ≡ true) e h)
Change-lookup {size} {now} {k} n {m} (taken_back e) ne d dp h =
    let same = lookup-erase k n (put_entry size k now m) dp in
    let other : lookup n (erase k (put_entry size k now m)) ≡ lookup n (put_entry size k now m) =
      ground arith in
    ap (lookup n) e
    ∙ other
    ∙ lookup-put_entry size n k now m ne d
        (subst (λ x. is_some x ≡ true) (ap (lookup n) e ∙ other) h)

lookup-fresh_since :
    (n : Nonce) (cutoff r : ℕ) (m : Entries)
    → lookup n m ≡ some r
    → cutoff ≤ r
    → lookup n (fresh cutoff m) ≡ some r
unfolding lookup fresh
lookup-fresh_since n cutoff r [] h le = h
lookup-fresh_since n cutoff r ((k, ts) ∷ m) h le = ground (arith, lookup-fresh_since n cutoff r m)

take-fresh_since :
    (n : Nonce) (cutoff r j : ℕ) (m : Entries)
    → is_some (lookup n (take j m)) ≡ true
    → lookup n m ≡ some r
    → cutoff ≤ r
    → is_some (lookup n (take j (fresh cutoff m))) ≡ true
unfolding lookup fresh
take-fresh_since n cutoff r zero m h v le = absurd (cc)
take-fresh_since n cutoff r (suc j) [] h v le = absurd (cc)
take-fresh_since n cutoff r (suc j) ((k, ts) ∷ m) h v le =
    ground (arith, take-fresh_since n cutoff r j m, lookup-take-suc n j (fresh cutoff m))

module _ {l : Lru Nonce ℕ} (lru : IsLru l) where
  -- The nonce is among the `j` most recent entries, and its entry is stamped `r`.
  pub record Held (j : ℕ) (n : Nonce) (r : ℕ) (s : Store l) : Type 0 where
    pub among : Recent lru j n s
    pub stamped : lookup n (l.iter s.inner) ≡ some r

  pub accepted-Held :
      (now : ℕ) (w : WriteCalls) (n : Nonce) (s : Store l)
      → IsStore lru s
      → (check_and_insert l now w n s).1 ≡ ok true
      → Held 1 n now (after lru now w n s)
  unfolding after
  accepted-Held now w n s h accepted =
      let (s', r) = check_and_insert l now w n s in
      let entries =
        Checked-entries lru now n s s' r (check_and_insert-Checked lru now w n s h) accepted in
      record {
        among = accepted-Recent lru now w n s h accepted;
        stamped =
            ap (lookup n) entries ∙ lookup-put_entry_self (l.cap s.inner) n now (l.iter s.inner);
      }

  pub check_and_insert-Held :
      (now : ℕ) (w : WriteCalls) (k n : Nonce) (j r : ℕ) (s : Store l)
      → IsStore lru s
      → j < l.cap s.inner
      → Held j n r s
      → Held (suc j) n r (after lru now w k s)
  unfolding after
  check_and_insert-Held now w k n j r s h lt held =
      let recent = check_and_insert-Recent lru now w k n j s lt held.among in
      record {
        among = recent;
        stamped = elim (Bool-cases (k == n)) [
          | inl same ↦
              let old : l.contains k s.inner ≡ true =
                lru.contains-iter k s.inner
                ∙ ap (λ x. is_some (lookup x (l.iter s.inner))) (==-eq k n same)
                ∙ is_some-lookup_of_take n j (l.iter s.inner) held.among in
              ap (λ x. lookup n (l.iter x.inner)) (after_old lru now w k s old) ∙ held.stamped
          | inr other ↦
              Change-lookup n (check_and_insert-Change lru now w k s).0 other h.entries.distinct
                (put_entry-IsEntries (l.cap s.inner) k now (l.iter s.inner) h.room
                  h.entries).distinct
                (is_some-lookup_of_take n (suc j) _ recent)
              ∙ held.stamped
        ];
      }

  pub prune_older_than-Held :
      (now : ℕ) (w : WriteCalls) (max_age : Duration) (n : Nonce) (j r : ℕ) (s : Store l)
      → IsStore lru s
      → now ≤ r + as_secs max_age
      → Held j n r s
      → Held j n r (prune_older_than l now w max_age s).0
  prune_older_than-Held now w max_age n j r s h young held =
      let e = prune_older_than-iter lru now w max_age s h in
      record {
        among = rw e (
            take-fresh_since n (now - as_secs max_age) r j (l.iter s.inner) held.among held.stamped
              (omega arith));
        stamped = rw e (
            lookup-fresh_since n (now - as_secs max_age) r (l.iter s.inner) held.stamped
              (omega arith));
      }

  pub later-Held : (j : ℕ) (n : Nonce) (r : ℕ) (s : Store l) → Held j n r s → Held (suc j) n r s
  later-Held j n r s held = record {
    among = lookup-take-suc n j (l.iter s.inner) held.among;
    stamped = held.stamped;
  }
