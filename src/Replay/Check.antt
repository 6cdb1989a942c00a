-- ===== src/Replay/Check.antt =====
-- `check_and_insert`: what each outcome means, and how long a nonce is remembered.
use fwknox.Base.{
  ℕ, ◌≡◌, ◌<◌, refl, ap, sym, ◌∙◌, Bool, true, false, Option, none, some, arith, is_some, Result,
  ok, err, if◌then◌else◌, nat_eq, list_eq, Bool-cases, Result-cases, inl, inr,
}
use fwknox.Base.Assoc.{lookup, lookup-erase_self}
use fwknox.Base.Lru.{Lru, IsLru, IsEntries, put_entry, put_entry-IsEntries, lookup-put_entry_self}
use fwknox.Config.Types.{FilePath}
use fwknox.Replay.Cache.{
  Nonce, ReplayError, WriteCalls, write_outcome, write_cache_file, Store, save_to_file,
  save_or_roll_back, check_and_insert,
}

module _ {l : Lru Nonce ℕ} (lru : IsLru l) where
  -- A cache that can hold something holds no nonce twice and no more than its capacity.
  pub record IsStore (s : Store l) : Type 0 where
    pub room : 0 < l.cap s.inner
    pub entries : IsEntries (l.cap s.inner) (l.iter s.inner)

  pub seen : Nonce → Store l → Bool
  seen n s = is_some (lookup n (l.iter s.inner))

  -- What a call has done, by its outcome: a replay changes nothing; a fresh nonce is inserted and,
  -- under a persistence path, the file holds the new entries; after a failed save the nonce is not
  -- in the cache and the file is as it was.
  abbrev pub Checked : ℕ → Nonce → Store l → Store l → Result ReplayError Bool → Type 0
  Checked now n s s' (ok false) = (seen n s ≡ true) × (s' ≡ s)
  Checked now n s s' (ok true) =
      (seen n s ≡ false)
      × (seen n s' ≡ true)
      × (s'.persist_path ≡ s.persist_path)
      × (l.iter s'.inner ≡ put_entry (l.cap s.inner) n now (l.iter s.inner))
      × (s'.disk ≡ (if is_some s.persist_path then l.iter s'.inner else s.disk))
  Checked now n s s' (err e) =
      (seen n s ≡ false)
      × (seen n s' ≡ false)
      × (s'.persist_path ≡ s.persist_path)
      × (s'.disk ≡ s.disk)

  -- The new entry is found, and is gone once it is taken out again.
  self :
      (now : ℕ) (n : Nonce) (s : Store l)
      → lookup n (put_entry (l.cap s.inner) n now (l.iter s.inner)) ≡ some now
  self now n s = lookup-put_entry_self (l.cap s.inner) n now (l.iter s.inner)

  gone :
      (now : ℕ) (n : Nonce) (s : Store l)
      → IsStore s
      → lookup n (l.iter (l.pop n (l.put n now s.inner))) ≡ none
  gone now n s h =
      ap (lookup n) (lru.iter-pop n (l.put n now s.inner))
      ∙ lookup-erase_self n _ (
          rw (lru.iter-put n now s.inner)
            (put_entry-IsEntries (l.cap s.inner) n now (l.iter s.inner) h.room h.entries).distinct)

  pub saved :
      (w : WriteCalls) (n : Nonce) (s : Store l) (path : FilePath) {u : Unit {0}}
      → write_outcome w path ≡ ok u
      → save_or_roll_back l w n (some path) s ≡ (record s { disk = l.iter s.inner }, ok true)
  unfolding save_or_roll_back save_to_file write_cache_file
  saved w n s path done = ground arith

  pub rolled_back :
      (w : WriteCalls) (n : Nonce) (s : Store l) (path : FilePath) {e : ReplayError}
      → write_outcome w path ≡ err e
      → save_or_roll_back l w n (some path) s ≡ (record s { inner = l.pop n s.inner }, err e)
  unfolding save_or_roll_back save_to_file write_cache_file
  rolled_back w n s path failed = ground arith

  save_or_roll_back-Checked :
      (now : ℕ) (w : WriteCalls) (n : Nonce) (s : Store l) (path : Option FilePath)
      → s.persist_path ≡ path
      → seen n s ≡ false
      → IsStore s
      → let (s', r) = save_or_roll_back l w n path (record s { inner = l.put n now s.inner }) in
        Checked now n s s' r
  unfolding save_or_roll_back seen
  save_or_roll_back-Checked now w n s none e new h =
      let put = lru.iter-put n now s.inner in
      (new, ap is_some (ap (lookup n) put ∙ self now n s), refl, put, rw e)
  save_or_roll_back-Checked now w n s (some path) e new h =
      let put = lru.iter-put n now s.inner in
      elim (Result-cases (write_outcome w path)) [
        | inl (u, done) ↦
            rw (saved w n _ path done)
              (new, ap is_some (ap (lookup n) put ∙ self now n s), refl, put, rw e)
        | inr (d, failed) ↦
            rw (rolled_back w n _ path failed) (new, ap is_some (gone now n s h), refl, refl)
      ]

  pub check_old :
      (now : ℕ) (w : WriteCalls) (n : Nonce) (s : Store l)
      → l.contains n s.inner ≡ true
      → check_and_insert l now w n s ≡ (s, ok false)
  unfolding check_and_insert
  check_old now w n s old = rw old

  pub check_new :
      (now : ℕ) (w : WriteCalls) (n : Nonce) (s : Store l)
      → l.contains n s.inner ≡ false
      → check_and_insert l now w n s
        ≡ save_or_roll_back l w n s.persist_path (record s { inner = l.put n now s.inner })
  unfolding check_and_insert
  check_new now w n s new = rw new

  -- On a well-formed cache, with the laws of the `lru` crate, `check_and_insert` answers `false`
  -- only for a nonce it holds, and changes nothing then; it answers `true` only for an unknown
  -- nonce, which it then holds, the file holding the new entries if there is a path; after a
  -- failed save the nonce, unknown before, is unknown and the file as it was.
  pub check_and_insert-Checked :
      (now : ℕ) (w : WriteCalls) (n : Nonce) (s : Store l)
      → IsStore s
      → let (s', r) = check_and_insert l now w n s in Checked now n s s' r
  unfolding seen
  check_and_insert-Checked now w n s h = elim (Bool-cases (l.contains n s.inner)) [
    | inl old ↦ rw (check_old now w n s old) (sym (lru.contains-iter n s.inner) ∙ old, refl)
    | inr new ↦ rw (check_new now w n s new) (
        save_or_roll_back-Checked now w n s s.persist_path refl
          (sym (lru.contains-iter n s.inner) ∙ new) h)
  ]

  pub Checked-entries :
      (now : ℕ) (n : Nonce) (s s' : Store l) (r : Result ReplayError Bool)
      → Checked now n s s' r
      → r ≡ ok true
      → l.iter s'.inner ≡ put_entry (l.cap s.inner) n now (l.iter s.inner)
  Checked-entries now n s s' (ok true) c e = c.3
  Checked-entries now n s s' (ok false) c e = absurd (cc)
  Checked-entries now n s s' (err d) c e = absurd (cc)
