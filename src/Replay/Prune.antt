-- ===== src/Replay/Prune.antt =====
-- `prune_older_than` removes exactly the entries below the cutoff.
use fwknox.Base.{
  ℕ, ◌+◌, ◌-◌, ◌≡◌, ◌≤◌, ◌<◌, refl, ap, ◌∙◌, true, false, ◌&&◌, Option, none, some, List, [], ◌∷◌,
  arith, is_some, ltb, ltb→lt, lt→ltb, length, Result, ok, err, nat_eq, list_eq, list_beq_iff,
  Bool-cases, Result-cases, inl, inr, if◌then◌else◌,
}
use fwknox.Base.Assoc.{lookup, erase, Distinct}
use fwknox.Base.Lru.{Lru, IsLru}
use fwknox.Config.Types.{FilePath, Duration, as_secs}
use fwknox.Replay.Cache.{
  Nonce, Entries, ReplayError, WriteCalls, write_outcome, write_cache_file, Store, save_to_file,
  stale, pop_all, save_pruned, prune_older_than,
}
use fwknox.Replay.Check.{IsStore}

-- The entries that a prune keeps.
unfoldable pub fresh : ℕ → Entries → Entries
fresh cutoff [] = []
fresh cutoff ((k, ts) ∷ m) = if ltb ts cutoff then fresh cutoff m else (k, ts) ∷ fresh cutoff m

erase_all : List Nonce → Entries → Entries
erase_all [] m = m
erase_all (k ∷ ks) m = erase_all ks (erase k m)

-- Erasing keys that are not the first one leaves it in place.
erase_all-cons :
    (cutoff : ℕ) (k : Nonce) (ts : ℕ) (m rest : Entries)
    → lookup k m ≡ none
    → erase_all (stale cutoff m) ((k, ts) ∷ rest) ≡ (k, ts) ∷ erase_all (stale cutoff m) rest
unfolding stale erase_all lookup erase
erase_all-cons cutoff k ts [] rest absent = refl
erase_all-cons cutoff k ts ((j, t) ∷ m) rest absent = ground (
  arith,
  list_beq_iff j k,
  list_beq_iff k j,
  erase_all-cons cutoff k ts m rest,
  erase_all-cons cutoff k ts m (erase j rest),
)

erase_all-stale :
    (cutoff : ℕ) (m : Entries) → Distinct m → erase_all (stale cutoff m) m ≡ fresh cutoff m
unfolding stale erase_all erase fresh
erase_all-stale cutoff [] d = refl
erase_all-stale cutoff ((k, ts) ∷ m) d =
    ground
      (arith, list_beq_iff k k, erase_all-stale cutoff m d.1, erase_all-cons cutoff k ts m m d.0)

pub length-fresh-le : (cutoff : ℕ) (m : Entries) → length (fresh cutoff m) ≤ length m
unfolding fresh
length-fresh-le cutoff [] = omega arith
length-fresh-le cutoff ((k, ts) ∷ m) = ground (arith, length-fresh-le cutoff m)

module _ {l : Lru Nonce ℕ} (lru : IsLru l) where
  iter-pop_all : (ks : List Nonce) (c : l.Cache) → l.iter (pop_all l ks c) ≡ erase_all ks (l.iter c)
  unfolding pop_all erase_all
  iter-pop_all [] c = refl
  iter-pop_all (k ∷ ks) c = iter-pop_all ks (l.pop k c) ∙ ap (erase_all ks) (lru.iter-pop k c)

  pub iter-pop_all-stale :
      (cutoff : ℕ) (c : l.Cache)
      → Distinct (l.iter c)
      → l.iter (pop_all l (stale cutoff (l.iter c)) c) ≡ fresh cutoff (l.iter c)
  iter-pop_all-stale cutoff c d = iter-pop_all _ c ∙ erase_all-stale cutoff (l.iter c) d

  -- What a prune leaves: the cache without the stale entries, a count of those, and a file that
  -- holds the new entries if any was removed and the save went through.
  abbrev pub Pruned : ℕ → Store l → Store l → Result ReplayError ℕ → Type 0
  Pruned cutoff s s' (ok n) =
      (l.iter s'.inner ≡ fresh cutoff (l.iter s.inner))
      × (length (l.iter s'.inner) + n ≡ length (l.iter s.inner))
      × (s'.disk ≡ (if ltb 0 n && is_some s.persist_path then l.iter s'.inner else s.disk))
  Pruned cutoff s s' (err e) =
      (l.iter s'.inner ≡ fresh cutoff (l.iter s.inner))
      × (length (l.iter s'.inner) < length (l.iter s.inner))
      × (s'.disk ≡ s.disk)

  module _ (now : ℕ) (w : WriteCalls) (max_age : Duration) (s : Store l) (h : IsStore lru s) where
    cutoff : ℕ
    cutoff = now - as_secs max_age

    left : l.Cache
    unfolding cutoff
    left = pop_all l (stale cutoff (l.iter s.inner)) s.inner

    iter-left : l.iter left ≡ fresh cutoff (l.iter s.inner)
    unfolding left
    iter-left = iter-pop_all-stale cutoff s.inner h.entries.distinct

    -- The number that went.
    gone : ℕ
    unfolding left
    gone = l.len s.inner - l.len left

    gone-length : length (l.iter left) + gone ≡ length (l.iter s.inner)
    unfolding gone
    gone-length =
        let le = length-fresh-le cutoff (l.iter s.inner) in
        let kept = ap length iter-left in
        let before = lru.len-iter s.inner in let now_left = lru.len-iter left in omega arith

    save_pruned_ok :
        (n : ℕ) (t : Store l) (path : FilePath) {u : Unit {0}}
        → write_outcome w path ≡ ok u
        → save_pruned l w n (some path) t ≡ (record t { disk = l.iter t.inner }, ok n)
    unfolding save_pruned save_to_file write_cache_file
    save_pruned_ok n t path done = ground arith

    save_pruned_err :
        (n : ℕ) (t : Store l) (path : FilePath) {e : ReplayError}
        → write_outcome w path ≡ err e
        → save_pruned l w n (some path) t ≡ (t, err e)
    unfolding save_pruned save_to_file write_cache_file
    save_pruned_err n t path failed = ground arith

    save_pruned-Pruned :
        (path : Option FilePath)
        → s.persist_path ≡ path
        → 0 < gone
        → let (s', r) = save_pruned l w gone path (record s { inner = left }) in
          Pruned cutoff s s' r
    unfolding save_pruned
    save_pruned-Pruned none e pos = (iter-left, gone-length, rw e (rw (lt→ltb 0 gone pos) refl))
    save_pruned-Pruned (some path) e pos = elim (Result-cases (write_outcome w path)) [
      | inl (u, done) ↦
          rw (save_pruned_ok gone _ path done)
            (iter-left, gone-length, rw e (rw (lt→ltb 0 gone pos) refl))
      | inr (d, failed) ↦
          rw (save_pruned_err gone _ path failed)
            (iter-left, (let g = gone-length in omega arith), refl)
    ]

    prune_some :
        ltb 0 gone ≡ true
        → prune_older_than l now w max_age s
          ≡ save_pruned l w gone s.persist_path (record s { inner = left })
    unfolding prune_older_than left cutoff gone
    prune_some e = rw e

    prune_none :
        ltb 0 gone ≡ false
        → prune_older_than l now w max_age s ≡ (record s { inner = left }, ok gone)
    unfolding prune_older_than left cutoff gone
    prune_none e = rw e

    -- On a well-formed cache, with the laws of the `lru` crate, `prune_older_than` removes exactly
    -- the entries older than the age and keeps the rest in order; it returns how many went, and
    -- the file then holds the new entries if any went and there is a path; or it reports a failed
    -- save, some having gone and the file being as it was.
    pub prune_older_than-Pruned :
        let (s', r) = prune_older_than l now w max_age s in Pruned (now - as_secs max_age) s s' r
    unfolding cutoff
    prune_older_than-Pruned = elim (Bool-cases (ltb 0 gone)) [
      | inl some_gone ↦
          rw (prune_some some_gone)
            (save_pruned-Pruned s.persist_path refl (ltb→lt 0 gone some_gone))
      | inr none_gone ↦ rw (prune_none none_gone) (iter-left, gone-length, rw none_gone refl)
    ]
