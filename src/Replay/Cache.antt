-- ===== src/Replay/Cache.antt =====
-- crates/fwknox-replay/src/cache.rs and the writer of persist.rs. The LRU map is the crate's, a
-- parameter. The cache file stands for the entries that are read back from it; a write is given by
-- which of its system calls succeed. The mutex makes each locked block one step.
use fwknox.Base.{
  ℕ, ◌-◌, Bool, true, false, not, Option, none, some, List, [], ◌∷◌, ltb, Result, ok, err, ◌>>=◌,
  ◌>>◌, fail_if, if◌then◌else◌, nat_eq, list_eq,
}
use fwknox.Base.Lru.{Lru}
use fwknox.Proto.Types.{Bytes}
use fwknox.Config.Types.{FilePath, Duration, as_secs}

-- `[u8; 16]`
abbrev pub Nonce : Type 0
Nonce = Bytes

abbrev pub Entries : Type 0
Entries = List (Nonce × ℕ)

abbrev pub default_max_entries : ℕ
default_max_entries = 10_000

pub data ReplayError : Type 0 where
  read : FilePath → ReplayError
  write : FilePath → ReplayError
  invalid_format : FilePath → ReplayError

-- Whether each call of one write goes through: `create_dir_all`, `NamedTempFile::new_in`, the
-- `writeln!`s, `sync_all` and `persist`.
pub record WriteCalls : Type 0 where
  pub create_dir : Bool
  pub new_temp : Bool
  pub write_lines : Bool
  pub sync : Bool
  pub rename : Bool

-- `write_cache_file`: the outcome of the calls, in order.
unfoldable pub write_outcome : WriteCalls → FilePath → Result ReplayError (Unit {0})
write_outcome w path = do
  fail_if (not w.create_dir) (write path)
  fail_if (not w.new_temp) (write path)
  fail_if (not w.write_lines) (write path)
  fail_if (not w.sync) (write path)
  fail_if (not w.rename) (write path)

-- The file at the path is replaced by the last call, and by nothing before it.
unfoldable pub write_cache_file :
    WriteCalls → FilePath → (disk entries : Entries) → Result ReplayError (Unit {0}) × Entries
write_cache_file w path disk entries = elim (write_outcome w path) [
  | ok u ↦ (ok u, entries)
  | err e ↦ (err e, disk)
]

-- The keys of the entries below the cutoff.
unfoldable pub stale : ℕ → Entries → List Nonce
stale cutoff [] = []
stale cutoff ((k, ts) ∷ m) = if ltb ts cutoff then k ∷ stale cutoff m else stale cutoff m

module _ (l : Lru Nonce ℕ) where
  -- `ReplayCache`, beside the file at its path.
  pub record Store : Type 0 where
    pub inner : l.Cache
    pub persist_path : Option FilePath
    pub disk : Entries

  unfoldable pub with_capacity : ℕ → Entries → Store
  with_capacity capacity disk = record { inner = l.new capacity; persist_path = none; disk = disk }

  unfoldable pub new_cache : Entries → Store
  unfolding with_capacity
  new_cache = with_capacity default_max_entries

  unfoldable pub set_persist_path : FilePath → Store → Store
  set_persist_path path s = record s { persist_path = some path }

  unfoldable pub save_to_file :
      WriteCalls → FilePath → Store → Store × Result ReplayError (Unit {0})
  save_to_file w path s =
      let (r, disk) = write_cache_file w path s.disk (l.iter s.inner) in
      (record s { disk = disk }, r)

  -- The block behind the lock: save, and take the nonce out again if that fails.
  unfoldable pub save_or_roll_back :
      WriteCalls → Nonce → Option FilePath → Store → Store × Result ReplayError Bool
  save_or_roll_back w nonce none s = (s, ok true)
  save_or_roll_back w nonce (some path) s =
      let (saved, r) = save_to_file w path s in
      elim r [
        | ok u ↦ (saved, ok true)
        | err e ↦ (record saved { inner = l.pop nonce saved.inner }, err e)
      ]

  -- `now` is the wall clock in seconds.
  unfoldable pub check_and_insert :
      (now : ℕ) → WriteCalls → Nonce → Store → Store × Result ReplayError Bool
  check_and_insert now w nonce s =
      if l.contains nonce s.inner
      then (s, ok false)
      else save_or_roll_back w nonce s.persist_path (record s { inner = l.put nonce now s.inner })

  unfoldable pub pop_all : List Nonce → l.Cache → l.Cache
  pop_all [] c = c
  pop_all (k ∷ ks) c = pop_all ks (l.pop k c)

  -- The save behind a prune that removed something.
  unfoldable pub save_pruned :
      WriteCalls → ℕ → Option FilePath → Store → Store × Result ReplayError ℕ
  save_pruned w pruned none s = (s, ok pruned)
  save_pruned w pruned (some path) s =
      let (saved, r) = save_to_file w path s in
      elim r [ ok u ↦ (saved, ok pruned) | err e ↦ (saved, err e) ]

  unfoldable pub prune_older_than :
      (now : ℕ) → WriteCalls → Duration → Store → Store × Result ReplayError ℕ
  prune_older_than now w max_age s =
      let cutoff = now - as_secs max_age in
      let inner = pop_all (stale cutoff (l.iter s.inner)) s.inner in
      let pruned = l.len s.inner - l.len inner in
      let s' : Store = record s { inner = inner } in
      if ltb 0 pruned then save_pruned w pruned s.persist_path s' else (s', ok pruned)

  -- `load_from_file`: `found` is what the reader gave, in the order of its hash map.
  unfoldable pub put_all : Entries → l.Cache → l.Cache
  put_all [] c = c
  put_all ((k, ts) ∷ m) c = put_all m (l.put k ts c)

  unfoldable pub load_from_file : Result ReplayError Entries → Result ReplayError Store
  load_from_file found = do
    entries ← found
    ok (record {
      inner = put_all entries (l.new default_max_entries);
      persist_path = none;
      disk = entries;
    })
