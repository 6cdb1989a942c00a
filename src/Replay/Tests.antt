-- ===== src/Replay/Tests.antt =====
-- The replay cache at concrete nonces.
use fwknox.Base.{
  ℕ, ◌≡◌, ◌-◌, refl, true, false, some, [], ◌∷◌, arith, ok, nat_eq, list_eq, replicate,
}
use fwknox.Base.Assoc.{lookup, Distinct}
use fwknox.Replay.File.{read_cache_file, cache_file_text, found}
use fwknox.Replay.Written.{AreEntries, read_cache_file-cache_file_text}
use fwknox.Base.Lru.{list_lru, list_lru-IsLru}
use fwknox.Config.Types.{root_dir, normal, from_secs, as_secs}
use fwknox.Replay.Cache.{
  Nonce, Entries, WriteCalls, Store, check_and_insert, save_or_roll_back, save_to_file,
  write_cache_file, write_outcome, prune_older_than,
}
use fwknox.Replay.Check.{IsStore, Checked, check_and_insert-Checked}
use fwknox.Replay.Prune.{Pruned, prune_older_than-Pruned}

abbrev works : WriteCalls
works = record {
  create_dir = true;
  new_temp = true;
  write_lines = true;
  sync = true;
  rename = true;
}

abbrev full_disk : WriteCalls
full_disk = record {
  create_dir = true;
  new_temp = true;
  write_lines = false;
  sync = true;
  rename = true;
}

abbrev nonce : ℕ → Nonce
nonce = replicate 16

-- Two places, one of them taken.
abbrev cache : Store list_lru
cache = record {
  inner = (2, (nonce 1, 100) ∷ []);
  persist_path = some (root_dir ∷ normal "replay.cache" ∷ []);
  disk = [];
}

cache-Distinct : Distinct cache.inner.1
unfolding lookup
cache-Distinct = (refl, tt)

cache-IsStore : IsStore list_lru-IsLru cache
cache-IsStore = record {
  room = omega arith;
  entries = record { bounded = omega arith; distinct = cache-Distinct };
}

check_and_insert-Checked_example :
    let (s, r) = check_and_insert list_lru 200 full_disk (nonce 2) cache in
    Checked list_lru-IsLru 200 (nonce 2) cache s r
check_and_insert-Checked_example =
    check_and_insert-Checked list_lru-IsLru 200 full_disk (nonce 2) cache cache-IsStore

accepted : (check_and_insert list_lru 200 works (nonce 2) cache).1 ≡ ok true
unfolding check_and_insert save_or_roll_back save_to_file write_cache_file write_outcome lookup
accepted = refl

prune_older_than-Pruned_example :
    let (s, r) = prune_older_than list_lru 200 works (from_secs 50) cache in
    Pruned list_lru-IsLru (200 - as_secs (from_secs 50)) cache s r
prune_older_than-Pruned_example =
    prune_older_than-Pruned list_lru-IsLru 200 works (from_secs 50) cache cache-IsStore

abbrev seen : Entries
seen = (nonce 1, 1_700_000_000) ∷ (nonce 2, 1_700_000_010) ∷ []

seen-AreEntries : AreEntries seen
seen-AreEntries = (
  record { size = refl; bytes = refl; seconds = omega arith },
  (record { size = refl; bytes = refl; seconds = omega arith }, tt),
)

seen-Distinct : Distinct seen
unfolding lookup
seen-Distinct = (refl, (refl, tt))

read_cache_file-cache_file_text_example :
    (m : Entries) × (read_cache_file
        (root_dir ∷ normal "replay.cache" ∷ [])
        (found (cache_file_text seen))
      ≡ ok m)
    × ((k : Nonce) → lookup k m ≡ lookup k seen)
read_cache_file-cache_file_text_example =
    read_cache_file-cache_file_text (root_dir ∷ normal "replay.cache" ∷ []) seen seen-AreEntries
      seen-Distinct
