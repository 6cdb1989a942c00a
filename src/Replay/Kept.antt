-- ===== src/Replay/Kept.antt =====
-- A prune and a save keep a cache well formed.
use fwknox.Base.{
  ℕ, ◌≡◌, ◌-◌, refl, ap, ◌∙◌, true, Option, none, some, List, [], ◌∷◌, ltb, leb, all, arith, nat_eq,
  list_eq, Bool-cases, inl, inr, Result-cases,
}
use fwknox.Base.Assoc.{lookup, Distinct}
use fwknox.Base.Lru.{Lru, IsLru}
use fwknox.Config.Types.{FilePath, Duration, as_secs}
use fwknox.Replay.Cache.{
  Nonce, Entries, WriteCalls, write_cache_file, stale, Store, save_to_file, pop_all, save_pruned,
  prune_older_than,
}
use fwknox.Replay.Check.{IsStore}
use fwknox.Replay.Prune.{fresh, length-fresh-le, iter-pop_all-stale}

lookup-fresh :
    (k : Nonce) (cutoff : ℕ) (m : Entries) → lookup k m ≡ none → lookup k (fresh cutoff m) ≡ none
unfolding lookup fresh
lookup-fresh k cutoff [] h = refl
lookup-fresh k cutoff ((j, ts) ∷ m) h = ground (arith, lookup-fresh k cutoff m)

Distinct-fresh : (cutoff : ℕ) (m : Entries) → Distinct m → Distinct (fresh cutoff m)
unfolding fresh
Distinct-fresh cutoff [] d = tt
Distinct-fresh cutoff ((k, ts) ∷ m) d = elim (Bool-cases (ltb ts cutoff)) [
  | inl old ↦ rw old (Distinct-fresh cutoff m d.1)
  | inr new ↦ rw new (lookup-fresh k cutoff m d.0, Distinct-fresh cutoff m d.1)
]

-- Every entry is stamped at the cutoff or later.
abbrev pub AreSince : ℕ → Entries → Type 0
AreSince cutoff m = all (λ e. leb cutoff e.1) m ≡ true

pub fresh-AreSince : (cutoff : ℕ) (m : Entries) → AreSince cutoff (fresh cutoff m)
unfolding fresh
fresh-AreSince cutoff [] = refl
fresh-AreSince cutoff ((k, ts) ∷ m) = ground (arith, fresh-AreSince cutoff m)

module _ {l : Lru Nonce ℕ} (lru : IsLru l) where
  cap-pop_all : (ks : List Nonce) (c : l.Cache) → l.cap (pop_all l ks c) ≡ l.cap c
  unfolding pop_all
  cap-pop_all [] c = refl
  cap-pop_all (k ∷ ks) c = cap-pop_all ks (l.pop k c) ∙ lru.cap-pop k c

  pub save_to_file-inner :
      (w : WriteCalls) (path : FilePath) (s : Store l) → (save_to_file l w path s).0.inner ≡ s.inner
  unfolding save_to_file
  save_to_file-inner w path s = refl

  save_pruned-inner :
      (w : WriteCalls) (pruned : ℕ) (p : Option FilePath) (s : Store l)
      → (save_pruned l w pruned p s).0.inner ≡ s.inner
  unfolding save_pruned save_to_file
  save_pruned-inner w pruned none s = refl
  save_pruned-inner w pruned (some path) s =
      elim (Result-cases (write_cache_file w path s.disk (l.iter s.inner)).0) [
        | inl (u, e) ↦ rw (e, save_pruned, save_to_file) refl
        | inr (d, e) ↦ rw (e, save_pruned, save_to_file) refl
      ]

  module _ (now : ℕ) (w : WriteCalls) (max_age : Duration) (s : Store l) where
    abbrev left : l.Cache
    left = pop_all l (stale (now - as_secs max_age) (l.iter s.inner)) s.inner

    pub prune_older_than-inner : (prune_older_than l now w max_age s).0.inner ≡ left
    unfolding prune_older_than
    prune_older_than-inner = elim (Bool-cases (ltb 0 (l.len s.inner - l.len left))) [
      | inl some_gone ↦ rw some_gone (save_pruned-inner w _ s.persist_path _)
      | inr none_gone ↦ rw none_gone refl
    ]

    pub prune_older_than-iter :
        IsStore lru s
        → l.iter (prune_older_than l now w max_age s).0.inner
          ≡ fresh (now - as_secs max_age) (l.iter s.inner)
    prune_older_than-iter h =
        ap l.iter prune_older_than-inner ∙ iter-pop_all-stale lru _ s.inner h.entries.distinct

    pub cap-prune_older_than : l.cap (prune_older_than l now w max_age s).0.inner ≡ l.cap s.inner
    cap-prune_older_than = ap l.cap prune_older_than-inner ∙ cap-pop_all _ s.inner

    -- With the laws of the `lru` crate, a prune leaves a well-formed cache well formed.
    pub prune_older_than-IsStore :
        IsStore lru s → IsStore lru (prune_older_than l now w max_age s).0
    prune_older_than-IsStore h =
        let less = length-fresh-le (now - as_secs max_age) (l.iter s.inner) in
        record {
          room = rw cap-prune_older_than h.room;
          entries =
              rw (cap-prune_older_than, prune_older_than-iter h)
                (record {
                  bounded = (let full = h.entries.bounded in omega arith);
                  distinct = Distinct-fresh _ (l.iter s.inner) h.entries.distinct;
                });
        }
