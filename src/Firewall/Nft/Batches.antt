-- ===== src/Firewall/Nft/Batches.antt =====
-- What the batches of the backend do to a ruleset.
use fwknox.Base.{
  ◌≡◌, refl, ap, ◌∙◌, true, false, not, ◌&&◌, ◌||◌, some, List, [], ◌∷◌, ◌++◌, map, any, ℕ, zero,
  suc, replicate, arith, nat_eq, list_eq,
}
use fwknox.Base.Text.{codes}
use fwknox.Proto.Types.{Bytes, PortProto}
use fwknox.Firewall.Nft.Objects.{inet, table, delete}
use fwknox.Firewall.Nft.Backend.{table_name, Key, port_key, add_key, delete_key, init_batch}
use fwknox.Firewall.Nft.Ruleset.{
  Ruleset, is_at, among, key_in, one_key, cons_key, keys_of, run, runs, reads_key, selects,
  accepted, own_chain, own_set, accepts, gate, IsOwn, IsReady, wanted,
}

pub wanted-map :
    (octets : Bytes) (pps : List PortProto) → wanted octets pps ≡ map (port_key octets) pps
unfolding wanted port_key
wanted-map octets [] = refl
wanted-map octets (pp ∷ pps) = ap (λ ks. port_key octets pp ∷ ks) (wanted-map octets pps)

-- The gate accepts what the set holds.
accepted-gate : (v : Ruleset) (k : Key) → accepted v own_chain k gate ≡ v.holds own_set k
unfolding accepted selects reads_key
accepted-gate v k = ground arith

any-gates :
    (v : Ruleset) (k : Key) (n : ℕ)
    → any (accepted v own_chain k) (replicate (suc n) gate) ≡ v.holds own_set k
any-gates v k zero = ground (arith, accepted-gate v k)
any-gates v k (suc n) = ground (arith, accepted-gate v k, any-gates v k n)

pub accepts-IsReady : (v : Ruleset) (k : Key) → IsReady v → accepts v k ≡ v.holds own_set k
unfolding accepts
accepts-IsReady v k r = rw (r.hooked, r.gates) (any-gates v k r.more)

replicate-snoc : (n : ℕ) → replicate n gate ++ (gate ∷ []) ≡ replicate (suc n) gate
replicate-snoc zero = refl
replicate-snoc (suc n) = ap (λ rs. gate ∷ rs) (replicate-snoc n)

pub record IsInit (v v' : Ruleset) : Type 0 where
  pub ready : IsOwn v → IsReady v'
  pub held : (k : Key) → v'.holds own_set k ≡ v.holds own_set k

pub runs-init_batch :
    (v : Ruleset) → (v' : Ruleset) × (runs init_batch (some v) ≡ some v') × IsInit v v'
unfolding runs run
runs-init_batch v = (
  _,
  refl,
  record {
    ready = λ own. record {
      timed = refl;
      hooked = refl;
      more = own.count;
      gates = ap (λ rs. rs ++ (gate ∷ [])) own.gates ∙ replicate-snoc own.count;
    };
    held = λ k. refl;
  },
)

-- Where the set alone has changed.
pub record IsKept (v v' : Ruleset) : Type 0 where
  pub timed : v'.timed_set own_set ≡ v.timed_set own_set
  pub hooked : v'.input own_chain ≡ v.input own_chain
  pub gates : v'.rules own_chain ≡ v.rules own_chain

pub IsKept-IsReady : {v v' : Ruleset} → IsKept v v' → IsReady v → IsReady v'
IsKept-IsReady kept ready = record {
  timed = kept.timed ∙ ready.timed;
  hooked = kept.hooked ∙ ready.hooked;
  more = ready.more;
  gates = kept.gates ∙ ready.gates;
}

abbrev added : Key → Ruleset → Ruleset
added x v = record v {
  holds = λ p k.
      (is_at inet (codes "fwknox") (codes "fwknox_allow_v4") p && among k (x ∷ [])) || v.holds p k;
}

abbrev gone : Key → Ruleset → Ruleset
gone x v = record v {
  holds = λ p k.
      not (is_at inet (codes "fwknox") (codes "fwknox_allow_v4") p && among k (x ∷ []))
      && v.holds p k;
}

run-add_key :
    (secs : ℕ) (x : Key) (v : Ruleset)
    → v.timed_set own_set ≡ true
    → run (add_key secs x) v ≡ some (added x v)
unfolding run add_key keys_of one_key cons_key key_in
run-add_key secs x v timed = rw timed refl

run-delete_key : (x : Key) (v : Ruleset) → run (delete_key x) v ≡ some (gone x v)
unfolding run delete_key keys_of one_key cons_key key_in
run-delete_key x v = refl

same : (v : Ruleset) → IsKept v v
same v = record { timed = refl; hooked = refl; gates = refl }

pub runs-adds :
    (secs : ℕ) (ks : List Key) (v : Ruleset)
    → v.timed_set own_set ≡ true
    → (v' : Ruleset) × (runs (map (add_key secs) ks) (some v) ≡ some v')
      × IsKept v v'
      × ((k : Key) → v'.holds own_set k ≡ (among k ks || v.holds own_set k))
unfolding runs
runs-adds secs [] v timed = (v, refl, same v, λ k. refl)
runs-adds secs (x ∷ ks) v timed =
    let (v', ran, kept, held) = runs-adds secs ks (added x v) timed in
    (
      v',
      ap (runs (map (add_key secs) ks)) (run-add_key secs x v timed) ∙ ran,
      record { timed = kept.timed; hooked = kept.hooked; gates = kept.gates },
      λ k. ground (arith, held k),
    )

pub runs-deletes :
    (ks : List Key) (v : Ruleset)
    → (v' : Ruleset) × (runs (map delete_key ks) (some v) ≡ some v')
      × IsKept v v'
      × ((k : Key) → v'.holds own_set k ≡ (not (among k ks) && v.holds own_set k))
unfolding runs
runs-deletes [] v = (v, refl, same v, λ k. refl)
runs-deletes (x ∷ ks) v =
    let (v', ran, kept, held) = runs-deletes ks (gone x v) in
    (
      v',
      ap (runs (map delete_key ks)) (run-delete_key x v) ∙ ran,
      record { timed = kept.timed; hooked = kept.hooked; gates = kept.gates },
      λ k. ground (arith, held k),
    )

pub runs-drop :
    (v : Ruleset)
    → (v' : Ruleset) × (runs (delete (table inet table_name) ∷ []) (some v) ≡ some v')
      × ((k : Key) → accepts v' k ≡ false)
unfolding runs run accepts
runs-drop v = (_, refl, λ k. refl)
