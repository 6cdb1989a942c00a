-- ===== src/Firewall/Mock.antt =====
-- crates/fwknox-firewall/src/mock.rs: the backend in memory. Its map from handles to rules is an
-- association list; each method is one step behind the mutex.
use fwknox.Base.{
  ℕ, suc, ◌%◌, ◌^◌, ◌≡◌, refl, ap, Bool, true, false, not, none, some, List, [], ◌∷◌, ◌++◌, nat_eq,
  list_eq, list_beq_iff, arith, is_none, Result, ok, err, if◌then◌else◌, ◌≢◌,
}
use fwknox.Base.Assoc.{lookup, erase, Distinct, lookup-erase, lookup-erase_self}
use fwknox.Base.Text.{Text, codes}
use fwknox.Base.Number.{decimal_text}
use fwknox.Firewall.Backend.{
  AccessRule, RuleHandle, handle, as_str, FirewallError, rule_not_found, inconsistent_state,
  FirewallBackend,
}

-- `MockState`; `MockBackend::default()` starts it.
pub record MockState : Type 0 where
  pub initialized : Bool
  pub next_id : ℕ
  pub rules : List (Text × AccessRule)

unfoldable pub new_mock : MockState
new_mock = record { initialized = false; next_id = 0; rules = [] }

-- `BTreeMap::insert`
abbrev pub insert_rule : Text → AccessRule → List (Text × AccessRule) → List (Text × AccessRule)
insert_rule id rule m = (id, rule) ∷ erase id m

unfoldable pub mock_id : ℕ → Text
mock_id n = codes "mock-" ++ decimal_text n

unfoldable pub mock_init : MockState → MockState × Result FirewallError (Unit {0})
mock_init s = (record s { initialized = true }, ok tt)

-- `next_id` is a `u64`.
unfoldable pub mock_open : AccessRule → MockState → MockState × Result FirewallError RuleHandle
mock_open rule s =
    if not s.initialized
    then (s, err (inconsistent_state (codes "open_access called before init")))
    else let id = mock_id s.next_id in
      (
        record s { next_id = suc s.next_id % 2 ^ 64; rules = insert_rule id rule s.rules },
        ok (handle id),
      )

unfoldable pub mock_remove : RuleHandle → MockState → MockState × Result FirewallError (Unit {0})
mock_remove h s =
    let rest : MockState = record s { rules = erase (as_str h) s.rules } in
    if is_none (lookup (as_str h) s.rules)
    then (rest, err (rule_not_found (as_str h)))
    else (rest, ok tt)

unfoldable pub mock_flush : MockState → MockState × Result FirewallError (Unit {0})
mock_flush s = (record s { rules = []; initialized = false }, ok tt)

abbrev pub mock_backend : FirewallBackend
mock_backend = record {
  State = MockState;
  init = mock_init;
  open_access = mock_open;
  remove_rule = mock_remove;
  flush = mock_flush;
}

-- An opened rule is found under its handle, every other rule is where it was, and removing the
-- handle makes it unknown.
pub record IsOpened (rule : AccessRule) (h : RuleHandle) (s s' : MockState) : Type 0 where
  pub found : lookup (as_str h) s'.rules ≡ some rule
  pub others : (k : Text) → k ≢ as_str h → lookup k s'.rules ≡ lookup k s.rules
  pub removed : (mock_remove h s').1 ≡ ok tt
  pub closed :
      let (s2, r) = mock_remove h s' in (mock_remove h s2).1 ≡ err (rule_not_found (as_str h))

opened :
    (rule : AccessRule) (s : MockState)
    → s.initialized ≡ true
    → mock_open rule s ≡ (
      record s {
        next_id = suc s.next_id % 2 ^ 64;
        rules = insert_rule (mock_id s.next_id) rule s.rules;
      },
      ok (handle (mock_id s.next_id)),
    )
unfolding mock_open
opened rule s e = rw e

removed_known :
    (id : Text) (s : MockState) (rule : AccessRule)
    → lookup id s.rules ≡ some rule
    → mock_remove (handle id) s ≡ (record s { rules = erase id s.rules }, ok tt)
unfolding mock_remove as_str
removed_known id s rule e = rw e

removed_unknown :
    (id : Text) (s : MockState)
    → lookup id s.rules ≡ none
    → (mock_remove (handle id) s).1 ≡ err (rule_not_found id)
unfolding mock_remove as_str
removed_unknown id s e = rw e

lookup-insert_rule_self :
    (id : Text) (rule : AccessRule) (m : List (Text × AccessRule))
    → lookup id (insert_rule id rule m) ≡ some rule
unfolding lookup
lookup-insert_rule_self id rule m = ground (arith, list_beq_iff id id)

lookup-insert_rule :
    (k id : Text) (rule : AccessRule) (m : List (Text × AccessRule))
    → k ≢ id
    → Distinct m
    → lookup k (insert_rule id rule m) ≡ lookup k m
unfolding lookup
lookup-insert_rule k id rule m ne d =
    ground (arith, list_beq_iff k id, list_beq_iff id k, lookup-erase id k m d)

erase-insert_rule :
    (id : Text) (rule : AccessRule) (m : List (Text × AccessRule))
    → Distinct m
    → lookup id (erase id (insert_rule id rule m)) ≡ none
unfolding erase
erase-insert_rule id rule m d = ground (arith, list_beq_iff id id, lookup-erase_self id m d)

-- After `init`, with no handle twice in the map, `open_access` succeeds: the rule is found under the
-- handle that it returns, every other handle leads where it led, and `remove_rule` takes the new
-- handle once and then reports it unknown.
pub mock_open-IsOpened :
    (rule : AccessRule) (s : MockState)
    → s.initialized ≡ true
    → Distinct s.rules
    → (h : RuleHandle) × ((mock_open rule s).1 ≡ ok h) × IsOpened rule h s (mock_open rule s).0
unfolding as_str
mock_open-IsOpened rule s ready d =
    let id = mock_id s.next_id in
    let s' : MockState = record s {
      next_id = suc s.next_id % 2 ^ 64;
      rules = insert_rule id rule s.rules;
    } in
    let known = removed_known id s' rule (lookup-insert_rule_self id rule s.rules) in
    rw (opened rule s ready) (
      handle id,
      refl,
      record {
        found = lookup-insert_rule_self id rule s.rules;
        others = λ k ne. lookup-insert_rule k id rule s.rules ne d;
        removed = ap (λ r. r.1) known;
        closed = rw known (removed_unknown id _ (erase-insert_rule id rule s.rules d));
      },
    )
