-- ===== src/Firewall/Nft/Reports.antt =====
-- What `remove_rule` takes for the report of a missing element.
use fwknox.Base.{
  ◌≡◌, refl, ap, sym, ◌∙◌, true, false, ◌&&◌, [], ◌∷◌, ◌++◌, arith, Result, ok, err, inl, inr, ◌≢◌,
  Bool-cases, nat_eq, list_eq, nat_beq_iff,
}
use fwknox.Base.Text.{Text, codes, contains, starts_with, to_ascii_lowercase}
use fwknox.Firewall.Backend.{
  RuleHandle, FirewallError, backend, rule_not_found, inconsistent_state, unsupported,
}
use fwknox.Firewall.Nft.Objects.{Nftables}
use fwknox.Firewall.Nft.Backend.{
  classify, is_gone, stderr_indicates_missing_element, backend_has_empty_stderr,
  handle_has_present_elements,
}

-- A text with another one in it.
abbrev pub IsWithin : Text → Text → Type 0
IsWithin needle s = (before : Text) × (after : Text) × (s ≡ before ++ (needle ++ after))

-- The texts by which a message, whatever its case, is taken to speak of a missing element.
pub data SaysMissing (msg : Text) : Type 0 where
  no_such_file :
      IsWithin (codes "no such file or directory") (to_ascii_lowercase msg) → SaysMissing msg
  not_processed :
      IsWithin (codes "could not process rule") (to_ascii_lowercase msg) → SaysMissing msg
  no_element :
      IsWithin (codes "set element does not exist") (to_ascii_lowercase msg) → SaysMissing msg

-- An error of the kernel that is taken for a missing element: it says so, or it says nothing and the
-- search of the listing that the kernel then gives finds none of the elements; or it is one already.
pub data IsReported (h : RuleHandle) (current : Result FirewallError Nftables)
    : FirewallError → Type 0 where
  said : (msg : Text) → SaysMissing msg → IsReported h current (backend msg)
  unlisted :
      (msg : Text) (rs : Nftables)
      → IsWithin (codes "stderr=\"\"") msg
      → current ≡ ok rs
      → handle_has_present_elements h rs ≡ false
      → IsReported h current (backend msg)
  already : (id : Text) → IsReported h current (rule_not_found id)

starts_with-split :
    (needle s : Text) → starts_with needle s ≡ true → (after : Text) × (s ≡ needle ++ after)
starts_with-split [] s h = (s, refl)
starts_with-split (c ∷ needle) [] h = absurd (cc)
starts_with-split (c ∷ needle) (d ∷ s) h =
    let (after, e) = starts_with-split needle s (ground arith) in
    let same : d ≡ c = ground (arith, nat_beq_iff c d) in (after, rw (same, e) refl)

contains-split : (needle s : Text) → contains needle s ≡ true → IsWithin needle s
unfolding contains
contains-split [] [] h = ([], [], refl)
contains-split (c ∷ needle) [] h = absurd (cc)
contains-split needle (d ∷ s) h = elim (Bool-cases (starts_with needle (d ∷ s))) [
  | inl here ↦ let (after, e) = starts_with-split needle (d ∷ s) here in ([], after, e)
  | inr later ↦
      let (before, after, e) = contains-split needle s (ground arith) in
      (d ∷ before, after, ap (λ t. d ∷ t) e)
]

says_missing : (msg : Text) → stderr_indicates_missing_element msg ≡ true → SaysMissing msg
unfolding stderr_indicates_missing_element
says_missing msg h =
    let lower = to_ascii_lowercase msg in
    elim (Bool-cases (contains (codes "no such file or directory") lower)) [
      | inl here ↦ no_such_file (contains-split _ lower here)
      | inr unlike ↦ elim (Bool-cases (contains (codes "could not process rule") lower)) [
        | inl here ↦ not_processed (contains-split _ lower here)
        | inr other ↦ no_element (
            contains-split (codes "set element does not exist") lower
              (rw⁻¹ h (rw (unlike, other) refl)))
      ]
    ]

empty_stderr :
    (msg : Text) → backend_has_empty_stderr msg ≡ true → IsWithin (codes "stderr=\"\"") msg
unfolding backend_has_empty_stderr
empty_stderr msg h = contains-split _ msg h

gone_listing :
    (h : RuleHandle) (current : Result FirewallError Nftables)
    → is_gone h current ≡ true
    → (rs : Nftables) × (current ≡ ok rs) × (handle_has_present_elements h rs ≡ false)
unfolding is_gone
gone_listing h (ok rs) g = (rs, refl, ground arith)
gone_listing h (err e) g = absurd (cc)

quiet_backend :
    (h : RuleHandle) (current : Result FirewallError Nftables) (msg : Text)
    → stderr_indicates_missing_element msg ≡ false
    → (backend_has_empty_stderr msg && is_gone h current) ≡ false
    → classify h current (backend msg) ≡ backend msg
unfolding classify
quiet_backend h current msg a b = rw (a, b) refl

backend-ne : {m id : Text} → ◌≢◌ {A = FirewallError} (backend m) (rule_not_found id)
backend-ne = λ e. absurd (cc)

pub classify-IsReported :
    (h : RuleHandle) (current : Result FirewallError Nftables) (e : FirewallError) {id : Text}
    → classify h current e ≡ rule_not_found id
    → IsReported h current e
unfolding classify
classify-IsReported h current (backend msg) c =
    elim (Bool-cases (stderr_indicates_missing_element msg)) [
      | inl fits ↦ said msg (says_missing msg fits)
      | inr quiet ↦ elim (Bool-cases (backend_has_empty_stderr msg && is_gone h current)) [
        | inl fits ↦
            let g = gone_listing h current (ground arith) in
            unlisted msg g.0 (empty_stderr msg (ground arith)) g.1 g.2
        | inr no_way ↦ absurd (backend-ne (sym (quiet_backend h current msg quiet no_way) ∙ c))
      ]
    ]
classify-IsReported h current (rule_not_found id) c = already id
classify-IsReported h current (inconsistent_state m) c = absurd (cc)
classify-IsReported h current (unsupported m) c = absurd (cc)
