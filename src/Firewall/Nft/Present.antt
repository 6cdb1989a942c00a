-- ===== src/Firewall/Nft/Present.antt =====
-- The search of a listing for the elements of a handle.
use fwknox.Base.{
  ℕ, ◌≡◌, refl, ap, ◌∙◌, Bool, false, ◌||◌, some, List, [], ◌∷◌, map, arith, any, nat_eq, list_eq,
}
use fwknox.Base.Text.{join}
use fwknox.Firewall.Backend.{handle, as_str}
use fwknox.Firewall.Nft.Objects.{Expression, elem, Set, listed, set, Nftables}
use fwknox.Firewall.Nft.Backend.{
  set_name, Key, key_expr, key_beq, key_text, listed_key, is_target, set_has_target,
  object_has_target, handle_has_present_elements,
}
use fwknox.Firewall.Nft.Handle.{AreKeys, split_on-entries, targets-key_text}

-- A listing whose one set, the daemon's, holds these elements.
abbrev pub listing : Set → List Expression → Nftables
listing s es = listed (set (record s { name = set_name; elem = some es })) ∷ []

-- An element as `open_access` adds it, with its timeout.
abbrev pub timed : ℕ → Key → Expression
timed secs k = elem (key_expr k) (some secs)

or_false : (b : Bool) → (b || false) ≡ b
or_false b = ground arith

any-bare :
    (ks ms : List Key)
    → any (is_target ks) (map key_expr ms) ≡ any (λ m. any (λ t. key_beq t m) ks) ms
unfolding is_target listed_key
any-bare ks [] = refl
any-bare ks (m ∷ ms) = ap (◌||◌ (any (λ t. key_beq t m) ks)) (any-bare ks ms)

any-timed : (secs : ℕ) (ks ms : List Key) → any (is_target ks) (map (timed secs) ms) ≡ false
unfolding is_target listed_key
any-timed secs ks [] = refl
any-timed secs ks (m ∷ ms) = any-timed secs ks ms

in_listing :
    (k : Key) (ks : List Key) (s : Set) (es : List Expression)
    → AreKeys (k ∷ ks)
    → handle_has_present_elements (handle (join 0x2c (map key_text (k ∷ ks)))) (listing s es)
      ≡ any (is_target (k ∷ ks)) es
unfolding handle_has_present_elements as_str object_has_target set_has_target
in_listing k ks s es are =
    rw (split_on-entries k ks are, targets-key_text (k ∷ ks) are)
      (or_false (any (is_target (k ∷ ks)) es))

-- In a listing of the daemon's set, the search for the elements of a handle that `open_access` has
-- made finds exactly those that stand there without a timeout; of those that stand there with one,
-- as `open_access` adds them, it finds none, whichever they are.
pub handle_has_present_elements-listing :
    (k : Key) (ks ms : List Key) (s : Set) (secs : ℕ)
    → AreKeys (k ∷ ks)
    → let h = handle (join 0x2c (map key_text (k ∷ ks))) in
      (handle_has_present_elements h (listing s (map key_expr ms))
        ≡ any (λ m. any (λ t. key_beq t m) (k ∷ ks)) ms)
      × (handle_has_present_elements h (listing s (map (timed secs) ms)) ≡ false)
handle_has_present_elements-listing k ks ms s secs are = (
  in_listing k ks s (map key_expr ms) are ∙ any-bare (k ∷ ks) ms,
  in_listing k ks s (map (timed secs) ms) are ∙ any-timed secs (k ∷ ks) ms,
)
