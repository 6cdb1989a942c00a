-- ===== src/Base/Action.antt =====
-- State with failure: an action returns the state that it leaves also when it fails. The combinators
-- are shut, so that a proof reads the action off its statement.
use mathlib.Core.Path.{◌≡◌, refl, sym, ap, subst, ◌∙◌}
use fwknox.Base.Fallible.{Result, ok, err}

abbrev pub Action : Type 0 → Type 0 → Type 0 → Type 0
Action S E A = S → S × Result E A

module _ {S E A : Type 0} where
  unfoldable pub pure : A → Action S E A
  pure a s = (s, ok a)

  -- A call that reads.
  unfoldable pub gets : (S → Result E A) → Action S E A
  gets f s = (s, f s)

infixl 5 ◌>>=◌ ◌>>◌
abbrev pub mapped_err : {S E F A : Type 0} → (F → E) → S × Result F A → S × Result E A
mapped_err f (s, ok a) = (s, ok a)
mapped_err f (s, err e) = (s, err (f e))

-- A call with `map_err`.
unfoldable pub call : {S E F A : Type 0} → (F → E) → Action S F A → Action S E A
call f m s = mapped_err f (m s)

abbrev pub go_on : {S E A B : Type 0} → S × Result E A → (A → Action S E B) → S × Result E B
go_on (s, ok a) f = f a s
go_on (s, err e) f = (s, err e)

unfoldable pub ◌>>=◌ : {S E A B : Type 0} → Action S E A → (A → Action S E B) → Action S E B
(m >>= f) s = go_on (m s) f

abbrev pub ◌>>◌ : {S E B : Type 0} → Action S E (Unit {0}) → Action S E B → Action S E B
m >> k = m >>= λ u. k

-- What an action does to the state, however it ends.
pub record Keeps {S E A : Type 0} (R : S → S → Type 0) (m : Action S E A) : Type 0 where
  pub keeps : (s : S) → R s (m s).0

module _ {S E : Type 0} (R : S → S → Type 0) (reflexive : (s : S) → R s s)
    (transitive : (s t u : S) → R s t → R t u → R s u) where
  pub pure-Keeps : {A : Type 0} (a : A) → Keeps {E = E} R (pure a)
  unfolding pure
  pure-Keeps a = record { keeps = reflexive }

  pub gets-Keeps : {A : Type 0} (f : S → Result E A) → Keeps R (gets f)
  unfolding gets
  gets-Keeps f = record { keeps = reflexive }

  mapped_err-state : {F A : Type 0} (f : F → E) (x : S × Result F A) → (mapped_err f x).0 ≡ x.0
  mapped_err-state f (s, ok a) = refl
  mapped_err-state f (s, err e) = refl

  pub call-Keeps :
      {F A : Type 0} (f : F → E) (m : Action S F A) → ((s : S) → R s (m s).0) → Keeps R (call f m)
  unfolding call
  call-Keeps f m h = record { keeps = λ s. subst (R s) (sym (mapped_err-state f (m s))) (h s) }

  go_on-keeps :
      {A B : Type 0} (s : S) (x : S × Result E A) (f : A → Action S E B)
      → R s x.0
      → ((a : A) → Keeps R (f a))
      → R s (go_on x f).0
  go_on-keeps s (t, ok a) f h k = transitive s t _ h ((k a).keeps t)
  go_on-keeps s (t, err e) f h k = h

  pub >>=-Keeps :
      {A B : Type 0} {m : Action S E A} {f : A → Action S E B}
      → Keeps R m
      → ((a : A) → Keeps R (f a))
      → Keeps R (m >>= f)
  unfolding ◌>>=◌
  >>=-Keeps {m = m} {f = f} h k = record { keeps = λ s. go_on-keeps s (m s) f (h.keeps s) k }

pub mapped_err-err :
    {S E F A : Type 0} (f : F → E) (x : S × Result F A) {e : F}
    → x.1 ≡ err e
    → (mapped_err f x).1 ≡ err (f e)
mapped_err-err f (s, ok a) h = absurd (cc)
mapped_err-err f (s, err e) h = cc

-- A success of a bind is one of its parts.
go_on-eq-ok :
    {S E A B : Type 0} (x : S × Result E A) (f : A → Action S E B) {b : B}
    → (go_on x f).1 ≡ ok b
    → (a : A) × (x.1 ≡ ok a) × (go_on x f ≡ f a x.0)
go_on-eq-ok (s, ok a) f h = (a, refl, refl)
go_on-eq-ok (s, err e) f h = absurd (cc)

pub >>=-eq-ok :
    {S E A B : Type 0} (m : Action S E A) (f : A → Action S E B) (s : S) {b : B}
    → ((m >>= f) s).1 ≡ ok b
    → (a : A) × ((m s).1 ≡ ok a) × ((m >>= f) s ≡ f a (m s).0)
unfolding ◌>>=◌
>>=-eq-ok m f s h = go_on-eq-ok (m s) f h

-- The same for a proof about the outcome that goes on with what the step has returned.
pub after_step {ℓ} :
    {S E A B : Type 0} (P : S × Result E B → Type ℓ) (m : Action S E A) (f : A → Action S E B)
    (s : S) {b : B}
    → ((m >>= f) s).1 ≡ ok b
    → ((a : A) → (m s).1 ≡ ok a → (f a (m s).0).1 ≡ ok b → P (f a (m s).0))
    → P ((m >>= f) s)
after_step P m f s h k =
    let (a, done, rest) = >>=-eq-ok m f s h in
    subst P (sym rest) (k a done (sym (ap (λ x. x.1) rest) ∙ h))

call_state-eq-ok :
    {S E F A : Type 0} (f : F → E) (x : S × Result F A) {a : A}
    → (mapped_err f x).1 ≡ ok a
    → (x.1 ≡ ok a) × ((mapped_err f x).0 ≡ x.0)
call_state-eq-ok f (s, ok a) h = (cc, refl)
call_state-eq-ok f (s, err e) h = absurd (cc)

pub call-eq-ok :
    {S E F A : Type 0} (f : F → E) (m : Action S F A) (s : S) {a : A}
    → (call f m s).1 ≡ ok a
    → ((m s).1 ≡ ok a) × ((call f m s).0 ≡ (m s).0)
unfolding call
call-eq-ok f m s h = call_state-eq-ok f (m s) h
