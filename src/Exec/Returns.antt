-- ===== src/Exec/Returns.antt =====
-- Predicates of what a method returns, from whichever state it starts: one rule for each way to
-- build a method.
use ledger_sdk.Prelude.{Bool, true, false, Option, none, some, if◌then◌else◌, ◌≡◌, refl}
use mathlib.Core.Path.{subst}
use ledger_sdk.Exec.{
  lift, Exn, ExnKind, Result, ok, raised, Exec, pure, raise, try_except, handle_with, continue,
  ◌>>=◌,
}

-- The value that is returned has the property; an exception has none to have.
abbrev pub Holds {ℓ} : {A : Type ℓ} → (A → Type ℓ) → Result A → Type ℓ
Holds Q (ok a) = Q a
Holds Q (raised e) = Unit

pub record Returns {ℓ} {S A : Type ℓ} (Q : A → Type ℓ) (m : Exec S A) : Type ℓ where
  pub from : (s : S) → Holds Q (m s).0

module _ {ℓ} {S A : Type ℓ} {Q : A → Type ℓ} where
  pub Returns-pure : (a : A) → Q a → Returns {S = S} Q (pure a)
  Returns-pure a q = record { from = λ s. q }

  pub Returns-raise : (k : ExnKind) (m : _) → Returns {S = S} Q (raise k m)
  Returns-raise k m = record { from = λ s. tt }

  pub Returns-if :
      (b : Bool) (m n : Exec S A)
      → (b ≡ true → Returns Q m)
      → (b ≡ false → Returns Q n)
      → Returns Q (if b then m else n)
  Returns-if true m n km kn = km refl
  Returns-if false m n km kn = kn refl

  handled :
      (h : Exn → Exec S A) (r : Result A) (s : S)
      → ((e : Exn) → Returns Q (h e))
      → Holds Q r
      → Holds Q (handle_with h (r, s)).0
  handled h (ok a) s kh q = q
  handled h (raised e) s kh q = (kh e).from s

  pub Returns-try :
      (m : Exec S A) (h : Exn → Exec S A)
      → Returns Q m
      → ((e : Exn) → Returns Q (h e))
      → Returns Q (try_except m h)
  unfolding try_except
  Returns-try m h km kh = record { from = λ s. let (r, s') = m s in handled h r s' kh (km.from s) }

module _ {ℓ} {S A B : Type ℓ} {Q : B → Type ℓ} where
  bound :
      (f : A → Exec S B) (r r' : Result A) (s : S)
      → r ≡ r'
      → ((a : A) → r ≡ ok a → Returns Q (f a))
      → Holds Q (continue f (r', s)).0
  bound f r (ok a) s e kf = (kf a e).from s
  bound f r (raised x) s e kf = tt

  -- The second method knows that the first gave its argument, in some state.
  pub Returns-bind :
      (m : Exec S A) (f : A → Exec S B)
      → ((s : S) (a : A) → (m s).0 ≡ ok a → Returns Q (f a))
      → Returns Q (m >>= f)
  unfolding ◌>>=◌
  Returns-bind m f kf = record { from = λ s. bound f (m s).0 (m s).0 (m s).1 refl (kf s) }

  pub Returns-option :
      (o : Option A) (m : Exec S B) (f : A → Exec S B)
      → (o ≡ none → Returns Q m)
      → ((a : A) → o ≡ some a → Returns Q (f a))
      → Returns Q (elim o [ none ↦ m | some a ↦ f a ])
  Returns-option none m f km kf = km refl
  Returns-option (some a) m f km kf = kf a refl

module _ {ℓ} {S A : Type ℓ} {Q : A → Type ℓ} {m : Exec S A} where
  pub returned : (s : S) (a : A) → Returns Q m → (m s).0 ≡ ok a → Q a
  returned s a h e = subst (Holds Q) e (h.from s)

module _ {ℓ} {S A : Type ℓ} {Q : A → Type ℓ} where
  pub Returns-lift : (r : Result A) → Holds Q r → Returns {S = S} Q (lift r)
  Returns-lift r q = record { from = λ s. q }

pub Holds-if {ℓ} :
    {A : Type ℓ} (Q : A → Type ℓ) (b : Bool) (x y : Result A)
    → Holds Q x
    → Holds Q y
    → Holds Q (if b then x else y)
Holds-if Q true x y p q = p
Holds-if Q false x y p q = q
