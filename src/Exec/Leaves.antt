-- ===== src/Exec/Leaves.antt =====
-- Predicates of what a method returns together with the state that it leaves, from whichever state
-- it starts: one rule for each way to build a method.
use ledger_sdk.Prelude.{Bool, true, false, Option, none, some, if◌then◌else◌, ◌≡◌, refl}
use mathlib.Core.Path.{subst}
use ledger_sdk.Exec.{
  Exn, ExnKind, Result, ok, raised, Exec, pure, raise, try_except, handle_with, continue, ◌>>=◌,
}
use ledger_sdk.Exec.Keeps.{Keeps}

-- The value and the state have the property; an exception has none to have.
abbrev pub Left {ℓ} : {S A : Type ℓ} → (A → S → Type ℓ) → Result A × S → Type ℓ
Left Q (ok a, s) = Q a s
Left Q (raised e, s) = Unit

pub record Leaves {ℓ} {S A : Type ℓ} (Q : A → S → Type ℓ) (m : Exec S A) : Type ℓ where
  pub from : (s : S) → Left Q (m s)

module _ {ℓ} {S A : Type ℓ} {Q : A → S → Type ℓ} where
  pub Leaves-pure : (a : A) → ((s : S) → Q a s) → Leaves Q (pure a)
  Leaves-pure a q = record { from = q }

  pub Leaves-raise : (k : ExnKind) (m : _) → Leaves Q (raise k m)
  Leaves-raise k m = record { from = λ s. tt }

  pub Leaves-if :
      (b : Bool) (m n : Exec S A)
      → (b ≡ true → Leaves Q m)
      → (b ≡ false → Leaves Q n)
      → Leaves Q (if b then m else n)
  Leaves-if true m n km kn = km refl
  Leaves-if false m n km kn = kn refl

  caught :
      (h : Exn → Exec S A) (o : Result A × S)
      → ((e : Exn) → Leaves Q (h e))
      → Left Q o
      → Left Q (handle_with h o)
  caught h (ok a, s) kh q = q
  caught h (raised e, s) kh q = (kh e).from s

  pub Leaves-try :
      (m : Exec S A) (h : Exn → Exec S A)
      → Leaves Q m
      → ((e : Exn) → Leaves Q (h e))
      → Leaves Q (try_except m h)
  unfolding try_except
  Leaves-try m h km kh = record { from = λ s. caught h (m s) kh (km.from s) }

module _ {ℓ} {S A B : Type ℓ} (Q : B → S → Type ℓ) where
  bound :
      (f : A → Exec S B) (o p : Result A × S)
      → o ≡ p
      → ((a : A) (s : S) → o ≡ (ok a, s) → Left Q (f a s))
      → Left Q (continue f p)
  bound f o (ok a, s) e k = k a s e
  bound f o (raised x, s) e k = tt

  -- From a state with a property that the first method keeps.
  pub Left-bind :
      {I : S → Type ℓ} (m : Exec S A) (f : A → Exec S B) (s : S)
      → Keeps I m
      → I s
      → ((a : A) (s' : S) → I s' → Left Q (f a s'))
      → Left Q ((m >>= f) s)
  unfolding ◌>>=◌
  Left-bind {I = I} m f s km i k =
      bound f (m s) (m s) refl
        λ a s' e. k a s' (subst (λ (o : Result A × S). I o.1) e (km.kept s i))

module _ {ℓ} {S A B : Type ℓ} {Q : B → S → Type ℓ} where
  -- The second method knows from which state the first gave its argument, and the state it left.
  pub Leaves-run :
      (m : Exec S A) (f : A → Exec S B)
      → ((s : S) (a : A) (s' : S) → m s ≡ (ok a, s') → Left Q (f a s'))
      → Leaves Q (m >>= f)
  unfolding ◌>>=◌
  Leaves-run m f k = record { from = λ s. bound Q f (m s) (m s) refl (k s) }

  pub Leaves-bind :
      (m : Exec S A) (f : A → Exec S B) → ((a : A) → Leaves Q (f a)) → Leaves Q (m >>= f)
  Leaves-bind m f k = Leaves-run m f λ s a s' e. (k a).from s'

  -- The second method starts from what the first leaves.
  pub Leaves-then :
      {P : A → S → Type ℓ} (m : Exec S A) (f : A → Exec S B)
      → Leaves P m
      → ((a : A) (s : S) → P a s → Left Q (f a s))
      → Leaves Q (m >>= f)
  Leaves-then {P = P} m f km k = Leaves-run m f λ s a s' e. k a s' (subst (Left P) e (km.from s))

  pub Leaves-option :
      (o : Option A) (m : Exec S B) (f : A → Exec S B)
      → (o ≡ none → Leaves Q m)
      → ((a : A) → o ≡ some a → Leaves Q (f a))
      → Leaves Q (elim o [ none ↦ m | some a ↦ f a ])
  Leaves-option none m f km kf = km refl
  Leaves-option (some a) m f km kf = kf a refl
