-- ===== src/Exec/Post.antt =====
-- What holds of the outcome of a method, its result and its state together, from one state.
use ledger_sdk.Prelude.{Bool, true, false, ◌≡◌, refl, if◌then◌else◌}
use ledger_sdk.Exec.{Exn, Result, ok, raised, Exec, continue, handle_with, try_except, ◌>>=◌}

module _ {ℓ} {S A B : Type ℓ} (Q : Result B × S → Type ℓ) where
  after :
      (f : A → Exec S B) (o p : Result A × S)
      → o ≡ p
      → ((a : A) (s : S) → o ≡ (ok a, s) → Q (f a s))
      → ((e : Exn) (s : S) → o ≡ (raised e, s) → Q (raised e, s))
      → Q (continue f p)
  after f o (ok a, s) q k l = k a s q
  after f o (raised e, s) q k l = l e s q

  -- Either the first method returns and the second goes on, or it raises.
  pub post_bind :
      (m : Exec S A) (f : A → Exec S B) (s : S)
      → ((a : A) (s' : S) → m s ≡ (ok a, s') → Q (f a s'))
      → ((e : Exn) (s' : S) → m s ≡ (raised e, s') → Q (raised e, s'))
      → Q ((m >>= f) s)
  unfolding ◌>>=◌
  post_bind m f s k l = after f (m s) (m s) refl k l

module _ {ℓ} {S B : Type ℓ} (Q : Result B × S → Type ℓ) where
  pub post_if :
      (b : Bool) (m n : Exec S B) (s : S)
      → (b ≡ true → Q (m s))
      → (b ≡ false → Q (n s))
      → Q ((if b then m else n) s)
  post_if true m n s k l = k refl
  post_if false m n s k l = l refl

module _ {ℓ} {S A : Type ℓ} (Q : Result A × S → Type ℓ) where
  caught :
      (h : Exn → Exec S A) (o p : Result A × S)
      → o ≡ p
      → ((a : A) (s : S) → o ≡ (ok a, s) → Q (ok a, s))
      → ((e : Exn) (s : S) → o ≡ (raised e, s) → Q (h e s))
      → Q (handle_with h p)
  caught h o (ok a, s) q k l = k a s q
  caught h o (raised e, s) q k l = l e s q

  -- Either the method returns, or the handler goes on with its exception.
  pub post_try :
      (m : Exec S A) (h : Exn → Exec S A) (s : S)
      → ((a : A) (s' : S) → m s ≡ (ok a, s') → Q (ok a, s'))
      → ((e : Exn) (s' : S) → m s ≡ (raised e, s') → Q (h e s'))
      → Q (try_except m h s)
  unfolding try_except
  post_try m h s k l = caught h (m s) (m s) refl k l
