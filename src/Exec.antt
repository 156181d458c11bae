-- ===== src/Exec.antt =====
-- Methods that change a state and may raise. What was written before a raise stays written, so the
-- state comes back beside the exception too.
pub mod Keeps
pub mod Returns
pub mod Post
pub mod Ends
pub mod Leaves
use ledger_sdk.Prelude.{String, Bool, true, false, Option, none, some, if◌then◌else◌, ◌≡◌, ap}

pub data ExnKind : Type 0 where
  value_error type_error key_error index_error runtime_error permission_error : ExnKind
  connection_error timeout_error other_error : ExnKind

-- An exception: its class and `str(exc)`.
pub record Exn : Type 0 where
  pub kind : ExnKind
  pub message : String

pub data Result {ℓ} (A : Type ℓ) : Type ℓ where
  ok : A → Result A
  raised : Exn → Result A

abbrev pub exn : ExnKind → String → Exn
exn k m = record { kind = k; message = m }

abbrev pub Exec {ℓ} : Type ℓ → Type ℓ → Type ℓ
Exec S A = S → Result A × S

module _ {ℓ} {S A : Type ℓ} where
  abbrev pub pure : A → Exec S A
  pure a s = (ok a, s)

  abbrev pub raise : ExnKind → String → Exec S A
  raise k m s = (raised (exn k m), s)

  abbrev pub lift : Result A → Exec S A
  lift r s = (r, s)

  abbrev pub gets : (S → A) → Exec S A
  gets f s = (ok (f s), s)

  -- `try m except e: handler(e)`
  abbrev pub handle_with : (Exn → Exec S A) → Result A × S → Result A × S
  handle_with h (ok a, s) = (ok a, s)
  handle_with h (raised e, s) = h e s

  unfoldable pub try_except : Exec S A → (Exn → Exec S A) → Exec S A
  try_except m h s = handle_with h (m s)

module _ {ℓ} {S A B : Type ℓ} where
  abbrev pub continue : (A → Exec S B) → Result A × S → Result B × S
  continue f (ok a, s) = f a s
  continue f (raised e, s) = (raised e, s)

  infixl 5 ◌>>=◌ ◌>>◌
  unfoldable pub ◌>>=◌ : Exec S A → (A → Exec S B) → Exec S B
  ◌>>=◌ m f s = continue f (m s)

  abbrev pub ◌>>◌ : Exec S A → Exec S B → Exec S B
  m >> n = m >>= λ _. n

abbrev pub modify {ℓ} : {S : Type ℓ} → (S → S) → Exec S (Unit {ℓ})
modify f s = (ok tt, f s)

-- A method whose first part returns goes on with its value.
pub bind_ok {ℓ} :
    {S A B : Type ℓ} (m : Exec S A) (f : A → Exec S B) (s s' : S) (a : A)
    → m s ≡ (ok a, s')
    → (m >>= f) s ≡ f a s'
unfolding ◌>>=◌
bind_ok m f s s' a e = ap (continue f) e
