-- ===== src/Exec/Keeps.antt =====
-- Predicates of the state that a method keeps, whether it returns or raises: one rule for each way
-- to build a method.
use ledger_sdk.Prelude.{String, Bool, true, false, Option, none, some, if◌then◌else◌}
use ledger_sdk.Exec.{
  Exn, ExnKind, Result, ok, raised, Exec, pure, raise, lift, gets, try_except, handle_with,
  continue, ◌>>=◌,
}

-- Started where the predicate holds, the method ends where it holds.
pub record Keeps {ℓ} {S X : Type ℓ} (I : S → Type ℓ) (m : Exec S X) : Type ℓ where
  pub kept : (before : S) → I before → I (m before).1

module _ {ℓ} {S X Y : Type ℓ} {I : S → Type ℓ} where
  after_bind :
      (next : X → Exec S Y) (r : Result X) (s : S)
      → ((x : X) → Keeps I (next x))
      → I s
      → I (continue next (r, s)).1
  after_bind next (ok x) s keeps i = (keeps x).kept s i
  after_bind next (raised e) s keeps i = i

  pub Keeps-bind :
      (first : Exec S X) (next : X → Exec S Y)
      → Keeps I first
      → ((x : X) → Keeps I (next x))
      → Keeps I (first >>= next)
  unfolding ◌>>=◌
  Keeps-bind first next one rest = record {
    kept = λ s i. after_bind next (first s).0 (first s).1 rest (one.kept s i);
  }

  -- A first part that keeps the predicate from this state on.
  pub bind_kept :
      (first : Exec S X) (next : X → Exec S Y) (s : S)
      → I (first s).1
      → ((x : X) → Keeps I (next x))
      → I ((first >>= next) s).1
  unfolding ◌>>=◌
  bind_kept first next s i rest = after_bind next (first s).0 (first s).1 rest i

  -- A part that reads the state and goes on from it.
  pub Keeps-read :
      (read : S → X) (next : X → Exec S Y)
      → ((s : S) → I s → I (next (read s) s).1)
      → Keeps I (gets read >>= next)
  unfolding ◌>>=◌
  Keeps-read read next rest = record { kept = rest }

  pub Keeps-option :
      (o : Option X) (absent : Exec S Y) (present : X → Exec S Y)
      → Keeps I absent
      → ((x : X) → Keeps I (present x))
      → Keeps I (elim o [ none ↦ absent | some x ↦ present x ])
  Keeps-option (some x) absent present k l = l x
  Keeps-option none absent present k l = k

module _ {ℓ} {S X : Type ℓ} {I : S → Type ℓ} where
  after_try :
      (handler : Exn → Exec S X) (r : Result X) (s : S)
      → ((e : Exn) → Keeps I (handler e))
      → I s
      → I (handle_with handler (r, s)).1
  after_try handler (ok x) s keeps i = i
  after_try handler (raised e) s keeps i = (keeps e).kept s i

  pub Keeps-try :
      (body : Exec S X) (handler : Exn → Exec S X)
      → Keeps I body
      → ((e : Exn) → Keeps I (handler e))
      → Keeps I (try_except body handler)
  unfolding try_except
  Keeps-try body handler one rest = record {
    kept = λ s i. after_try handler (body s).0 (body s).1 rest (one.kept s i);
  }

  pub Keeps-if :
      (test : Bool) (then_part else_part : Exec S X)
      → Keeps I then_part
      → Keeps I else_part
      → Keeps I (if test then then_part else else_part)
  Keeps-if false then_part else_part k l = l
  Keeps-if true then_part else_part k l = k

  -- A method that only reads the state, or not even that.
  pub Keeps-gets : (read : S → X) → Keeps I (gets read)
  Keeps-gets read = record { kept = λ _ i. i }

  pub Keeps-raise : (kind : ExnKind) (message : String) → Keeps {X = X} I (raise kind message)
  Keeps-raise kind message = record { kept = λ _ i. i }

  pub Keeps-lift : (r : Result X) → Keeps I (lift r)
  Keeps-lift r = record { kept = λ _ i. i }

  pub Keeps-pure : (x : X) → Keeps I (pure x)
  Keeps-pure x = record { kept = λ _ i. i }

pub ruleset keeps_rules =
    (Keeps-bind, Keeps-option, Keeps-try, Keeps-if, Keeps-pure, Keeps-lift, Keeps-raise, Keeps-gets)
