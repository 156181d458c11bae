-- ===== src/Exec/Ends.antt =====
-- Methods that, wherever the state has a property, return a value that has another and leave a state
-- that keeps its own, or raise one of certain exceptions.
use ledger_sdk.Prelude.{Bool, true, false, if◌then◌else◌}
use ledger_sdk.Exec.{Exn, Result, ok, raised, Exec, pure, gets, continue, ◌>>=◌}

abbrev pub Finishes :
    {S A : Type 0} → (Exn → Type 0) → (S → Type 0) → (A → Type 0) → Result A × S → Type 0
Finishes E I Q (ok a, s) = Q a × I s
Finishes E I Q (raised e, s) = E e

pub record Ends {S A : Type 0} (E : Exn → Type 0) (I : S → Type 0) (Q : A → Type 0) (m : Exec S A)
    : Type 0 where
  pub ends : (s : S) → I s → Finishes E I Q (m s)

module _ {S A B : Type 0} {E : Exn → Type 0} {I : S → Type 0} {P : A → Type 0}
    {Q : B → Type 0} where
  finished :
      (f : A → Exec S B) (o : Result A × S)
      → Finishes E I P o
      → ((a : A) → P a → Ends E I Q (f a))
      → Finishes E I Q (continue f o)
  finished f (ok a, s) (p, i) rest = (rest a p).ends s i
  finished f (raised e, s) h rest = h

  pub Ends-bind :
      (m : Exec S A) (f : A → Exec S B)
      → Ends E I P m
      → ((a : A) → P a → Ends E I Q (f a))
      → Ends E I Q (m >>= f)
  unfolding ◌>>=◌
  Ends-bind m f first rest = record { ends = λ s i. finished f (m s) (first.ends s i) rest }

module _ {S A : Type 0} {E : Exn → Type 0} {I : S → Type 0} {Q : A → Type 0} where
  pub Ends-pure : (a : A) → Q a → Ends E I Q (pure a)
  Ends-pure a q = record { ends = λ s i. (q, i) }

  pub Ends-gets : (read : S → A) → ((s : S) → I s → Q (read s)) → Ends E I Q (gets read)
  Ends-gets read h = record { ends = λ s i. (h s i, i) }

  pub Ends-if :
      (b : Bool) (m n : Exec S A) → Ends E I Q m → Ends E I Q n → Ends E I Q (if b then m else n)
  Ends-if true m n h k = h
  Ends-if false m n h k = k

  pub Ends-weaken :
      {R : A → Type 0} (m : Exec S A) → ((a : A) → Q a → R a) → Ends E I Q m → Ends E I R m
  Ends-weaken {R = R} m h e = record { ends = λ s i. weakened (m s) h (e.ends s i) }
    where
      weakened : (o : Result A × S) → ((a : A) → Q a → R a) → Finishes E I Q o → Finishes E I R o
      weakened (ok a, s) h (q, i) = (h a q, i)
      weakened (raised e, s) h f = f
