-- ===== src/Prelude/Lists.antt =====
-- Lists measured by native numbers, with Boolean search, and predicates by recursion.
use Prim.Native.Nat.{ℕ, zero, suc}
use Prim.Native.String.{String}
use mathlib.Core.Path.{subst, ◌≡◌, refl}
use mathlib.Core.Logic.{◌⊎◌, inl, inr}
use mathlib.Core.Bool.{Bool, true, false, ◌&&◌, ◌||◌}
use mathlib.Core.Option.{Option, none, some}
use mathlib.Core.List.{List, [], ◌∷◌}
use native.Mathlib.Omega.{arith}
use ledger_sdk.Prelude.Tests.{◌==◌, if◌then◌else◌}

module _ {ℓ} {A : Type ℓ} where
  abbrev pub length : List A → ℕ
  length [] = 0
  length (x ∷ xs) = suc (length xs)

  -- The first element that passes the test: `WHERE ... LIMIT 1` over rows in their order.
  abbrev pub find_by : (A → Bool) → List A → Option A
  find_by p [] = none
  find_by p (x ∷ xs) = if p x then some x else find_by p xs

  -- `any(p(x) for x in xs)`
  abbrev pub any : (A → Bool) → List A → Bool
  any p [] = false
  any p (x ∷ xs) = p x || any p xs

  -- `all(p(x) for x in xs)`
  abbrev pub all : (A → Bool) → List A → Bool
  all p [] = true
  all p (x ∷ xs) = p x && all p xs

  abbrev pub keep : (A → Bool) → List A → List A
  keep p [] = []
  keep p (x ∷ xs) = let rest = keep p xs in if p x then x ∷ rest else rest

  -- `UPDATE ... SET f WHERE p`
  abbrev pub update_where : (A → Bool) → (A → A) → List A → List A
  update_where p f [] = []
  update_where p f (x ∷ xs) = (if p x then f x else x) ∷ update_where p f xs

  abbrev pub count_where : (A → Bool) → List A → ℕ
  count_where p [] = 0
  count_where p (x ∷ xs) = let rest = count_where p xs in if p x then suc rest else rest

  abbrev pub take : ℕ → List A → List A
  take zero xs = []
  take (suc n) [] = []
  take (suc n) (x ∷ xs) = x ∷ take n xs

  abbrev pub is_nil : List A → Bool
  is_nil [] = true
  is_nil (x ∷ xs) = false

module _ {ℓ} {A : Type ℓ} where
  -- `sorted(xs, key=...)` by insertion, which is stable: `before x y` says that `x` may stand in
  -- front of `y`.
  abbrev pub insert_by : (A → A → Bool) → A → List A → List A
  insert_by before x [] = x ∷ []
  insert_by before x (y ∷ ys) =
      let rest = insert_by before x ys in if before x y then x ∷ y ∷ ys else y ∷ rest

  unfoldable pub sort_by : (A → A → Bool) → List A → List A
  sort_by before [] = []
  sort_by before (x ∷ xs) = insert_by before x (sort_by before xs)

-- `x in xs` for texts.
abbrev pub mem_str : String → List String → Bool
mem_str x xs = any (λ y. y == x) xs

-- Every element has the property.
abbrev pub All {ℓ κ} : {A : Type ℓ} → (A → Type κ) → List A → Type κ
All P [] = Unit
All P (x ∷ xs) = P x × All P xs

-- Some element has the property; the element is kept.
pub data Any {ℓ κ} {A : Type ℓ} (P : A → Type κ) : List A → Type (ℓ ⊔ κ) where
  here : {x : A} {xs : List A} → P x → Any P (x ∷ xs)
  there : {x : A} {xs : List A} → Any P xs → Any P (x ∷ xs)

-- The two lists have the same length, and the relation holds at each position.
abbrev pub Each {ℓ} : {A : Type ℓ} → (A → A → Type 0) → List A → List A → Type 0
Each R [] [] = Unit
Each R (x ∷ xs) (y ∷ ys) = R x y × Each R xs ys
Each R _ _ = ⊥

module _ {ℓ} {A : Type ℓ} where
  pub Each-update_where :
      (R : A → A → Type 0) (p : A → Bool) (f : A → A)
      → ((x : A) → p x ≡ true → R x (f x))
      → ((x : A) → p x ≡ false → R x x)
      → (xs : List A) → Each R xs (update_where p f xs)
  Each-update_where R p f h k [] = tt
  Each-update_where R p f h k (x ∷ xs) = (step (p x) refl, Each-update_where R p f h k xs)
    where
      step : (b : Bool) → p x ≡ b → R x (if b then f x else x)
      step true e = h x e
      step false e = k x e

  pub length-update_where :
      (p : A → Bool) (f : A → A) (xs : List A) → length (update_where p f xs) ≡ length xs
  length-update_where p f [] = refl
  length-update_where p f (x ∷ xs) = omega (arith, length-update_where p f xs)

  pub All-update_where {κ} :
      (P : A → Type κ) (p : A → Bool) (f : A → A)
      → ((x : A) → P x → p x ≡ true → P (f x))
      → (xs : List A) → All P xs
      → All P (update_where p f xs)
  All-update_where P p f h [] a = tt
  All-update_where P p f h (x ∷ xs) a = (step (p x) refl, All-update_where P p f h xs a.1)
    where
      step : (b : Bool) → p x ≡ b → P (if b then f x else x)
      step true e = h x a.0 e
      step false e = a.0

  All-insert_by {κ} :
      (P : A → Type κ) (before : A → A → Bool) (x : A) (xs : List A)
      → All P (insert_by before x xs)
      → P x × All P xs
  All-insert_by P before x [] a = a
  All-insert_by P before x (y ∷ ys) a = step (before x y) (All-insert_by P before x ys) a
    where
      step :
          (b : Bool)
          → (All P (insert_by before x ys) → P x × All P ys)
          → All P (if b then x ∷ y ∷ ys else y ∷ insert_by before x ys)
          → P x × (P y × All P ys)
      step true rec a = a
      step false rec (p, q) = let (px, pys) = rec q in (px, (p, pys))

  -- What every element of the sorted list has, every element of the list has.
  pub All-sort_by {κ} :
      (P : A → Type κ) (before : A → A → Bool) (xs : List A) → All P (sort_by before xs) → All P xs
  unfolding sort_by
  All-sort_by P before [] a = a
  All-sort_by P before (x ∷ xs) a =
      let (p, rest) = All-insert_by P before x (sort_by before xs) a in
      (p, All-sort_by P before xs rest)

  insert_by-Any {κ} :
      (P : A → Type κ) (before : A → A → Bool) (x : A) (xs : List A)
      → Any P (insert_by before x xs)
      → P x ⊎ Any P xs
  insert_by-Any P before x [] (here p) = inl p
  insert_by-Any P before x [] (there q) = elim q [ ]
  insert_by-Any P before x (y ∷ ys) a = step (before x y) (insert_by-Any P before x ys) a
    where
      other : P x ⊎ Any P ys → P x ⊎ Any P (y ∷ ys)
      other (inl p) = inl p
      other (inr q) = inr (there q)

      step :
          (b : Bool)
          → (Any P (insert_by before x ys) → P x ⊎ Any P ys)
          → Any P (if b then x ∷ y ∷ ys else y ∷ insert_by before x ys)
          → P x ⊎ Any P (y ∷ ys)
      step true rec (here p) = inl p
      step true rec (there q) = inr q
      step false rec (here p) = inr (here p)
      step false rec (there q) = other (rec q)

  -- What some element of the sorted list has, some element of the list has.
  pub Any-sort_by {κ} :
      (P : A → Type κ) (before : A → A → Bool) (xs : List A) → Any P (sort_by before xs) → Any P xs
  unfolding sort_by
  Any-sort_by P before [] a = elim a [ ]
  Any-sort_by P before (x ∷ xs) a =
      step (insert_by-Any P before x (sort_by before xs) a) (Any-sort_by P before xs)
    where
      step :
          P x ⊎ Any P (sort_by before xs) → (Any P (sort_by before xs) → Any P xs) → Any P (x ∷ xs)
      step (inl p) rec = here p
      step (inr q) rec = there (rec q)

module _ {ℓ κ} {A : Type ℓ} (P : A → Type κ) where
  -- A row that a query finds has what every row has.
  pub All-find_by : (p : A → Bool) (xs : List A) (a : A) → All P xs → find_by p xs ≡ some a → P a
  All-find_by p [] a h e = absurd (ground (arith, e))
  All-find_by p (x ∷ xs) a (px, h) e = step (p x) (All-find_by p xs a h) e
    where
      step :
          (b : Bool)
          → (find_by p xs ≡ some a → P a)
          → (if b then some x else find_by p xs) ≡ some a
          → P a
      step true rec e = subst P (ground (arith, e)) px
      step false rec e = rec e

pub find_by-test {ℓ} :
    {A : Type ℓ} (p : A → Bool) (xs : List A) (a : A) → find_by p xs ≡ some a → p a ≡ true
find_by-test p [] a e = absurd (ground (arith, e))
find_by-test p (x ∷ xs) a e = step (p x) refl (find_by-test p xs a) e
  where
    step :
        (b : Bool)
        → p x ≡ b
        → (find_by p xs ≡ some a → p a ≡ true)
        → (if b then some x else find_by p xs) ≡ some a
        → p a ≡ true
    step true q rec e = subst (λ y. p y ≡ true) (ground (arith, e)) q
    step false q rec e = rec e
