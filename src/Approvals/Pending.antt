-- ===== src/Approvals/Pending.antt =====
-- apps/runtime/citadel/repository.py, get_pending_approvals, which the approval service shows as
-- its queue: the order of the rows, and which rows they are.
use ledger_sdk.Prelude.{
  ℕ, ◌<◌, ◌≤◌, sym, ap, ◌∙◌, eq_iff, Bool-cases, String, Bool, true, false, ◌&&◌, ◌==◌, Option,
  List, [], ◌∷◌, All, Any, here, there, insert_by, sort_by, keep, take, All-sort_by, ◌≡◌, ◌⊎◌, refl,
  arith, inl, inr, if◌then◌else◌,
}
use ledger_sdk.Exec.{ok}
use ledger_sdk.Db.{World, ApprovalRow}
use ledger_sdk.Repository.{queue_before, priority_rank, joined_approval, get_pending_approvals}
use ledger_sdk.Approvals.{get_pending_queue}

-- Whether a row stands in the queue of a tenant.
abbrev pub waits : Option String → World → ApprovalRow → Bool
waits tid w ap = ap.status == "pending" && joined_approval tid w.db.actions ap

-- A priority that has no name of its own in the queue comes last.
abbrev pub IsOther : String → Type 0
IsOther p = (¬ (p ≡ "critical")) × (¬ (p ≡ "high")) × (¬ (p ≡ "medium"))

-- Critical comes ahead of all else, then high, then medium, then any other priority.
abbrev pub IsAhead : String → String → Type 0
IsAhead p q =
    ((p ≡ "critical") × ¬ (q ≡ "critical"))
    ⊎ ((p ≡ "high") × (¬ (q ≡ "critical")) × ¬ (q ≡ "high"))
    ⊎ ((p ≡ "medium") × IsOther q)

abbrev pub IsLevel : String → String → Type 0
IsLevel p q = (p ≡ q) ⊎ (IsOther p × IsOther q)

-- The row is of a priority that comes ahead, or of the same and not younger.
abbrev pub Precedes : ApprovalRow → ApprovalRow → Type 0
Precedes x y =
    IsAhead x.priority y.priority ⊎ (IsLevel x.priority y.priority × (x.created_at ≤ y.created_at))

-- Each row comes before all that follow.
abbrev pub InOrder : List ApprovalRow → Type 0
InOrder [] = Unit
InOrder (x ∷ xs) = All (Precedes x) xs × InOrder xs

-- The same by the ranks of the CASE expression.
abbrev ByRank : List ApprovalRow → Type 0
ByRank [] = Unit
ByRank (x ∷ xs) = All (λ y. queue_before x y ≡ true) xs × ByRank xs

-- A priority with its rank.
abbrev Ranked : String → Type 0
Ranked p =
    ((p ≡ "critical") × (priority_rank p ≡ 1))
    ⊎ ((p ≡ "high") × (priority_rank p ≡ 2))
    ⊎ ((p ≡ "medium") × (priority_rank p ≡ 3))
    ⊎ (IsOther p × (priority_rank p ≡ 4))

ranked : (p : String) → Ranked p
unfolding priority_rank
ranked p = elim (Bool-cases (p == "critical")) [
  | inl e ↦ inl ((eq_iff p "critical").0 e, ground (arith, e))
  | inr e ↦ elim (Bool-cases (p == "high")) [
    | inl f ↦ inr (inl ((eq_iff p "high").0 f, ground (arith, e, f)))
    | inr f ↦ elim (Bool-cases (p == "medium")) [
      | inl g ↦ inr (inr (inl ((eq_iff p "medium").0 g, ground (arith, e, f, g))))
      | inr g ↦ inr (
          inr (
            inr (
              (
                λ q. absurd (ground (arith, (eq_iff p "critical").1 q, e)),
                λ q. absurd (ground (arith, (eq_iff p "high").1 q, f)),
                λ q. absurd (ground (arith, (eq_iff p "medium").1 q, g)),
              ),
              ground (arith, e, f, g),
            )))
    ]
  ]
]

rank_critical : (p : String) → p ≡ "critical" → priority_rank p ≡ 1
unfolding priority_rank
rank_critical p e = ap priority_rank e

rank_high : (p : String) → p ≡ "high" → priority_rank p ≡ 2
unfolding priority_rank
rank_high p e = ap priority_rank e

rank_medium : (p : String) → p ≡ "medium" → priority_rank p ≡ 3
unfolding priority_rank
rank_medium p e = ap priority_rank e

IsAhead-ranks : (p q : String) → priority_rank p < priority_rank q → IsAhead p q
IsAhead-ranks p q h = by_case (ranked p) (ranked q)
  where
    by_case : Ranked p → Ranked q → IsAhead p q
    by_case (inl (e, r)) _ = inl (e, λ c. absurd (omega (arith, r, rank_critical q c, h)))
    by_case (inr (inl (e, r))) _ = inr (
        inl (
          e,
          λ c. absurd (omega (arith, r, rank_critical q c, h)),
          λ c. absurd (omega (arith, r, rank_high q c, h)),
        ))
    by_case (inr (inr (inl (e, r)))) _ = inr (
        inr (
          e,
          (
            λ c. absurd (omega (arith, r, rank_critical q c, h)),
            λ c. absurd (omega (arith, r, rank_high q c, h)),
            λ c. absurd (omega (arith, r, rank_medium q c, h)),
          ),
        ))
    by_case (inr (inr (inr (o, r)))) (inl (f, s)) = absurd (omega (arith, r, s, h))
    by_case (inr (inr (inr (o, r)))) (inr (inl (f, s))) = absurd (omega (arith, r, s, h))
    by_case (inr (inr (inr (o, r)))) (inr (inr (inl (f, s)))) = absurd (omega (arith, r, s, h))
    by_case (inr (inr (inr (o, r)))) (inr (inr (inr (f, s)))) = absurd (omega (arith, r, s, h))

IsLevel-ranks : (p q : String) → priority_rank p ≡ priority_rank q → IsLevel p q
IsLevel-ranks p q h = by_case (ranked p) (ranked q)
  where
    by_case : Ranked p → Ranked q → IsLevel p q
    by_case (inl (e, r)) (inl (f, s)) = inl (e ∙ sym f)
    by_case (inr (inl (e, r))) (inr (inl (f, s))) = inl (e ∙ sym f)
    by_case (inr (inr (inl (e, r)))) (inr (inr (inl (f, s)))) = inl (e ∙ sym f)
    by_case (inr (inr (inr (o, r)))) (inr (inr (inr (o', s)))) = inr (o, o')
    by_case (inl (e, r)) (inr (inl (f, s))) = absurd (omega (arith, r, s, h))
    by_case (inl (e, r)) (inr (inr (inl (f, s)))) = absurd (omega (arith, r, s, h))
    by_case (inl (e, r)) (inr (inr (inr (f, s)))) = absurd (omega (arith, r, s, h))
    by_case (inr (inl (e, r))) (inl (f, s)) = absurd (omega (arith, r, s, h))
    by_case (inr (inl (e, r))) (inr (inr (inl (f, s)))) = absurd (omega (arith, r, s, h))
    by_case (inr (inl (e, r))) (inr (inr (inr (f, s)))) = absurd (omega (arith, r, s, h))
    by_case (inr (inr (inl (e, r)))) (inl (f, s)) = absurd (omega (arith, r, s, h))
    by_case (inr (inr (inl (e, r)))) (inr (inl (f, s))) = absurd (omega (arith, r, s, h))
    by_case (inr (inr (inl (e, r)))) (inr (inr (inr (f, s)))) = absurd (omega (arith, r, s, h))
    by_case (inr (inr (inr (o, r)))) (inl (f, s)) = absurd (omega (arith, r, s, h))
    by_case (inr (inr (inr (o, r)))) (inr (inl (f, s))) = absurd (omega (arith, r, s, h))
    by_case (inr (inr (inr (o, r)))) (inr (inr (inl (f, s)))) = absurd (omega (arith, r, s, h))

rank_cases :
    (a b : ApprovalRow)
    → queue_before a b ≡ true
    → (priority_rank a.priority < priority_rank b.priority)
      ⊎ ((priority_rank a.priority ≡ priority_rank b.priority) × (a.created_at ≤ b.created_at))
rank_cases a b h = ground (arith, h)

queue_before-Precedes : (a b : ApprovalRow) → queue_before a b ≡ true → Precedes a b
queue_before-Precedes a b h = elim (rank_cases a b h) [
  | inl l ↦ inl (IsAhead-ranks _ _ l)
  | inr (e, l) ↦ inr (IsLevel-ranks _ _ e, l)
]

module _ {ℓ} {A : Type ℓ} where
  All-map {κ κ'} :
      (P : A → Type κ) (Q : A → Type κ')
      → ((a : A) → P a → Q a)
      → (xs : List A) → All P xs
      → All Q xs
  All-map P Q f [] h = tt
  All-map P Q f (x ∷ xs) (p, h) = (f x p, All-map P Q f xs h)

  insert_by-All {κ} :
      (P : A → Type κ) (before : A → A → Bool) (x : A) (xs : List A)
      → P x
      → All P xs
      → All P (insert_by before x xs)
  insert_by-All P before x [] p h = (p, tt)
  insert_by-All P before x (y ∷ ys) p (q, h) = step (before x y) (insert_by-All P before x ys p h)
    where
      step :
          (b : Bool)
          → All P (insert_by before x ys)
          → All P (if b then x ∷ y ∷ ys else y ∷ insert_by before x ys)
      step true rec = (p, (q, h))
      step false rec = (q, rec)

  listed : (xs : List A) → All (λ a. Any (λ b. b ≡ a) xs) xs
  listed [] = tt
  listed (x ∷ xs) = (here refl, All-map _ _ (λ a h. there h) xs (listed xs))

  keep-All {κ} :
      (P : A → Type κ) (p : A → Bool) (xs : List A)
      → All P (keep p xs)
      → All (λ a. (p a ≡ false) ⊎ P a) xs
  keep-All P p [] h = tt
  keep-All P p (x ∷ xs) h = step (p x) refl (keep-All P p xs) h
    where
      step :
          (b : Bool)
          → p x ≡ b
          → (All P (keep p xs) → All (λ a. (p a ≡ false) ⊎ P a) xs)
          → All P (if b then x ∷ keep p xs else keep p xs)
          → ((p x ≡ false) ⊎ P x) × All (λ a. (p a ≡ false) ⊎ P a) xs
      step true e rec (q, h) = (inr q, rec h)
      step false e rec h = (inl e, rec h)

  kept : (p : A → Bool) (xs : List A) → All (λ a. p a ≡ true) (keep p xs)
  kept p [] = tt
  kept p (x ∷ xs) = step (p x) refl (kept p xs)
    where
      step :
          (b : Bool)
          → p x ≡ b
          → All (λ a. p a ≡ true) (keep p xs)
          → All (λ a. p a ≡ true) (if b then x ∷ keep p xs else keep p xs)
      step true e h = (e, h)
      step false e h = h

  sort_by-All {κ} :
      (P : A → Type κ) (before : A → A → Bool) (xs : List A) → All P xs → All P (sort_by before xs)
  unfolding sort_by
  sort_by-All P before [] h = tt
  sort_by-All P before (x ∷ xs) (p, h) =
      insert_by-All P before x (sort_by before xs) p (sort_by-All P before xs h)

before_trans :
    (a b c : ApprovalRow)
    → queue_before a b ≡ true
    → queue_before b c ≡ true
    → queue_before a c ≡ true
before_trans a b c h k = ground (arith, h, k)

before_total : (a b : ApprovalRow) → queue_before a b ≡ false → queue_before b a ≡ true
before_total a b h = ground (arith, h)

insert_by-ByRank :
    (x : ApprovalRow) (xs : List ApprovalRow) → ByRank xs → ByRank (insert_by queue_before x xs)
insert_by-ByRank x [] h = (tt, tt)
insert_by-ByRank x (y ∷ ys) (a, h) = step (queue_before x y) refl (insert_by-ByRank x ys h)
  where
    step :
        (b : Bool)
        → queue_before x y ≡ b
        → ByRank (insert_by queue_before x ys)
        → ByRank (if b then x ∷ y ∷ ys else y ∷ insert_by queue_before x ys)
    step true e rec = ((e, All-map _ _ (λ z. before_trans x y z e) ys a), (a, h))
    step false e rec = (insert_by-All _ queue_before x ys (before_total x y e) a, rec)

sort_by-ByRank : (xs : List ApprovalRow) → ByRank (sort_by queue_before xs)
unfolding sort_by
sort_by-ByRank [] = tt
sort_by-ByRank (x ∷ xs) = insert_by-ByRank x (sort_by queue_before xs) (sort_by-ByRank xs)

ByRank-InOrder : (xs : List ApprovalRow) → ByRank xs → InOrder xs
ByRank-InOrder [] h = tt
ByRank-InOrder (x ∷ xs) (a, h) =
    (All-map _ _ (λ y. queue_before-Precedes x y) xs a, ByRank-InOrder xs h)

-- The queue of a tenant.
abbrev pub queue : Option String → World → List ApprovalRow
queue tid w = sort_by queue_before (keep (waits tid w) w.db.approvals)

-- What a page of the queue is: the first rows of a list in order that holds the rows that wait, all
-- of them and no other; nothing is written.
abbrev pub ShowsQueue : ℕ → Option String → World → Type 0
ShowsQueue limit tid w =
    (rows : List ApprovalRow) × (get_pending_queue limit tid w ≡ (ok (take limit rows), w))
    × InOrder rows
    × All (λ ap. waits tid w ap ≡ true) rows
    × All (λ ap. (waits tid w ap ≡ false) ⊎ Any (λ r. r ≡ ap) rows) w.db.approvals

-- A page of the approval queue is the start, up to the limit, of a list that holds the pending
-- approvals the tenant may see, all of them and no other; critical ones come first, then high,
-- then medium, then those of any other priority, and within one of these the older first; nothing
-- is written.
pub get_pending_queue-ShowsQueue :
    (limit : ℕ) (tid : Option String) (w : World) → ShowsQueue limit tid w
unfolding get_pending_queue get_pending_approvals
get_pending_queue-ShowsQueue limit tid w = (
  queue tid w,
  refl,
  ByRank-InOrder (queue tid w) (sort_by-ByRank (keep (waits tid w) w.db.approvals)),
  sort_by-All _ queue_before _ (kept (waits tid w) w.db.approvals),
  keep-All _ (waits tid w) w.db.approvals (All-sort_by _ queue_before _ (listed (queue tid w))),
)
