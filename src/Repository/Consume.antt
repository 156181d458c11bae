-- ===== src/Repository/Consume.antt =====
-- db/schema.sql, consume_capability, as apps/runtime/citadel/core/repository.py calls it: what one
-- consumption does on each branch, and how many can succeed.
use ledger_sdk.Prelude.{
  ℕ, ◌+◌, ◌-◌, ◌≤◌, ◌<◌, String, false, List, [], ◌∷◌, Option, none, some, find_by, update_where,
  if◌then◌else◌, ◌≡◌, refl, true, Each, Each-update_where, sym, ◌∙◌, ap, ◌⊎◌, inl, inr, arith,
  eq_iff, Option-cases,
}
use mathlib.Core.Path.{subst}
use ledger_sdk.Exec.{Result, ok, raised}
use ledger_sdk.Db.{Env, World, CapabilityRow}
use ledger_sdk.Repository.{
  consume_capability, consume_found, consume_row, has_token, use_once, use_found, refusal,
  ConsumeResult,
}

-- The row may be used by the actor now: the conditions of the SQL function, read as one.
unfoldable pub MayUse : Env → String → CapabilityRow → Type 0
MayUse env actor c =
    (c.actor_id ≡ actor) × (c.is_revoked ≡ false) × (env.now ≤ c.expires_at) × (c.uses < c.max_uses)

consume_row-none :
    (env : Env) (actor : String) (c : CapabilityRow)
    → consume_row env actor c ≡ none
    → MayUse env actor c
unfolding consume_row MayUse
consume_row-none env actor c h = ground (arith, eq_iff c.actor_id actor)

none-consume_row :
    (env : Env) (actor : String) (c : CapabilityRow)
    → MayUse env actor c
    → consume_row env actor c ≡ none
unfolding consume_row MayUse
none-consume_row env actor c (a, r, e, u) = ground (arith, a, r, e, u, eq_iff c.actor_id actor)

-- No row of the token may be used by the actor: there is none, or the one there is may not.
pub Unusable : Env → String → String → World → Type 0
Unusable env token actor w =
    (find_by (has_token token) w.db.capabilities ≡ none)
    ⊎ ((c : CapabilityRow) × (find_by (has_token token) w.db.capabilities ≡ some c)
        × ¬ MayUse env actor c)

-- The refusal of a consumption names an error, gives no use, and changes nothing.
pub Refused : Env → String → String → World → Type 0
unfolding Unusable
Refused env token actor w =
    (e : String) × (consume_capability env token actor w ≡ (ok (refusal e), w))
    × Unusable env token actor w

-- A row of the token has one more use and nothing else new; any other row is as it was.
abbrev pub OneMore : String → CapabilityRow → CapabilityRow → Type 0
OneMore token before after =
    ((before.token_id ≡ token) × (after ≡ record before { uses = before.uses + 1 }))
    ⊎ ((¬ (before.token_id ≡ token)) × (after ≡ before))

-- The answer to a consumption says that it succeeded, and how many uses the row has left after it,
-- which together with the uses before and this one make up the row's limit.
abbrev pub Answered : CapabilityRow → Result ConsumeResult → Type 0
Answered c (ok r) =
    (r.success ≡ true) × (r.error ≡ none) × (r.remaining_uses + (c.uses + 1) ≡ c.max_uses)
Answered c (raised e) = ⊥

-- What a consumption that succeeds did: the answer, the rows of the table, and nothing else.
abbrev pub UsedIn : String → CapabilityRow → World → Result ConsumeResult × World → Type 0
UsedIn token c w (r, w') =
    Answered c r
    × Each (OneMore token) w.db.capabilities w'.db.capabilities
    × (w' ≡ record w { db = record w.db { capabilities = w'.db.capabilities } })

-- A consumption that succeeds uses the row once, and answers what is left.
pub Used : Env → String → String → World → Type 0
Used env token actor w =
    (c : CapabilityRow) × (find_by (has_token token) w.db.capabilities ≡ some c)
    × MayUse env actor c
    × UsedIn token c w (consume_capability env token actor w)

OneMore-update_where :
    (token : String) (rows : List CapabilityRow)
    → Each (OneMore token) rows (update_where (has_token token) use_once rows)
OneMore-update_where token =
    Each-update_where (OneMore token) (has_token token) use_once
      (λ c h. inl ((eq_iff c.token_id token).0 h, refl))
      λ c h. inr (λ q. absurd (ground (arith, (eq_iff c.token_id token).1 q, h)), refl)

use_found-UsedIn :
    (env : Env) (token actor : String) (c : CapabilityRow) (w : World)
    → MayUse env actor c
    → UsedIn token c w (use_found token c w)
unfolding MayUse
use_found-UsedIn env token actor c w may =
    ((refl, refl, omega (arith, may.3)), OneMore-update_where token w.db.capabilities, refl)

module _ (env : Env) (token actor : String) (w : World) where
  found_lem :
      (c : CapabilityRow)
      → find_by (has_token token) w.db.capabilities ≡ some c
      → ((e : String) × (consume_row env actor c ≡ some e)
          × (consume_capability env token actor w ≡ (ok (refusal e), w)))
        ⊎ ((consume_row env actor c ≡ none)
            × (consume_capability env token actor w ≡ use_found token c w))
  unfolding consume_capability consume_found
  found_lem c f = elim (Option-cases (consume_row env actor c)) [
    | inl n ↦ inr (n, ap (λ o. consume_found env token actor o w) f ∙ ap (outcome c) n)
    | inr (e, h) ↦ inl (e, h, ap (λ o. consume_found env token actor o w) f ∙ ap (outcome c) h)
  ]
    where
      outcome : CapabilityRow → Option String → Result ConsumeResult × World
      outcome c none = use_found token c w
      outcome c (some e) = (ok (refusal e), w)

  -- A consumption is refused with an error and changes nothing, and then no row of the token may
  -- be used by the actor; or the token's row, which belongs to the actor, is neither revoked nor
  -- expired and had a use left, has one more use, no other row and nothing else has changed, and
  -- the answer is how many uses are left.
  pub consume_capability-outcome : Refused env token actor w ⊎ Used env token actor w
  unfolding Refused Used Unusable consume_capability consume_found
  consume_capability-outcome = elim (Option-cases (find_by (has_token token) w.db.capabilities)) [
    | inl n ↦ inl ("capability_not_found", ap (λ o. consume_found env token actor o w) n, inl n)
    | inr (c, f) ↦ elim (found_lem c f) [
      | inr (n, e) ↦
          let may = consume_row-none env actor c n in
          inr
            (c, f, may, subst (UsedIn token c w) (sym e) (use_found-UsedIn env token actor c w may))
      | inl (m, h, e) ↦
          inl (m, e, inr (c, f, λ x. absurd (ground (arith, none-consume_row env actor c x, h))))
    ]
  ]

find-use_once :
    (token : String) (rows : List CapabilityRow) (c : CapabilityRow)
    → find_by (has_token token) rows ≡ some c
    → find_by (has_token token) (update_where (has_token token) use_once rows) ≡ some (use_once c)
find-use_once token [] c f = absurd (ground (arith, f))
find-use_once token (x ∷ xs) c f = ground (arith, f, find-use_once token xs c)

-- 1 for a consumption that succeeded.
abbrev pub gain : Result ConsumeResult → ℕ
gain (ok r) = if r.success then 1 else 0
gain (raised e) = 0

-- How many of a sequence of consumptions of one token succeed, each by its actor at its instant.
pub successes : String → List (Env × String) → World → ℕ
successes token [] w = 0
successes token ((env, actor) ∷ calls) w =
    let (r, w') = consume_capability env token actor w in gain r + successes token calls w'

-- The rest of the sequence keeps to the bound in every state.
abbrev Bounded : String → List (Env × String) → Type 0
Bounded token calls =
    (w : World) (c : CapabilityRow)
    → find_by (has_token token) w.db.capabilities ≡ some c
    → successes token calls w ≤ c.max_uses - c.uses

abbrev StepBounded : String → List (Env × String) → ℕ → Result ConsumeResult × World → Type 0
StepBounded token calls n (r, w') = gain r + successes token calls w' ≤ n

successes-step :
    (token : String) (env : Env) (actor : String) (calls : List (Env × String))
    → Bounded token calls
    → Bounded token ((env, actor) ∷ calls)
unfolding successes MayUse
successes-step token env actor calls ih w c f = elim (found_lem env token actor w c f) [
  | inl (e, _, same) ↦
      subst (StepBounded token calls (c.max_uses - c.uses)) (sym same) (omega (arith, ih w c f))
  | inr (n, same) ↦
      subst (StepBounded token calls (c.max_uses - c.uses)) (sym same)
        (after_use (consume_row-none env actor c n))
]
  where
    after_use :
        MayUse env actor c → StepBounded token calls (c.max_uses - c.uses) (use_found token c w)
    after_use may = ground (
      arith,
      may.3,
      ih (use_found token c w).1 (use_once c) (find-use_once token w.db.capabilities c f),
    )

-- Whatever the actors and the instants, no more consumptions of a token succeed than its row has
-- uses left.
pub successes-bound :
    (token : String) (calls : List (Env × String)) (w : World) (c : CapabilityRow)
    → find_by (has_token token) w.db.capabilities ≡ some c
    → successes token calls w ≤ c.max_uses - c.uses
unfolding successes
successes-bound token [] w c f = omega arith
successes-bound token ((env, actor) ∷ calls) w c f =
    successes-step token env actor calls (successes-bound token calls) w c f
