-- ===== src/CostControls.antt =====
-- apps/runtime/citadel/commercial/cost_controls.py: the validation and evaluation of cost budgets,
-- and the service that enforces them on the spend of the current period.
pub mod LogKept
pub mod Evaluation
pub mod TopUp
pub mod Periods
use ledger_sdk.Prelude.{
  ℕ, suc, ◌+◌, ◌-◌, ◌*◌, String, ℤ, pos, Bool, true, false, not, ◌&&◌, ◌||◌, Option, none, some,
  List, [], ◌∷◌, ◌==◌, ltb, leb, eqb, ltb_ℤ, leb_ℤ, ◌+ℤ◌, or_else, str_or, opt_eq, truthy, mem_str,
  is_some, map, keep, find_by, any, sort_by, update_where, is_nil, lowered, stripped, strip, length,
  show_ℤ, if◌then◌else◌, ◌<>◌,
}
use ledger_sdk.Exec.{
  Exec, Result, ok, raised, exn, value_error, key_error, permission_error, pure, raise, lift, ◌>>=◌,
  ◌>>◌,
}
use ledger_sdk.Budgets.{
  CostBudget, CostAttribution, BudgetDecision, BudgetTopUp, SpendEvent, EnforcementEvent,
  BudgetAdjustment,
}
use ledger_sdk.Values.{Fields, text, number, object, field, end, of_option}
use ledger_sdk.Calendar.{day, day_start, weekday, year_of, month_of, month_start}
use ledger_sdk.Db.{App, Env, World, fresh, set_db, read_db}

abbrev pub valid_scopes : List String
valid_scopes = "tenant" ∷ "project" ∷ "agent" ∷ "api_key" ∷ []

abbrev pub valid_periods : List String
valid_periods = "daily" ∷ "weekly" ∷ "monthly" ∷ []

abbrev pub valid_actions : List String
valid_actions = "block" ∷ "require_approval" ∷ "throttle" ∷ []

abbrev invalid : {A : Type 0} → String → Result A
invalid m = raised (exn value_error m)

unfoldable pub validate_budget : CostBudget → Result (Unit {0})
validate_budget b =
    if not (mem_str b.scope_type valid_scopes)
    then invalid "scope_type must be one of: agent, api_key, project, tenant"
    else if not (mem_str b.reset_period valid_periods)
    then invalid "reset_period must be one of: daily, monthly, weekly"
    else if not (mem_str b.enforcement_action valid_actions)
    then invalid "enforcement_action must be one of: block, require_approval, throttle"
    else if leb_ℤ b.amount_cents (pos 0)
    then invalid "amount_cents must be greater than 0"
    else if ltb_ℤ b.warning_threshold_percent (pos 1) || ltb_ℤ (pos 100) b.warning_threshold_percent
    then invalid "warning_threshold_percent must be between 1 and 100"
    else if b.scope_value == ""
    then invalid "scope_value is required"
    else if b.scope_type == "tenant" && not (b.scope_value == b.tenant_id)
    then invalid "tenant-scope budgets must use tenant_id as scope_value"
    else ok tt

-- `can_top_up_budget`
unfoldable pub can_top_up_budget : Option String → Bool
unfolding lowered
can_top_up_budget role = lowered (str_or role "") "executive"

unfoldable pub validate_top_up : BudgetTopUp → Result (Unit {0})
unfolding can_top_up_budget stripped
validate_top_up t =
    if leb_ℤ t.amount_cents (pos 0)
    then invalid "amount_cents must be greater than 0"
    else if t.reason == "" || is_nil (stripped t.reason)
    then invalid "reason is required"
    else if ltb 1000 (length (stripped t.reason))
    then invalid "reason must be 1000 characters or fewer"
    else if not (can_top_up_budget t.actor_role)
    then raised (exn permission_error "budget top-up requires executive role")
    else ok tt

-- `current_period_window`: the bounds of the period that holds the instant.
unfoldable pub current_period_window : String → ℕ → Result (ℕ × ℕ)
unfolding day_start weekday month_start
current_period_window period now =
    if not (mem_str period valid_periods)
    then invalid "reset_period must be one of: daily, monthly, weekly"
    else if period == "daily"
    then ok (day_start now, day_start now + day)
    else if period == "weekly"
    then (let start = day_start now - weekday now * day in ok (start, start + 7 * day))
    else (let y = year_of now in
        let m = month_of now in
        ok (month_start y m, if eqb m 12 then month_start (y + 1) 1 else month_start y (m + 1)))

-- `matching_scope_values(...).get(scope)`
unfoldable pub scope_value_for : CostAttribution → String → Option String
scope_value_for a scope =
    if scope == "tenant"
    then some a.tenant_id
    else if scope == "project"
    then (if truthy a.project_id then a.project_id else none)
    else if scope == "agent"
    then (if truthy a.actor_id then a.actor_id else none)
    else if scope == "api_key"
    then (if truthy a.api_key_id then a.api_key_id else none)
    else none

abbrev pub exceeded : Env → CostBudget → ℤ → ℤ → ℕ × ℕ → BudgetDecision
exceeded env b spent projected (start, finish) = record {
  is_allowed = false;
  enforcement_action = b.enforcement_action;
  reason =
      b.scope_type
      <> " budget '"
      <> b.name
      <> "' would be exceeded: "
      <> show_ℤ (spent +ℤ projected)
      <> "/"
      <> show_ℤ b.amount_cents
      <> " cents";
  projected_cost_cents = projected;
  current_spend_cents = spent;
  budget_amount_cents = some b.amount_cents;
  period_start = start;
  period_end = finish;
  budget = some b;
  warning = true;
}

abbrev pub within : Env → CostBudget → ℤ → ℤ → ℕ × ℕ → BudgetDecision
within env b spent projected (start, finish) = record {
  is_allowed = true;
  enforcement_action = "allow";
  reason = "Budget check passed";
  projected_cost_cents = projected;
  current_spend_cents = spent;
  budget_amount_cents = some b.amount_cents;
  period_start = start;
  period_end = finish;
  budget = some b;
  warning = leb_ℤ (env.percent_of b.amount_cents b.warning_threshold_percent) (spent +ℤ projected);
}

abbrev pub judge : Env → CostBudget → ℤ → ℤ → Result (ℕ × ℕ) → Result BudgetDecision
judge env b spent projected (raised e) = raised e
judge env b spent projected (ok window) =
    if ltb_ℤ b.amount_cents (spent +ℤ projected)
    then ok (exceeded env b spent projected window)
    else ok (within env b spent projected window)

unfoldable pub evaluate_budget : Env → CostBudget → ℤ → ℤ → Result BudgetDecision
evaluate_budget env b spent projected = elim (validate_budget b) [
  | raised e ↦ raised e
  | ok _ ↦ judge env b spent projected (current_period_window b.reset_period env.now)
]

-- `SCOPE_PRIORITY`
unfoldable pub scope_priority : String → Option ℕ
scope_priority s =
    if s == "api_key"
    then some 4
    else if s == "agent"
    then some 3
    else if s == "project"
    then some 2
    else if s == "tenant"
    then some 1
    else none

abbrev pub rank : CostBudget → ℕ
rank b = or_else (scope_priority b.scope_type) 0

-- The higher priority stands first, and equal ones keep their order.
abbrev pub more_specific : CostBudget → CostBudget → Bool
more_specific a b = leb (rank b) (rank a)

abbrev pub unknown_scope : CostBudget → Bool
unknown_scope b = not (is_some (scope_priority b.scope_type))

unfoldable pub by_priority : List CostBudget → Result (List CostBudget)
unfolding sort_by scope_priority
by_priority budgets =
    if any unknown_scope budgets
    then raised (exn key_error "scope_type")
    else ok (sort_by more_specific budgets)

abbrev pub budget_key : CostBudget → String
budget_key b = str_or b.budget_id (b.scope_type <> ":" <> b.scope_value)

-- `spend_by_budget_id.get(key, 0)`; the newest entry of a key stands first.
unfoldable pub spent_for : String → List (String × ℤ) → ℤ
spent_for k [] = pos 0
spent_for k ((j, n) ∷ m) = if j == k then n else spent_for k m

abbrev pub first_or : Option BudgetDecision → Result BudgetDecision → Option BudgetDecision
first_or (some d) r = some d
first_or none (ok d) = some d
first_or none (raised e) = none

abbrev pub stop_at : Result BudgetDecision → Result BudgetDecision → Result BudgetDecision
stop_at (raised e) rest = raised e
stop_at (ok d) rest = if d.is_allowed then rest else ok d

abbrev pub no_budget : Env → ℤ → BudgetDecision
no_budget env projected = record {
  is_allowed = true;
  enforcement_action = "allow";
  reason = "No active budget matched this request";
  projected_cost_cents = projected;
  current_spend_cents = pos 0;
  budget_amount_cents = none;
  period_start = env.now;
  period_end = env.now;
  budget = none;
  warning = false;
}

-- The loop over the ordered budgets, with the first decision so far.
unfoldable pub evaluate_ordered :
    Env → List (String × ℤ) → ℤ → Option BudgetDecision → List CostBudget → Result BudgetDecision
evaluate_ordered env spend projected first [] = ok (or_else first (no_budget env projected))
evaluate_ordered env spend projected first (b ∷ bs) =
    let d = evaluate_budget env b (spent_for (budget_key b) spend) projected in
    let rest = evaluate_ordered env spend projected (first_or first d) bs in stop_at d rest

unfoldable pub evaluate_budget_set :
    Env → List CostBudget → List (String × ℤ) → ℤ → Result BudgetDecision
unfolding evaluate_ordered by_priority
evaluate_budget_set env [] spend projected = ok (no_budget env projected)
evaluate_budget_set env (b ∷ bs) spend projected = elim (by_priority (b ∷ bs)) [
  | raised e ↦ raised e
  | ok ordered ↦ evaluate_ordered env spend projected none ordered
]

-- The row that the insert returns.
unfoldable pub create_budget : Env → CostBudget → App CostBudget
create_budget env b = do
  lift (validate_budget b)
  id ← fresh env
  let row : CostBudget = record b { is_active = true; budget_id = some id }
  set_db λ db. record db { budgets = row ∷ db.budgets }
  pure row

-- The rows of `_matching_budgets`, in their order.
abbrev pub matches : CostAttribution → CostBudget → Bool
matches a b =
    b.tenant_id == a.tenant_id
    && b.is_active
    && mem_str b.scope_type valid_scopes
    && opt_eq (scope_value_for a b.scope_type) (some b.scope_value)

unfoldable pub matching_budgets : CostAttribution → App (List CostBudget)
unfolding scope_value_for by_priority
matching_budgets a = do rows ← read_db (λ db. keep (matches a) db.budgets); lift (by_priority rows)

-- The column that a budget's scope names.
abbrev scope_column : CostBudget → SpendEvent → Option String
scope_column b e =
    if b.scope_type == "tenant"
    then some e.tenant_id
    else if b.scope_type == "project"
    then e.project_id
    else if b.scope_type == "agent"
    then e.actor_id
    else e.api_key_id

abbrev pub counts : CostBudget → ℕ → ℕ → SpendEvent → Bool
counts b start finish e =
    e.tenant_id == b.tenant_id
    && opt_eq (scope_column b e) (some b.scope_value)
    && leb start e.event_ts
    && ltb e.event_ts finish

-- `SUM(cost_cents)`
unfoldable pub sum_costs : List SpendEvent → ℤ
sum_costs [] = pos 0
sum_costs (e ∷ es) = e.cost_cents +ℤ sum_costs es

unfoldable pub current_spend : CostBudget → ℕ → ℕ → App ℤ
unfolding sum_costs
current_spend b start finish =
    read_db (λ db. sum_costs (keep (counts b start finish) db.spend_events))

-- The spend of each budget in its own period.
unfoldable pub spend_of : Env → List CostBudget → List (String × ℤ) → App (List (String × ℤ))
unfolding current_spend
spend_of env [] acc = pure acc
spend_of env (b ∷ bs) acc = do
  window ← lift (current_period_window b.reset_period env.now)
  n ← current_spend b window.0 window.1
  spend_of env bs ((budget_key b, n) ∷ acc)

unfoldable pub record_enforcement : BudgetDecision → CostAttribution → App Unit
record_enforcement d a = set_db λ db. record db {
  enforcement_events =
      record {
        tenant_id = a.tenant_id;
        budget_id = elim d.budget [ none ↦ none | some b ↦ b.budget_id ];
        scope_type = elim d.budget [ none ↦ "tenant" | some b ↦ b.scope_type ];
        scope_value = elim d.budget [ none ↦ a.tenant_id | some b ↦ b.scope_value ];
        decision = d;
        attribution = a;
      }
      ∷ db.enforcement_events;
}

-- `check_budget`; a request that no budget matches is allowed and not recorded.
unfoldable pub check_budget : Env → CostAttribution → App BudgetDecision
unfolding matching_budgets spend_of evaluate_budget_set record_enforcement
check_budget env a = do
  budgets ← matching_budgets a
  if is_nil budgets then pure (no_budget env a.projected_cost_cents) else do
    spend ← spend_of env budgets []
    decision ← lift (evaluate_budget_set env budgets spend a.projected_cost_cents)
    record_enforcement decision a
    pure decision

unfoldable pub record_spend : Env → CostAttribution → App SpendEvent
record_spend env a =
    if ltb_ℤ a.actual_cost_cents (pos 0)
    then raise value_error "actual_cost_cents must be greater than or equal to 0"
    else do
      let event : SpendEvent = record {
        tenant_id = a.tenant_id;
        cost_cents = a.actual_cost_cents;
        actor_id = a.actor_id;
        project_id = a.project_id;
        api_key_id = a.api_key_id;
        event_ts = env.now;
        attribution = a;
      }
      set_db λ db. record db { spend_events = event ∷ db.spend_events }
      pure event

abbrev pub top_up_row : BudgetTopUp → CostBudget → Bool
top_up_row t b = opt_eq b.budget_id (some t.budget_id) && b.tenant_id == t.tenant_id && b.is_active

abbrev pub updated_row : BudgetTopUp → CostBudget → Bool
updated_row t b = opt_eq b.budget_id (some t.budget_id) && b.tenant_id == t.tenant_id

abbrev pub set_amount : ℤ → CostBudget → CostBudget
set_amount n b = record b { amount_cents = n }

-- The payload of `_record_top_up_audit`.
abbrev pub top_up_payload : BudgetTopUp → String → BudgetAdjustment → Fields
top_up_payload t name a = field "budget_id" (text t.budget_id) (
    field "budget_name" (text name) (
      field "scope_type" (text "tenant") (
        field "scope_value" (text t.tenant_id) (
          field "adjustment_id" (text a.adjustment_id) (
            field "amount_cents" (number t.amount_cents) (
              field "previous_amount_cents" (number a.previous_amount_cents) (
                field "resulting_amount_cents" (number a.resulting_amount_cents) (
                  field "reason" (text a.reason) (
                    field "actor_role" (of_option t.actor_role)
                      (field "metadata" (object t.metadata) end))))))))))

-- The locked row's new amount, the adjustment and the audit row, in one transaction.
unfoldable pub apply_top_up : Env → BudgetTopUp → Option CostBudget → App BudgetAdjustment
unfolding strip
apply_top_up env t none = raise value_error "budget not found"
apply_top_up env t (some b) =
    if not (b.scope_type == "tenant")
    then raise value_error "MVP top-up only supports tenant-scope budgets"
    else do
      id ← fresh env
      let amount = b.amount_cents +ℤ t.amount_cents
      let adjustment : BudgetAdjustment = record {
        adjustment_id = id;
        budget_id = t.budget_id;
        tenant_id = t.tenant_id;
        amount_cents = t.amount_cents;
        previous_amount_cents = b.amount_cents;
        resulting_amount_cents = amount;
        reason = strip t.reason;
        actor_id = t.actor_id;
        actor_role = t.actor_role;
      }
      set_db λ db. record db {
        budgets = update_where (updated_row t) (set_amount amount) db.budgets;
        adjustments = adjustment ∷ db.adjustments;
        governance_audit_log =
            record {
              event_type = "cost.budget_top_up";
              tenant_id = some t.tenant_id;
              actor_id = some t.actor_id;
              decision_id = none;
              token_id = none;
              payload = top_up_payload t b.name adjustment;
            }
            ∷ db.governance_audit_log;
      }
      pure adjustment

unfoldable pub top_up_tenant_budget : Env → BudgetTopUp → App BudgetAdjustment
unfolding apply_top_up
top_up_tenant_budget env t = do
  lift (validate_top_up t)
  row ← read_db (λ db. find_by (top_up_row t) db.budgets)
  apply_top_up env t row
