-- ===== src/Orchestration/Governed.antt =====
-- apps/runtime/citadel/execution/orchestration.py: the lineage of the action that is made under a
-- parent, and what the kernel's approval of it means.
use ledger_sdk.Prelude.{
  String, Bool, true, false, Option, none, some, str_or, truthy, ◌≡◌, refl, ap, ◌∙◌, arith,
  false_elim,
}
use mathlib.Core.Path.{subst}
use ledger_sdk.Exec.{ok}
use ledger_sdk.Exec.Returns.{Returns, Returns-bind, Returns-pure}
use ledger_sdk.Actions.{Action, Decision, KernelResult, KernelStatus, allowed, executed}
use ledger_sdk.GovernanceDecision.{GovernanceDecision}
use ledger_sdk.Db.{Env, World}
use ledger_sdk.Kernel.{Kernel, handle}
use ledger_sdk.Kernel.Terminal.{is_final, is_executed, handle-Consistent}
use ledger_sdk.Kernel.Execution.{Permitted, handle-Permitted}
use ledger_sdk.Orchestration.Lineage.{Request, is_allowed, is_permitted, child_action, root_of}

-- The action is the request's, in the lineage of the parent.
abbrev pub ChildOf : Request → GovernanceDecision → Option String → Action → Type 0
ChildOf q parent link action =
    (action.actor_id ≡ q.actor_id)
    × (action.action_name ≡ q.action_name)
    × (action.resource ≡ q.resource)
    × (action.tenant_id ≡ some (str_or q.tenant_id parent.tenant_id))
    × (action.root_decision_id ≡ some (root_of parent))
    × (action.parent_decision_id ≡ link)
    × (action.parent_actor_id ≡ some parent.actor_id)
    × (action.idempotency_key ≡ none)

pub child_action-ChildOf :
    (env : Env) (q : Request) (parent : GovernanceDecision) (link : Option String)
    → Returns (ChildOf q parent link) (child_action env q parent link)
unfolding child_action
child_action-ChildOf env q parent link = Returns-bind _ _ λ w id e.
    Returns-bind _ _ λ w' trace e. Returns-pure _ (refl, refl, refl, refl, refl, refl, refl, refl)

-- A run ends with ALLOWED never, so that what is permitted was executed.
pub executed_of_final :
    (s : KernelStatus)
    → is_final s ≡ true
    → is_permitted s ≡ true
    → (is_executed s ≡ true) × (is_allowed s ≡ false)
executed_of_final executed f p = (refl, refl)
executed_of_final allowed f p = false_elim f
executed_of_final _ f p = false_elim p

keyless_of :
    (action : Action) → action.idempotency_key ≡ none → truthy action.idempotency_key ≡ false
keyless_of action e = ap truthy e

pub governed_lem :
    (env : Env) (k : Kernel) (action : Action) (dry : Bool) (w : World) (g : KernelResult)
    (d : Decision)
    → action.idempotency_key ≡ none
    → (handle env k action none dry w).0 ≡ ok g
    → g.decision ≡ some d
    → is_permitted d.status ≡ true
    → (is_executed d.status ≡ true)
      × (is_allowed d.status ≡ false)
      × Permitted env k action none dry w
governed_lem env k action dry w g d key e q p =
    let (d', q', final, ran, kept) =
      handle-Consistent env k action none dry w g (keyless_of action key) e in
    let same : d' ≡ d = ground (arith, q, q') in
    let (x, a) = executed_of_final d.status (subst (λ c. is_final c.status ≡ true) same final) p in
    (
      x,
      a,
      (handle-Permitted env k action none dry w g e
          (ran ∙ ap (λ c. is_executed c.status) same ∙ x)).0,
    )
