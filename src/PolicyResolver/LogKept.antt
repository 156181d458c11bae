-- ===== src/PolicyResolver/LogKept.antt =====
-- apps/runtime/citadel/services/policy_resolver.py: the resolution leaves the audit log alone.
use ledger_sdk.Prelude.{String, Option, none, some}
use ledger_sdk.Exec.Keeps.{Keeps, Keeps-bind, Keeps-option, Keeps-pure, keeps_rules}
use ledger_sdk.Actions.{Action}
use ledger_sdk.Db.{World, App, Env, PolicyRow}
use ledger_sdk.Repository.{get_active_policy, save_policy_snapshot}
use ledger_sdk.Repository.Frame.{Framed, Keeps-fresh, Keeps-read_db, Keeps-set_db}
use ledger_sdk.PolicyResolver.{
  or_next, resolve, resolve_specific, tenant_policy, snapshot_of, create_snapshot,
}

module _ {env : Env} {I : World → Type 0} (frame : Framed env I) where
  Keeps-tenant_policy : (tid : Option _) → Keeps I (tenant_policy tid)
  unfolding tenant_policy get_active_policy
  Keeps-tenant_policy none = search (keeps_rules)
  Keeps-tenant_policy (some t) = search (keeps_rules, Keeps-read_db frame)

  Keeps-or_next :
      {A : Type 0} (m next : App (Option A)) → Keeps I m → Keeps I next → Keeps I (or_next m next)
  Keeps-or_next m next km kn =
      Keeps-bind _ _ km λ o. Keeps-option o _ _ kn (λ a. Keeps-pure (some a))

  Keeps-get_active_policy :
      (type val : String) (tid : Option String) → Keeps I (get_active_policy type val tid)
  unfolding get_active_policy
  Keeps-get_active_policy type val tid = Keeps-read_db frame _

  Keeps-resolve_specific : (action : Action) → Keeps I (resolve_specific action)
  unfolding resolve_specific
  Keeps-resolve_specific action =
      search (Keeps-or_next, Keeps-get_active_policy, Keeps-tenant_policy) depth 30

  Keeps-create_snapshot : (p : PolicyRow) → Keeps I (create_snapshot env p)
  unfolding create_snapshot save_policy_snapshot
  Keeps-create_snapshot p = search (keeps_rules, Keeps-set_db frame, Keeps-fresh frame) depth 30

  Keeps-snapshot_of : (p : Option PolicyRow) → Keeps I (snapshot_of env p)
  unfolding snapshot_of
  Keeps-snapshot_of none = search (keeps_rules)
  Keeps-snapshot_of (some p) = search (keeps_rules, Keeps-create_snapshot) depth 10

  pub Keeps-resolve : (action : Action) → Keeps I (resolve env action)
  unfolding resolve
  Keeps-resolve action = search (keeps_rules, Keeps-resolve_specific, Keeps-snapshot_of) depth 10
