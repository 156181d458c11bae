-- ===== src/Precedence/LogKept.antt =====
-- apps/runtime/citadel/utils/precedence.py: the checks leave the audit log alone.
use ledger_sdk.Prelude.{String, Option, none, some}
use ledger_sdk.Values.{Fields}
use ledger_sdk.Exec.Keeps.{
  Keeps-option, Keeps-bind, Keeps-pure, Keeps-if, Keeps-lift, Keeps, keeps_rules,
}
use ledger_sdk.Actions.{Action}
use ledger_sdk.PolicyResolver.{PolicySnapshot}
use ledger_sdk.Db.{World, Env, App, CapabilityRow, KillSwitchRow}
use ledger_sdk.Repository.{check_kill_switch, get_capability}
use ledger_sdk.Repository.Frame.{Framed, Keeps-read_db, Keeps-consume_capability}
use ledger_sdk.Verifier.LogKept.{Keeps-verify_token}
use ledger_sdk.Precedence.{
  verifier_for, verifier_context, refused, Precedence, KillSwitchStatus, switch_or,
  check_repository, check_kill_switches, use_capability, check_capability, capability_stage,
  evaluate_chain,
}

module _ {env : Env} {I : World → Type 0} (frame : Framed env I) where
  Keeps-switch_or :
      (k : Option KillSwitchRow) (next : App KillSwitchStatus)
      → Keeps I next
      → Keeps I (switch_or k next)
  unfolding switch_or
  Keeps-switch_or none next h = h
  Keeps-switch_or (some k) next h = search (keeps_rules)

  Keeps-check_repository : (action : Action) → Keeps I (check_repository action)
  unfolding check_repository check_kill_switch
  Keeps-check_repository action =
      search (keeps_rules, Keeps-read_db frame, Keeps-switch_or) depth 30

  Keeps-check_kill_switches :
      (p : Precedence) (action : Action) → Keeps I (check_kill_switches p action)
  unfolding check_kill_switches
  Keeps-check_kill_switches p action = search (keeps_rules, Keeps-check_repository)

  Keeps-use_capability :
      (action : Action) (token : String) (cap : Option CapabilityRow)
      → Keeps I (use_capability env action token cap)
  unfolding use_capability
  Keeps-use_capability action token none = search (keeps_rules)
  Keeps-use_capability action token (some cap) =
      search (keeps_rules, Keeps-consume_capability frame) depth 10

  Keeps-check_capability :
      (p : Precedence) (action : Action) (token : String)
      → Keeps I (check_capability env p action token)
  unfolding check_capability get_capability
  Keeps-check_capability p action token =
      Keeps-option (verifier_for p token) _ _
        (Keeps-bind _ _ (Keeps-read_db frame _) λ cap. Keeps-use_capability action token cap)
        λ v.
          Keeps-bind _ _
            (Keeps-verify_token frame v token (verifier_context action) action.action_name
              (some action.resource))
            λ r. search (keeps_rules)

  Keeps-capability_stage :
      (p : Precedence) (action : Action) (token : Option String)
      → Keeps I (capability_stage env p action token)
  unfolding capability_stage
  Keeps-capability_stage p action none = search (keeps_rules)
  Keeps-capability_stage p action (some token) =
      search (keeps_rules, Keeps-check_capability) depth 10

  pub Keeps-evaluate_chain :
      (p : Precedence) (action : Action) (snapshot : Option PolicySnapshot) (token : Option String)
      (context : Fields)
      → Keeps I (evaluate_chain env p action snapshot token context)
  unfolding evaluate_chain
  Keeps-evaluate_chain p action snapshot token context =
      Keeps-bind _ _ (Keeps-check_kill_switches p action) λ kill.
        Keeps-if kill.active _ _ (Keeps-pure _) (
          Keeps-bind _ _ (Keeps-capability_stage p action token)
            λ cap. Keeps-option (refused cap) _ _ (Keeps-lift _) λ r. search (keeps_rules))
