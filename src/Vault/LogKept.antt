-- ===== src/Vault/LogKept.antt =====
-- apps/runtime/citadel/tokens/token_vault.py: the reads that the verifier makes leave the audit log
-- of the kernel alone.
use ledger_sdk.Prelude.{String, Option, none, some, ◌≡◌}
use ledger_sdk.Exec.{pure}
use ledger_sdk.Exec.Keeps.{Keeps-pure, Keeps-option, Keeps-bind, Keeps-bind, Keeps, keeps_rules}
use ledger_sdk.GovernanceDecision.{GovernanceDecision}
use ledger_sdk.Db.{Env, World}
use ledger_sdk.Repository.Frame.{Framed, Keeps-read_db}
use ledger_sdk.Vault.{check_ancestry, check_one, resolve_decision}

module _ {env : Env} {I : World → Type 0} (frame : Framed env I) where
  Keeps-check_one :
      (env' : Env) (who : String) (id : Option String) (tid : Option String)
      → Keeps I (check_one env' who id tid)
  unfolding check_one resolve_decision
  Keeps-check_one env' who none tid = search (keeps_rules)
  Keeps-check_one env' who (some id) tid = search (keeps_rules, Keeps-read_db frame) depth 10

  pub Keeps-check_ancestry : (env' : Env) (d : GovernanceDecision) → Keeps I (check_ancestry env' d)
  unfolding check_ancestry
  Keeps-check_ancestry env' d =
      Keeps-bind _ _ (Keeps-check_one env' "parent" _ (some d.tenant_id)) λ fault.
        Keeps-option fault _ _ (Keeps-check_one env' "root" _ (some d.tenant_id)) Keeps-pure'
    where
      Keeps-pure' : (r : String) → Keeps I (pure (some r))
      Keeps-pure' r = search (keeps_rules)

-- The vault's reads write nothing at all.
module _ (v : World) where
  abbrev Same : World → Type 0
  Same w = w ≡ v

  ReadOnly-check_one :
      (env : Env) (who : String) (id : Option String) (tid : Option String)
      → Keeps Same (check_one env who id tid)
  unfolding check_one resolve_decision
  ReadOnly-check_one env who none tid = Keeps-pure _
  ReadOnly-check_one env who (some id) tid =
      Keeps-bind _ _ (record { kept = λ w h. h }) λ a. Keeps-pure _

  pub ReadOnly-check_ancestry :
      (env : Env) (d : GovernanceDecision) → Keeps Same (check_ancestry env d)
  unfolding check_ancestry
  ReadOnly-check_ancestry env d =
      Keeps-bind _ _ (ReadOnly-check_one env "parent" _ (some d.tenant_id)) λ fault.
        Keeps-option fault _ _ (ReadOnly-check_one env "root" _ (some d.tenant_id))
          λ r. search (keeps_rules)
