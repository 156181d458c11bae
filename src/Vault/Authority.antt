-- ===== src/Vault/Authority.antt =====
-- apps/runtime/citadel/tokens/token_vault.py: the decisions and tokens of the vault, which the reads
-- and writes of the kernel leave alone.
use ledger_sdk.Prelude.{suc, none, some, String, Option, ◌≡◌, refl, ◌∙◌}
use ledger_sdk.Values.{Fields}
use ledger_sdk.Exec.{Result, ok, raised, Exn, ◌>>=◌}
use ledger_sdk.Exec.Keeps.{Keeps}
use ledger_sdk.Db.{Env, World, AuditEvent}
use ledger_sdk.Repository.{save_audit_event, insert_event}
use ledger_sdk.Repository.Frame.{Framed}

-- The decisions and tokens are those of `v`.
abbrev pub SameAuthority : World → World → Type 0
SameAuthority v w =
    (w.db.governance_decisions ≡ v.db.governance_decisions)
    × (w.db.governance_tokens ≡ v.db.governance_tokens)

Keeps-logged :
    (env : Env) (v : World) (action_id event_type : String) (payload : Fields)
    (actor tid : Option String)
    → Keeps (SameAuthority v) (save_audit_event env action_id event_type payload actor tid)
unfolding save_audit_event ◌>>=◌
Keeps-logged env v action_id event_type payload actor tid = record {
  kept = λ w h. inserted (record w { drawn = suc w.drawn }) _ _ h;
}
  where
    inserted :
        (w : World) (e : AuditEvent) (o : Option Exn)
        → SameAuthority v w
        → SameAuthority v (insert_event e o w).1
    inserted w e none h = h
    inserted w e (some x) h = h

-- An append to the log leaves the authority alone; one that raises is of a row of the event's type
-- that the table refuses.
abbrev pub Logs : {A : Type 0} → Env → String → World → Result A × World → Type 0
Logs env event_type w (ok n, w') = SameAuthority w w'
Logs env event_type w (raised x, w') =
    SameAuthority w w'
    × ((e : AuditEvent) × (u : World) × (e.event_type ≡ event_type)
        × (env.audit_refusal e u ≡ some x))

pub save_audit_event-Logs :
    (env : Env) (action_id event_type : String) (payload : Fields) (actor tid : Option String)
    (w : World)
    → Logs env event_type w (save_audit_event env action_id event_type payload actor tid w)
unfolding save_audit_event ◌>>=◌
save_audit_event-Logs env action_id event_type payload actor tid w =
    inserted (record w { drawn = suc w.drawn }) _ _ (refl, refl) refl refl
  where
    inserted :
        (u : World) (e : AuditEvent) (o : Option Exn)
        → SameAuthority w u
        → e.event_type ≡ event_type
        → env.audit_refusal e u ≡ o
        → Logs env event_type w (insert_event e o u)
    inserted u e none h t r = h
    inserted u e (some x) h t r = (h, (e, u, t, r))

pub authority_frame : (env : Env) (v : World) → Framed env (SameAuthority v)
authority_frame env v = record {
  drew = λ w n h. h;
  wrote = λ w db same h. (same.1 ∙ h.0, same.2 ∙ h.1);
  logged = Keeps-logged env v;
}
