-- ===== src/Repository/Chain.antt =====
-- apps/runtime/citadel/core/repository.py, the log of audit events: every event holds the hash of
-- the one before it, and the numbers of the events increase.
use ledger_sdk.Prelude.{
  or_else, ◌<>◌, suc, ◌<◌, arith, none, some, String, Option, List, [], ◌∷◌, ◌≡◌, refl, sym,
}
use mathlib.Core.Path.{subst}
use ledger_sdk.Values.{Fields}
use ledger_sdk.Db.{Env, World, AuditEvent}
use ledger_sdk.Exec.{Exn, ◌>>=◌}
use ledger_sdk.Exec.Keeps.{Keeps}
use ledger_sdk.Repository.Frame.{Framed}
use ledger_sdk.Repository.{
  save_audit_event, insert_event, stamped, event_data, row_text, genesis_hash, last_hash, last_id,
}

-- The hash of an event is that of its own fields, the previous hash among them, at some instant.
pub HasHash : Env → AuditEvent → Type 0
HasHash env e =
    (ts : String) × (e.event_hash
      ≡ env.sha256 (
          e.action_id
          <> e.event_type
          <> ts
          <> env.jsonb_text e.payload
          <> e.prev_hash
          <> or_else e.actor_id ""))

-- The event holds the hash of the one before it, and a greater number; the first one holds the
-- genesis hash.
abbrev pub IsLinked : AuditEvent → List AuditEvent → Type 0
IsLinked e [] = e.prev_hash ≡ genesis_hash
IsLinked e (before ∷ es) = (e.prev_hash ≡ before.event_hash) × (before.event_id < e.event_id)

unfoldable pub IsChained : Env → List AuditEvent → Type 0
unfolding HasHash
IsChained env [] = Unit
IsChained env (e ∷ es) = IsLinked e es × HasHash env e × IsChained env es

abbrev pub AuditKept : Env → World → Type 0
AuditKept env w = IsChained env w.db.audit_events

pub save_audit_event-IsChained :
    (env : Env) (action_id : String) (event_type : String) (payload : Fields)
    (actor : Option String) (tid : Option String)
    → Keeps (AuditKept env) (save_audit_event env action_id event_type payload actor tid)
unfolding save_audit_event IsChained HasHash row_text ◌>>=◌
save_audit_event-IsChained env action_id event_type payload actor tid = record {
  kept = λ w h.
      let drew : World = record w { drawn = suc w.drawn } in
      let prev = last_hash w.db.audit_events in
      let given : AuditEvent = record {
        event_id = 0;
        action_id = action_id;
        event_type = event_type;
        payload = payload;
        prev_hash = prev;
        event_hash = env.sha256 (
            event_data env.dumps env.utcnow_iso (env.uuid4 w.drawn) action_id event_type payload
              prev actor);
        actor_id = actor;
        tenant_id = tid;
      } in
      inserted drew (stamped env drew given) _ h (
        linked (stamped env drew given) w.db.audit_events refl (omega arith),
        (env.now_text, refl),
        h,
      );
}
  where
    inserted :
        (w : World) (e : AuditEvent) (o : Option Exn)
        → AuditKept env w
        → IsChained env (e ∷ w.db.audit_events)
        → AuditKept env (insert_event e o w).1
    inserted w e none h k = k
    inserted w e (some x) h k = h

    linked :
        (e : AuditEvent) (es : List AuditEvent)
        → e.prev_hash ≡ last_hash es
        → last_id es < e.event_id
        → IsLinked e es
    linked e [] h k = h
    linked e (before ∷ es) h k = (h, k)

kept_by : (env : Env) {es fs : List AuditEvent} → fs ≡ es → IsChained env es → IsChained env fs
kept_by env e h = subst (IsChained env) (sym e) h

-- The chain is such a predicate.
pub audit_frame : (env : Env) → Framed env (AuditKept env)
audit_frame env = record {
  drew = λ w n h. h;
  wrote = λ w db same h. kept_by env same.0 h;
  logged = save_audit_event-IsChained env;
}
