-- ===== src/Repository/Frame.antt =====
-- apps/runtime/citadel/core/repository.py: what the reads and writes of the kernel leave alone, for
-- any predicate of the state that looks at the audit log and at the vault's tables only.
use ledger_sdk.Prelude.{ℕ, String, Option, none, some, ◌≡◌, refl}
use ledger_sdk.Values.{Fields}
use ledger_sdk.Db.{CapabilityRow, Db, Env, World, fresh, read_db, set_db}
use ledger_sdk.Exec.{Result, ok}
use ledger_sdk.Exec.Keeps.{Keeps}
use ledger_sdk.Repository.{
  ConsumeResult, refusal, use_found, save_audit_event, consume_capability, consume_found,
  consume_row,
}

-- Neither the audit log nor a table of the vault differs.
abbrev pub Untouched : Db → Db → Type 0
Untouched db' db =
    (db'.audit_events ≡ db.audit_events)
    × (db'.governance_decisions ≡ db.governance_decisions)
    × (db'.governance_tokens ≡ db.governance_tokens)

-- A predicate that survives draws, the writes of other tables, and the events of the audit log.
pub record Framed (env : Env) (I : World → Type 0) : Type 0 where
  pub drew : (w : World) (n : ℕ) → I w → I (record w { drawn = n })
  pub wrote : (w : World) (db : Db) → Untouched db w.db → I w → I (record w { db = db })
  pub logged :
      (action_id event_type : String) (payload : Fields) (actor tid : Option String)
      → Keeps I (save_audit_event env action_id event_type payload actor tid)

module _ {env : Env} {I : World → Type 0} (frame : Framed env I) where
  pub Keeps-fresh : (env' : Env) → Keeps I (fresh env')
  Keeps-fresh env' = record { kept = λ w h. frame.drew w _ h }

  pub Keeps-read_db : {A : Type 0} (f : Db → A) → Keeps I (read_db f)
  Keeps-read_db f = record { kept = λ w h. h }

  pub Keeps-set_db :
      (f : Db → Db)
      → ((db : Db) → (f db).audit_events ≡ db.audit_events)
      → ((db : Db) → (f db).governance_decisions ≡ db.governance_decisions)
      → ((db : Db) → (f db).governance_tokens ≡ db.governance_tokens)
      → Keeps I (set_db f)
  Keeps-set_db f log decisions tokens = record {
    kept = λ w h. frame.wrote w (f w.db) (log w.db, decisions w.db, tokens w.db) h;
  }

  pub Keeps-save_audit_event :
      (action_id event_type : String) (payload : Fields) (actor tid : Option String)
      → Keeps I (save_audit_event env action_id event_type payload actor tid)
  Keeps-save_audit_event = frame.logged

  found_kept :
      (env' : Env) (token actor : String) (w : World) (c : Option CapabilityRow)
      → I w
      → I (consume_found env' token actor c w).1
  unfolding consume_found
  found_kept env' token actor w none h = h
  found_kept env' token actor w (some c) h = after (consume_row env' actor c)
    where
      after :
          (e : Option String)
          → I
              (elim e as (λ _. Result ConsumeResult × World) [
                | some m ↦ (ok (refusal m), w)
                | none ↦ use_found token c w
              ]).1
      after none = frame.wrote w _ (refl, refl, refl) h
      after (some m) = h

  pub Keeps-consume_capability :
      (env' : Env) (token actor : String) → Keeps I (consume_capability env' token actor)
  unfolding consume_capability
  Keeps-consume_capability env' token actor = record {
    kept = λ w h. found_kept env' token actor w _ h;
  }
