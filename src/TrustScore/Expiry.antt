-- ===== src/TrustScore/Expiry.antt =====
-- apps/runtime/citadel/agent_identity/trust_score.py: a new snapshot takes the place of the
-- latest one of its actor that is valid now.
use ledger_sdk.Prelude.{
  ℕ, suc, ◌≤◌, ◌≡◌, refl, inl, inr, String, Option, none, some, List, [], ◌∷◌, ◌==◌, count_where,
  arith, Bool-cases, Option-cases, eq_refl, eq_iff,
}
use ledger_sdk.TrustScore.{SnapshotRow, TrustDb, TrustEnv, is_current, latest}
use ledger_sdk.TrustScore.Snapshots.{
  Cause, NewSnapshot, id_of, get_previous_snapshot, expire, expired, snapshot_row, create_snapshot,
  insert_snapshot,
}
use ledger_sdk.Exec.{Exn}

abbrev currents : String → List SnapshotRow → ℕ
currents actor rows = count_where (is_current actor) rows

abbrev pub OneCurrent : TrustDb → Type 0
OneCurrent db = (actor : String) → currents actor db.snapshots ≤ 1

expire-le :
    (now : ℕ) (reason id actor : String) (rows : List SnapshotRow)
    → currents actor (expire now reason id rows) ≤ currents actor rows
expire-le now reason id actor [] = omega arith
expire-le now reason id actor (s ∷ rows) = ground (arith, expire-le now reason id actor rows)

latest-none :
    (actor : String) (rows : List SnapshotRow) → latest actor rows ≡ none → currents actor rows ≡ 0
unfolding latest
latest-none actor [] h = refl
latest-none actor (s ∷ rows) h = ground (arith, latest-none actor rows)

-- The latest current snapshot, once expired, is one fewer.
latest-expired :
    (now : ℕ) (reason actor : String) (rows : List SnapshotRow) (s : SnapshotRow)
    → latest actor rows ≡ some s
    → suc (currents actor (expire now reason s.snapshot_id rows)) ≤ currents actor rows
unfolding latest
latest-expired now reason actor [] s h = ground (arith, h)
latest-expired now reason actor (r ∷ rows) s h = ground (
  arith,
  expire-le now reason s.snapshot_id actor rows,
  latest-expired now reason actor rows s,
  eq_refl s.snapshot_id,
)

expired-le :
    (env : TrustEnv) (cause : Cause) (o : Option SnapshotRow) (actor : String)
    (rows : List SnapshotRow)
    → currents actor (expired env cause (id_of o) rows) ≤ currents actor rows
expired-le env cause none actor rows = omega arith
expired-le env cause (some s) actor rows = expire-le env.now _ s.snapshot_id actor rows

-- Once the latest is expired, none is current.
expired-zero :
    (env : TrustEnv) (cause : Cause) (actor : String) (rows : List SnapshotRow)
    → currents actor rows ≤ 1
    → currents actor (expired env cause (id_of (latest actor rows)) rows) ≡ 0
expired-zero env cause actor rows h = elim (Option-cases (latest actor rows)) [
  | inl e ↦ rw e (latest-none actor rows e)
  | inr (s, e) ↦ rw e (omega (arith, latest-expired env.now _ actor rows s e))
]

-- With the new snapshot there is one for its actor, and not more than before for another.
added :
    (env : TrustEnv) (n : NewSnapshot) (cause : Cause) (rows : List SnapshotRow) (id actor : String)
    → currents actor rows ≤ 1
    → currents actor (
        snapshot_row env n cause (id_of (latest n.agent_id rows)) id
        ∷ expired env cause (id_of (latest n.agent_id rows)) rows)
      ≤ 1
added env n cause rows id actor h = elim (Bool-cases (n.agent_id == actor)) [
  | inl e ↦
      let same = (eq_iff n.agent_id actor).0 e in
      rw e (rw same (omega (arith, expired-zero env cause actor rows h)))
  | inr e ↦ rw e (omega (arith, expired-le env cause (latest n.agent_id rows) actor rows))
]

pub create-OneCurrent :
    (env : TrustEnv) (n : NewSnapshot) (cause : Cause) (db : TrustDb)
    → OneCurrent db
    → OneCurrent
        (create_snapshot env n cause (id_of (get_previous_snapshot env n.agent_id db)) db).1
unfolding create_snapshot get_previous_snapshot
create-OneCurrent env n cause db one = elim (Bool-cases env.db_pool) [
  | inr e ↦ rw e one
  | inl e ↦ rw e (inserted _)
]
  where
    inserted :
        (o : Option Exn)
        → OneCurrent (insert_snapshot env n cause (id_of (latest n.agent_id db.snapshots)) o db).1
    inserted none =
        λ actor. added env n cause db.snapshots (env.gen_random_uuid db.drawn) actor (one actor)
    inserted (some x) = λ actor.
        omega (
          arith,
          expired-le env cause (latest n.agent_id db.snapshots) actor db.snapshots,
          one actor,
        )
