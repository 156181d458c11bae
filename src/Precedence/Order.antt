-- ===== src/Precedence/Order.antt =====
-- apps/runtime/citadel/utils/precedence.py: the order of the checks.
use ledger_sdk.Prelude.{
  String, Bool, true, Option, none, some, List, find_by, any, ◌≡◌, refl, ap, ◌∙◌, inl, inr, arith,
  str_or, false_elim, if_true, if_false, Bool-cases, Option-cases, [], ◌∷◌,
}
use ledger_sdk.Values.{Fields}
use ledger_sdk.Exec.{bind_ok, Result, ok}
use ledger_sdk.Exec.Keeps.{Keeps, Keeps-pure, keeps_rules}
use ledger_sdk.Actions.{Action, blocked_emergency}
use ledger_sdk.Db.{Env, App, World, KillSwitchRow}
use ledger_sdk.Repository.{check_kill_switch, global_row, switch_row}
use ledger_sdk.PolicyResolver.{PolicySnapshot}
use ledger_sdk.Precedence.{
  Precedence, PrecedenceResult, KillSwitchStatus, evaluate_chain, blocked_by, check_kill_switches,
  check_repository, switch_or, memory_switch,
}

-- The state is the one the method started in.
abbrev SameAs : World → World → Type 0
SameAs w w' = w' ≡ w

ReadOnly-switch_or :
    (v : World) (k : Option KillSwitchRow) (next : App KillSwitchStatus)
    → Keeps (SameAs v) next
    → Keeps (SameAs v) (switch_or k next)
unfolding switch_or
ReadOnly-switch_or v none next h = h
ReadOnly-switch_or v (some k) next h = Keeps-pure _

ReadOnly-check_kill_switch :
    (v : World) (type val : String) (tid : Option String)
    → Keeps (SameAs v) (check_kill_switch type val tid)
unfolding check_kill_switch
ReadOnly-check_kill_switch v type val tid = record { kept = λ w h. h }

ReadOnly-check_kill_switches :
    (v : World) (p : Precedence) (action : Action) → Keeps (SameAs v) (check_kill_switches p action)
unfolding check_kill_switches check_repository
ReadOnly-check_kill_switches v p action =
    search (keeps_rules, ReadOnly-check_kill_switch, ReadOnly-switch_or) depth 30

-- A kill switch that the checks find decides alone: the chain answers that the action is blocked
-- by an emergency, whatever the token and the policy, and nothing is written, so that no
-- capability is consumed.
evaluate_chain-killed :
    (env : Env) (p : Precedence) (action : Action) (snapshot : Option PolicySnapshot)
    (token : Option String) (context : Fields) (w : World) (kill : KillSwitchStatus)
    → (check_kill_switches p action w).0 ≡ ok kill
    → kill.active ≡ true
    → evaluate_chain env p action snapshot token context w ≡ (
      ok (
          blocked_by blocked_emergency "kill_switch_active"
            (str_or kill.reason "Emergency kill switch active")
            none
            none),
      w,
    )
unfolding evaluate_chain
evaluate_chain-killed env p action snapshot token context w kill e active =
    bind_ok _ _ w w kill (
      pair (check_kill_switches p action w) e
        ((ReadOnly-check_kill_switches w p action).kept w refl))
    ∙ ap (λ (m : App PrecedenceResult). m w) (if_true kill.active _ _ active)
  where
    pair : (r : Result KillSwitchStatus × World) → r.0 ≡ ok kill → r.1 ≡ w → r ≡ (ok kill, w)
    pair (a, b) e f = cc

found :
    (f : KillSwitchRow → Bool) (rows : List KillSwitchRow)
    → any f rows ≡ true
    → (k : KillSwitchRow) × (find_by f rows ≡ some k)
found f [] h = false_elim h
found f (x ∷ xs) h = elim (Bool-cases (f x)) [
  | inl e ↦ (x, ground (arith, e))
  | inr e ↦ (let (k, q) = found f xs (ground (arith, e, h)) in (k, ground (arith, e, q)))
]

global_found :
    (tid : Option String) (w : World)
    → any global_row w.db.kill_switches ≡ true
    → (k : KillSwitchRow) × (check_kill_switch "global" "*" tid w ≡ (ok (some k), w))
unfolding check_kill_switch
global_found tid w h =
    elim (Option-cases (find_by (switch_row "global" "*" tid) w.db.kill_switches)) [
      | inr (k, e) ↦ (
        k,
        ap
            (λ o.
              (ok (elim o [ some k ↦ some k | none ↦ find_by global_row w.db.kill_switches ]), w))
            e,
      )
      | inl n ↦
          (let (k, e) = found global_row w.db.kill_switches h in
            (
              k,
              ap
                    (λ o. (
                      ok (elim o [
                        | some k ↦ some k
                        | none ↦ find_by global_row w.db.kill_switches
                      ]),
                      w,
                    ))
                    n
                  ∙ ap (λ o. (ok o, w)) e,
            ))
    ]

repository_off :
    (action : Action) (w : World)
    → any global_row w.db.kill_switches ≡ true
    → (kill : KillSwitchStatus) × (check_repository action w ≡ (ok kill, w)) × (kill.active ≡ true)
unfolding check_repository switch_or
repository_off action w h =
    let (k, q) = global_found action.tenant_id w h in
    (record { active = true; reason = k.reason }, bind_ok _ _ w w (some k) q, refl)

switches_off :
    (p : Precedence) (action : Action) (w : World)
    → any global_row w.db.kill_switches ≡ true
    → (kill : KillSwitchStatus) × (check_kill_switches p action w ≡ (ok kill, w))
      × (kill.active ≡ true)
unfolding check_kill_switches
switches_off p action w h = elim (Bool-cases (memory_switch p action).active) [
  | inl e ↦ (
    memory_switch p action,
    ap (λ (m : App KillSwitchStatus). m w) (if_true (memory_switch p action).active _ _ e),
    e,
  )
  | inr e ↦
      (let (kill, q, active) = repository_off action w h in
        (
          kill,
          ap (λ (m : App KillSwitchStatus). m w) (if_false (memory_switch p action).active _ _ e)
              ∙ q,
          active,
        ))
]

-- An enabled global switch in the database blocks every action with the status of an emergency,
-- whatever the token, the policy and the in-memory switches; nothing is written.
pub evaluate_chain-global :
    (env : Env) (p : Precedence) (action : Action) (snapshot : Option PolicySnapshot)
    (token : Option String) (context : Fields) (w : World)
    → any global_row w.db.kill_switches ≡ true
    → (r : PrecedenceResult) × (evaluate_chain env p action snapshot token context w ≡ (ok r, w))
      × (r.blocked ≡ true)
      × (r.status ≡ some blocked_emergency)
evaluate_chain-global env p action snapshot token context w h =
    let (kill, e, active) = switches_off p action w h in
    (
      _,
      evaluate_chain-killed env p action snapshot token context w kill (ap (λ r. r.0) e) active,
      refl,
      refl,
    )
