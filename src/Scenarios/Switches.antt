-- ===== src/Scenarios/Switches.antt =====
-- Kill switches that are triggered and released, and a capability that is used.
use ledger_sdk.Prelude.{◌≤◌, true, false, none, some, [], ◌∷◌, ◌≡◌, ◌↔◌, ◌⊎◌, refl}
use ledger_sdk.GovernanceDecision.{tenant}
use ledger_sdk.KillSwitch.{KillSwitchRecord, KillSwitch, trigger, release, check, lookup}
use ledger_sdk.KillSwitch.Laws.{Asks, trigger-check, release_lem, release-trigger}
use ledger_sdk.Capabilities.{validate_row, matches_scope}
use ledger_sdk.Capabilities.Consumption.{validate_row-valid}
use ledger_sdk.Db.{World}
use ledger_sdk.Repository.Consume.{
  MayUse, Refused, Used, consume_capability-outcome, successes, successes-bound,
}
use ledger_sdk.Scenarios.{env, empty_db, world_of, action, capability}

abbrev none_active : KillSwitch
none_active = record { switches = []; audit = []; drawn = 0 }

abbrev after : KillSwitch
after = (trigger env.uuid4 1000 tenant "acme" "ops" "human" "incident" none_active).1

trigger-check_example :
    ((check after "agent" (some "acme") none).active ≡ true)
    × (lookup tenant "acme" after.switches
        ≡ some (trigger env.uuid4 1000 tenant "acme" "ops" "human" "incident" none_active).0)
unfolding Asks
trigger-check_example =
    trigger-check env.uuid4 1000 tenant "acme" "ops" "human" "incident" none_active "agent"
      (some "acme") none refl

release_example :
    ((lookup tenant "acme" after.switches ≡ none)
      × ((release tenant "acme" "ops" "over" after).0 ≡ false)
      × ((release tenant "acme" "ops" "over" after).1 ≡ after))
    ⊎ ((r : KillSwitchRecord) × (lookup tenant "acme" after.switches ≡ some r)
        × ((release tenant "acme" "ops" "over" after).0 ≡ true)
        × (lookup tenant "acme" (release tenant "acme" "ops" "over" after).1.switches ≡ none)
        × (lookup tenant "other" (release tenant "acme" "ops" "over" after).1.switches
            ≡ lookup tenant "other" after.switches))
release_example = release_lem tenant "acme" "ops" "over" after tenant "other" refl

release-trigger_example : (release tenant "acme" "ops" "incident" after).1.switches ≡ []
unfolding lookup
release-trigger_example =
    release-trigger env.uuid4 1000 tenant "acme" "ops" "human" "incident" none_active refl

abbrev capable : World
capable = world_of (record empty_db { capabilities = capability ∷ [] })

consume_capability-outcome_example :
    Refused env "cap" "agent" capable ⊎ Used env "cap" "agent" capable
consume_capability-outcome_example = consume_capability-outcome env "cap" "agent" capable

successes-bound_example :
    successes "cap" ((env, "agent") ∷ (env, "agent") ∷ (env, "agent") ∷ []) capable ≤ 2
successes-bound_example =
    successes-bound "cap" ((env, "agent") ∷ (env, "agent") ∷ (env, "agent") ∷ []) capable capability
      refl

validate_row-valid_example :
    ((validate_row env action capability).valid ≡ true)
    ↔ (MayUse env "agent" capability × (matches_scope capability action ≡ true))
validate_row-valid_example = validate_row-valid env action capability
