-- ===== src/Executor.antt =====
-- apps/runtime/citadel/execution/executor.py: the run of an action that passed. The function to
-- call stands as what its call gives: a value, or an exception.
use ledger_sdk.Prelude.{Option, none, some}
use ledger_sdk.Values.{Value, object, text, field, end}
use ledger_sdk.Exec.{Result, ok}
use ledger_sdk.Actions.{Action}

unfoldable pub run : Action → Option (Result Value) → Result Value
run action none =
    ok (object (field "status" (text "allowed") (field "action" (text action.action_name) end)))
run action (some result) = result

unfoldable pub execute : Action → Option (Result Value) → Result Value
unfolding run
execute action func = run action func
