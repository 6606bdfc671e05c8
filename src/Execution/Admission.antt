-- ===== src/Execution/Admission.antt =====
-- `assertCommandAllowed`: what may be asked of the driver while operations are in flight.
use cuda_js.Base.{Bool, true, false, ltb, ◌==◌, if◌then◌else◌, length}
use cuda_js.Base.Outcome.{Outcome, returned, thrown}
use cuda_js.Failure.{Failure, failure, backpressure}
use cuda_js.Driver.Operations.{Operation}
use cuda_js.Execution.Scheduler.{Scheduler, busy}

-- PENDING_OPERATION_COMMANDS
abbrev beside_operations : Operation → Bool
beside_operations Operation.execution_operation_status = true
beside_operations Operation.execution_operation_release = true
beside_operations Operation.execution_operation_timeout = true
beside_operations Operation.execution_prepared_status = true
beside_operations Operation.execution_prepared_release = true
beside_operations Operation.memory_view_status = true
beside_operations Operation.memory_view_release = true
beside_operations Operation.mailbox_status = true
beside_operations Operation.mailbox_reset = true
beside_operations Operation.mailbox_release = true
beside_operations Operation.cublaslt_status = true
beside_operations Operation.cublaslt_release = true
beside_operations Operation.cublaslt_plan_status = true
beside_operations Operation.cublaslt_plan_release = true
beside_operations Operation.runtime_close = true
beside_operations _ = false

-- The commands that submit another operation.
abbrev pub is_submission : Operation → Bool
is_submission Operation.execution_submit = true
is_submission Operation.execution_prepared_submit = true
is_submission Operation.memory_transfer_h2d = true
is_submission Operation.memory_transfer_d2h = true
is_submission Operation.memory_transfer_d2d = true
is_submission _ = false

abbrev blocked : Failure
blocked = failure "EXECUTION_COMMAND_BLOCKED" backpressure

-- The branch of a submission.
unfoldable pub submission_allowed : Scheduler → Outcome Failure (Unit {0})
submission_allowed s =
    if ltb (length s.in_flight) s.max_pending
    then returned tt
    else if ltb 1 s.max_pending
    then thrown busy
    else thrown blocked

-- `assertCommandAllowed`
unfoldable pub assert_command_allowed : Scheduler → Operation → Outcome Failure (Unit {0})
unfolding submission_allowed
assert_command_allowed s command =
    if length s.in_flight == 0
    then returned tt
    else if beside_operations command
    then returned tt
    else if is_submission command
    then submission_allowed s
    else thrown blocked
