-- ===== src/Driver/Requests.antt =====
-- `validateRequest`: the envelope of a command, and the dispatch to the test of its payload. The
-- request's id, which an error carries, is left out.
use cuda_js.Base.{Bool, false, ◌&&◌, Option, none, some, [], ◌∷◌, ◌==◌, if◌then◌else◌}
use cuda_js.Base.Outcome.{Outcome, returned, ◌>>=◌, ◌>>◌, require, or_throw}
use cuda_js.Js.{Text, text, Value, natural, field, string_of}
use cuda_js.Failure.{Failure}
use cuda_js.Mailbox.Lanes.{is_exact}
use cuda_js.Driver.Operations.{Operation, base_operations, test_operations, find_operation}
use cuda_js.Driver.Shapes.{empty_payload, token_payload, is_positive, is_at_most}
use cuda_js.Driver.Payloads.{
  Limits, refused, want, want_also, view_payload, mailbox_payload, write_payload, read_payload,
  upload_payload, download_payload, copy_payload,
}
use cuda_js.Driver.Commands.{
  module_payload, function_payload, launch_payload, prepare_payload, continuation_payload,
  prepared_submit_payload, plan_payload, product_payload, inject_payload, mode_payload,
}
use cuda_js.Driver.Shapes.{is_token}

-- `allowed`
unfoldable pub allowed_operation : Bool → Text → Option Operation
unfolding find_operation
allowed_operation test_hooks t = elim (find_operation t base_operations) [
  | some operation ↦ some operation
  | none ↦ if test_hooks then find_operation t test_operations else none
]

-- The payload of mailbox.reset.
unfoldable pub reset_payload : Value → Bool
unfolding is_exact field is_token is_positive
reset_payload payload =
    is_exact payload (text "token" ∷ text "generation" ∷ [])
    && (is_token (field payload (text "token")) && is_positive (field payload (text "generation")))

-- The payloads of memory.allocate and of testing.block.
unfoldable pub allocate_payload : Value → Bool
unfolding is_exact field is_positive
allocate_payload payload =
    is_exact payload (text "byteLength" ∷ []) && is_positive (field payload (text "byteLength"))

unfoldable pub block_payload : Value → Bool
unfolding is_exact field is_positive is_at_most
block_payload payload =
    is_exact payload (text "milliseconds" ∷ [])
    && (is_positive (field payload (text "milliseconds"))
        && is_at_most (field payload (text "milliseconds")) 2000)

-- The branches of `validateRequest` on its operation.
unfoldable pub check_payload : Limits → Operation → Value → Outcome Failure (Unit {0})
unfolding empty_payload token_payload allocate_payload view_payload mailbox_payload reset_payload
    write_payload read_payload upload_payload download_payload copy_payload module_payload
    function_payload launch_payload prepare_payload continuation_payload prepared_submit_payload
    plan_payload product_payload block_payload inject_payload mode_payload
check_payload l Operation.runtime_describe p = want (empty_payload p) "DRIVER_COMMAND_PAYLOAD"
check_payload l Operation.runtime_close p = want (empty_payload p) "DRIVER_COMMAND_PAYLOAD"
check_payload l Operation.context_status p = want (token_payload p) "DRIVER_CONTEXT_TOKEN"
check_payload l Operation.memory_allocate p = want (allocate_payload p) "MEMORY_RANGE_INVALID"
check_payload l Operation.memory_status p = want (token_payload p) "DRIVER_MEMORY_TOKEN"
check_payload l Operation.memory_release p = want (token_payload p) "DRIVER_MEMORY_TOKEN"
check_payload l Operation.memory_view_create p = want (view_payload p) "MEMORY_VIEW_OPTIONS_INVALID"
check_payload l Operation.memory_view_status p = want (token_payload p) "DRIVER_MEMORY_VIEW_TOKEN"
check_payload l Operation.memory_view_release p = want (token_payload p) "DRIVER_MEMORY_VIEW_TOKEN"
check_payload l Operation.mailbox_create p =
    want (mailbox_payload p) "MEMORY_MAILBOX_OPTIONS_INVALID"
check_payload l Operation.mailbox_status p = want (token_payload p) "MEMORY_MAILBOX_TOKEN"
check_payload l Operation.mailbox_release p = want (token_payload p) "MEMORY_MAILBOX_TOKEN"
check_payload l Operation.mailbox_reset p = want (reset_payload p) "MEMORY_MAILBOX_RESET"
check_payload l Operation.memory_write p = write_payload l p
check_payload l Operation.memory_read p = read_payload l p
check_payload l Operation.memory_transfer_h2d p = want (upload_payload l p) "DRIVER_MEMORY_TRANSFER"
check_payload l Operation.memory_transfer_d2h p =
    want (download_payload l p) "DRIVER_MEMORY_TRANSFER"
check_payload l Operation.memory_transfer_d2d p = want (copy_payload l p) "DRIVER_MEMORY_TRANSFER"
check_payload l Operation.execution_module_load p =
    want (module_payload l p) "EXECUTION_MODULE_BYTES"
check_payload l Operation.execution_module_status p =
    want (token_payload p) "DRIVER_EXECUTION_TOKEN"
check_payload l Operation.execution_module_release p =
    want (token_payload p) "DRIVER_EXECUTION_TOKEN"
check_payload l Operation.execution_function_status p =
    want (token_payload p) "DRIVER_EXECUTION_TOKEN"
check_payload l Operation.execution_function_release p =
    want (token_payload p) "DRIVER_EXECUTION_TOKEN"
check_payload l Operation.execution_operation_status p =
    want (token_payload p) "DRIVER_EXECUTION_TOKEN"
check_payload l Operation.execution_operation_release p =
    want (token_payload p) "DRIVER_EXECUTION_TOKEN"
check_payload l Operation.execution_operation_timeout p =
    want (token_payload p) "DRIVER_EXECUTION_TOKEN"
check_payload l Operation.execution_prepared_status p =
    want (token_payload p) "DRIVER_EXECUTION_TOKEN"
check_payload l Operation.execution_prepared_release p =
    want (token_payload p) "DRIVER_EXECUTION_TOKEN"
check_payload l Operation.execution_function_get p =
    want (function_payload l p) "DRIVER_FUNCTION_OPTIONS"
check_payload l Operation.execution_submit p = want (launch_payload l p) "DRIVER_LAUNCH_OPTIONS"
check_payload l Operation.execution_prepared_create p =
    want_also (prepare_payload l p) "DRIVER_PREPARED_OPTIONS"
check_payload l Operation.execution_continuation_submit p =
    want_also (continuation_payload l p) "DRIVER_CONTINUATION_OPTIONS"
check_payload l Operation.execution_prepared_submit p =
    want (prepared_submit_payload p) "DRIVER_PREPARED_BINDINGS"
check_payload l Operation.cublaslt_open p = want (empty_payload p) "CUBLASLT_ADAPTER_OPEN_INVALID"
check_payload l Operation.cublaslt_status p = want (token_payload p) "CUBLASLT_RESOURCE_TOKEN"
check_payload l Operation.cublaslt_release p = want (token_payload p) "CUBLASLT_RESOURCE_TOKEN"
check_payload l Operation.cublaslt_plan_status p = want (token_payload p) "CUBLASLT_RESOURCE_TOKEN"
check_payload l Operation.cublaslt_plan_release p = want (token_payload p) "CUBLASLT_RESOURCE_TOKEN"
check_payload l Operation.cublaslt_plan_create p =
    want (plan_payload p) "CUBLASLT_MATMUL_PLAN_INVALID"
check_payload l Operation.cublaslt_plan_submit p =
    want (product_payload p) "CUBLASLT_MATMUL_SUBMIT_INVALID"
check_payload l Operation.testing_block p = want (block_payload p) "DRIVER_TEST_BLOCK"
check_payload l Operation.testing_inject_health p = want (inject_payload p) "DRIVER_TEST_HEALTH"
check_payload l Operation.testing_execution_mode p =
    want
      (mode_payload
        (text "complete" ∷ text "deferred" ∷ text "timeout" ∷ text "restart-required" ∷ []) p)
      "DRIVER_TEST_EXECUTION_MODE"
check_payload l Operation.testing_disposal_mode p =
    want
      (mode_payload
        (text "none"
          ∷ text "immediate"
          ∷ text "poisoned"
          ∷ text "restart-required"
          ∷ text "unstructured"
          ∷ [])
        p)
      "DRIVER_TEST_DISPOSAL_MODE"
check_payload l Operation.testing_disposal_status p =
    want (empty_payload p) "DRIVER_TEST_DISPOSAL_STATUS"

unfoldable pub is_version_one : Value → Bool
is_version_one (natural n) = n == 1
is_version_one _ = false

-- `validateRequest`. The source returns its message; the model names the operation that it holds.
unfoldable pub validate_request : Bool → Limits → Value → Outcome Failure Operation
unfolding is_exact is_version_one is_positive field string_of allowed_operation check_payload
validate_request test_hooks l message = do
  require
      (is_exact message
        (text "schemaVersion" ∷ text "requestId" ∷ text "operation" ∷ text "payload" ∷ []))
      (refused "DRIVER_COMMAND_INVALID")
  require (is_version_one (field message (text "schemaVersion"))) (refused "DRIVER_COMMAND_VERSION")
  require (is_positive (field message (text "requestId"))) (refused "DRIVER_COMMAND_ID")
  name ←
      or_throw (string_of (field message (text "operation"))) (refused "DRIVER_COMMAND_OPERATION")
  operation ← or_throw (allowed_operation test_hooks name) (refused "DRIVER_COMMAND_UNSUPPORTED")
  check_payload l operation (field message (text "payload"))
  returned operation
