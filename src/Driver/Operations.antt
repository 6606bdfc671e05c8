-- ===== src/Driver/Operations.antt =====
-- The operations of driver-actor/src/protocol.mjs by name.
use cuda_js.Base.{Bool, true, false, Option, none, some, List, [], ◌∷◌, if◌then◌else◌}
use cuda_js.Js.{Text, text, text_eq}

pub data Operation : Type 0 where
  runtime_describe context_status runtime_close memory_allocate memory_status : Operation
  memory_write memory_read memory_release memory_view_create memory_view_status : Operation
  memory_view_release memory_transfer_h2d memory_transfer_d2h memory_transfer_d2d : Operation
  mailbox_create mailbox_status mailbox_reset mailbox_release : Operation
  execution_module_load execution_module_status execution_module_release : Operation
  execution_function_get execution_function_status execution_function_release : Operation
  execution_submit execution_operation_status execution_operation_release : Operation
  execution_operation_timeout execution_prepared_create execution_prepared_status : Operation
  execution_prepared_submit execution_prepared_release : Operation
  execution_continuation_submit cublaslt_open cublaslt_status cublaslt_release : Operation
  cublaslt_plan_create cublaslt_plan_status cublaslt_plan_submit : Operation
  cublaslt_plan_release : Operation
  testing_block testing_inject_health testing_execution_mode : Operation
  testing_disposal_mode testing_disposal_status : Operation

-- TEST_OPERATIONS
abbrev pub is_test_operation : Operation → Bool
is_test_operation testing_block = true
is_test_operation testing_inject_health = true
is_test_operation testing_execution_mode = true
is_test_operation testing_disposal_mode = true
is_test_operation testing_disposal_status = true
is_test_operation _ = false

abbrev pub Named : Type 0
Named = Text × Operation

-- BASE_OPERATIONS
abbrev pub base_operations : List Named
base_operations =
    (text "runtime.describe", runtime_describe)
    ∷ (text "context.status", context_status)
    ∷ (text "runtime.close", runtime_close)
    ∷ (text "memory.allocate", memory_allocate)
    ∷ (text "memory.status", memory_status)
    ∷ (text "memory.write", memory_write)
    ∷ (text "memory.read", memory_read)
    ∷ (text "memory.release", memory_release)
    ∷ (text "memory.view.create", memory_view_create)
    ∷ (text "memory.view.status", memory_view_status)
    ∷ (text "memory.view.release", memory_view_release)
    ∷ (text "memory.transfer.h2d", memory_transfer_h2d)
    ∷ (text "memory.transfer.d2h", memory_transfer_d2h)
    ∷ (text "memory.transfer.d2d", memory_transfer_d2d)
    ∷ (text "mailbox.create", mailbox_create)
    ∷ (text "mailbox.status", mailbox_status)
    ∷ (text "mailbox.reset", mailbox_reset)
    ∷ (text "mailbox.release", mailbox_release)
    ∷ (text "execution.module.load", execution_module_load)
    ∷ (text "execution.module.status", execution_module_status)
    ∷ (text "execution.module.release", execution_module_release)
    ∷ (text "execution.function.get", execution_function_get)
    ∷ (text "execution.function.status", execution_function_status)
    ∷ (text "execution.function.release", execution_function_release)
    ∷ (text "execution.submit", execution_submit)
    ∷ (text "execution.operation.status", execution_operation_status)
    ∷ (text "execution.operation.release", execution_operation_release)
    ∷ (text "execution.operation.timeout", execution_operation_timeout)
    ∷ (text "execution.prepared.create", execution_prepared_create)
    ∷ (text "execution.prepared.status", execution_prepared_status)
    ∷ (text "execution.prepared.submit", execution_prepared_submit)
    ∷ (text "execution.prepared.release", execution_prepared_release)
    ∷ (text "execution.continuation.submit", execution_continuation_submit)
    ∷ (text "library.cublaslt.open", cublaslt_open)
    ∷ (text "library.cublaslt.status", cublaslt_status)
    ∷ (text "library.cublaslt.release", cublaslt_release)
    ∷ (text "library.cublaslt.plan.create", cublaslt_plan_create)
    ∷ (text "library.cublaslt.plan.status", cublaslt_plan_status)
    ∷ (text "library.cublaslt.plan.submit", cublaslt_plan_submit)
    ∷ (text "library.cublaslt.plan.release", cublaslt_plan_release)
    ∷ []

abbrev pub test_operations : List Named
test_operations =
    (text "testing.block", testing_block)
    ∷ (text "testing.inject-health", testing_inject_health)
    ∷ (text "testing.execution-mode", testing_execution_mode)
    ∷ (text "testing.disposal-mode", testing_disposal_mode)
    ∷ (text "testing.disposal-status", testing_disposal_status)
    ∷ []

unfoldable pub find_operation : Text → List Named → Option Operation
unfolding text_eq
find_operation t [] = none
find_operation t ((name, operation) ∷ rest) =
    if text_eq name t then some operation else find_operation t rest
