-- ===== src/Execution/Requests.antt =====
-- What execution-manager.mjs accepts of a policy, of a module and a function, and of a launch.
use cuda_js.Base.{
  ℕ, ◌*◌, Bool, not, ◌&&◌, ◌||◌, Option, some, List, [], ◌∷◌, leb, ltb, ◌==◌, length, all_of,
}
use cuda_js.Base.Outcome.{Outcome, returned, ◌>>=◌, ◌>>◌, require, reject, or_throw}
use cuda_js.Js.{
  Text, text, text_eq, Value, undefined, natural, Fields, bare, field, lookup_field, or_else,
  plain_fields, string_of, array_items, positive_safe_integer, nonnegative_safe_integer, max_safe,
}
use cuda_js.Failure.{Failure, failure, validation}
use cuda_js.Mailbox.Lanes.{is_exact}
use cuda_js.Numeric.Layout.{parameter_width}
use cuda_js.Prepared.Fields.{Dimensions, is_printable_name}
use cuda_js.Driver.Shapes.{only_fields, bytes_of}

pub record Policy : Type 0 where
  pub max_module_bytes : ℕ
  pub max_arguments : ℕ
  pub max_completion_milliseconds : ℕ
  pub max_pending : ℕ

abbrev policy_fields : List Text
policy_fields =
    text "maxModuleBytes"
    ∷ text "maxArguments"
    ∷ text "maxCompletionMilliseconds"
    ∷ text "maxPendingGpuOperations"
    ∷ []

abbrev bad_policy : Failure
bad_policy = failure "EXECUTION_POLICY_INVALID" validation

-- `boundedPositive` of a field or of its default.
unfoldable bounded_positive : Fields → Text → ℕ → ℕ → Outcome Failure ℕ
unfolding positive_safe_integer or_else lookup_field
bounded_positive fs key default maximum = do
  n ← or_throw (positive_safe_integer (or_else (lookup_field fs key) (natural default))) bad_policy
  require (leb n maximum) bad_policy
  returned n

abbrev fields_or_bare : Value → Option Fields
unfolding plain_fields
fields_or_bare undefined = some bare
fields_or_bare v = plain_fields v

-- `normalizeExecutionPolicy`, with DEFAULT_EXECUTION_POLICY.
unfoldable pub normalize_execution_policy : Value → Outcome Failure Policy
unfolding fields_or_bare only_fields bounded_positive
normalize_execution_policy v = do
  fs ← or_throw (fields_or_bare v) bad_policy
  require (only_fields policy_fields fs) bad_policy
  modules ← bounded_positive fs (text "maxModuleBytes") (4 * 1048576) (64 * 1048576)
  arguments ← bounded_positive fs (text "maxArguments") 32 64
  completion ← bounded_positive fs (text "maxCompletionMilliseconds") 30000 300000
  waiting ← bounded_positive fs (text "maxPendingGpuOperations") 1 2
  returned (record {
    max_module_bytes = modules;
    max_arguments = arguments;
    max_completion_milliseconds = completion;
    max_pending = waiting;
  })

-- One record of `normalizeParameters`.
unfoldable normalize_parameter : Value → Outcome Failure Text
unfolding is_exact field string_of parameter_width
normalize_parameter v = do
  require (is_exact v (text "kind" ∷ [])) (failure "EXECUTION_PARAMETER_INVALID" validation)
  kind ←
      or_throw (string_of (field v (text "kind")))
        (failure "EXECUTION_PARAMETER_INVALID" validation)
  width ← or_throw (parameter_width kind) (failure "EXECUTION_PARAMETER_INVALID" validation)
  returned kind

unfoldable pub normalize_each : List Value → Outcome Failure (List Text)
unfolding normalize_parameter
normalize_each [] = returned []
normalize_each (v ∷ vs) =
    normalize_parameter v >>= λ kind. normalize_each vs >>= λ rest. returned (kind ∷ rest)

-- `normalizeParameters`
unfoldable pub normalize_parameters : Value → ℕ → Outcome Failure (List Text)
unfolding array_items normalize_each
normalize_parameters v maximum = do
  vs ← or_throw (array_items v) (failure "EXECUTION_PARAMETERS_INVALID" validation)
  require (leb 1 (length vs) && leb (length vs) maximum)
      (failure "EXECUTION_PARAMETERS_INVALID" validation)
  normalize_each vs

-- `moduleBytes`
unfoldable pub module_bytes : Text → Value → ℕ → Outcome Failure (List ℕ)
unfolding bytes_of text_eq
module_bytes format v maximum = do
  bs ← or_throw (bytes_of v) (failure "EXECUTION_MODULE_BYTES" validation)
  require (leb 1 (length bs) && leb (length bs) maximum)
      (failure "EXECUTION_MODULE_BYTES" validation)
  require (not (text_eq format (text "ptx")) || all_of (λ b. not (b == 0) && leb b 0x7f) bs)
      (failure "EXECUTION_MODULE_TEXT" validation)
  returned bs

-- `functionName`; a NUL is no printable character.
unfoldable pub function_name : Value → Outcome Failure Text
unfolding string_of is_printable_name
function_name v = do
  t ← or_throw (string_of v) (failure "EXECUTION_FUNCTION_NAME" validation)
  require (is_printable_name 256 t) (failure "EXECUTION_FUNCTION_NAME" validation)
  returned t

-- `dimensions`
unfoldable pub dimensions : Value → Outcome Failure Dimensions
unfolding is_exact field positive_safe_integer
dimensions v = do
  require (is_exact v (text "x" ∷ text "y" ∷ text "z" ∷ []))
      (failure "EXECUTION_DIMENSIONS" validation)
  x ←
      or_throw (positive_safe_integer (field v (text "x")))
        (failure "EXECUTION_DIMENSIONS" validation)
  y ←
      or_throw (positive_safe_integer (field v (text "y")))
        (failure "EXECUTION_DIMENSIONS" validation)
  z ←
      or_throw (positive_safe_integer (field v (text "z")))
        (failure "EXECUTION_DIMENSIONS" validation)
  returned (record { x = x; y = y; z = z })

-- DEVICE_LIMIT_FIELDS
pub record DeviceLimits : Type 0 where
  pub max_threads_per_block : ℕ
  pub max_block : Dimensions
  pub max_grid : Dimensions
  pub max_shared_memory : ℕ

abbrev exceeds : Dimensions → Dimensions → Bool
exceeds d most = ltb most.x d.x || (ltb most.y d.y || ltb most.z d.z)

-- `#validateLaunchBounds`. A volume that is no safe integer is rounded in the source, and stays too
-- large to be one.
unfoldable pub validate_launch_bounds :
    DeviceLimits → Dimensions → Dimensions → Value → Outcome Failure (Unit {0})
unfolding nonnegative_safe_integer
validate_launch_bounds l grid block memory_bytes = do
  reject (exceeds grid l.max_grid || exceeds block l.max_block)
      (failure "EXECUTION_DIMENSION_LIMIT" validation)
  let volume = block.x * block.y * block.z
  require (leb volume max_safe && leb volume l.max_threads_per_block)
      (failure "EXECUTION_BLOCK_VOLUME" validation)
  n ←
      or_throw (nonnegative_safe_integer memory_bytes)
        (failure "EXECUTION_SHARED_MEMORY" validation)
  require (leb n l.max_shared_memory) (failure "EXECUTION_SHARED_MEMORY" validation)
