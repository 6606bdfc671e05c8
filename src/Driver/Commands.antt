-- ===== src/Driver/Commands.antt =====
-- The payloads of the operations that execute, submit and test, in `validateRequest` of
-- components/driver-actor/src/protocol.mjs.
use cuda_js.Base.{Bool, true, false, ◌&&◌, ◌||◌, none, some, List, [], ◌∷◌, all_of}
use cuda_js.Base.Outcome.{Outcome, returned, ◌>>=◌}
use cuda_js.Js.{Text, text, Value, undefined, field, string_of}
use cuda_js.Failure.{Failure}
use cuda_js.Mailbox.Lanes.{is_exact}
use cuda_js.Numeric.Scalars.{is_finite}
use cuda_js.Driver.Shapes.{
  is_token, is_positive, is_nonnegative, has_bytes, fits, optional_token, is_identifier_value,
  is_one_of, has_only, owns, is_dimensions, parameter_schema,
}
use cuda_js.Driver.Launches.{
  launch_arguments, launch_accesses, prepared_nodes, prepared_bindings, and_then,
}
use cuda_js.Driver.Payloads.{Limits}

-- execution.module.load
unfoldable pub module_payload : Limits → Value → Bool
unfolding is_exact field is_one_of has_bytes fits
module_payload l payload =
    is_exact payload (text "format" ∷ text "bytes" ∷ [])
    && (is_one_of (field payload (text "format")) (text "ptx" ∷ text "cubin" ∷ [])
        && (has_bytes (field payload (text "bytes"))
            && fits (field payload (text "bytes")) l.max_module_bytes))

unfoldable pub is_string : Value → Bool
unfolding string_of
is_string v = elim (string_of v) [ none ↦ false | some t ↦ true ]

-- execution.function.get
unfoldable pub function_payload : Limits → Value → Bool
unfolding is_exact field is_one_of is_token is_string parameter_schema
function_payload l payload =
    (is_exact payload (text "moduleToken" ∷ text "name" ∷ text "parameters" ∷ [])
      || is_exact payload
          (text "moduleToken" ∷ text "name" ∷ text "parameters" ∷ text "executionProfile" ∷ [])
        && is_one_of (field payload (text "executionProfile"))
            (text "ordinary" ∷ text "device-continuation-v1" ∷ []))
    && (is_token (field payload (text "moduleToken"))
        && (is_string (field payload (text "name"))
            && parameter_schema (field payload (text "parameters")) l.max_arguments))

-- `payload.after === undefined || payload.after === null || isResourceToken(payload.after)`
unfoldable pub absent_or_token : Value → Bool
unfolding optional_token
absent_or_token undefined = true
absent_or_token v = optional_token v

-- execution.submit
unfoldable pub launch_payload : Limits → Value → Bool
unfolding has_only owns field is_token is_dimensions absent_or_token launch_accesses is_nonnegative
    launch_arguments
launch_payload l payload =
    has_only payload (
      text "functionToken"
      ∷ text "grid"
      ∷ text "block"
      ∷ text "sharedMemoryBytes"
      ∷ text "arguments"
      ∷ text "after"
      ∷ text "accesses"
      ∷ [])
    && (all_of (owns payload) (
          text "functionToken"
          ∷ text "grid"
          ∷ text "block"
          ∷ text "sharedMemoryBytes"
          ∷ text "arguments"
          ∷ [])
        && (is_token (field payload (text "functionToken"))
            && (is_dimensions (field payload (text "grid"))
                && (is_dimensions (field payload (text "block"))
                    && (absent_or_token (field payload (text "after"))
                        && (launch_accesses (field payload (text "accesses")) l.max_arguments
                            && (is_nonnegative (field payload (text "sharedMemoryBytes"))
                                && launch_arguments (field payload (text "arguments"))
                                    l.max_arguments)))))))

-- execution.prepared.create
unfoldable pub prepare_payload : Limits → Value → Outcome Failure Bool
unfolding is_exact field prepared_nodes
prepare_payload l payload =
    and_then (is_exact payload (text "nodes" ∷ []))
      (prepared_nodes (field payload (text "nodes")) l.max_arguments)

-- execution.continuation.submit
unfoldable pub continuation_payload : Limits → Value → Outcome Failure Bool
unfolding is_exact field prepared_nodes prepared_bindings optional_token is_identifier_value
continuation_payload l payload =
    and_then
      (is_exact payload
        (text "nodes" ∷ text "bindings" ∷ text "continuationNode" ∷ text "after" ∷ []))
      (prepared_nodes (field payload (text "nodes")) l.max_arguments >>= λ ok. returned (
        ok
        && (prepared_bindings (field payload (text "bindings")) true
            && (optional_token (field payload (text "after"))
                && is_identifier_value (field payload (text "continuationNode"))))))

-- execution.prepared.submit
unfoldable pub prepared_submit_payload : Value → Bool
unfolding is_exact field is_token prepared_bindings optional_token
prepared_submit_payload payload =
    is_exact payload (text "token" ∷ text "bindings" ∷ text "after" ∷ [])
    && (is_token (field payload (text "token"))
        && (prepared_bindings (field payload (text "bindings")) false
            && optional_token (field payload (text "after"))))

-- library.cublaslt.plan.create
unfoldable pub plan_payload : Value → Bool
unfolding is_exact field is_token has_only owns
plan_payload payload =
    let options = field payload (text "options") in
    is_exact payload (text "adapter" ∷ text "options" ∷ [])
    && (is_token (field payload (text "adapter"))
        && (has_only options (
              text "m"
              ∷ text "n"
              ∷ text "k"
              ∷ text "transposeA"
              ∷ text "transposeB"
              ∷ text "maxWorkspaceBytes"
              ∷ [])
            && all_of (owns options) (text "m" ∷ text "n" ∷ text "k" ∷ [])))

-- library.cublaslt.plan.submit
unfoldable pub product_payload : Value → Bool
unfolding is_exact field is_token optional_token is_finite
product_payload payload =
    is_exact payload (
      text "token"
      ∷ text "a"
      ∷ text "b"
      ∷ text "c"
      ∷ text "d"
      ∷ text "alpha"
      ∷ text "beta"
      ∷ text "workspace"
      ∷ text "after"
      ∷ [])
    && (all_of (λ k. is_token (field payload k))
          (text "token" ∷ text "a" ∷ text "b" ∷ text "c" ∷ text "d" ∷ [])
        && (optional_token (field payload (text "workspace"))
            && (optional_token (field payload (text "after"))
                && (is_finite (field payload (text "alpha"))
                    && is_finite (field payload (text "beta"))))))

-- testing.inject-health
unfoldable pub inject_payload : Value → Bool
unfolding is_exact field is_one_of is_positive
inject_payload payload =
    is_exact payload (text "category" ∷ text "originOperationId" ∷ [])
    && (is_one_of (field payload (text "category"))
          (text "immediate-driver" ∷ text "deferred-driver" ∷ [])
        && is_positive (field payload (text "originOperationId")))

-- testing.execution-mode and testing.disposal-mode
unfoldable pub mode_payload : List Text → Value → Bool
unfolding is_exact field is_one_of
mode_payload modes payload =
    is_exact payload (text "mode" ∷ []) && is_one_of (field payload (text "mode")) modes
