-- ===== src/Execution/Tests.antt =====
-- A copy and a kernel on two streams, of which the copy then completes.
use cuda_js.Base.{ℕ, ◌≡◌, refl, true, none, some, List, [], ◌∷◌, arith, get_elem?}
use cuda_js.Base.Outcome.{returned, thrown}
use cuda_js.Driver.Operations
use cuda_js.Execution.Conflicts.{Access, reads, writes, Harmless}
use cuda_js.Execution.Scheduler.{
  Operation, Scheduler, completed, created, made, initialize, new_operation, registered, busy,
  admit, submit,
}
use cuda_js.Execution.Completion.{complete, operation_status, release_operation}
use cuda_js.Execution.Admission.{assert_command_allowed}
use cuda_js.Execution.Ordered.{times, IsScheduled}
use cuda_js.Execution.Races.{
  Reach, at_start, then_step, initializes, submits, reach-IsScheduled, no_races,
}
use cuda_js.Execution.Progress.{admit_returns, complete_frees}
use cuda_js.Failure.{failure, validation}
use cuda_js.Execution.Requests.{
  normalize_execution_policy, DeviceLimits, validate_launch_bounds, function_name, module_bytes,
}
use cuda_js.Js.{
  undefined, bytes, text, Value, natural, string, object, array, end, item, bare, entry,
}
use cuda_js.Views.Options
use cuda_js.Execution.Conflicts.{atomic_updates, u32}
use cuda_js.Execution.Accesses.{Lease}

abbrev source : Access
source = record { native = 1; start = 0; stop = 64; mode = reads; dtype = none }

abbrev target : Access
target = record { native = 2; start = 0; stop = 64; mode = writes; dtype = none }

abbrev copy : List Access
copy = source ∷ target ∷ []

abbrev kernel : List Access
kernel = source ∷ []

abbrev ready : Scheduler
ready = (initialize (λ k. made) (created 2)).0

abbrev one : Scheduler
one = (submit ready 1 none copy registered).0

abbrev two : Scheduler
two = (submit one 2 none kernel registered).0

two_reached : Reach (created 2) two
two_reached =
    then_step
      (then_step (then_step at_start (initializes (λ k. made) (created 2)))
        (submits ready 1 none copy registered))
      (submits one 2 none kernel registered)

reach-IsScheduled_example : IsScheduled two
reach-IsScheduled_example = reach-IsScheduled 2 two_reached

no_races_example : Harmless source source
unfolding submit initialize
no_races_example =
    no_races 2 two 0 1 0 0 1 5 (new_operation 0 1 copy) (new_operation 1 2 kernel) source source
      two_reached refl refl (omega arith) (omega arith) (omega arith) (omega arith) refl refl
      (record { same = refl; from = omega arith; until = omega arith })
      (record { same = refl; from = omega arith; until = omega arith })

no_room : (submit two 3 none [] registered).1 ≡ thrown busy
unfolding submit initialize
no_room = refl

abbrev one_IsScheduled : IsScheduled one
one_IsScheduled = reach-IsScheduled 2 (
    then_step (then_step at_start (initializes (λ k. made) (created 2)))
      (submits ready 1 none copy registered))

admit_returns_example : (stream : ℕ) × (admit one 2 none kernel ≡ returned stream)
unfolding submit initialize
admit_returns_example = admit_returns one one_IsScheduled 2 kernel refl refl (omega arith) refl

complete_frees_example :
    (times 0 (operation_status two 0 complete true true).0.in_flight ≡ 0)
    × (assert_command_allowed
          (operation_status two 0 complete true true).0
          Operations.Operation.execution_submit
        ≡ returned tt)
    × ((operation_status two 0 complete true true).1 ≡ returned completed)
    × (p : Operation) × (get_elem? (operation_status two 0 complete true true).0.operations 0
        ≡ some p)
    × (release_operation p ≡ returned completed)
unfolding submit initialize
complete_frees_example =
    complete_frees two (reach-IsScheduled 2 two_reached) 0 (new_operation 0 1 copy)
      Operations.Operation.execution_submit refl refl refl

-- A view of the bytes from 8 up to 40, and the counter in its last word.
abbrev view : Lease
view = record {
  argument_index = 1;
  native = 7;
  byte_offset = 8;
  limit = 40;
  view_access = some Options.Access.reads_writes;
}

abbrev declared : Value
declared = array (
    item
      (object (
        entry (text "argumentIndex") (natural 1) (
          entry (text "byteOffset") (natural 28) (
            entry (text "byteLength") (natural 4) (
              entry (text "mode") (string (text "atomic-update-relaxed-device"))
                (entry (text "dtype") (string (text "u32")) bare))))))
      end)

abbrev counter : Access
counter = record { native = 7; start = 36; stop = 40; mode = atomic_updates; dtype = some u32 }

by_default :
    normalize_execution_policy undefined
    ≡ returned (record {
      max_module_bytes = 4194304;
      max_arguments = 32;
      max_completion_milliseconds = 30000;
      max_pending = 1;
    })
unfolding normalize_execution_policy
by_default = refl

three_pending :
    normalize_execution_policy (object (entry (text "maxPendingGpuOperations") (natural 3) bare))
    ≡ thrown (failure "EXECUTION_POLICY_INVALID" validation)
unfolding normalize_execution_policy
three_pending = refl

abbrev device : DeviceLimits
device = record {
  max_threads_per_block = 1024;
  max_block = record { x = 1024; y = 1024; z = 64 };
  max_grid = record { x = 65535; y = 65535; z = 65535 };
  max_shared_memory = 49152;
}

full_block :
    validate_launch_bounds device
      (record { x = 1; y = 1; z = 1 })
      (record { x = 32; y = 32; z = 1 })
      (natural 49152)
    ≡ returned tt
unfolding validate_launch_bounds
full_block = refl

too_many_threads :
    validate_launch_bounds device
      (record { x = 1; y = 1; z = 1 })
      (record { x = 32; y = 32; z = 2 })
      (natural 0)
    ≡ thrown (failure "EXECUTION_BLOCK_VOLUME" validation)
unfolding validate_launch_bounds
too_many_threads = refl

a_path : function_name (string (text "a/b")) ≡ thrown (failure "EXECUTION_FUNCTION_NAME" validation)
unfolding function_name
a_path = refl

nul_byte :
    module_bytes (text "ptx") (bytes (46 ∷ 0 ∷ [])) 16
    ≡ thrown (failure "EXECUTION_MODULE_TEXT" validation)
unfolding module_bytes
nul_byte = refl
