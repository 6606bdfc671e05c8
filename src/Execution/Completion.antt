-- ===== src/Execution/Completion.antt =====
-- How an operation in flight ends: `operationStatus`, `legacyTimeout` and `releaseOperation`, with
-- `#terminalizeCompleted`, `#terminalizeFailure` and `#markOrphaned`.
use cuda_js.Base.{
  ℕ, ◌+◌, Bool, true, false, not, none, some, List, [], ◌∷◌, ltb, ◌==◌, if◌then◌else◌, length,
  get_elem?, modify,
}
use cuda_js.Base.Outcome.{Outcome, returned, thrown}
use cuda_js.Failure.{
  Failure, failure, Category, backpressure, stale_resource, internal, must_restart,
}
use cuda_js.Execution.Scheduler.{Status, Operation, Scheduler, pending, completed, failed, orphaned}

-- `#markOrphaned`
abbrev pub orphan : Operation → Operation
orphan o = record o { status = orphaned }

unfoldable pub orphan_each : List Operation → List ℕ → List Operation
orphan_each os [] = os
orphan_each os (i ∷ rest) = orphan_each (modify os i orphan) rest

abbrev pub remove : ℕ → List ℕ → List ℕ
remove i [] = []
remove i (j ∷ js) = if i == j then remove i js else j ∷ remove i js

-- The end of `#terminalizeCompleted` and `#terminalizeFailure`, the leases released.
abbrev pub finish : Status → Operation → Operation
finish status o = record o { status = status; leases_released = true; event_open = false }

abbrev pub terminalized : Scheduler → ℕ → Status → Scheduler
terminalized s i status = record s {
  operations = modify s.operations i (finish status);
  in_flight = remove i s.in_flight;
}

abbrev pub must_stop : Category → Bool
must_stop must_restart = true
must_stop _ = false

abbrev pub unproved : Failure
unproved = failure "EXECUTION_EVENT_CLEANUP_UNPROVED" must_restart

abbrev pub set_orphan : Scheduler → ℕ → Scheduler
set_orphan s i = record s { operations = modify s.operations i orphan }

-- `#terminalizeFailure`, by whether the event could be closed.
unfoldable pub terminalize_failure : Scheduler → ℕ → Bool → Scheduler × Outcome Failure Status
terminalize_failure s i closes =
    if closes then (terminalized s i failed, returned failed) else (set_orphan s i, thrown unproved)

-- `#terminalizeCompleted`, by whether the callback made its result, and the event could be closed.
unfoldable pub terminalize_completed :
    Scheduler → ℕ → Bool → Bool → Scheduler × Outcome Failure Status
unfolding terminalize_failure
terminalize_completed s i has_result closes =
    if not has_result
    then terminalize_failure s i closes
    else if closes
    then (
      record (terminalized s i completed) { completions = s.completions + 1 },
      returned completed,
    )
    else (set_orphan s i, thrown unproved)

-- What the query of the event answers.
pub data Event : Type 0 where
  still_pending complete unknown_state : Event
  observed : Failure → Event

abbrev unattributed : Failure
unattributed = failure "EXECUTION_DEFERRED_FAILURE_UNATTRIBUTED" must_restart

-- A failure that the query of a pending operation's event observes.
unfoldable pub observe_failure : Scheduler → ℕ → Failure → Bool → Scheduler × Outcome Failure Status
unfolding orphan_each terminalize_failure
observe_failure s i f closes =
    if must_stop f.category
    then (set_orphan s i, thrown f)
    else if ltb 1 (length s.in_flight)
    then (record s { operations = orphan_each s.operations s.in_flight }, thrown unattributed)
    else terminalize_failure s i closes

-- `record.pollCount += 1`
abbrev pub polled : Scheduler → ℕ → Scheduler
polled s i = record s {
  operations = modify s.operations i (λ o. record o { poll_count = o.poll_count + 1 });
}

-- The query of a pending operation's event.
unfoldable pub poll : Scheduler → ℕ → Event → Bool → Bool → Scheduler × Outcome Failure Status
unfolding observe_failure terminalize_completed
poll s i still_pending has_result closes = (s, returned pending)
poll s i complete has_result closes = terminalize_completed s i has_result closes
poll s i unknown_state has_result closes = (s, thrown (failure "EXECUTION_EVENT_STATE" internal))
poll s i (observed f) has_result closes = observe_failure s i f closes

-- `operationStatus`
unfoldable pub operation_status :
    Scheduler → ℕ → Event → Bool → Bool → Scheduler × Outcome Failure Status
unfolding poll
operation_status s i event has_result closes = elim (get_elem? s.operations i) [
  | none ↦ (s, thrown (failure "RESOURCE_STALE" stale_resource))
  | some o ↦ elim o.status [
    | pending ↦ poll (polled s i) i event has_result closes
    | other ↦ (s, returned other)
  ]
]

abbrev pub timed_out : Failure
timed_out = failure "EXECUTION_COMPLETION_TIMEOUT" must_restart

-- `legacyTimeout`
unfoldable pub legacy_timeout : Scheduler → ℕ → Scheduler × Outcome Failure Status
legacy_timeout s i = elim (get_elem? s.operations i) [
  | none ↦ (s, thrown (failure "RESOURCE_STALE" stale_resource))
  | some o ↦ elim o.status [
    | pending ↦ (set_orphan s i, thrown timed_out)
    | other ↦ (s, returned other)
  ]
]

-- `releaseOperation`, before the registry closes the token.
unfoldable pub release_operation : Operation → Outcome Failure Status
release_operation o = elim o.status [
  | pending ↦ thrown (failure "EXECUTION_OPERATION_BUSY" backpressure)
  | orphaned ↦ thrown (failure "EXECUTION_OPERATION_ORPHANED" must_restart)
  | other ↦ returned other
]
