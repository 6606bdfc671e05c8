-- ===== src/Execution/Scheduler.antt =====
-- The operations in flight: the decisions of `submitAdapterOperation`, and what `operationStatus`,
-- `legacyTimeout` and `releaseOperation` do to a record. An operation is known by its place in the
-- list of all that were registered; what the driver, the registry and a completion callback answer
-- is an argument. The checks of an adapter's internal request, the graph of a device continuation and
-- prepared batches are left out; a released operation stays in the list.
use cuda_js.Base.{
  ℕ, zero, suc, ◌+◌, Bool, true, false, not, ◌&&◌, ◌||◌, Option, none, some, List, [], ◌∷◌, ◌++◌,
  leb, ltb, ◌==◌, if◌then◌else◌, length, get_elem?, contains,
}
use cuda_js.Base.Outcome.{Outcome, returned, thrown, ◌>>=◌, ◌>>◌, reject, or_throw}
use cuda_js.Failure.{Failure, failure, validation, backpressure, stale_resource, internal}
use cuda_js.Execution.Conflicts.{Access, any_conflict}

pub data Status : Type 0 where
  pending completed failed orphaned : Status

pub record Operation : Type 0 where
  pub status : Status
  pub stream : ℕ
  pub accesses : List Access
  pub sequence : ℕ
  pub leases_released : Bool
  pub event_open : Bool
  pub poll_count : ℕ

-- `in_flight` is `#pendingOperations`, in the order of insertion.
pub record Scheduler : Type 0 where
  pub operations : List Operation
  pub in_flight : List ℕ
  pub streams : ℕ
  pub max_pending : ℕ
  pub completions : ℕ
  pub rollback_failure : Option Failure

-- A new manager, of a policy of `n` pending operations.
abbrev pub created : ℕ → Scheduler
created n = record {
  operations = [];
  in_flight = [];
  streams = 0;
  max_pending = n;
  completions = 0;
  rollback_failure = none;
}

-- `#assertAdmission`
abbrev pub assert_admission : Option Failure → Outcome Failure (Unit {0})
assert_admission none = returned tt
assert_admission (some f) = thrown f

-- How the making of a stream ends: registered, given up, or given up but for the native stream, which
-- stops the admission.
pub data Making : Type 0 where
  made : Making
  given_up left_behind : Failure → Making

-- The loop of `initialize`: `n` streams from number `k` on, by what becomes of each.
unfoldable pub make_streams :
    (ℕ → Making) → ℕ → ℕ → Scheduler → Scheduler × Outcome Failure (Unit {0})
make_streams becomes k zero s = (s, returned tt)
make_streams becomes k (suc n) s = elim (becomes k) [
  | made ↦ make_streams becomes (suc k) n (record s { streams = s.streams + 1 })
  | given_up f ↦ (s, thrown f)
  | left_behind f ↦ (record s { rollback_failure = some f }, thrown f)
]

unfoldable pub may_initialize : Scheduler → Outcome Failure (Unit {0})
may_initialize s =
    assert_admission s.rollback_failure
    >> reject (ltb 0 s.streams) (failure "EXECUTION_ALREADY_INITIALIZED" internal)

-- `initialize`
unfoldable pub initialize : (ℕ → Making) → Scheduler → Scheduler × Outcome Failure (Unit {0})
unfolding may_initialize make_streams
initialize becomes s = elim (may_initialize s) [
  | thrown f ↦ (s, thrown f)
  | returned _ ↦ make_streams becomes 0 s.max_pending s
]

abbrev pub busy : Failure
busy = failure "EXECUTION_BUSY" backpressure

-- The tests on the operation that `after` names. A dependency that is completed needs no order.
unfoldable dependency_of : Operation → ℕ → Outcome Failure Bool
dependency_of o sequence = elim o.status [
  | pending ↦
      reject (leb sequence o.sequence) (failure "EXECUTION_DEPENDENCY_ORDER" validation)
      >> returned true
  | completed ↦
      reject (leb sequence o.sequence) (failure "EXECUTION_DEPENDENCY_ORDER" validation)
      >> returned false
  | failed ↦
      reject (leb sequence o.sequence) (failure "EXECUTION_DEPENDENCY_ORDER" validation)
      >> thrown (failure "EXECUTION_DEPENDENCY_TERMINAL" validation)
  | orphaned ↦
      reject (leb sequence o.sequence) (failure "EXECUTION_DEPENDENCY_ORDER" validation)
      >> thrown (failure "EXECUTION_DEPENDENCY_TERMINAL" validation)
]

-- `dependency`: the pending operation that the new one is to follow.
unfoldable pub find_dependency : List Operation → ℕ → Option ℕ → Outcome Failure (Option ℕ)
unfolding dependency_of
find_dependency os sequence none = returned none
find_dependency os sequence (some i) =
    or_throw (get_elem? os i) (failure "RESOURCE_STALE" stale_resource) >>= λ o.
    dependency_of o sequence >>= λ waits. returned (if waits then some i else none)

abbrev pub is_the : Option ℕ → ℕ → Bool
is_the none i = false
is_the (some d) i = d == i

abbrev pub accesses_of : Option Operation → List Access
accesses_of none = []
accesses_of (some o) = o.accesses

-- The loop over `#pendingOperations`: a conflict with any but the dependency.
unfoldable pub has_hazard : List Operation → Option ℕ → List Access → List ℕ → Bool
unfolding any_conflict
has_hazard os dependency accesses [] = false
has_hazard os dependency accesses (i ∷ rest) =
    not (is_the dependency i) && any_conflict accesses (accesses_of (get_elem? os i))
    || has_hazard os dependency accesses rest

-- The streams that operations in flight are on.
abbrev pub used_streams : List Operation → List ℕ → List ℕ
used_streams os [] = []
used_streams os (i ∷ rest) = elim (get_elem? os i) [
  | none ↦ used_streams os rest
  | some o ↦ o.stream ∷ used_streams os rest
]

-- The first of `n` streams from `k` on that is idle.
unfoldable pub find_idle : List ℕ → ℕ → ℕ → Option ℕ
find_idle used k zero = none
find_idle used k (suc n) =
    let later = find_idle used (suc k) n in if contains k used then later else some k

-- `dependency?.streamToken ?? this.#streamTokens.find(…)`
unfoldable pub choose_stream : Scheduler → Option ℕ → Option ℕ
unfolding find_idle
choose_stream s none = find_idle (used_streams s.operations s.in_flight) 0 s.streams
choose_stream s (some d) = elim (get_elem? s.operations d) [ none ↦ none | some o ↦ some o.stream ]

-- Everything that is decided before the driver is asked: the stream of the new operation.
unfoldable pub admit : Scheduler → ℕ → Option ℕ → List Access → Outcome Failure ℕ
unfolding find_dependency has_hazard choose_stream
admit s sequence after accesses = do
  assert_admission s.rollback_failure
  reject (leb s.max_pending (length s.in_flight)) busy
  dependency ← find_dependency s.operations sequence after
  reject (has_hazard s.operations dependency accesses s.in_flight)
      (failure "EXECUTION_RESOURCE_HAZARD" backpressure)
  or_throw (choose_stream s dependency) busy

-- How the rest of a submission ends: registered, undone, lost behind the driver, or undone but for
-- its event, which stops the admission.
pub data Answer : Type 0 where
  registered : Answer
  undone lost stopped : Failure → Answer

abbrev pub new_operation : ℕ → ℕ → List Access → Operation
new_operation stream sequence accesses = record {
  status = pending;
  stream = stream;
  accesses = accesses;
  sequence = sequence;
  leases_released = false;
  event_open = true;
  poll_count = 0;
}

abbrev pub enroll : Scheduler → Operation → Scheduler
enroll s o = record s {
  operations = s.operations ++ o ∷ [];
  in_flight = s.in_flight ++ length s.operations ∷ [];
}

-- `submitAdapterOperation` where streams are made; the answer is the new operation's place.
unfoldable pub submit :
    Scheduler → ℕ → Option ℕ → List Access → Answer → Scheduler × Outcome Failure ℕ
unfolding admit
submit s sequence after accesses answer = elim (admit s sequence after accesses) [
  | thrown f ↦ (s, thrown f)
  | returned stream ↦ elim answer [
    | registered ↦
        (enroll s (new_operation stream sequence accesses), returned (length s.operations))
    | undone f ↦ (s, thrown f)
    | lost f ↦ (s, thrown f)
    | stopped f ↦ (record s { rollback_failure = some f }, thrown f)
  ]
]

-- `submitAdapterOperation` where no stream is made: nothing is in flight then, and `initialize` comes
-- first.
unfoldable pub submit_first :
    (ℕ → Making) → Scheduler → ℕ → Option ℕ → List Access → Answer → Scheduler × Outcome Failure ℕ
unfolding initialize submit
submit_first becomes s sequence after accesses answer =
    let (t, made_all) = initialize becomes s in
    elim made_all [
      | thrown f ↦ (t, thrown f)
      | returned _ ↦ submit t sequence after accesses answer
    ]
