-- ===== src/Execution/Progress.antt =====
-- What the scheduler does not withhold: a stream where there is room, and room once an operation is
-- seen to be complete.
use cuda_js.Base.{
  ℕ, zero, suc, ◌+◌, ◌≤◌, ◌<◌, ◌≡◌, refl, ap, inl, inr, true, false, none, some, List, [], ◌∷◌, leb,
  ◌==◌, ==_iff, length, get_elem?, get_elem?-modify_self, contains, Bool-cases, Option-cases, arith,
}
use cuda_js.Base.Counts.{length-le_of_counts}
use cuda_js.Base.Outcome.{Outcome, returned}
use cuda_js.Failure.{Failure}
use cuda_js.Driver.Operations.{Operation}
use cuda_js.Execution.Conflicts.{Access}
use cuda_js.Execution.Scheduler
use cuda_js.Execution.Scheduler.{
  Status, pending, completed, Scheduler, find_dependency, has_hazard, used_streams, find_idle,
  choose_stream, admit,
}
use cuda_js.Execution.Completion.{
  complete, terminalize_completed, poll, operation_status, release_operation, finish, remove,
  terminalized, polled,
}
use cuda_js.Execution.Admission.{is_submission, submission_allowed, assert_command_allowed}
use cuda_js.Execution.Ordered.{times, is_flying, IsScheduled, times-remove}

-- The numbers from `k` on, `n` of them.
abbrev upto : ℕ → ℕ → List ℕ
upto k zero = []
upto k (suc n) = k ∷ upto (suc k) n

length-upto : (k n : ℕ) → length (upto k n) ≡ n
length-upto k zero = refl
length-upto k (suc n) = ap suc (length-upto (suc k) n)

times-upto_low : (k n i : ℕ) → i < k → times i (upto k n) ≡ 0
times-upto_low k zero i h = refl
times-upto_low k (suc n) i h = ground (arith, times-upto_low (suc k) n i)

times_of_contains : (i : ℕ) (xs : List ℕ) → contains i xs ≡ true → 1 ≤ times i xs
times_of_contains i [] h = cc
times_of_contains i (x ∷ xs) h = ground (arith, times_of_contains i xs)

-- If no stream is idle, every stream is used.
find_idle-none :
    (used : List ℕ) (k n i : ℕ) → find_idle used k n ≡ none → times i (upto k n) ≤ times i used
unfolding find_idle
find_idle-none used k zero i h = omega arith
find_idle-none used k (suc n) i h = elim (Bool-cases (contains k used)) [
  | inr idle ↦ absurd (ground arith)
  | inl taken ↦ elim (Bool-cases (k == i)) [
    | inl same ↦
        let e : k ≡ i = (==_iff k i).0 same in
        ground (
          arith,
          times_of_contains k used taken,
          times-upto_low (suc k) n i,
          ap (λ j. times j used) e,
        )
    | inr other ↦ ground (arith, find_idle-none used (suc k) n i)
  ]
]

length-used_streams :
    (os : List Scheduler.Operation) (is : List ℕ) → length (used_streams os is) ≤ length is
length-used_streams os [] = omega arith
length-used_streams os (i ∷ is) = elim (Option-cases (get_elem? os i)) [
  | inl missing ↦ rw (missing, used_streams) (omega (arith, length-used_streams os is))
  | inr (o, found) ↦ rw (found, used_streams) (omega (arith, length-used_streams os is))
]

idle_stream : (used : List ℕ) (n : ℕ) → length used < n → (k : ℕ) × (find_idle used 0 n ≡ some k)
idle_stream used n h = elim (Option-cases (find_idle used 0 n)) [
  | inr found ↦ found
  | inl missing ↦ absurd (
      omega (
        arith,
        length-upto 0 n,
        length-le_of_counts ◌==◌ ==_iff (upto 0 n) used (λ i. find_idle-none used 0 n i missing),
      ))
]

length-remove_le : (i : ℕ) (is : List ℕ) → length (remove i is) ≤ length is
length-remove_le i [] = omega arith
length-remove_le i (j ∷ js) = ground (arith, length-remove_le i js)

length-remove_lt : (i : ℕ) (is : List ℕ) → 0 < times i is → length (remove i is) < length is
length-remove_lt i [] h = absurd (omega arith)
length-remove_lt i (j ∷ js) h =
    ground (arith, ==_iff i j, length-remove_lt i js, length-remove_le i js)

-- The state once an operation is completed.
abbrev after_completion : Scheduler → ℕ → Scheduler
after_completion s i =
    let t = terminalized (polled s i) i completed in record t { completions = s.completions + 1 }

completes :
    (s : Scheduler) (i : ℕ) {o : Scheduler.Operation}
    → get_elem? s.operations i ≡ some o
    → o.status ≡ pending
    → operation_status s i complete true true ≡ (after_completion s i, returned completed)
unfolding operation_status poll terminalize_completed
completes s i {o} found waits = rw (found, operation_status) (on_status o.status waits)
  where
    on_status :
        (status : Status)
        → status ≡ pending
        → elim status as (λ _. Scheduler × Outcome Failure Status) [
          | pending ↦ poll (polled s i) i complete true true
          | other ↦ (s, returned other)
        ]
          ≡ (after_completion s i, returned completed)
    on_status pending e = refl
    on_status other e = cc

room_allows :
    (t : Scheduler) (command : Operation)
    → is_submission command ≡ true
    → length t.in_flight < t.max_pending
    → assert_command_allowed t command ≡ returned tt
unfolding assert_command_allowed submission_allowed
room_allows t command sub room = ground arith

module _ (s : Scheduler) (v : IsScheduled s) where
  -- Where as many streams were made as operations may be pending, no rollback failed, and there is
  -- room and no conflict, an operation that follows no other is admitted: it never lacks a stream.
  pub admit_returns :
      (sequence : ℕ) (accesses : List Access)
      → s.streams ≡ s.max_pending
      → s.rollback_failure ≡ none
      → length s.in_flight < s.max_pending
      → has_hazard s.operations none accesses s.in_flight ≡ false
      → (stream : ℕ) × (admit s sequence none accesses ≡ returned stream)
  unfolding admit find_dependency choose_stream
  admit_returns sequence accesses streams open_ room free =
      let used = used_streams s.operations s.in_flight in
      let (k, found) =
        idle_stream used s.streams
          (omega (arith, length-used_streams s.operations s.in_flight, streams, room)) in
      let low : leb s.max_pending (length s.in_flight) ≡ false = ground arith in
      (k, rw (open_, low, free, found))

  -- Once a pending operation is seen to be complete, its result is made and its event is closed, it
  -- is completed, no longer in flight, and may be released, and another may be submitted.
  pub complete_frees :
      (i : ℕ) (o : Scheduler.Operation) (command : Operation)
      → get_elem? s.operations i ≡ some o
      → o.status ≡ pending
      → is_submission command ≡ true
      → (times i (operation_status s i complete true true).0.in_flight ≡ 0)
        × (assert_command_allowed (operation_status s i complete true true).0 command ≡ returned tt)
        × ((operation_status s i complete true true).1 ≡ returned completed)
        × (p : Scheduler.Operation) × (get_elem?
              (operation_status s i complete true true).0.operations
              i
            ≡ some p)
        × (release_operation p ≡ returned completed)
  unfolding release_operation
  complete_frees i o command found waits sub =
      let here : 0 < times i s.in_flight = ground (arith, v.flying i o found, ap is_flying waits) in
      rw (completes s i found waits) (
        ground (arith, times-remove i i s.in_flight, ==_iff i i),
        room_allows (after_completion s i) command sub
            (omega (arith, length-remove_lt i s.in_flight here, v.few)),
        refl,
        finish completed (record o { poll_count = o.poll_count + 1 }),
        get_elem?-modify_self (polled s i).operations i (finish completed) (
            get_elem?-modify_self s.operations i (λ o. record o { poll_count = o.poll_count + 1 })
              found),
        refl,
      )
