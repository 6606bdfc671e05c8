-- ===== src/Execution/Races.antt =====
-- Every order of calls of the scheduler, and what it keeps apart.
use cuda_js.Base.{
  ℕ, ◌<◌, ◌≡◌, ◌≢◌, refl, inl, inr, Bool, false, Option, some, List, [], ◌∷◌, get_elem?, any_of,
  zero, suc, Bool-cases, arith,
}
use cuda_js.Failure.{Failure}
use cuda_js.Execution.Conflicts.{
  Access, ordinary_conflict, any_conflict, Touches, Harmless, no_conflict,
}
use cuda_js.Execution.Scheduler.{
  Operation, Scheduler, created, Making, initialize, Answer, submit, submit_first,
}
use cuda_js.Execution.Completion.{Event, operation_status, legacy_timeout}
use cuda_js.Execution.Ordered.{times, IsScheduled}
use cuda_js.Execution.Preserved.{
  initialize-IsScheduled, stop-IsScheduled, submit_first-IsScheduled, submit-IsScheduled,
}
use cuda_js.Execution.Settled.{operation_status-IsScheduled, legacy_timeout-IsScheduled}

-- A call, with whatever the driver, the registry and a callback answer; or a rollback that fails
-- elsewhere and stops the admission.
pub data Step : Scheduler → Scheduler → Type 0 where
  initializes : (becomes : ℕ → Making) (s : Scheduler) → Step s (initialize becomes s).0
  submits :
      (s : Scheduler) (sequence : ℕ) (after : Option ℕ) (accesses : List Access) (answer : Answer)
      → Step s (submit s sequence after accesses answer).0
  submits_first :
      (becomes : ℕ → Making) (s : Scheduler) (sequence : ℕ) (after : Option ℕ)
      (accesses : List Access) (answer : Answer)
      → Step s (submit_first becomes s sequence after accesses answer).0
  asks :
      (s : Scheduler) (i : ℕ) (event : Event) (has_result closes : Bool)
      → Step s (operation_status s i event has_result closes).0
  times_out : (s : Scheduler) (i : ℕ) → Step s (legacy_timeout s i).0
  stops : (s : Scheduler) (f : Failure) → Step s (record s { rollback_failure = some f })

pub data Reach (s : Scheduler) : Scheduler → Type 0 where
  at_start : Reach s s
  then_step : {t u : Scheduler} → Reach s t → Step t u → Reach s u

created-IsScheduled : (n : ℕ) → IsScheduled (created n)
created-IsScheduled n = record {
  few = omega arith;
  known = λ i h. refl;
  flying = λ i o h. cc;
  leased = λ i o h. cc;
  ordered = λ i j p q hp hq lt fp fq c. cc;
}

Step-IsScheduled : {s t : Scheduler} → Step s t → IsScheduled s → IsScheduled t
Step-IsScheduled (initializes becomes s) v = initialize-IsScheduled becomes s v
Step-IsScheduled (submits s sequence after accesses answer) v =
    submit-IsScheduled s sequence after accesses answer v
Step-IsScheduled (submits_first becomes s sequence after accesses answer) v =
    submit_first-IsScheduled becomes s sequence after accesses answer v
Step-IsScheduled (asks s i event has_result closes) v =
    operation_status-IsScheduled s i event has_result closes v
Step-IsScheduled (times_out s i) v = legacy_timeout-IsScheduled s i v
Step-IsScheduled (stops s f) v = stop-IsScheduled s f v

-- In every state that a new manager reaches, no more operations are in flight than the
-- policy allows, these are exactly those that are pending or orphaned, each once, exactly the
-- leases of the others are released, and two in flight that conflict are on one stream.
pub reach-IsScheduled : (n : ℕ) {s : Scheduler} → Reach (created n) s → IsScheduled s
reach-IsScheduled n at_start = created-IsScheduled n
reach-IsScheduled n (then_step r st) = Step-IsScheduled st (reach-IsScheduled n r)

any_of-false :
    (f : Access → Bool) (xs : List Access) (i : ℕ) {x : Access}
    → any_of f xs ≡ false
    → get_elem? xs i ≡ some x
    → f x ≡ false
any_of-false f [] i h e = cc
any_of-false f (y ∷ ys) zero h e = ground arith
any_of-false f (y ∷ ys) (suc i) h e = any_of-false f ys i (ground arith) e

any_conflict-false :
    (ls rs : List Access) (i j : ℕ) {l r : Access}
    → any_conflict ls rs ≡ false
    → get_elem? ls i ≡ some l
    → get_elem? rs j ≡ some r
    → ordinary_conflict l r ≡ false
unfolding any_conflict
any_conflict-false ls rs i j {l} h e e' =
    any_of-false (ordinary_conflict l) rs j
      (any_of-false (λ a. any_of (ordinary_conflict a) rs) ls i h e) e'

-- A byte that accesses of two operations in flight on different streams both reach is only read by
-- both, or both are atomic on the same type.
pub no_races :
    (n : ℕ) (s : Scheduler) (i j a b native byte : ℕ) (p q : Operation) (l r : Access)
    → Reach (created n) s
    → get_elem? s.operations i ≡ some p
    → get_elem? s.operations j ≡ some q
    → i < j
    → 0 < times i s.in_flight
    → 0 < times j s.in_flight
    → p.stream ≢ q.stream
    → get_elem? p.accesses a ≡ some l
    → get_elem? q.accesses b ≡ some r
    → Touches l native byte
    → Touches r native byte
    → Harmless r l
no_races n s i j a b native byte p q l r reach hp hq lt fi fj apart hl hr tl tr =
    let v = reach-IsScheduled n reach in
    elim (Bool-cases (any_conflict q.accesses p.accesses)) [
      | inl conflict ↦ absurd (
          apart (
            v.ordered i j p q hp hq lt (ground (arith, v.flying i p hp))
              (ground (arith, v.flying j q hq)) conflict))
      | inr free ↦
          no_conflict r l native byte (any_conflict-false q.accesses p.accesses b a free hr hl) tr
            tl
    ]
