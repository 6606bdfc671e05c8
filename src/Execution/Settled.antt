-- ===== src/Execution/Settled.antt =====
-- What polls, timeouts and their failures do keeps the scheduler's invariant.
use cuda_js.Base.{
  ℕ, ◌+◌, ◌≡◌, refl, ◌∙◌, ap, inl, inr, Bool, true, false, some, ltb, ==_iff, length, length-modify,
  get_elem?, modify_cases, Bool-cases, Option-cases, arith,
}
use cuda_js.Base.Outcome.{Outcome, returned, thrown}
use cuda_js.Failure.{Failure}
use cuda_js.Execution.Scheduler.{Status, pending, completed, failed, orphaned, Operation, Scheduler}
use cuda_js.Execution.Completion.{
  finish, terminalized, set_orphan, terminalize_failure, terminalize_completed, Event,
  still_pending, complete, unknown_state, observed, observe_failure, must_stop, polled, poll,
  operation_status, legacy_timeout, timed_out,
}
use cuda_js.Execution.Ordered.{
  is_flying, IsScheduled, Flies, polled-IsScheduled, set_orphan-IsScheduled,
  orphan_each-IsScheduled, times-remove, length-remove_le,
}

abbrev IsTerminal : Status → Type 0
IsTerminal status = is_flying status ≡ false

terminalized-IsScheduled :
    (s : Scheduler) (i : ℕ) (status : Status)
    → IsTerminal status
    → IsScheduled s
    → IsScheduled (terminalized s i status)
terminalized-IsScheduled s i status t v = record {
  few = omega (arith, v.few, length-remove_le i s.in_flight);
  known = λ j h. ground (
    arith,
    times-remove i j s.in_flight,
    v.known j (omega (arith, length-modify s.operations i (finish status))),
  );
  flying = λ j o h. elim (modify_cases s.operations i j (finish status) h) [
    | inl (e, (p, h', e')) ↦
        times-remove i j s.in_flight ∙ rw (e, e', t) (ground (arith, ==_iff i i))
    | inr (e, h') ↦ ground (arith, times-remove i j s.in_flight, v.flying j o h')
  ];
  leased = λ j o h. elim (modify_cases s.operations i j (finish status) h) [
    | inl (e, (p, h', e')) ↦ rw (e', t)
    | inr (e, h') ↦ v.leased j o h'
  ];
  ordered = λ j k p q hp hq lt fp fq conflict.
      elim (modify_cases s.operations i j (finish status) hp) [
        | inl (e, (p', hp', ep)) ↦ absurd (cc (ep, t, fp))
        | inr (e, hp') ↦ elim (modify_cases s.operations i k (finish status) hq) [
          | inl (e', (q', hq', eq)) ↦ absurd (cc (eq, t, fq))
          | inr (e', hq') ↦ v.ordered j k p q hp' hq' lt fp fq conflict
        ]
      ];
}

terminalize_failure-IsScheduled :
    (s : Scheduler) (i : ℕ) (closes : Bool)
    → Flies s.operations i
    → IsScheduled s
    → IsScheduled (terminalize_failure s i closes).0
unfolding terminalize_failure
terminalize_failure-IsScheduled s i true f v = terminalized-IsScheduled s i failed refl v
terminalize_failure-IsScheduled s i false f v = set_orphan-IsScheduled s i f v

terminalize_completed-IsScheduled :
    (s : Scheduler) (i : ℕ) (has_result closes : Bool)
    → Flies s.operations i
    → IsScheduled s
    → IsScheduled (terminalize_completed s i has_result closes).0
unfolding terminalize_completed
terminalize_completed-IsScheduled s i false closes f v =
    terminalize_failure-IsScheduled s i closes f v
terminalize_completed-IsScheduled s i true true f v =
    let w = terminalized-IsScheduled s i completed refl v in
    record {
      few = w.few;
      known = w.known;
      flying = w.flying;
      leased = w.leased;
      ordered = w.ordered;
    }
terminalize_completed-IsScheduled s i true false f v = set_orphan-IsScheduled s i f v

observe_failure-IsScheduled :
    (s : Scheduler) (i : ℕ) (f : Failure) (closes : Bool)
    → Flies s.operations i
    → IsScheduled s
    → IsScheduled (observe_failure s i f closes).0
unfolding observe_failure
observe_failure-IsScheduled s i f closes w v = elim (Bool-cases (must_stop f.category)) [
  | inl stop ↦ rw stop (set_orphan-IsScheduled s i w v)
  | inr on ↦ elim (Bool-cases (ltb 1 (length s.in_flight))) [
    | inl many ↦ rw (on, many) (orphan_each-IsScheduled s v)
    | inr alone ↦ rw (on, alone) (terminalize_failure-IsScheduled s i closes w v)
  ]
]

poll-IsScheduled :
    (s : Scheduler) (i : ℕ) (event : Event) (has_result closes : Bool)
    → Flies s.operations i
    → IsScheduled s
    → IsScheduled (poll s i event has_result closes).0
unfolding poll
poll-IsScheduled s i still_pending has_result closes f v = v
poll-IsScheduled s i complete has_result closes f v =
    terminalize_completed-IsScheduled s i has_result closes f v
poll-IsScheduled s i unknown_state has_result closes f v = v
poll-IsScheduled s i (observed g) has_result closes f v =
    observe_failure-IsScheduled s i g closes f v

Flies-polled :
    (s : Scheduler) (i : ℕ) {o : Operation}
    → get_elem? s.operations i ≡ some o
    → o.status ≡ pending
    → Flies (polled s i).operations i
Flies-polled s i {o} h e p q =
    elim (modify_cases s.operations i i
      (λ (o' : Operation). record o' { poll_count = o'.poll_count + 1 }) q) [
        | inl (same, (r, hr, er)) ↦
            let is_o : r ≡ o = cc in
            ap (λ (x : Operation). is_flying x.status) er
            ∙ ap (λ (x : Operation). is_flying x.status) is_o
            ∙ ap is_flying e
        | inr (other, hr) ↦ absurd (other refl)
      ]

-- A call that does nothing but to a pending operation.
by_status :
    (s : Scheduler) (act : Scheduler × Outcome Failure Status) (status : Status)
    → (status ≡ pending → IsScheduled act.0)
    → IsScheduled s
    → IsScheduled
        (elim status as (λ _. Scheduler × Outcome Failure Status) [
          | pending ↦ act
          | other ↦ (s, returned other)
        ]).0
by_status s act pending k v = k refl
by_status s act completed k v = v
by_status s act failed k v = v
by_status s act orphaned k v = v

pub operation_status-IsScheduled :
    (s : Scheduler) (i : ℕ) (event : Event) (has_result closes : Bool)
    → IsScheduled s
    → IsScheduled (operation_status s i event has_result closes).0
unfolding operation_status
operation_status-IsScheduled s i event has_result closes v =
    elim (Option-cases (get_elem? s.operations i)) [
      | inl missing ↦ rw (missing, operation_status) v
      | inr (o, found) ↦
          rw (found, operation_status)
            (by_status s (poll (polled s i) i event has_result closes) o.status
              (λ e.
                poll-IsScheduled (polled s i) i event has_result closes (Flies-polled s i found e)
                  (polled-IsScheduled s i v))
              v)
    ]

pub legacy_timeout-IsScheduled :
    (s : Scheduler) (i : ℕ) → IsScheduled s → IsScheduled (legacy_timeout s i).0
unfolding legacy_timeout
legacy_timeout-IsScheduled s i v = elim (Option-cases (get_elem? s.operations i)) [
  | inl missing ↦ rw (missing, legacy_timeout) v
  | inr (o, found) ↦
      rw (found, legacy_timeout)
        (by_status s (set_orphan s i, thrown timed_out) o.status
          (λ e.
            set_orphan-IsScheduled s i
              (λ p q.
                let same : p ≡ o = cc in
                ap (λ (x : Operation). is_flying x.status) same ∙ ap is_flying e)
              v)
          v)
]
