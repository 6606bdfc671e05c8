-- ===== src/Execution/Preserved.antt =====
-- Each call of the scheduler keeps its invariant.
use cuda_js.Base.{
  ℕ, zero, suc, ◌+◌, ◌<◌, ◌≡◌, ◌⊎◌, refl, sym, ◌∙◌, ap, inl, inr, true, false, Option, none, some,
  List, [], ◌∷◌, ◌++◌, leb, ◌==◌, ==_iff, length, length-append, get_elem?, get_elem?-lt,
  Bool-cases, arith,
}
use cuda_js.Base.Counts.{count-append}
use cuda_js.Base.Outcome.{returned, Outcome-cases, reject-elim, >>=-elim, or_throw}
use cuda_js.Failure.{Failure}
use cuda_js.Execution.Conflicts.{Access, any_conflict}
use cuda_js.Execution.Scheduler.{
  Operation, Scheduler, assert_admission, busy, find_dependency, is_the, accesses_of, has_hazard,
  choose_stream, admit, Answer, registered, undone, lost, stopped, Making, made, given_up,
  left_behind, make_streams, may_initialize, initialize, new_operation, enroll, submit,
  submit_first,
}
use cuda_js.Execution.Ordered.{times, is_flying, IsScheduled}

get_elem?-snoc :
    (os : List Operation) (o : Operation) (i : ℕ) {p : Operation}
    → get_elem? (os ++ o ∷ []) i ≡ some p
    → (get_elem? os i ≡ some p) ⊎ ((i ≡ length os) × (p ≡ o))
get_elem?-snoc [] o zero h = inr (refl, ground arith)
get_elem?-snoc [] o (suc i) h = cc
get_elem?-snoc (x ∷ xs) o zero h = inl h
get_elem?-snoc (x ∷ xs) o (suc i) h = elim (get_elem?-snoc xs o i h) [
  | inl before ↦ inl before
  | inr (e, same) ↦ inr (ap suc e, same)
]

-- A new operation that shares its stream with whatever in flight it conflicts with.
abbrev Fitting : Scheduler → ℕ → List Access → Type 0
Fitting s stream accesses =
    (i : ℕ) (p : Operation)
    → get_elem? s.operations i ≡ some p
    → is_flying p.status ≡ true
    → any_conflict accesses p.accesses ≡ true
    → p.stream ≡ stream

enroll-IsScheduled :
    (s : Scheduler) (stream sequence : ℕ) (accesses : List Access)
    → length s.in_flight < s.max_pending
    → Fitting s stream accesses
    → IsScheduled s
    → IsScheduled (enroll s (new_operation stream sequence accesses))
enroll-IsScheduled s stream sequence accesses room fit v =
    let o = new_operation stream sequence accesses in
    let n = length s.operations in
    record {
      few = omega (arith, room, length-append s.in_flight (n ∷ []));
      known = λ i h. ground (
        arith,
        length-append s.operations (o ∷ []),
        count-append ◌==◌ i s.in_flight (n ∷ []),
        v.known i,
      );
      flying = λ i p h. elim (get_elem?-snoc s.operations o i h) [
        | inl before ↦ ground (
          arith,
          get_elem?-lt s.operations i before,
          count-append ◌==◌ i s.in_flight (n ∷ []),
          v.flying i p before,
        )
        | inr (e, same) ↦
            rw (same, e) (ground (arith, count-append ◌==◌ n s.in_flight (n ∷ []), v.known n))
      ];
      leased = λ i p h. elim (get_elem?-snoc s.operations o i h) [
        | inl before ↦ v.leased i p before
        | inr (e, same) ↦ rw same
      ];
      ordered = λ i j p q hp hq lt fp fq conflict. elim (get_elem?-snoc s.operations o i hp) [
        | inr (e, same) ↦ absurd (
            omega (
              arith,
              get_elem?-lt (s.operations ++ o ∷ []) j hq,
              length-append s.operations (o ∷ []),
            ))
        | inl old ↦ elim (get_elem?-snoc s.operations o j hq) [
          | inl older ↦ v.ordered i j p q old older lt fp fq conflict
          | inr (e, same) ↦
              fit i p old fp (rw same at conflict) ∙ sym (ap (λ (r : Operation). r.stream) same)
        ]
      ];
    }

hazard_free :
    (os : List Operation) (dependency : Option ℕ) (accesses : List Access) (is : List ℕ) (i : ℕ)
    → has_hazard os dependency accesses is ≡ false
    → 0 < times i is
    → is_the dependency i ≡ false
    → any_conflict accesses (accesses_of (get_elem? os i)) ≡ false
unfolding has_hazard
hazard_free os d accesses [] i h k e = absurd (omega arith)
hazard_free os d accesses (j ∷ js) i h k e = elim (Bool-cases (j == i)) [
  | inl same ↦
      let e' : j ≡ i = (==_iff j i).0 same in
      ground
        (arith, ap (is_the d) e', ap (λ n. any_conflict accesses (accesses_of (get_elem? os n))) e')
  | inr other ↦ hazard_free os d accesses js i (ground arith) (ground arith) e
]

is_the-some : (d : Option ℕ) (i : ℕ) → is_the d i ≡ true → d ≡ some i
is_the-some none i h = cc
is_the-some (some j) i h = ap some ((==_iff j i).0 h)

chosen_stream :
    (s : Scheduler) (i : ℕ) {stream : ℕ} {p : Operation}
    → choose_stream s (some i) ≡ some stream
    → get_elem? s.operations i ≡ some p
    → p.stream ≡ stream
unfolding choose_stream
chosen_stream s i h e = ground arith

or_throw-some : (o : Option ℕ) (e : Failure) {n : ℕ} → or_throw o e ≡ returned n → o ≡ some n
or_throw-some none e h = cc
or_throw-some (some m) e h = cc

admit-Fitting :
    (s : Scheduler) (sequence : ℕ) (after : Option ℕ) (accesses : List Access) {stream : ℕ}
    → IsScheduled s
    → admit s sequence after accesses ≡ returned stream
    → (length s.in_flight < s.max_pending) × Fitting s stream accesses
unfolding admit
admit-Fitting s sequence after accesses v h =
    >>=-elim (assert_admission s.rollback_failure) h λ admitted e0 h0.
      reject-elim (leb s.max_pending (length s.in_flight)) _ h0 λ room h1.
        >>=-elim (find_dependency s.operations sequence after) h1 λ dependency e2 h2.
          reject-elim (has_hazard s.operations dependency accesses s.in_flight) _ h2 λ free h3. (
            ground arith,
            λ i p found flies conflict.
                let here : 0 < times i s.in_flight = ground (arith, v.flying i p found) in
                elim (Bool-cases (is_the dependency i)) [
                  | inr other ↦ absurd (
                      cc (
                        hazard_free s.operations dependency accesses s.in_flight i free here other,
                        ap (λ o. any_conflict accesses (accesses_of o)) found,
                        conflict,
                      ))
                  | inl same ↦
                      chosen_stream s i
                        (or_throw-some (choose_stream s (some i)) busy
                          (rw (is_the-some dependency i same) at h3))
                        found
                ],
          )

pub stop-IsScheduled :
    (s : Scheduler) (f : Failure)
    → IsScheduled s
    → IsScheduled (record s { rollback_failure = some f })
stop-IsScheduled s f v = record {
  few = v.few;
  known = v.known;
  flying = v.flying;
  leased = v.leased;
  ordered = v.ordered;
}

make_streams-IsScheduled :
    (becomes : ℕ → Making) (k n : ℕ) (s : Scheduler)
    → IsScheduled s
    → IsScheduled (make_streams becomes k n s).0
unfolding make_streams
make_streams-IsScheduled becomes k zero s v = v
make_streams-IsScheduled becomes k (suc n) s v = on_making (becomes k) refl (
    make_streams-IsScheduled becomes (suc k) n (record s { streams = s.streams + 1 })
      (record {
        few = v.few;
        known = v.known;
        flying = v.flying;
        leased = v.leased;
        ordered = v.ordered;
      }))
  where
    on_making :
        (m : Making)
        → becomes k ≡ m
        → IsScheduled (make_streams becomes (suc k) n (record s { streams = s.streams + 1 })).0
        → IsScheduled (make_streams becomes k (suc n) s).0
    on_making made e rest = rw (e, make_streams) rest
    on_making (given_up f) e rest = rw (e, make_streams) v
    on_making (left_behind f) e rest = rw (e, make_streams) (stop-IsScheduled s f v)

pub initialize-IsScheduled :
    (becomes : ℕ → Making) (s : Scheduler) → IsScheduled s → IsScheduled (initialize becomes s).0
unfolding initialize
initialize-IsScheduled becomes s v = elim (Outcome-cases (may_initialize s)) [
  | inr (f, e) ↦ rw (e, initialize) v
  | inl (_, e) ↦ rw (e, initialize) (make_streams-IsScheduled becomes 0 s.max_pending s v)
]

pub submit-IsScheduled :
    (s : Scheduler) (sequence : ℕ) (after : Option ℕ) (accesses : List Access) (answer : Answer)
    → IsScheduled s
    → IsScheduled (submit s sequence after accesses answer).0
unfolding submit
submit-IsScheduled s sequence after accesses answer v =
    elim (Outcome-cases (admit s sequence after accesses)) [
      | inr (f, e) ↦ rw (e, submit) v
      | inl (stream, e) ↦
          let (room, fit) = admit-Fitting s sequence after accesses v e in
          elim answer as (λ a. IsScheduled (submit s sequence after accesses a).0) [
            | registered ↦ rw (e, submit) (enroll-IsScheduled s stream sequence accesses room fit v)
            | undone f ↦ rw (e, submit) v
            | lost f ↦ rw (e, submit) v
            | stopped f ↦ rw (e, submit) (stop-IsScheduled s f v)
          ]
    ]

pub submit_first-IsScheduled :
    (becomes : ℕ → Making) (s : Scheduler) (sequence : ℕ) (after : Option ℕ)
    (accesses : List Access) (answer : Answer)
    → IsScheduled s
    → IsScheduled (submit_first becomes s sequence after accesses answer).0
unfolding submit_first
submit_first-IsScheduled becomes s sequence after accesses answer v =
    let w = initialize-IsScheduled becomes s v in
    elim (Outcome-cases (initialize becomes s).1) [
      | inr (f, e) ↦ rw (e, submit_first) w
      | inl (_, e) ↦
          rw (e, submit_first)
            (submit-IsScheduled (initialize becomes s).0 sequence after accesses answer w)
    ]
