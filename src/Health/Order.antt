-- ===== src/Health/Order.antt =====
-- The order of health states, and what `transition` and `observe_error_health` keep of it.
use cuda_js.Base.{
  ◌+◌, ◌≤◌, ◌<◌, ◌≡◌, refl, sym, not, ◌&&◌, true, false, ◌⊎◌, Option, none, some, List, [], ◌∷◌,
  ◌++◌, arith, ltb, length, Bool-cases, Option-cases, inl, inr, ◌==◌, if◌then◌else◌,
}
use cuda_js.Base.Outcome.{Outcome, returned, or_throw-elim, reject-elim}
use cuda_js.Js.{Text, is_inherited, Value}
use cuda_js.Failure.{
  Health, healthy, suspect, poisoned, restart_required, closed, rank, health_of,
  health_of-health_name, health_name, Failure,
}
use cuda_js.Health.{
  State, ranked, inherited, same_state, is_closed, is_below, state_of, HealthStep, HealthState,
  move, transition, raise_to, observe_error_health, requested_health,
}

-- A history leads from one health to another, each step strictly upwards.
abbrev pub IsChain : Health → List HealthStep → Health → Type 0
IsChain start [] end = start ≡ end
IsChain start (s ∷ ss) end =
    (h : Health) × (s.before ≡ ranked start)
    × (s.after ≡ ranked h)
    × (rank start < rank h)
    × IsChain h ss end

-- The current health is one of the five, and the history explains it.
abbrev pub IsExplained : HealthState → Type 0
IsExplained s = (h : Health) × (s.current ≡ ranked h) × IsChain healthy s.history h

IsChain-append :
    (start : Health) (ss : List HealthStep) (s : HealthStep) (mid end : Health)
    → IsChain start ss mid
    → s.before ≡ ranked mid
    → s.after ≡ ranked end
    → rank mid < rank end
    → IsChain start (ss ++ s ∷ []) end
IsChain-append start [] s mid end c b a h = (end, rw c b, a, rw c h, refl)
IsChain-append start (x ∷ ss) s mid end (k, before, after, up, c) b a h =
    (k, before, after, up, IsChain-append k ss s mid end c b a h)

IsChain-length :
    (start : Health) (ss : List HealthStep) (end : Health)
    → IsChain start ss end
    → length ss + rank start ≤ rank end
IsChain-length start [] end c = ground arith
IsChain-length start (x ∷ ss) end (k, before, after, up, c) =
    omega (arith, IsChain-length k ss end c)

rank-le : (h : Health) → rank h ≤ 4
rank-le h = ground arith

pub rank-injective : (g h : Health) → rank g ≡ rank h → g ≡ h
rank-injective g h e = ground arith

move-IsExplained :
    (s : HealthState) (from to : Health) (reason id : Value)
    → s.current ≡ ranked from
    → IsChain healthy s.history from
    → rank from ≤ rank to
    → IsExplained (move s (ranked to) reason id)
unfolding move same_state
move-IsExplained s from to reason id at c h =
    let compared : same_state s.current (ranked to) ≡ (rank from == rank to) = rw at refl in
    elim (Bool-cases (same_state s.current (ranked to))) [
      | inl same ↦
          let e : rank from ≡ rank to = ground (arith, compared) in
          (to, refl, rw same (rw (← rank-injective from to e) c))
      | inr differs ↦
          let e : rank from < rank to = ground (arith, compared) in
          (to, refl, rw differs (IsChain-append healthy s.history _ from to c at refl e))
    ]

transition_inv :
    (s : HealthState) (next : Text) (reason id : Value) {t : HealthState}
    → transition s next reason id ≡ returned t
    → (to : State) × (state_of next ≡ some to)
      × (is_closed s.current && not (is_closed to) ≡ false)
      × (not (is_closed to) && is_below to s.current ≡ false)
      × (t ≡ move s to reason id)
unfolding transition
transition_inv s next reason id h = or_throw-elim (state_of next) _ h λ to named h1.
    reject-elim (is_closed s.current && not (is_closed to)) _ h1 λ open_ h2.
      reject-elim (not (is_closed to) && is_below to s.current) _ h2
        λ up h3. (to, named, open_, up, ground arith)

current-move :
    (s : HealthState) (to : State) (reason id : Value) → (move s to reason id).current ≡ to
unfolding move
current-move s to reason id = refl

state_of-ranked :
    (name : Text) {to : State}
    → is_inherited name ≡ false
    → state_of name ≡ some to
    → (h : Health) × (health_of name ≡ some h) × (to ≡ ranked h)
unfolding state_of
state_of-ranked name proper h = elim (Option-cases (health_of name)) [
  | inl unknown ↦ absurd (ground arith)
  | inr (k, known) ↦ (k, known, ground arith)
]

-- What a transition from `from` to the name `next` may make of a state.
abbrev Moved : Health → Text → HealthState → Type 0
Moved from next t =
    ((is_inherited next ≡ true) × (t.current ≡ inherited next))
    ⊎ ((to : Health) × (health_of next ≡ some to)
        × (t.current ≡ ranked to)
        × (rank from ≤ rank to)
        × IsExplained t)

-- From a state of one of the five healths, whose history explains it, a transition that returns
-- leads either to the health that was named, which is no better than the old one, and leaves a
-- history of strict steps that explains it; or, where the name is inherited from Object.prototype,
-- to that name, which has no rank.
pub transition-Moved :
    (s : HealthState) (next : Text) (reason id : Value) {t : HealthState} (from : Health)
    → s.current ≡ ranked from
    → IsChain healthy s.history from
    → transition s next reason id ≡ returned t
    → Moved from next t
unfolding state_of
transition-Moved s next reason id {t} from at c h =
    let (to, named, open_, up, e) = transition_inv s next reason id h in
    elim (Bool-cases (is_inherited next)) [
      | inl odd ↦
          let same : inherited next ≡ to = ground (arith, odd) in
          inl (odd, rw e (rw current-move (sym same)))
      | inr proper ↦
          let (k, known, same) = state_of-ranked next proper named in
          let level : rank from ≤ rank k =
            not_below from k (rw (at, same) at open_) (rw (at, same) at up) in
          inr (
            k,
            known,
            rw (e, same) (current-move s (ranked k) reason id),
            level,
            rw (e, same) (move-IsExplained s from k reason id at c level),
          )
    ]
  where
    not_below :
        (a b : Health)
        → is_closed (ranked a) && not (is_closed (ranked b)) ≡ false
        → not (is_closed (ranked b)) && is_below (ranked b) (ranked a) ≡ false
        → rank a ≤ rank b
    not_below a b p q = ground arith

proper_name : (h : Health) → is_inherited (health_name h) ≡ false
unfolding is_inherited
proper_name healthy = refl
proper_name suspect = refl
proper_name poisoned = refl
proper_name restart_required = refl
proper_name closed = refl

-- What an observed error makes of the current health: the worse of the two, unless all is over.
abbrev pub worse : Health → Option Health → Health
worse current none = current
worse current (some h) = if ltb (rank current) (rank h) then h else current

abbrev Observed : Health → Option Health → Outcome Failure HealthState → Type 0
Observed from requested r =
    (t : HealthState) × (r ≡ returned t)
    × (t.current ≡ ranked (worse from requested))
    × IsExplained t

transition_up :
    (s : HealthState) (from to : Health) (reason id : Value)
    → s.current ≡ ranked from
    → rank from < rank to
    → transition s (health_name to) reason id ≡ returned (move s (ranked to) reason id)
unfolding transition state_of
transition_up s from to reason id at h =
    let open_ : is_closed (ranked from) && not (is_closed (ranked to)) ≡ false =
      ground (arith, rank-le to) in
    let up : not (is_closed (ranked to)) && ltb (rank to) (rank from) ≡ false = ground arith in
    rw (proper_name to, health_of-health_name to, at) (rw (open_, up) refl)

raise_to-Observed :
    (s : HealthState) (from : Health) (requested : Option Health) (why which : Value)
    → s.current ≡ ranked from
    → IsChain healthy s.history from
    → Observed from requested (raise_to s requested why which)
unfolding raise_to
raise_to-Observed s from none why which at c = (s, refl, at, (from, at, c))
raise_to-Observed s from (some h) why which at c = elim (Bool-cases (ltb (rank from) (rank h))) [
  | inl up ↦
      let open_ : is_closed (ranked from) ≡ false = ground (arith, rank-le h) in
      let raising : not (is_closed s.current) && is_below s.current (ranked h) ≡ true =
        rw at (ground arith) in
      (
        move s (ranked h) why which,
        rw raising (transition_up s from h why which at (ground arith)),
        rw up (current-move s (ranked h) why which),
        move-IsExplained s from h why which at c (ground arith),
      )
  | inr same ↦
      let stays : not (is_closed s.current) && is_below s.current (ranked h) ≡ false =
        rw at (ground arith) in
      (s, rw stays refl, rw same at, (from, at, c))
]

-- From a state of one of the five healths, whose history explains it, an observation never throws: it
-- leaves the worse of the current health and the one that the error asks for, and an explained
-- history stays explained.
pub observe_error_health_lem :
    (s : HealthState) (error id reason : Value) (from : Health)
    → s.current ≡ ranked from
    → IsChain healthy s.history from
    → (t : HealthState) × (observe_error_health s error id reason ≡ returned t)
      × (t.current ≡ ranked (worse from (requested_health error)))
      × IsExplained t
unfolding observe_error_health
observe_error_health_lem s error id reason from at c =
    raise_to-Observed s from (requested_health error) _ _ at c

-- The history of one epoch holds at most four steps.
pub history_bound : (s : HealthState) → IsExplained s → length s.history ≤ 4
history_bound s (h, at, c) = omega (arith, IsChain-length healthy s.history h c, rank-le h)
