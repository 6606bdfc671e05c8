-- ===== src/Health.antt =====
-- components/driver-actor/src/health.mjs: the health of one runtime epoch, and what an observed error
-- does to it.
pub mod Order
mod Tests
use cuda_js.Base.{
  ℕ, ◌≡◌, Bool, true, false, ◌&&◌, not, Option, none, some, List, [], ◌∷◌, ◌++◌, ltb, ◌==◌,
  if◌then◌else◌,
}
use cuda_js.Base.Outcome.{Outcome, returned, thrown, ◌>>=◌, ◌>>◌, require, reject, or_throw}
use cuda_js.Js.{
  Text, text, text_eq, is_inherited, Value, null, string, array, field, or_else, to_list,
  is_safe_integer,
}
use cuda_js.Failure.{
  Health, healthy, suspect, poisoned, restart_required, closed, rank, health_of, Category,
  validation, unsupported, pressure, stale_resource, backpressure, closed_runtime, immediate_driver,
  deferred_driver, must_restart, category_of, health_name, Failure, failure, internal,
}

-- What `transition` takes for a health: one of the five, or a name that HEALTH_RANK inherits, for
-- which it has no rank.
pub data State : Type 0 where
  ranked : Health → State
  inherited : Text → State

pub record HealthStep : Type 0 where
  pub before : State
  pub after : State
  pub reason : Value
  pub operation_id : Value

pub record HealthState : Type 0 where
  pub current : State
  pub history : List HealthStep

abbrev pub initial : HealthState
initial = record { current = ranked healthy; history = [] }

abbrev pub is_closed : State → Bool
is_closed (ranked closed) = true
is_closed _ = false

unfoldable pub same_state : State → State → Bool
unfolding text_eq
same_state (ranked a) (ranked b) = rank a == rank b
same_state (inherited s) (inherited t) = text_eq s t
same_state _ _ = false

-- `HEALTH_RANK[a] < HEALTH_RANK[b]`: what is inherited compares as no number.
abbrev pub is_below : State → State → Bool
is_below (ranked a) (ranked b) = ltb (rank a) (rank b)
is_below _ _ = false

-- `next in HEALTH_RANK`
unfoldable pub state_of : Text → Option State
unfolding health_of is_inherited
state_of t =
    if is_inherited t
    then some (inherited t)
    else elim (health_of t) [ none ↦ none | some h ↦ some (ranked h) ]

-- `acceptedHealth`
abbrev accepted : Option Health → Option Health
accepted (some closed) = none
accepted h = h

abbrev accepted_health : Value → Option Health
unfolding health_of
accepted_health (string t) = accepted (health_of t)
accepted_health _ = none

-- `strongestHealth`
abbrev strongest_health : Option Health → Option Health → Option Health
strongest_health none right = right
strongest_health (some l) none = some l
strongest_health (some l) (some r) = if ltb (rank l) (rank r) then some r else some l

-- `healthForErrorCategory(category)`
abbrev pub health_for_error_category : Category → Option Health
health_for_error_category validation = none
health_for_error_category unsupported = none
health_for_error_category pressure = none
health_for_error_category stale_resource = none
health_for_error_category backpressure = none
health_for_error_category closed_runtime = none
health_for_error_category immediate_driver = some suspect
health_for_error_category deferred_driver = some poisoned
health_for_error_category must_restart = some restart_required
health_for_error_category _ = some suspect

-- The category's health, where the field is a text.
abbrev category_health : Value → Option Health
unfolding category_of
category_health (string t) = health_for_error_category (category_of t)
category_health _ = none

unfoldable observe_failure_record : Value → Option Health
unfolding field accepted_health category_health
observe_failure_record r =
    strongest_health (accepted_health (field r (text "healthAfter")))
      (category_health (field r (text "category")))

abbrev cleanup_failures : Value → List Value
unfolding to_list
cleanup_failures (array vs) = to_list vs
cleanup_failures _ = []

observe_records : Option Health → List Value → Option Health
unfolding observe_failure_record
observe_records requested [] = requested
observe_records requested (r ∷ rs) =
    observe_records (strongest_health requested (observe_failure_record r)) rs

observe_nested_health : Value → Option Health
unfolding observe_records observe_failure_record field cleanup_failures
observe_nested_health error =
    let details = field error (text "details") in
    observe_records
      (strongest_health none (observe_failure_record (field details (text "primaryFailure"))))
      (cleanup_failures (field details (text "cleanupFailures")))

-- `typeof error?.code === 'string' && typeof error?.category === 'string'`
abbrev both_strings : Value → Value → Bool
both_strings (string c) (string t) = true
both_strings _ _ = false

-- The health that an error asks for: what it says itself, what its category says, and the same of
-- each failure that it carries.
pub requested_health : Value → Option Health
unfolding field accepted_health category_health observe_nested_health
requested_health error =
    let category = field error (text "category") in
    let by_category : Option Health =
      if both_strings (field error (text "code")) category
      then category_health category
      else some restart_required in
    strongest_health
      (strongest_health (accepted_health (field error (text "healthAfter"))) by_category)
      (observe_nested_health error)

move : HealthState → State → Value → Value → HealthState
move s to reason operation_id = record {
  current = to;
  history = if same_state s.current to then s.history else s.history ++ step ∷ [];
}
  where
    step : HealthStep
    step = record {
      before = s.current;
      after = to;
      reason = or_else reason (string (text "unspecified"));
      operation_id = operation_id;
    }

-- `HealthState.transition`
pub transition : HealthState → Text → Value → Value → Outcome Failure HealthState
unfolding move state_of
transition s next reason operation_id = do
  to ← or_throw (state_of next) (failure "HEALTH_STATE_INVALID" internal)
  reject (is_closed s.current && not (is_closed to)) (failure "HEALTH_TRANSITION_INVALID" internal)
  reject (not (is_closed to) && is_below to s.current)
      (failure "HEALTH_TRANSITION_INVALID" internal)
  returned (move s to reason operation_id)

abbrev safe_integer_or : Value → Value → Value
unfolding is_safe_integer
safe_integer_or v d = if is_safe_integer v then v else d

-- The end of `observeErrorHealth`: only a worse health is a transition.
raise_to : HealthState → Option Health → Value → Value → Outcome Failure HealthState
raise_to s none why which = returned s
raise_to s (some h) why which =
    if not (is_closed s.current) && is_below s.current (ranked h)
    then transition s (health_name h) why which
    else returned s

-- `observeErrorHealth`
pub observe_error_health : HealthState → Value → Value → Value → Outcome Failure HealthState
unfolding field
observe_error_health s error operation_id reason = raise_to s (requested_health error) why which
  where
    why : Value
    why = or_else reason (
        or_else (field error (text "operation"))
          (or_else (field error (text "category")) (string (text "unstructured-error"))))

    which : Value
    which = safe_integer_or (field error (text "operationId")) operation_id
