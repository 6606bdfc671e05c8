-- ===== src/Health/Tests.antt =====
-- Runs of the health state.
use cuda_js.Base.{◌≡◌, refl, ◌≤◌, ◌⊎◌, true, some, [], ◌∷◌, arith}
use cuda_js.Base.Outcome.{returned}
use cuda_js.Js.{Value, undefined, string, natural, object, bare, entry, text, or_else, is_inherited}
use cuda_js.Failure.{Health, healthy, poisoned, rank, health_of}
use cuda_js.Health.{
  HealthState, ranked, inherited, same_state, state_of, initial, transition, observe_error_health,
  requested_health,
}
use cuda_js.Health.Order.{IsExplained, transition-Moved, observe_error_health_lem, worse}

abbrev poisoned_state : HealthState
poisoned_state = record {
  current = ranked poisoned;
  history =
      record {
        before = ranked healthy;
        after = ranked poisoned;
        reason = string (text "device lost");
        operation_id = natural 4;
      }
      ∷ [];
}

poisoned_transition :
    transition initial (text "poisoned") (string (text "device lost")) (natural 4)
    ≡ returned poisoned_state
unfolding transition state_of is_inherited or_else health_of same_state
poisoned_transition = refl

transition-Moved_example :
    ((is_inherited (text "poisoned") ≡ true)
      × (poisoned_state.current ≡ inherited (text "poisoned")))
    ⊎ ((to : Health) × (health_of (text "poisoned") ≡ some to)
        × (poisoned_state.current ≡ ranked to)
        × (0 ≤ rank to)
        × IsExplained poisoned_state)
transition-Moved_example =
    transition-Moved initial (text "poisoned") (string (text "device lost")) (natural 4) healthy
      refl refl poisoned_transition

abbrev deferred_error : Value
deferred_error = object (
    entry (text "code") (string (text "CUDA_ERROR"))
      (entry (text "category") (string (text "deferred-driver")) bare))

observe_error_health_example :
    (t : HealthState) × (observe_error_health initial deferred_error (natural 1) undefined
      ≡ returned t)
    × (t.current ≡ ranked (worse healthy (requested_health deferred_error)))
    × IsExplained t
observe_error_health_example =
    observe_error_health_lem initial deferred_error (natural 1) undefined healthy refl refl

deferred_requests_poisoned : requested_health deferred_error ≡ some poisoned
unfolding requested_health
deferred_requests_poisoned = refl

history_bound_poisoned : IsExplained poisoned_state
history_bound_poisoned = (poisoned, refl, (poisoned, refl, refl, omega arith, refl))
