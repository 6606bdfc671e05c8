-- ===== src/Startup/Tests.antt =====
-- A startup that fails for a plain reason, and a cleanup that says nothing structured.
use cuda_js.Base.{ℕ, ◌≤◌, ◌≡◌, refl, some, [], ◌∷◌, get_elem?}
use cuda_js.Js.{text, fraction, string, field}
use cuda_js.Failure.{Health, restart_required, rank, health_of}
use cuda_js.Startup.Rollback.{
  StartupFailure, failure_health, startup_records, cleanup_records, startup_failure_record,
  structured, startup_rollback_health, startup_rollback_health_lem,
}

asks_restart :
    startup_rollback_health fraction (fraction ∷ []) (string (text "suspect"))
    ≡ some restart_required
unfolding startup_rollback_health startup_records cleanup_records startup_failure_record structured
    failure_health field health_of
asks_restart = refl

startup_rollback_health_example :
    ((h : Health)
      → failure_health (string (text "suspect")) ≡ some h
      → (b : Health) × (startup_rollback_health fraction (fraction ∷ []) (string (text "suspect"))
          ≡ some b)
        × (rank h ≤ rank b))
    × ((i : ℕ) (r : StartupFailure) (h : Health)
        → get_elem? (startup_records fraction (fraction ∷ [])) i ≡ some r
        → r.health_after ≡ some h
        → (b : Health) × (startup_rollback_health fraction (fraction ∷ []) (string (text "suspect"))
            ≡ some b)
          × (rank h ≤ rank b))
startup_rollback_health_example =
    startup_rollback_health_lem fraction (fraction ∷ []) (string (text "suspect"))
