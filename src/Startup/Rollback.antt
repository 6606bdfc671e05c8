-- ===== src/Startup/Rollback.antt =====
-- `startupFailureRecord` and `startupRollbackFailure`, as far as the category and the health go. The
-- redacted texts, the code, the details and the inventory are left out.
use cuda_js.Base.{
  ℕ, zero, suc, ◌≤◌, ◌≡◌, refl, Bool, true, false, Option, none, some, List, [], ◌∷◌, arith, ltb,
  if◌then◌else◌, inl, inr, Option-cases, Bool-cases, get_elem?, take,
}
use cuda_js.Js.{text, Value, string, field}
use cuda_js.Failure.{
  Health, suspect, poisoned, restart_required, closed, rank, health_of, Category, validation,
  unsupported, pressure, backpressure, stale_resource, immediate_driver, deferred_driver,
  must_restart, internal, category_of, is_listed,
}

pub record StartupFailure : Type 0 where
  pub category : Category
  pub health_before : Option Health
  pub health_after : Option Health

abbrev open_health : Option Health → Option Health
open_health (some closed) = none
open_health h = h

-- `failureHealth`
unfoldable pub failure_health : Value → Option Health
unfolding health_of
failure_health (string t) = open_health (health_of t)
failure_health _ = none

-- `categoryHealth`
abbrev pub category_health : Category → Option Health
category_health validation = none
category_health unsupported = none
category_health pressure = none
category_health backpressure = none
category_health stale_resource = none
category_health immediate_driver = some suspect
category_health deferred_driver = some poisoned
category_health must_restart = some restart_required
category_health _ = some suspect

abbrev or_health : Option Health → Option Health → Option Health
or_health none h = h
or_health (some h) _ = some h

unfoldable pub structured : Value → Value → Option Category
unfolding category_of
structured (string code) (string t) =
    if is_listed (category_of t) then some (category_of t) else none
structured _ _ = none

abbrev pub unstructured_record : Bool → StartupFailure
unstructured_record cleanup = record {
  category = if cleanup then must_restart else internal;
  health_before = none;
  health_after = if cleanup then some restart_required else some suspect;
}

-- `startupFailureRecord`
unfoldable pub startup_failure_record : Bool → Value → StartupFailure
unfolding field failure_health structured
startup_failure_record cleanup error =
    elim (structured (field error (text "code")) (field error (text "category"))) [
      | none ↦ unstructured_record cleanup
      | some category ↦ record {
        category = category;
        health_before = failure_health (field error (text "healthBefore"));
        health_after =
            or_health (failure_health (field error (text "healthAfter")))
              (category_health category);
      }
    ]

unfoldable pub cleanup_records : List Value → List StartupFailure
unfolding startup_failure_record
cleanup_records [] = []
cleanup_records (e ∷ es) = startup_failure_record true e ∷ cleanup_records es

-- The primary failure and at most eight cleanup failures.
unfoldable pub startup_records : Value → List Value → List StartupFailure
unfolding cleanup_records startup_failure_record
startup_records primary cleanup_errors =
    startup_failure_record false primary ∷ cleanup_records (take 8 cleanup_errors)

abbrev pub stronger : Option Health → Option Health → Option Health
stronger best none = best
stronger none (some h) = some h
stronger (some b) (some h) = if ltb (rank b) (rank h) then some h else some b

-- The loop over the records, from the current health on.
abbrev pub resulting_health : Option Health → List StartupFailure → Option Health
resulting_health best [] = best
resulting_health best (r ∷ rs) = resulting_health (stronger best r.health_after) rs

-- `healthAfter` of the error that `startupRollbackFailure` returns.
unfoldable pub startup_rollback_health : Value → List Value → Value → Option Health
unfolding startup_records failure_health
startup_rollback_health primary cleanup_errors health_current =
    resulting_health (failure_health health_current) (startup_records primary cleanup_errors)

keeps :
    (rs : List StartupFailure) (h : Health)
    → (b : Health) × (resulting_health (some h) rs ≡ some b) × (rank h ≤ rank b)
keeps [] h = (h, refl, omega arith)
keeps (r ∷ rs) h = elim (Option-cases r.health_after) [
  | inl e ↦ rw e (keeps rs h)
  | inr (k, e) ↦ elim (Bool-cases (ltb (rank h) (rank k))) [
    | inl worse ↦ let (b, eb, le) = keeps rs k in (b, rw (e, worse) eb, ground arith)
    | inr no_worse ↦ let (b, eb, le) = keeps rs h in (b, rw (e, no_worse) eb, le)
  ]
]

covers :
    (rs : List StartupFailure) (best : Option Health) (i : ℕ) (r : StartupFailure) (h : Health)
    → get_elem? rs i ≡ some r
    → r.health_after ≡ some h
    → (b : Health) × (resulting_health best rs ≡ some b) × (rank h ≤ rank b)
covers [] best i r h at said = cc
covers (x ∷ rs) best zero r h at said =
    let e : x.health_after ≡ some h = ground arith in
    elim (Option-cases best) [
      | inl eb ↦ rw (e, eb) (keeps rs h)
      | inr (k, eb) ↦ elim (Bool-cases (ltb (rank k) (rank h))) [
        | inl worse ↦ rw (e, eb) (rw worse (keeps rs h))
        | inr no_worse ↦
            let (b, eb', le) = keeps rs k in (b, rw (e, eb) (rw no_worse eb'), ground arith)
      ]
    ]
covers (x ∷ rs) best (suc i) r h at said = covers rs (stronger best x.health_after) i r h at said

-- The health of a failed startup whose rollback failed is at least as bad as the health that the
-- runtime has, where that has a rank, and as the health of every failure that is recorded.
pub startup_rollback_health_lem :
    (primary : Value) (cleanup_errors : List Value) (health_current : Value)
    → ((h : Health)
        → failure_health health_current ≡ some h
        → (b : Health) × (startup_rollback_health primary cleanup_errors health_current ≡ some b)
          × (rank h ≤ rank b))
      × ((i : ℕ) (r : StartupFailure) (h : Health)
          → get_elem? (startup_records primary cleanup_errors) i ≡ some r
          → r.health_after ≡ some h
          → (b : Health) × (startup_rollback_health primary cleanup_errors health_current ≡ some b)
            × (rank h ≤ rank b))
unfolding startup_rollback_health
startup_rollback_health_lem primary cleanup_errors health_current = (
  λ h e. rw (e, startup_rollback_health) (keeps (startup_records primary cleanup_errors) h),
  λ i r h at said.
      covers (startup_records primary cleanup_errors) (failure_health health_current) i r h at said,
)
