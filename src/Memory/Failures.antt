-- ===== src/Memory/Failures.antt =====
-- The error of an allocation whose rollback failed: what `semanticFailure` reads off each cause, and
-- the health and the category that `allocationRollbackError` puts together. The redacted texts, the
-- operation and the inventory of the error are left out.
use cuda_js.Base.{
  ℕ, ◌≤◌, ◌≡◌, refl, Bool, true, false, Option, none, some, List, [], ◌∷◌, arith, ltb, ◌==◌,
  if◌then◌else◌, inl, inr, Option-cases, ap, Bool-cases, get_elem?, zero, suc, take,
}
use cuda_js.Js.{text, Value, string, field, nonnegative_safe_integer}
use cuda_js.Failure.{
  Health, suspect, poisoned, restart_required, closed, rank, health_of, Category, validation,
  unsupported, pressure, backpressure, stale_resource, closed_runtime, immediate_driver,
  deferred_driver, must_restart, internal, category_of, is_listed, Failure,
}

pub record SemanticFailure : Type 0 where
  pub category : Category
  pub operation_id : Option ℕ
  pub health_before : Option Health
  pub health_after : Option Health

-- `failureHealth`: one of the four names that HEALTH_RANK has.
abbrev open_health : Option Health → Option Health
open_health (some closed) = none
open_health h = h

unfoldable pub failure_health : Value → Option Health
unfolding health_of
failure_health (string t) = open_health (health_of t)
failure_health _ = none

-- `categoryHealth`
abbrev pub category_health : Category → Option Health
category_health validation = none
category_health unsupported = none
category_health pressure = none
category_health backpressure = none
category_health stale_resource = none
category_health closed_runtime = none
category_health immediate_driver = some suspect
category_health deferred_driver = some poisoned
category_health must_restart = some restart_required
category_health _ = some suspect

-- `explicitHealthAfter ?? categoryHealth(category)`
abbrev pub or_health : Option Health → Option Health → Option Health
or_health none h = h
or_health (some h) _ = some h

-- A health before that is worse than the health after takes its place.
abbrev pub no_better : Option Health → Option Health → Option Health
no_better none after = after
no_better (some b) none = some b
no_better (some b) (some a) = if ltb (rank a) (rank b) then some b else some a

-- The category, where the error is structured.
abbrev pub structured : Value → Value → Option Category
unfolding category_of
structured (string code) (string t) =
    if is_listed (category_of t) then some (category_of t) else none
structured _ _ = none

abbrev pub unstructured_failure : Bool → Category → Option ℕ → SemanticFailure
unstructured_failure cleanup fallback operation_id = record {
  category = if cleanup then must_restart else fallback;
  operation_id = operation_id;
  health_before = none;
  health_after = if cleanup then some restart_required else none;
}

abbrev pub structured_failure :
    Category → Option ℕ → Option Health → Option Health → SemanticFailure
structured_failure category operation_id before explicit = record {
  category = category;
  operation_id = operation_id;
  health_before = before;
  health_after = no_better before (or_health explicit (category_health category));
}

-- `semanticFailure`
unfoldable pub semantic_failure : Bool → Category → Value → SemanticFailure
unfolding field failure_health nonnegative_safe_integer structured
semantic_failure cleanup fallback error =
    let operation_id = nonnegative_safe_integer (field error (text "operationId")) in
    elim (structured (field error (text "code")) (field error (text "category"))) [
      | none ↦ unstructured_failure cleanup fallback operation_id
      | some category ↦
          structured_failure category operation_id
            (failure_health (field error (text "healthBefore")))
            (failure_health (field error (text "healthAfter")))
    ]

-- `strongestHealth`, from the strongest so far on.
abbrev pub stronger : Option Health → Option Health → Option Health
stronger best none = best
stronger none (some h) = some h
stronger (some b) (some h) = if ltb (rank b) (rank h) then some h else some b

abbrev strongest_from : Option Health → List SemanticFailure → Option Health
strongest_from best [] = best
strongest_from best (r ∷ rs) = strongest_from (stronger best r.health_after) rs

abbrev pub strongest_health : List SemanticFailure → Option Health
strongest_health = strongest_from none

abbrev same_health : Option Health → Option Health → Bool
same_health none none = true
same_health (some a) (some b) = rank a == rank b
same_health _ _ = false

-- `strongestCategory`: the category of the last record that has the resulting health.
abbrev last_with : Option Health → Category → List SemanticFailure → Category
last_with h found [] = found
last_with h found (r ∷ rs) =
    last_with h (if same_health r.health_after h then r.category else found) rs

abbrev last_category : Category → List SemanticFailure → Category
last_category found [] = found
last_category found (r ∷ rs) = last_category r.category rs

abbrev pub strongest_category : List SemanticFailure → Option Health → Category
strongest_category records h = last_with h (last_category internal records) records

-- `records.find((record) => record.healthBefore !== null)?.healthBefore ?? null`
abbrev first_before : List SemanticFailure → Option Health
first_before [] = none
first_before (r ∷ rs) = elim r.health_before [ none ↦ first_before rs | some h ↦ some h ]

-- What the error's record keeps of an error of the registry.
abbrev pub registry_failure : Failure → SemanticFailure
registry_failure f =
    structured_failure f.category f.operation_id (open_health f.health_before)
      (open_health f.health_after)

cleanup_failures : List Value → List SemanticFailure
unfolding semantic_failure
cleanup_failures [] = []
cleanup_failures (e ∷ es) = semantic_failure true must_restart e ∷ cleanup_failures es

-- The primary failure and at most eight cleanup failures.
unfoldable pub rollback_records : Failure → List Value → List SemanticFailure
unfolding cleanup_failures
rollback_records primary cleanup_errors =
    registry_failure primary ∷ cleanup_failures (take 8 cleanup_errors)

unfoldable pub allocation_rollback_error : Failure → List Value → Option ℕ → Failure
unfolding rollback_records
allocation_rollback_error primary cleanup_errors operation_id =
    let records = rollback_records primary cleanup_errors in
    record {
      code = text "MEMORY_ALLOCATION_ROLLBACK_FAILED";
      category = strongest_category records (strongest_health records);
      operation = some (text "memory.allocate");
      operation_id = operation_id;
      health_before = first_before records;
      health_after = strongest_health records;
    }

strongest_from-keeps :
    (rs : List SemanticFailure) (h : Health)
    → (b : Health) × (strongest_from (some h) rs ≡ some b) × (rank h ≤ rank b)
strongest_from-keeps [] h = (h, refl, omega arith)
strongest_from-keeps (r ∷ rs) h = elim (Option-cases r.health_after) [
  | inl e ↦ rw e (strongest_from-keeps rs h)
  | inr (k, e) ↦ elim (Bool-cases (ltb (rank h) (rank k))) [
    | inl worse ↦ let (b, eb, le) = strongest_from-keeps rs k in (b, rw (e, worse) eb, ground arith)
    | inr no_worse ↦ let (b, eb, le) = strongest_from-keeps rs h in (b, rw (e, no_worse) eb, le)
  ]
]

strongest_from-bound :
    (rs : List SemanticFailure) (best : Option Health) (i : ℕ) (r : SemanticFailure) (h : Health)
    → get_elem? rs i ≡ some r
    → r.health_after ≡ some h
    → (b : Health) × (strongest_from best rs ≡ some b) × (rank h ≤ rank b)
strongest_from-bound [] best i r h at said = cc
strongest_from-bound (x ∷ rs) best zero r h at said =
    let e : x.health_after ≡ some h = ground arith in
    elim (Option-cases best) [
      | inl eb ↦ rw (e, eb) (strongest_from-keeps rs h)
      | inr (k, eb) ↦ elim (Bool-cases (ltb (rank k) (rank h))) [
        | inl worse ↦ rw (e, eb) (rw worse (strongest_from-keeps rs h))
        | inr no_worse ↦
            let (b, eb', le) = strongest_from-keeps rs k in
            (b, rw (e, eb) (rw no_worse eb'), ground arith)
      ]
    ]
strongest_from-bound (x ∷ rs) best (suc i) r h at said =
    strongest_from-bound rs (stronger best x.health_after) i r h at said

unstructured_cleanup :
    (e : Value)
    → structured (field e (text "code")) (field e (text "category")) ≡ none
    → semantic_failure true must_restart e
      ≡ unstructured_failure true must_restart
          (nonnegative_safe_integer (field e (text "operationId")))
unfolding semantic_failure
unstructured_cleanup e plain = rw (plain, semantic_failure) refl

-- The error of a failed rollback is at least as severe as the primary failure and as every cleanup
-- failure that it records, and a cleanup failure that says nothing structured makes it ask for
-- no less than a restart.
pub allocation_rollback_error_health :
    (primary : Failure) (cleanup_errors : List Value) (operation_id : Option ℕ)
    → ((i : ℕ) (r : SemanticFailure) (h : Health)
        → get_elem? (rollback_records primary cleanup_errors) i ≡ some r
        → r.health_after ≡ some h
        → (b : Health) × ((allocation_rollback_error primary cleanup_errors
              operation_id).health_after
            ≡ some b)
          × (rank h ≤ rank b))
      × ((e : Value) (es : List Value)
          → cleanup_errors ≡ e ∷ es
          → structured (field e (text "code")) (field e (text "category")) ≡ none
          → (b : Health) × ((allocation_rollback_error primary cleanup_errors
                operation_id).health_after
              ≡ some b)
            × (rank restart_required ≤ rank b))
unfolding allocation_rollback_error rollback_records semantic_failure cleanup_failures
allocation_rollback_error_health primary cleanup_errors operation_id = (
  λ i r h at said.
      strongest_from-bound (rollback_records primary cleanup_errors) none i r h at said,
  λ e es first plain.
      let id = nonnegative_safe_integer (field e (text "operationId")) in
      strongest_from-bound (rollback_records primary cleanup_errors) none 1
        (unstructured_failure true must_restart id) restart_required
        (rw first (ap some (unstructured_cleanup e plain))) refl,
)
