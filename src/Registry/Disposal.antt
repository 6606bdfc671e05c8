-- ===== src/Registry/Disposal.antt =====
-- `normalizeDisposalFailure`: what a disposer threw, as the failure that the registry keeps. The
-- texts of messages and details are left out; what is read of them for the tests is here.
use cuda_js.Base.{
  ◌≡◌, refl, Bool, true, false, ◌&&◌, ◌||◌, Option, none, some, List, [], ◌∷◌, leb, ◌==◌,
  if◌then◌else◌, length, any_of,
}
use cuda_js.Js.{
  Text, text, Value, undefined, null, string, field, is_absent, nonnegative_safe_integer,
  plain_fields,
}
use cuda_js.Js.Chars.{matches, strip_prefix, letter, upper, digit}
use cuda_js.Failure.{
  Health, poisoned, restart_required, rank, health_of, Category, deferred_driver, must_restart,
  category_of, is_listed, Failure,
}
use cuda_js.Registry.State.{Disposition, orphaned_disposition, unproved}

-- What awaiting a disposer comes to.
pub data Disposal : Type 0 where
  resolved : Disposal
  rejected : Value → Disposal

abbrev code_prefixes : List Text
code_prefixes =
    text "CUDA"
    ∷ text "DRIVER"
    ∷ text "EXECUTION"
    ∷ text "MEMORY"
    ∷ text "RESOURCE"
    ∷ text "COMPILER"
    ∷ text "LINKER"
    ∷ text "NVRTC"
    ∷ text "NVJITLINK"
    ∷ text "HEALTH"
    ∷ []

-- `_[A-Z0-9_]{1,127}`
abbrev is_code_rest : Option Text → Bool
unfolding matches
is_code_rest none = false
is_code_rest (some []) = false
is_code_rest (some (c ∷ cs)) =
    c == b'_'
    && matches (λ d. upper d || digit d || d == b'_') (λ d. upper d || digit d || d == b'_') 126 cs

-- `ERROR_CODE_PATTERN`
is_error_code : Text → Bool
unfolding strip_prefix is_code_rest
is_error_code t = any_of (λ p. is_code_rest (strip_prefix p t)) code_prefixes

-- `OPERATION_PATTERN`, `/^[A-Za-z][A-Za-z0-9._():-]{0,127}$/`
is_operation : Text → Bool
unfolding matches
is_operation =
    matches letter
      (λ c.
        letter c
        || digit c
        || c == b'.'
        || c == b'_'
        || c == b'('
        || c == b')'
        || c == b':'
        || c == b'-')
      127

-- `validOptionalHealth`, with the health that is there.
pub data OptionalHealth : Type 0 where
  absent_health bad_health : OptionalHealth
  health : Health → OptionalHealth

abbrev known_health : Option Health → OptionalHealth
known_health none = bad_health
known_health (some h) = health h

abbrev optional_health : Value → OptionalHealth
unfolding health_of
optional_health undefined = absent_health
optional_health null = absent_health
optional_health (string t) = known_health (health_of t)
optional_health _ = bad_health

-- `validHealthTransition`
abbrev valid_health_transition : OptionalHealth → OptionalHealth → Bool
valid_health_transition (health before) (health after) = leb (rank before) (rank after)
valid_health_transition bad_health after = false
valid_health_transition before bad_health = false
valid_health_transition before after = true

abbrev health_option : OptionalHealth → Option Health
health_option (health h) = some h
health_option _ = none

abbrev text_test : (Text → Bool) → Value → Bool
text_test p (string t) = p t
text_test p _ = false

abbrev is_undefined : Value → Bool
is_undefined undefined = true
is_undefined _ = false

abbrev is_some {ℓ} : {A : Type ℓ} → Option A → Bool
is_some none = false
is_some (some a) = true

-- `structuredDisposalError`
unfoldable pub structured_disposal_error : Value → Bool
unfolding field is_error_code category_of is_operation optional_health is_absent
    nonnegative_safe_integer plain_fields
structured_disposal_error error =
    let operation = field error (text "operation") in
    let operation_id = field error (text "operationId") in
    let details = field error (text "details") in
    text_test is_error_code (field error (text "code"))
    && text_test (λ t. is_listed (category_of t)) (field error (text "category"))
    && text_test (λ t. leb 1 (length t) && leb (length t) 4096) (field error (text "message"))
    && (is_absent operation || text_test is_operation operation)
    && (is_absent operation_id || is_some (nonnegative_safe_integer operation_id))
    && valid_health_transition (optional_health (field error (text "healthBefore")))
        (optional_health (field error (text "healthAfter")))
    && (is_undefined details || is_some (plain_fields details))

abbrev text_or : Text → Value → Text
text_or d (string t) = t
text_or d _ = d

abbrev unstructured_failure : Failure
unstructured_failure = record {
  code = text "RESOURCE_DISPOSE_FAILED";
  category = must_restart;
  operation = some (text "resource.close");
  operation_id = none;
  health_before = none;
  health_after = some restart_required;
}

-- `normalizeDisposalFailure`, with `details.disposition`.
unfoldable pub normalize_disposal_failure : Value → Failure × Disposition
unfolding structured_disposal_error
normalize_disposal_failure error =
    if structured_disposal_error error
    then (structured, orphaned_disposition)
    else (unstructured_failure, unproved)
  where
    structured : Failure
    structured = record {
      code = text "RESOURCE_DISPOSE_FAILED";
      category = category_of (text_or [] (field error (text "category")));
      operation = some (text_or (text "resource.close") (field error (text "operation")));
      operation_id = nonnegative_safe_integer (field error (text "operationId"));
      health_before = health_option (optional_health (field error (text "healthBefore")));
      health_after = health_option (optional_health (field error (text "healthAfter")));
    }

abbrev severe : Option Health → Bool
severe (some poisoned) = true
severe (some restart_required) = true
severe _ = false

abbrev severe_category : Category → Bool
severe_category must_restart = true
severe_category deferred_driver = true
severe_category _ = false

-- `cleanupIsUnsafe`
unfoldable pub cleanup_is_unsafe : Failure → Bool
cleanup_is_unsafe f = severe_category f.category || severe f.health_before || severe f.health_after

-- What threw nothing the registry can read makes all later cleanup unsafe.
pub unstructured_is_unsafe :
    (error : Value)
    → structured_disposal_error error ≡ false
    → (cleanup_is_unsafe (normalize_disposal_failure error).0 ≡ true)
      × ((normalize_disposal_failure error).1 ≡ unproved)
unfolding cleanup_is_unsafe normalize_disposal_failure
unstructured_is_unsafe error h = rw h (refl, refl)
