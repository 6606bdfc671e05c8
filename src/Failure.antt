-- ===== src/Failure.antt =====
-- The categories and the health names that every error of the runtime carries, and the error
-- record itself (driver-actor/src/errors.mjs, resource-registry/src/resource-error.mjs). Messages
-- and diagnostic details are left out.
use cuda_js.Base.{◌≡◌, refl, ℕ, String, Bool, true, false, Option, none, some, if◌then◌else◌}
use cuda_js.Js.{Text, text, text_eq}

pub data Health : Type 0 where
  healthy suspect poisoned restart_required closed : Health

-- `unlisted` stands for every other text.
pub data Category : Type 0 where
  validation unsupported permission pressure backpressure stale_resource closed_runtime : Category
  immediate_driver deferred_driver provider must_restart internal native_compiler : Category
  native_linker compile link : Category
  unlisted : Text → Category

abbrev pub rank : Health → ℕ
rank healthy = 0
rank suspect = 1
rank poisoned = 2
rank restart_required = 3
rank closed = 4

unfoldable pub health_of : Text → Option Health
unfolding text_eq
health_of t =
    if text_eq t (text "healthy")
    then some healthy
    else if text_eq t (text "suspect")
    then some suspect
    else if text_eq t (text "poisoned")
    then some poisoned
    else if text_eq t (text "restart-required")
    then some restart_required
    else if text_eq t (text "closed")
    then some closed
    else none

abbrev pub health_name : Health → Text
health_name healthy = text "healthy"
health_name suspect = text "suspect"
health_name poisoned = text "poisoned"
health_name restart_required = text "restart-required"
health_name closed = text "closed"

pub health_of-health_name : (h : Health) → health_of (health_name h) ≡ some h
unfolding health_of
health_of-health_name healthy = refl
health_of-health_name suspect = refl
health_of-health_name poisoned = refl
health_of-health_name restart_required = refl
health_of-health_name closed = refl

unfoldable pub category_of : Text → Category
unfolding text_eq
category_of t =
    if text_eq t (text "validation")
    then validation
    else if text_eq t (text "unsupported")
    then unsupported
    else if text_eq t (text "permission")
    then permission
    else if text_eq t (text "pressure")
    then pressure
    else if text_eq t (text "backpressure")
    then backpressure
    else if text_eq t (text "stale-resource")
    then stale_resource
    else if text_eq t (text "closed-runtime")
    then closed_runtime
    else if text_eq t (text "immediate-driver")
    then immediate_driver
    else more_categories t
  where
    more_categories : Text → Category
    more_categories u =
        if text_eq u (text "deferred-driver")
        then deferred_driver
        else if text_eq u (text "provider")
        then provider
        else if text_eq u (text "restart-required")
        then must_restart
        else if text_eq u (text "internal")
        then internal
        else if text_eq u (text "native-compiler")
        then native_compiler
        else if text_eq u (text "native-linker")
        then native_linker
        else if text_eq u (text "compile")
        then compile
        else if text_eq u (text "link")
        then link
        else unlisted u

-- `set.has(category)` for the set of the sixteen known categories.
abbrev pub is_listed : Category → Bool
is_listed (unlisted t) = false
is_listed _ = true

pub record Failure : Type 0 where
  pub code : Text
  pub category : Category
  pub operation : Option Text
  pub operation_id : Option ℕ
  pub health_before : Option Health
  pub health_after : Option Health

-- `fail(code, category, …)`: an error that says nothing of health.
abbrev pub failure : String → Category → Failure
failure code category = record {
  code = text code;
  category = category;
  operation = none;
  operation_id = none;
  health_before = none;
  health_after = none;
}
