-- ===== src/Driver/Creation.antt =====
-- The options of a view that `validateRequest` accepts are those that the view manager accepts, up
-- to its tests on the view's alignment and length.
use cuda_js.Base.{
  ℕ, ◌%◌, ◌≡◌, ◌⊎◌, inl, inr, refl, sym, ◌∙◌, Bool, true, not, ◌&&◌, ◌||◌, some, [], ◌∷◌, ◌==◌,
  Bool-cases, arith,
}
use cuda_js.Base.Outcome.{returned, thrown}
use cuda_js.Js.{
  text, Value, undefined, object, Fields, field, lookup_field, has_field, or_else, natural, string,
  plain_fields, nonnegative_safe_integer,
}
use cuda_js.Failure.{Failure, failure, validation}
use cuda_js.Mailbox.Lanes.{is_exact}
use cuda_js.Views.Options.{
  Access, width_of, role_of, only_create_fields, checked_product, create_view,
  normalize_create_options,
}
use cuda_js.Driver.Operations.{Operation}
use cuda_js.Driver.Shapes.{is_token, is_nonnegative, has_only, only_fields, owns, is_one_of}
use cuda_js.Driver.Payloads.{Limits, has_width, view_payload}
use cuda_js.Driver.Requests.{check_payload, validate_request}
use cuda_js.Driver.Accepted.{left, right, require-holds, validate_request-allowed}
use cuda_js.Driver.ViewFields.{
  view_fields, roles, only_fields-only_create_fields, optional_field, nonnegative_of, width_known,
  role_known,
}

-- What `create_view` may still throw.
abbrev IsLate : Failure → Type 0
IsLate f =
    (f ≡ failure "MEMORY_VIEW_ALIGNMENT" validation)
    ⊎ (f ≡ failure "MEMORY_VIEW_RANGE_INVALID" validation)

create_view-IsLate :
    (fs : Fields) (width offset count : ℕ) (access : Access) {f : Failure}
    → create_view fs width offset count access ≡ thrown f
    → IsLate f
unfolding create_view checked_product
create_view-IsLate fs width offset count access {f} h =
    elim (Bool-cases (not (width == 0) && offset % width == 0)) [
      | inr odd ↦ inl (ground arith)
      | inl even ↦ inr (ground arith)
    ]

-- The steps of `normalizeCreateOptions` whose tests pass.
stepped :
    (fs : Fields) {width offset count : ℕ} {access : Access}
    → only_create_fields fs ≡ true
    → has_field fs (text "dtype") ≡ true
    → has_field fs (text "elementCount") ≡ true
    → width_of (lookup_field fs (text "dtype")) ≡ some width
    → nonnegative_safe_integer (or_else (lookup_field fs (text "byteOffset")) (natural 0))
      ≡ some offset
    → nonnegative_safe_integer (lookup_field fs (text "elementCount")) ≡ some count
    → role_of (or_else (lookup_field fs (text "access")) (string (text "read-write"))) ≡ some access
    → normalize_create_options (object fs) ≡ create_view fs width offset count access
unfolding normalize_create_options plain_fields
stepped fs e1 e2 e3 w o c r = rw (e1, e2, e3, w, o, c, r)

options_accepted :
    (fs : Fields)
    → only_fields view_fields fs ≡ true
    → has_field fs (text "dtype") ≡ true
    → has_field fs (text "elementCount") ≡ true
    → has_width (lookup_field fs (text "dtype")) ≡ true
    → (not (has_field fs (text "byteOffset"))
        || is_nonnegative (lookup_field fs (text "byteOffset")))
      ≡ true
    → is_nonnegative (lookup_field fs (text "elementCount")) ≡ true
    → (not (has_field fs (text "access")) || is_one_of (lookup_field fs (text "access")) roles)
      ≡ true
    → {f : Failure} → normalize_create_options (object fs) ≡ thrown f
    → IsLate f
unfolding is_nonnegative is_one_of
options_accepted fs e1 e2 e3 e4 e5 e6 e7 {f} h =
    let (width, w) = width_known (lookup_field fs (text "dtype")) e4 in
    let (offset, o) =
      nonnegative_of (or_else (lookup_field fs (text "byteOffset")) (natural 0))
        (optional_field is_nonnegative fs (text "byteOffset") (natural 0) refl refl refl e5) in
    let (count, c) = nonnegative_of (lookup_field fs (text "elementCount")) e6 in
    let (access, r) =
      role_known (or_else (lookup_field fs (text "access")) (string (text "read-write"))) (
        optional_field (λ v. is_one_of v roles) fs (text "access") (string (text "read-write")) refl
          refl refl e7) in
    create_view-IsLate fs width offset count access
      (sym (stepped fs (only_fields-only_create_fields fs e1) e2 e3 w o c r) ∙ h)

plain_of : (v : Value) → has_only v view_fields ≡ true → (fs : Fields) × (v ≡ object fs)
unfolding has_only plain_fields
plain_of (object fs) h = (fs, refl)
plain_of undefined h = cc
plain_of v h = cc

-- The options of a plain object, once the tests of `view_payload` are taken apart.
object_accepted :
    (options : Value) (fs : Fields)
    → options ≡ object fs
    → has_only options view_fields ≡ true
    → owns options (text "dtype") ≡ true
    → owns options (text "elementCount") ≡ true
    → has_width (field options (text "dtype")) ≡ true
    → (not (owns options (text "byteOffset")) || is_nonnegative (field options (text "byteOffset")))
      ≡ true
    → is_nonnegative (field options (text "elementCount")) ≡ true
    → (not (owns options (text "access")) || is_one_of (field options (text "access")) roles) ≡ true
    → {f : Failure} → normalize_create_options options ≡ thrown f
    → IsLate f
unfolding has_only owns field plain_fields
object_accepted (object gs) fs e e1 e2 e3 e4 e5 e6 e7 h = options_accepted gs e1 e2 e3 e4 e5 e6 e7 h
object_accepted undefined fs e e1 e2 e3 e4 e5 e6 e7 h = cc
object_accepted v fs e e1 e2 e3 e4 e5 e6 e7 h = cc

-- A view whose creation `validateRequest` accepts names a token, and the manager's own validation
-- of its options can refuse it for nothing but its alignment or its length.
pub created_view :
    (test_hooks : Bool) (l : Limits) (message : Value) {f : Failure}
    → validate_request test_hooks l message ≡ returned Operation.memory_view_create
    → normalize_create_options (field (field message (text "payload")) (text "options")) ≡ thrown f
    → (is_token (field (field message (text "payload")) (text "memory")) ≡ true)
      × ((f ≡ failure "MEMORY_VIEW_ALIGNMENT" validation)
          ⊎ (f ≡ failure "MEMORY_VIEW_RANGE_INVALID" validation))
unfolding check_payload
created_view test_hooks l message h e =
    let (name, allowed, checked) = validate_request-allowed test_hooks l message h in
    let payload = field message (text "payload") in
    let options = field payload (text "options") in
    let ok = require-holds (view_payload payload) _ checked in
    let named = right (is_exact payload (text "memory" ∷ text "options" ∷ [])) ok in
    let shaped = right (is_token (field payload (text "memory"))) named in
    let owned = right (has_only options view_fields) shaped in
    let counted = right (owns options (text "dtype")) owned in
    let typed = right (owns options (text "elementCount")) counted in
    let placed = right (has_width (field options (text "dtype"))) typed in
    let sized =
      right
        (not (owns options (text "byteOffset"))
          || is_nonnegative (field options (text "byteOffset")))
        placed in
    let (fs, plain) = plain_of options (left (has_only options view_fields) _ shaped) in
    (
      left (is_token (field payload (text "memory"))) _ named,
      object_accepted options fs plain (left (has_only options view_fields) _ shaped)
          (left (owns options (text "dtype")) _ owned)
          (left (owns options (text "elementCount")) _ counted)
          (left (has_width (field options (text "dtype"))) _ typed)
          (left
            (not (owns options (text "byteOffset"))
              || is_nonnegative (field options (text "byteOffset")))
            _ placed)
          (left (is_nonnegative (field options (text "elementCount"))) _ sized)
          (right (is_nonnegative (field options (text "elementCount"))) sized) e,
    )
