-- ===== src/Driver/Accepted.antt =====
-- What a command that `validateRequest` accepts promises to the managers that serve it.
use cuda_js.Base.{
  ℕ, ◌≤◌, ◌≡◌, inl, inr, refl, sym, ◌∙◌, ap, Bool, true, false, not, ◌&&◌, Option, none, some, List,
  [], ◌∷◌, length, Option-cases, arith,
}
use mathlib.Core.Option
use cuda_js.Base.Outcome.{
  Outcome, returned, require, require-elim, or_throw-elim, >>=-elim, returned-elim, if-elim,
}
use cuda_js.Js.{
  Text, text, text_eq, Value, field, string_of, nonnegative_safe_integer, positive_safe_integer,
}
use cuda_js.Failure.{Failure}
use cuda_js.Mailbox.Lanes.{is_exact}
use cuda_js.Driver.Operations.{Operation, Named, is_test_operation, base_operations, find_operation}
use cuda_js.Driver.Shapes.{
  is_token, is_positive, is_nonnegative, is_at_most, bytes_of, has_bytes, fits, optional_token,
}
use cuda_js.Driver.Payloads.{Limits, upload_payload, download_payload, copy_payload}
use cuda_js.Driver.Requests.{is_version_one, allowed_operation, check_payload, validate_request}

both : (s t : Bool) → (s && t) ≡ true → (s ≡ true) × (t ≡ true)
both true t h = (refl, h)
both false t h = cc

pub validate_request-allowed :
    (test_hooks : Bool) (l : Limits) (message : Value) {operation : Operation}
    → validate_request test_hooks l message ≡ returned operation
    → (name : Text) × (allowed_operation test_hooks name ≡ some operation)
      × (check_payload l operation (field message (text "payload")) ≡ returned tt)
unfolding validate_request
validate_request-allowed test_hooks l message {operation} h =
    require-elim
      (is_exact message
        (text "schemaVersion" ∷ text "requestId" ∷ text "operation" ∷ text "payload" ∷ []))
      _ h
      λ e1 h1. require-elim (is_version_one (field message (text "schemaVersion"))) _ h1 λ e2 h2.
        require-elim (is_positive (field message (text "requestId"))) _ h2 λ e3 h3.
          or_throw-elim (string_of (field message (text "operation"))) _ h3 λ name e4 h4.
            or_throw-elim (allowed_operation test_hooks name) _ h4 λ op e5 h5.
              >>=-elim (check_payload l op (field message (text "payload"))) h5 λ done e6 h6.
                returned-elim
                  (λ op'.
                    (name' : Text) × (allowed_operation test_hooks name' ≡ some op')
                    × (check_payload l op' (field message (text "payload")) ≡ returned tt))
                  h6 (name, e5, e6)

-- No operation of a list is one for tests.
abbrev no_tests : List Named → Bool
no_tests [] = true
no_tests ((name, operation) ∷ rest) = not (is_test_operation operation) && no_tests rest

find_operation-no_tests :
    (t : Text) (named : List Named) {operation : Operation}
    → no_tests named ≡ true
    → find_operation t named ≡ some operation
    → is_test_operation operation ≡ false
unfolding find_operation
find_operation-no_tests t [] n h = cc
find_operation-no_tests t ((name, op) ∷ rest) {operation} n h =
    let (first, later) = both (not (is_test_operation op)) (no_tests rest) n in
    if-elim (text_eq name t) h
      (λ same e. let is_op : op ≡ operation = cc in ap is_test_operation (sym is_op) ∙ ground arith)
      (λ other e. find_operation-no_tests t rest later e)

-- Without test hooks no operation for tests is accepted.
pub tests_need_hooks :
    (l : Limits) (message : Value) {operation : Operation}
    → validate_request false l message ≡ returned operation
    → is_test_operation operation ≡ false
unfolding allowed_operation
tests_need_hooks l message {operation} h =
    let (name, allowed, checked) = validate_request-allowed false l message h in
    elim (Option-cases (find_operation name base_operations)) [
      | inl missing ↦ absurd (ground arith)
      | inr (op, found) ↦
          let same : op ≡ operation = ground arith in
          ap is_test_operation (sym same) ∙ find_operation-no_tests name base_operations refl found
    ]

-- How many bytes a command moves.
abbrev pub moved : Operation → Value → Option ℕ
moved Operation.memory_write p = Option.map length (bytes_of (field p (text "bytes")))
moved Operation.memory_transfer_h2d p = Option.map length (bytes_of (field p (text "bytes")))
moved Operation.memory_read p = nonnegative_safe_integer (field p (text "byteLength"))
moved Operation.memory_transfer_d2h p = nonnegative_safe_integer (field p (text "byteLength"))
moved Operation.memory_transfer_d2d p = nonnegative_safe_integer (field p (text "byteLength"))
moved _ p = none

bytes_fit :
    (v : Value) (limit : ℕ) {n : ℕ}
    → has_bytes v ≡ true
    → fits v limit ≡ true
    → Option.map length (bytes_of v) ≡ some n
    → (1 ≤ n) × (n ≤ limit)
unfolding has_bytes fits
bytes_fit v limit h k e = ground arith

length_fits :
    (v : Value) (limit : ℕ) {n : ℕ}
    → is_positive v ≡ true
    → is_at_most v limit ≡ true
    → nonnegative_safe_integer v ≡ some n
    → (1 ≤ n) × (n ≤ limit)
unfolding is_positive is_at_most positive_safe_integer nonnegative_safe_integer
length_fits v limit h k e = ground arith

pub left : (s t : Bool) → (s && t) ≡ true → s ≡ true
left true t h = refl
left false t h = cc

pub right : (s : Bool) {t : Bool} → (s && t) ≡ true → t ≡ true
right true h = h
right false h = cc

-- The end of the payloads of both downloads and copies.
span_fits :
    (p : Value) (l : Limits) {n : ℕ}
    → (is_positive (field p (text "byteLength"))
        && (is_at_most (field p (text "byteLength")) l.max_transfer_bytes
            && optional_token (field p (text "after"))))
      ≡ true
    → nonnegative_safe_integer (field p (text "byteLength")) ≡ some n
    → (1 ≤ n) × (n ≤ l.max_transfer_bytes)
span_fits p l h e =
    let rest = right (is_positive (field p (text "byteLength"))) h in
    length_fits (field p (text "byteLength")) l.max_transfer_bytes
      (left (is_positive (field p (text "byteLength"))) _ h)
      (left (is_at_most (field p (text "byteLength")) l.max_transfer_bytes) _ rest) e

pub require-holds :
    (t : Bool) (e : Failure)
    → ◌≡◌ {A = Outcome Failure (Unit {0})} (require t e) (returned tt)
    → t ≡ true
require-holds true e h = refl
require-holds false e h = cc

transfer_fits :
    (l : Limits) (operation : Operation) (p : Value) {n : ℕ}
    → check_payload l operation p ≡ returned tt
    → moved operation p ≡ some n
    → (1 ≤ n) × (n ≤ l.max_transfer_bytes)
unfolding check_payload
transfer_fits l Operation.memory_write p h e =
    require-elim
      (is_exact p (text "token" ∷ text "bytes" ∷ text "deviceOffset" ∷ [])
        && (is_token (field p (text "token"))
            && (has_bytes (field p (text "bytes"))
                && is_nonnegative (field p (text "deviceOffset")))))
      _ h
      λ ok h1.
        let named =
          right (is_exact p (text "token" ∷ text "bytes" ∷ text "deviceOffset" ∷ [])) ok in
        let full = right (is_token (field p (text "token"))) named in
        bytes_fit (field p (text "bytes")) l.max_transfer_bytes
          (left (has_bytes (field p (text "bytes"))) _ full) (require-holds _ _ h1) e
transfer_fits l Operation.memory_read p h e =
    require-elim
      (is_exact p (text "token" ∷ text "deviceOffset" ∷ text "byteLength" ∷ [])
        && (is_token (field p (text "token"))
            && (is_nonnegative (field p (text "deviceOffset"))
                && is_positive (field p (text "byteLength")))))
      _ h
      λ ok h1.
        let named =
          right (is_exact p (text "token" ∷ text "deviceOffset" ∷ text "byteLength" ∷ [])) ok in
        let placed = right (is_token (field p (text "token"))) named in
        length_fits (field p (text "byteLength")) l.max_transfer_bytes
          (right (is_nonnegative (field p (text "deviceOffset"))) placed) (require-holds _ _ h1) e
transfer_fits l Operation.memory_transfer_h2d p h e =
    let ok = require-holds (upload_payload l p) _ h in
    let named =
      right (is_exact p (text "token" ∷ text "bytes" ∷ text "deviceOffset" ∷ text "after" ∷ []))
        ok in
    let full = right (is_token (field p (text "token"))) named in
    let rest = right (has_bytes (field p (text "bytes"))) full in
    bytes_fit (field p (text "bytes")) l.max_transfer_bytes
      (left (has_bytes (field p (text "bytes"))) _ full)
      (left (fits (field p (text "bytes")) l.max_transfer_bytes) _ rest) e
transfer_fits l Operation.memory_transfer_d2h p h e =
    let ok = require-holds (download_payload l p) _ h in
    let named =
      right
        (is_exact p (text "token" ∷ text "deviceOffset" ∷ text "byteLength" ∷ text "after" ∷ []))
        ok in
    let placed = right (is_token (field p (text "token"))) named in
    span_fits p l (right (is_nonnegative (field p (text "deviceOffset"))) placed) e
transfer_fits l Operation.memory_transfer_d2d p h e =
    let ok = require-holds (copy_payload l p) _ h in
    let named =
      right
        (is_exact p (
          text "destinationToken"
          ∷ text "sourceToken"
          ∷ text "destinationOffset"
          ∷ text "sourceOffset"
          ∷ text "byteLength"
          ∷ text "after"
          ∷ []))
        ok in
    let to = right (is_token (field p (text "destinationToken"))) named in
    let tokens = right (is_token (field p (text "sourceToken"))) to in
    let placed = right (is_nonnegative (field p (text "destinationOffset"))) tokens in
    span_fits p l (right (is_nonnegative (field p (text "sourceOffset"))) placed) e
transfer_fits l operation p h e = cc

-- A read, a write or a transfer that is accepted moves at least one byte and no more than the policy allows.
pub transfer_bounds :
    (test_hooks : Bool) (l : Limits) (message : Value) {operation : Operation} {n : ℕ}
    → validate_request test_hooks l message ≡ returned operation
    → moved operation (field message (text "payload")) ≡ some n
    → (1 ≤ n) × (n ≤ l.max_transfer_bytes)
transfer_bounds test_hooks l message {operation} h e =
    let (name, allowed, checked) = validate_request-allowed test_hooks l message h in
    transfer_fits l operation (field message (text "payload")) checked e
