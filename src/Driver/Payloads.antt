-- ===== src/Driver/Payloads.antt =====
-- The payload that each operation wants, and the code of the error that it throws for any other.
use cuda_js.Base.{
  ℕ, ◌*◌, Bool, true, false, not, ◌&&◌, ◌||◌, Option, none, some, [], ◌∷◌, ◌==◌, length, String,
}
use cuda_js.Base.Outcome.{Outcome, ◌>>=◌, ◌>>◌, require}
use cuda_js.Js.{text, Value, shared, field, array_items}
use cuda_js.Failure.{Failure, failure, validation}
use cuda_js.Mailbox.Lanes.{is_exact}
use cuda_js.Views.Options.{width_of}
use cuda_js.Driver.Shapes.{
  is_token, is_positive, is_nonnegative, is_at_most, has_bytes, fits, optional_token,
  is_identifier_value, is_one_of, has_only, owns, is_list_of,
}

-- The limits of the policies that `validateRequest` is given.
pub record Limits : Type 0 where
  pub max_transfer_bytes : ℕ
  pub max_module_bytes : ℕ
  pub max_arguments : ℕ

abbrev pub refused : String → Failure
refused code = failure code validation

-- `if (!test) throw validationError(code, …)`
abbrev pub want : Bool → String → Outcome Failure (Unit {0})
want test code = require test (refused code)

-- The same where the test may throw.
abbrev pub want_also : Outcome Failure Bool → String → Outcome Failure (Unit {0})
want_also test code = test >>= λ ok. require ok (refused code)

-- `deviceViewDtypeWidth(dtype) !== null`
unfoldable pub has_width : Value → Bool
unfolding width_of
has_width v = elim (width_of v) [ none ↦ false | some w ↦ true ]

-- memory.view.create
unfoldable pub view_payload : Value → Bool
unfolding is_exact field is_token has_only owns has_width is_nonnegative is_one_of
view_payload payload =
    let options = field payload (text "options") in
    is_exact payload (text "memory" ∷ text "options" ∷ [])
    && (is_token (field payload (text "memory"))
        && (has_only options
              (text "dtype" ∷ text "byteOffset" ∷ text "elementCount" ∷ text "access" ∷ [])
            && (owns options (text "dtype")
                && (owns options (text "elementCount")
                    && (has_width (field options (text "dtype"))
                        && ((not (owns options (text "byteOffset"))
                              || is_nonnegative (field options (text "byteOffset")))
                            && (is_nonnegative (field options (text "elementCount"))
                                && (not (owns options (text "access"))
                                    || is_one_of (field options (text "access")) (
                                        text "read" ∷ text "write" ∷ text "read-write" ∷ [])))))))))

unfoldable pub lane_payload : Value → Bool
unfolding is_exact field is_identifier_value is_one_of
lane_payload lane =
    is_exact lane (text "name" ∷ text "direction" ∷ [])
    && (is_identifier_value (field lane (text "name"))
        && is_one_of (field lane (text "direction"))
            (text "host-to-device" ∷ text "device-to-host" ∷ []))

unfoldable pub shared_length : Value → Option ℕ
shared_length (shared n) = some n
shared_length _ = none

-- `payload.buffer.byteLength === lanes.length * 4`
unfoldable pub buffer_fits : Value → Value → Bool
unfolding shared_length array_items
buffer_fits buffer lanes = elim (shared_length buffer) [
  | none ↦ false
  | some n ↦ elim (array_items lanes) [ none ↦ false | some vs ↦ n == length vs * 4 ]
]

-- mailbox.create
unfoldable pub mailbox_payload : Value → Bool
unfolding is_exact field buffer_fits is_list_of lane_payload
mailbox_payload payload =
    is_exact payload (text "buffer" ∷ text "lanes" ∷ [])
    && (buffer_fits (field payload (text "buffer")) (field payload (text "lanes"))
        && is_list_of 1 64 lane_payload (field payload (text "lanes")))

-- memory.write
unfoldable pub write_payload : Limits → Value → Outcome Failure (Unit {0})
unfolding is_exact field is_token has_bytes is_nonnegative fits
write_payload l payload = do
  want
      (is_exact payload (text "token" ∷ text "bytes" ∷ text "deviceOffset" ∷ [])
        && (is_token (field payload (text "token"))
            && (has_bytes (field payload (text "bytes"))
                && is_nonnegative (field payload (text "deviceOffset")))))
      "DRIVER_MEMORY_WRITE"
  want (fits (field payload (text "bytes")) l.max_transfer_bytes) "MEMORY_TRANSFER_LIMIT"

-- memory.read
unfoldable pub read_payload : Limits → Value → Outcome Failure (Unit {0})
unfolding is_exact field is_token is_nonnegative is_positive is_at_most
read_payload l payload = do
  want
      (is_exact payload (text "token" ∷ text "deviceOffset" ∷ text "byteLength" ∷ [])
        && (is_token (field payload (text "token"))
            && (is_nonnegative (field payload (text "deviceOffset"))
                && is_positive (field payload (text "byteLength")))))
      "DRIVER_MEMORY_READ"
  want (is_at_most (field payload (text "byteLength")) l.max_transfer_bytes) "MEMORY_TRANSFER_LIMIT"

-- memory.transfer.h2d
unfoldable pub upload_payload : Limits → Value → Bool
unfolding is_exact field is_token has_bytes fits is_nonnegative optional_token
upload_payload l payload =
    is_exact payload (text "token" ∷ text "bytes" ∷ text "deviceOffset" ∷ text "after" ∷ [])
    && (is_token (field payload (text "token"))
        && (has_bytes (field payload (text "bytes"))
            && (fits (field payload (text "bytes")) l.max_transfer_bytes
                && (is_nonnegative (field payload (text "deviceOffset"))
                    && optional_token (field payload (text "after"))))))

-- memory.transfer.d2h
unfoldable pub download_payload : Limits → Value → Bool
unfolding is_exact field is_token is_nonnegative is_positive is_at_most optional_token
download_payload l payload =
    is_exact payload (text "token" ∷ text "deviceOffset" ∷ text "byteLength" ∷ text "after" ∷ [])
    && (is_token (field payload (text "token"))
        && (is_nonnegative (field payload (text "deviceOffset"))
            && (is_positive (field payload (text "byteLength"))
                && (is_at_most (field payload (text "byteLength")) l.max_transfer_bytes
                    && optional_token (field payload (text "after"))))))

-- memory.transfer.d2d
unfoldable pub copy_payload : Limits → Value → Bool
unfolding is_exact field is_token is_nonnegative is_positive is_at_most optional_token
copy_payload l payload =
    is_exact payload (
      text "destinationToken"
      ∷ text "sourceToken"
      ∷ text "destinationOffset"
      ∷ text "sourceOffset"
      ∷ text "byteLength"
      ∷ text "after"
      ∷ [])
    && (is_token (field payload (text "destinationToken"))
        && (is_token (field payload (text "sourceToken"))
            && (is_nonnegative (field payload (text "destinationOffset"))
                && (is_nonnegative (field payload (text "sourceOffset"))
                    && (is_positive (field payload (text "byteLength"))
                        && (is_at_most (field payload (text "byteLength")) l.max_transfer_bytes
                            && optional_token (field payload (text "after"))))))))
