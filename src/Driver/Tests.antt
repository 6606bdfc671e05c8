-- ===== src/Driver/Tests.antt =====
-- Commands to read memory, to create a view and to prepare a product, and a worker's answer.
use cuda_js.Base.{◌*◌, ◌≤◌, ◌≡◌, ◌↔◌, ◌⊎◌, refl, true, false, [], ◌∷◌}
use cuda_js.Base.Outcome.{returned, thrown}
use cuda_js.Js.{
  Text, text, text_eq, Value, null, natural, string, boolean, array, item, end, object, Fields,
  bare, entry, field,
}
use cuda_js.Failure.{failure, validation}
use cuda_js.Registry.Tokens.{token_value, is_kind, is_nonce}
use cuda_js.Mailbox.Lanes.{is_exact}
use cuda_js.Prepared.Arguments.{is_the_text}
use cuda_js.Views.Options.{normalize_create_options}
use cuda_js.Driver.Operations.{Operation, is_test_operation}
use cuda_js.Driver.Shapes.{is_token, is_plain, is_identifier_value, is_list_of, type_error}
use cuda_js.Driver.Payloads.{Limits}
use cuda_js.Driver.Requests.{check_payload, validate_request}
use cuda_js.Driver.Records.{default_bounds, assert_public_record}
use cuda_js.Driver.Public.{size, depth, is_data, assert_public_record_iff}
use cuda_js.Driver.Accepted.{tests_need_hooks, transfer_bounds}
use cuda_js.Driver.Creation.{created_view}
use cuda_js.Driver.Operands.{IsProduct, null_operand}

abbrev limits : Limits
limits = record { max_transfer_bytes = 1024; max_module_bytes = 4096; max_arguments = 32 }

abbrev token : Text → Value
token kind = token_value (record {
  runtime_id = text "runtime";
  epoch = 1;
  kind = kind;
  slot = 0;
  generation = 1;
  nonce = text "0123456789abcdef0123456789abcdef";
})

abbrev pair : Text → Value → Fields → Fields
pair = entry

abbrev command : Text → Value → Value
command operation payload = object (
    pair (text "schemaVersion") (natural 1) (
      pair (text "requestId") (natural 7)
        (pair (text "operation") (string operation) (pair (text "payload") payload bare))))

abbrev read_command : Value
read_command = command (text "memory.read") (
    object (
      pair (text "token") (token (text "device-memory"))
        (pair (text "deviceOffset") (natural 0) (pair (text "byteLength") (natural 64) bare))))

read_accepted : validate_request false limits read_command ≡ returned Operation.memory_read
unfolding validate_request token_value is_kind is_nonce
read_accepted = refl

tests_need_hooks_example : is_test_operation Operation.memory_read ≡ false
tests_need_hooks_example = tests_need_hooks limits read_command read_accepted

transfer_bounds_example : (1 ≤ 64) × (64 ≤ 1024)
unfolding validate_request
transfer_bounds_example = transfer_bounds false limits read_command read_accepted refl

no_hooks :
    validate_request false limits (command (text "testing.block") (object bare))
    ≡ thrown (failure "DRIVER_COMMAND_UNSUPPORTED" validation)
unfolding validate_request
no_hooks = refl

abbrev view_command : Value
view_command = command (text "memory.view.create") (
    object (
      pair (text "memory") (token (text "device-memory")) (
        pair (text "options")
          (object (
            pair (text "dtype") (string (text "u32"))
              (pair (text "byteOffset") (natural 2) (pair (text "elementCount") (natural 3) bare))))
          bare)))

view_accepted : validate_request false limits view_command ≡ returned Operation.memory_view_create
unfolding validate_request token_value is_kind is_nonce
view_accepted = refl

view_misaligned :
    normalize_create_options (field (field view_command (text "payload")) (text "options"))
    ≡ thrown (failure "MEMORY_VIEW_ALIGNMENT" validation)
unfolding normalize_create_options field
view_misaligned = refl

created_view_example :
    (is_token (field (field view_command (text "payload")) (text "memory")) ≡ true)
    × ((failure "MEMORY_VIEW_ALIGNMENT" validation ≡ failure "MEMORY_VIEW_ALIGNMENT" validation)
        ⊎ (failure "MEMORY_VIEW_ALIGNMENT" validation
            ≡ failure "MEMORY_VIEW_RANGE_INVALID" validation))
created_view_example = created_view false limits view_command view_accepted view_misaligned

abbrev named : Text → Value
named name = object (pair (text "binding") (string name) bare)

abbrev product : Value
product = object (
    pair (text "id") (string (text "n")) (
      pair (text "kind") (string (text "cublaslt-f32-matmul")) (
        pair (text "after") (array end) (
          pair (text "planToken") (token (text "cublaslt-plan")) (
            pair (text "a") null (
              pair (text "b") (named (text "y")) (
                pair (text "c") (named (text "z")) (
                  pair (text "d") (named (text "z")) (
                    pair (text "alpha") (named (text "s")) (
                      pair (text "beta") (named (text "s"))
                        (pair (text "workspace") null bare)))))))))))

product-IsProduct : IsProduct product
unfolding is_plain is_identifier_value is_list_of field is_the_text is_exact is_token token_value
    is_kind is_nonce
product-IsProduct = record { shaped = refl; product = refl; planned = refl }

abbrev prepare : Value
prepare = object (pair (text "nodes") (array (item product end)) bare)

prepare_exact : is_exact prepare (text "nodes" ∷ []) ≡ true
unfolding is_exact
prepare_exact = refl

null_operand_example :
    check_payload limits Operation.execution_prepared_create prepare ≡ thrown type_error
unfolding field is_list_of text_eq
null_operand_example =
    null_operand limits prepare product [] prepare_exact refl refl product-IsProduct refl

abbrev answer : Value
answer = object (
    pair (text "ok") (boolean true)
      (pair (text "lengths") (array (item (natural 4) (item (natural 8) end))) bare))

assert_public_record_example :
    (assert_public_record default_bounds answer ≡ returned answer)
    ↔ ((size answer ≤ 2000) × (depth answer ≤ 12) × (is_data (16 * 1048576) answer ≡ true))
assert_public_record_example = assert_public_record_iff default_bounds answer

answer_public : assert_public_record default_bounds answer ≡ returned answer
unfolding assert_public_record
answer_public = refl
