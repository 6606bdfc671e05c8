-- ===== src/Driver/Launches.antt =====
-- The launches of driver-actor/src/protocol.mjs: arguments, accesses, prepared nodes and bindings.
use cuda_js.Base.{
  Bool, true, false, not, ◌&&◌, ◌||◌, none, some, List, [], ◌∷◌, leb, length, ℕ, if◌then◌else◌,
}
use cuda_js.Base.Outcome.{Outcome, returned, ◌>>=◌}
use cuda_js.Js.{Text, text, Value, undefined, null, field, array_items, string_of}
use cuda_js.Failure.{Failure}
use cuda_js.Mailbox.Lanes.{is_exact, has_text}
use cuda_js.Prepared.Arguments.{is_the_text}
use cuda_js.Prepared.Request.{max_nodes, max_bindings, max_predecessors}
use cuda_js.Numeric.Scalars.{is_parameter_kind, is_scalar_parameter_value}
use cuda_js.Driver.Shapes.{
  is_plain, is_token, is_positive, is_nonnegative, is_identifier_value, is_one_of, has_only, owns,
  is_dimensions, is_list_of, exact_keys, scalar_argument,
}

-- A mailbox that stands for an argument or a binding, behind its exact fields.
unfoldable pub is_mailbox_entry : Value → Bool
unfolding field is_token is_positive is_identifier_value
is_mailbox_entry entry =
    is_token (field entry (text "mailbox"))
    && (is_positive (field entry (text "generation"))
        && is_identifier_value (field entry (text "lane")))

-- One entry of `launchArguments`.
unfoldable pub launch_argument : Value → Bool
unfolding is_plain is_the_text field is_exact is_mailbox_entry is_token is_parameter_kind
    scalar_argument has_only owns is_nonnegative
launch_argument entry =
    if not (is_plain entry)
    then false
    else if is_the_text (field entry (text "kind")) (text "publication-mailbox")
    then is_exact entry (text "kind" ∷ text "mailbox" ∷ text "generation" ∷ text "lane" ∷ [])
      && is_mailbox_entry entry
    else if is_the_text (field entry (text "kind")) (text "device-view")
    then is_exact entry (text "kind" ∷ text "view" ∷ []) && is_token (field entry (text "view"))
    else if not (is_parameter_kind (field entry (text "kind")))
    then false
    else if not (is_the_text (field entry (text "kind")) (text "device-memory"))
    then scalar_argument entry
    else has_only entry (text "kind" ∷ text "memory" ∷ text "byteOffset" ∷ [])
      && (owns entry (text "memory")
          && (is_token (field entry (text "memory"))
              && (not (owns entry (text "byteOffset"))
                  || is_nonnegative (field entry (text "byteOffset")))))

-- `launchArguments`
unfoldable pub launch_arguments : Value → ℕ → Bool
unfolding is_list_of launch_argument
launch_arguments v maximum = is_list_of 1 maximum launch_argument v

abbrev pub access_modes : List Text
access_modes =
    text "read"
    ∷ text "write"
    ∷ text "read-write"
    ∷ text "atomic-observe-relaxed-device"
    ∷ text "atomic-update-relaxed-device"
    ∷ []

-- One entry of `launchAccesses`.
unfoldable pub launch_access : Value → Bool
unfolding has_only field is_nonnegative is_positive is_one_of owns
launch_access entry =
    has_only entry (
      text "argumentIndex"
      ∷ text "byteOffset"
      ∷ text "byteLength"
      ∷ text "mode"
      ∷ text "dtype"
      ∷ [])
    && (is_nonnegative (field entry (text "argumentIndex"))
        && (is_nonnegative (field entry (text "byteOffset"))
            && (is_positive (field entry (text "byteLength"))
                && (is_one_of (field entry (text "mode")) access_modes
                    && (not (owns entry (text "dtype"))
                        || is_one_of (field entry (text "dtype"))
                            (text "u32" ∷ text "u64" ∷ []))))))

-- `launchAccesses`
unfoldable pub launch_accesses : Value → ℕ → Bool
unfolding is_list_of launch_access
launch_accesses undefined maximum = true
launch_accesses v maximum = is_list_of 0 maximum launch_access v

unfoldable pub prepared_argument : Value → Bool
unfolding is_plain is_exact field is_identifier_value scalar_argument
prepared_argument entry =
    is_plain entry
    && (is_exact entry (text "binding" ∷ []) && is_identifier_value (field entry (text "binding"))
        || scalar_argument entry)

-- `preparedArguments`
unfoldable pub prepared_arguments : Value → ℕ → Bool
unfolding is_list_of prepared_argument
prepared_arguments v maximum = is_list_of 1 maximum prepared_argument v

-- `test && rest`, where the rest may throw.
abbrev pub and_then : Bool → Outcome Failure Bool → Outcome Failure Bool
and_then test rest = if test then rest else returned false

-- `binding` and `scalar` of a matrix product.
unfoldable pub names_binding : Value → Outcome Failure Bool
unfolding exact_keys field is_identifier_value
names_binding v = exact_keys v (text "binding" ∷ []) >>= λ exact.
    returned (exact && is_identifier_value (field v (text "binding")))

unfoldable pub names_scalar : Value → Outcome Failure Bool
unfolding names_binding scalar_argument is_the_text field
names_scalar v = names_binding v >>= λ bound.
    returned (bound || scalar_argument v && is_the_text (field v (text "kind")) (text "f32"))

unfoldable pub names_workspace : Value → Outcome Failure Bool
unfolding names_binding
names_workspace null = returned true
names_workspace v = names_binding v

-- The tests of a matrix product behind its exact fields and its plan.
unfoldable pub product_operands : Value → Outcome Failure Bool
unfolding names_binding names_scalar names_workspace field
product_operands entry = names_binding (field entry (text "a")) >>= λ a. and_then a (
    names_binding (field entry (text "b")) >>= λ b. and_then b (
      names_binding (field entry (text "c")) >>= λ c. and_then c (
        names_binding (field entry (text "d")) >>= λ d. and_then d (
          names_scalar (field entry (text "alpha")) >>= λ alpha. and_then alpha (
            names_scalar (field entry (text "beta")) >>= λ beta.
            and_then beta (names_workspace (field entry (text "workspace"))))))))

abbrev pub product_fields : List Text
product_fields =
    text "id"
    ∷ text "kind"
    ∷ text "after"
    ∷ text "planToken"
    ∷ text "a"
    ∷ text "b"
    ∷ text "c"
    ∷ text "d"
    ∷ text "alpha"
    ∷ text "beta"
    ∷ text "workspace"
    ∷ []

unfoldable pub kernel_node : Value → ℕ → Bool
unfolding is_exact is_the_text field is_token is_dimensions is_nonnegative prepared_arguments
    array_items launch_accesses
kernel_node entry maximum =
    is_exact entry (
      text "id"
      ∷ text "kind"
      ∷ text "after"
      ∷ text "functionToken"
      ∷ text "grid"
      ∷ text "block"
      ∷ text "sharedMemoryBytes"
      ∷ text "arguments"
      ∷ text "accesses"
      ∷ [])
    && (is_the_text (field entry (text "kind")) (text "kernel")
        && (is_token (field entry (text "functionToken"))
            && (is_dimensions (field entry (text "grid"))
                && (is_dimensions (field entry (text "block"))
                    && (is_nonnegative (field entry (text "sharedMemoryBytes"))
                        && (prepared_arguments (field entry (text "arguments")) maximum
                            && (is_array (field entry (text "accesses"))
                                && launch_accesses (field entry (text "accesses")) maximum)))))))
  where
    is_array : Value → Bool
    is_array v = elim (array_items v) [ none ↦ false | some vs ↦ true ]

-- One entry of `preparedNodes`.
unfoldable pub prepared_node : ℕ → Value → Outcome Failure Bool
unfolding is_plain is_identifier_value field is_list_of is_the_text is_exact is_token
    product_operands kernel_node
prepared_node maximum entry =
    if not (
      is_plain entry
      && (is_identifier_value (field entry (text "id"))
          && is_list_of 0 max_predecessors is_identifier_value (field entry (text "after"))))
    then returned false
    else if is_the_text (field entry (text "kind")) (text "cublaslt-f32-matmul")
    then and_then (is_exact entry product_fields && is_token (field entry (text "planToken")))
        (product_operands entry)
    else returned (kernel_node entry maximum)

unfoldable pub every_node : ℕ → List Value → Outcome Failure Bool
unfolding prepared_node
every_node maximum [] = returned true
every_node maximum (v ∷ vs) = prepared_node maximum v >>= λ ok. and_then ok (every_node maximum vs)

-- `preparedNodes`
unfoldable pub prepared_nodes : Value → ℕ → Outcome Failure Bool
unfolding array_items every_node
prepared_nodes v maximum = elim (array_items v) [
  | none ↦ returned false
  | some vs ↦ and_then (leb 1 (length vs) && leb (length vs) max_nodes) (every_node maximum vs)
]

-- The kind of a binding, and the fields that it then has.
unfoldable pub binding_kind : Bool → Value → Bool
unfolding is_the_text field is_exact is_mailbox_entry is_token is_nonnegative
    is_scalar_parameter_value
binding_kind allow_mailboxes entry =
    if allow_mailboxes && is_the_text (field entry (text "kind")) (text "publication-mailbox")
    then is_exact entry
        (text "name" ∷ text "kind" ∷ text "mailbox" ∷ text "generation" ∷ text "lane" ∷ [])
      && is_mailbox_entry entry
    else if is_the_text (field entry (text "kind")) (text "device-memory")
    then is_exact entry (text "name" ∷ text "kind" ∷ text "memory" ∷ text "byteOffset" ∷ [])
      && (is_token (field entry (text "memory"))
          && is_nonnegative (field entry (text "byteOffset")))
    else if is_the_text (field entry (text "kind")) (text "device-view")
    then is_exact entry (text "name" ∷ text "kind" ∷ text "view" ∷ [])
      && is_token (field entry (text "view"))
    else is_exact entry (text "name" ∷ text "kind" ∷ text "value" ∷ [])
      && is_scalar_parameter_value (field entry (text "kind")) (field entry (text "value"))

-- The bindings behind those of the given names.
unfoldable pub every_binding : Bool → List Text → List Value → Bool
unfolding is_plain string_of is_identifier_value field has_text binding_kind
every_binding allow names [] = true
every_binding allow names (v ∷ vs) = elim (string_of (field v (text "name"))) [
  | none ↦ false
  | some name ↦
      (is_plain v && (is_identifier_value (field v (text "name")) && not (has_text name names)))
      && (binding_kind allow v && every_binding allow (name ∷ names) vs)
]

-- `preparedBindings`
unfoldable pub prepared_bindings : Value → Bool → Bool
unfolding array_items every_binding
prepared_bindings v allow = elim (array_items v) [
  | none ↦ false
  | some vs ↦ leb (length vs) max_bindings && every_binding allow [] vs
]
