-- ===== src/Driver/Operands.antt =====
-- A prepared matrix product with an operand that is null: `exactFields` of the protocol asks for
-- its keys before it is tested to be an object.
use cuda_js.Base.{ℕ, ◌≡◌, true, ◌&&◌, some, List, [], ◌∷◌, leb, length, arith}
use cuda_js.Base.Outcome.{thrown}
use cuda_js.Js.{text, Value, null, field, array_items}
use cuda_js.Mailbox.Lanes.{is_exact}
use cuda_js.Prepared.Arguments.{is_the_text}
use cuda_js.Prepared.Request.{max_nodes, max_predecessors}
use cuda_js.Driver.Operations.{Operation}
use cuda_js.Driver.Shapes.{
  is_plain, is_token, is_identifier_value, is_list_of, exact_keys, type_error,
}
use cuda_js.Driver.Launches.{
  names_binding, product_operands, product_fields, prepared_node, every_node, prepared_nodes,
}
use cuda_js.Driver.Payloads.{Limits}
use cuda_js.Driver.Commands.{prepare_payload}
use cuda_js.Driver.Requests.{check_payload}

-- A node that is a matrix product in all but its operands.
pub record IsProduct (entry : Value) : Type 0 where
  pub shaped :
      (is_plain entry
        && (is_identifier_value (field entry (text "id"))
            && is_list_of 0 max_predecessors is_identifier_value (field entry (text "after"))))
      ≡ true
  pub product : is_the_text (field entry (text "kind")) (text "cublaslt-f32-matmul") ≡ true
  pub planned : (is_exact entry product_fields && is_token (field entry (text "planToken"))) ≡ true

operand_null :
    (entry : Value) → field entry (text "a") ≡ null → product_operands entry ≡ thrown type_error
unfolding product_operands names_binding exact_keys
operand_null entry e = rw e

node_null :
    (maximum : ℕ) (entry : Value)
    → IsProduct entry
    → field entry (text "a") ≡ null
    → prepared_node maximum entry ≡ thrown type_error
unfolding prepared_node
node_null maximum entry i e = rw (i.shaped, i.product, i.planned, operand_null entry e)

first_node_null :
    (maximum : ℕ) (v entry : Value) (rest : List Value)
    → array_items v ≡ some (entry ∷ rest)
    → leb (length (entry ∷ rest)) max_nodes ≡ true
    → IsProduct entry
    → field entry (text "a") ≡ null
    → prepared_nodes v maximum ≡ thrown type_error
unfolding prepared_nodes every_node
first_node_null maximum v entry rest e1 e2 i e =
    let some_nodes : leb 1 (length (entry ∷ rest)) ≡ true = ground arith in
    rw (e1, prepared_nodes) (rw (some_nodes, e2, node_null maximum entry i e))

-- A list of prepared nodes that begins with a product of null is answered with a TypeError of the
-- language, not with an error of the protocol.
pub null_operand :
    (l : Limits) (payload entry : Value) (rest : List Value)
    → is_exact payload (text "nodes" ∷ []) ≡ true
    → array_items (field payload (text "nodes")) ≡ some (entry ∷ rest)
    → leb (length (entry ∷ rest)) max_nodes ≡ true
    → IsProduct entry
    → field entry (text "a") ≡ null
    → check_payload l Operation.execution_prepared_create payload ≡ thrown type_error
unfolding check_payload prepare_payload
null_operand l payload entry rest e1 e2 e3 i e =
    rw e1 (rw (first_node_null l.max_arguments (field payload (text "nodes")) entry rest e2 e3 i e))
