-- ===== src/Prepared/Accepted.antt =====
-- What is known of a prepared DAG that `normalizePreparedOperationDag` accepts.
use cuda_js.Base.{
  suc, ◌≤◌, ◌<◌, ◌≡◌, refl, ap, inl, inr, true, false, ◌&&◌, ◌||◌, List, [], ◌∷◌, leb, ltb,
  Bool-cases, if◌then◌else◌, length, arith,
}
use cuda_js.Base.Outcome.{
  returned, >>=-elim, require-elim, reject-elim, or_throw-elim, returned-elim, if-elim,
}
use cuda_js.Js.{
  Text, text, text_eq, text_eq_iff, Value, field, array_items, plain_fields, has_field,
}
use cuda_js.Mailbox.Lanes.{is_exact}
use cuda_js.Prepared.Fields.{identifier, normalize_profile}
use cuda_js.Prepared.Arguments.{Kinds, is_the_text}
use cuda_js.Prepared.Matmul.{normalize_matmul}
use cuda_js.Prepared.Topology.{ids, is_text_in, canonical_topology, max_edges}
use cuda_js.Prepared.Walks.{occurs, preds, position, Distinct}
use cuda_js.Prepared.Orders.{canonical_topology_lem}
use cuda_js.Prepared.Edges.{total_after}
use cuda_js.Prepared.Request.{
  Node, Dag, max_nodes, max_bindings, normalize_after, normalize_kernel, normalize_node,
  normalize_nodes, insert_node, sort_nodes, vertices, normalize_prepared_operation_dag,
}

abbrev node_ids : List Node → List Text
node_ids ns = ids (vertices ns)

is_text_in_cons :
    (x y : Text) (ys : List Text)
    → is_text_in x (y ∷ ys) ≡ (if text_eq y x then true else is_text_in x ys)
unfolding is_text_in
is_text_in_cons x y ys = refl

is_text_in_nil : (x : Text) → is_text_in x [] ≡ false
unfolding is_text_in
is_text_in_nil x = refl

module _ (seen : List Text) (kinds : Kinds) (entry : Value) where
  -- A node that is accepted has an id that no node before it has.
  normalize_node-fresh :
      {n : Node × Kinds}
      → normalize_node seen kinds entry ≡ returned n
      → is_text_in n.0.vertex.id seen ≡ false
  unfolding normalize_node
  normalize_node-fresh h = or_throw-elim (plain_fields entry) _ h λ fs e1 h1.
      require-elim
        (has_field fs (text "id") && (has_field fs (text "kind") && has_field fs (text "after"))) _
        h1
        λ e2 h2. >>=-elim (identifier (field entry (text "id"))) h2 λ id e3 h3.
          reject-elim (is_text_in id seen) _ h3 λ e4 h4.
            require-elim
              (is_the_text (field entry (text "kind")) (text "kernel")
                || is_the_text (field entry (text "kind")) (text "cublaslt-f32-matmul"))
              _ h4
              λ e5 h5. >>=-elim (normalize_after (field entry (text "after"))) h5 λ after e6 h6.
                if-elim (is_the_text (field entry (text "kind")) (text "cublaslt-f32-matmul")) h6
                  (λ e7 h7. >>=-elim (normalize_matmul kinds entry) h7 λ m e8 h8.
                    returned-elim (λ (n' : Node × Kinds). is_text_in n'.0.vertex.id seen ≡ false) h8
                      e4)
                  (λ e7 h7. >>=-elim (normalize_kernel kinds entry) h7 λ k e8 h8.
                    returned-elim (λ (n' : Node × Kinds). is_text_in n'.0.vertex.id seen ≡ false) h8
                      e4)

normalize_nodes-fresh :
    (seen : List Text) (kinds : Kinds) (entries : List Value) {found : List Node × Kinds}
    → normalize_nodes seen kinds entries ≡ returned found
    → (length found.0 ≡ length entries)
      × ((x : Text) → occurs x (node_ids found.0) ≤ (if is_text_in x seen then 0 else 1))
unfolding normalize_nodes
normalize_nodes-fresh seen kinds [] h =
    returned-elim
      (λ (f : List Node × Kinds).
        (length f.0 ≡ 0)
        × ((x : Text) → occurs x (node_ids f.0) ≤ (if is_text_in x seen then 0 else 1)))
      h (refl, λ x. ground arith)
normalize_nodes-fresh seen kinds (v ∷ vs) h =
    >>=-elim (normalize_node seen kinds v) h λ (n, kinds') e1 h1.
      >>=-elim (normalize_nodes (n.vertex.id ∷ seen) kinds' vs) h1 λ (rest, last) e2 h2.
        let fresh = normalize_node-fresh seen kinds v e1 in
        let (len, once) = normalize_nodes-fresh (n.vertex.id ∷ seen) kinds' vs e2 in
        returned-elim
          (λ (f : List Node × Kinds).
            (length f.0 ≡ suc (length vs))
            × ((x : Text) → occurs x (node_ids f.0) ≤ (if is_text_in x seen then 0 else 1)))
          h2
          (
            ap suc len,
            λ x. elim (Bool-cases (text_eq n.vertex.id x)) [
              | inl same ↦
                  let e : n.vertex.id ≡ x = (text_eq_iff n.vertex.id x).0 same in
                  ground (
                    arith,
                    once x,
                    is_text_in_cons x n.vertex.id seen,
                    ap (λ y. is_text_in y seen) e,
                  )
              | inr other ↦ ground (arith, once x, is_text_in_cons x n.vertex.id seen)
            ],
          )

occurs-insert_node :
    (n : Node) (ms : List Node) (x : Text)
    → occurs x (node_ids (insert_node n ms)) ≡ occurs x (n.vertex.id ∷ node_ids ms)
unfolding insert_node
occurs-insert_node n [] x = refl
occurs-insert_node n (m ∷ ms) x = ground (arith, occurs-insert_node n ms x)

occurs-sort_nodes :
    (ns : List Node) (x : Text) → occurs x (node_ids (sort_nodes ns)) ≡ occurs x (node_ids ns)
unfolding sort_nodes
occurs-sort_nodes [] x = refl
occurs-sort_nodes (n ∷ ns) x =
    ground (arith, occurs-insert_node n (sort_nodes ns) x, occurs-sort_nodes ns x)

length-insert_node : (n : Node) (ms : List Node) → length (insert_node n ms) ≡ suc (length ms)
unfolding insert_node
length-insert_node n [] = refl
length-insert_node n (m ∷ ms) = ground (arith, length-insert_node n ms)

length-sort_nodes : (ns : List Node) → length (sort_nodes ns) ≡ length ns
unfolding sort_nodes
length-sort_nodes [] = refl
length-sort_nodes (n ∷ ns) =
    omega (arith, length-insert_node n (sort_nodes ns), length-sort_nodes ns)

length-vertices : (ns : List Node) → length (vertices ns) ≡ length ns
length-vertices [] = refl
length-vertices (n ∷ ns) = ap suc (length-vertices ns)

-- The ids are distinct, the limits hold, and the order runs each node once and behind all that it
-- names.
pub record IsPrepared (d : Dag) : Type 0 where
  pub distinct : Distinct (vertices d.nodes)
  pub some_nodes : 1 ≤ length d.nodes
  pub few_nodes : length d.nodes ≤ max_nodes
  pub few_edges : d.topology.edge_count ≤ max_edges
  pub edges : d.topology.edge_count ≡ total_after (vertices d.nodes)
  pub complete : (x : Text) → occurs x d.topology.submission_order ≡ occurs x (node_ids d.nodes)
  pub ordered :
      (x p : Text)
      → 0 < occurs p (preds (vertices d.nodes) x)
      → (position p d.topology.submission_order < position x d.topology.submission_order)
        × (position x d.topology.submission_order < length d.nodes)

-- A prepared DAG that is accepted is within the limits, has distinct ids, and runs each node once,
-- behind all that it names.
pub normalize_prepared_operation_dag_lem :
    (request : Value) {d : Dag}
    → normalize_prepared_operation_dag request ≡ returned d
    → IsPrepared d
unfolding normalize_prepared_operation_dag
normalize_prepared_operation_dag_lem request h =
    require-elim (is_exact request (text "executionProfile" ∷ text "nodes" ∷ [])) _ h λ e1 h1.
      or_throw-elim (array_items (field request (text "nodes"))) _ h1 λ entries e2 h2.
        require-elim (leb 1 (length entries) && leb (length entries) max_nodes) _ h2 λ e3 h3.
          >>=-elim (normalize_profile (field request (text "executionProfile"))) h3 λ profile e4 h4.
            >>=-elim (normalize_nodes [] [] entries) h4 λ found e5 h5.
              reject-elim (ltb max_bindings (length found.1)) _ h5 λ e6 h6.
                >>=-elim (canonical_topology (vertices (sort_nodes found.0))) h6 λ topology e7 h7.
                  let (len, once) = normalize_nodes-fresh [] [] entries e5 in
                  let distinct : Distinct (vertices (sort_nodes found.0)) =
                    λ x. ground (arith, once x, occurs-sort_nodes found.0 x, is_text_in_nil x) in
                  let (same, before, total, few) =
                    canonical_topology_lem (vertices (sort_nodes found.0)) distinct e7 in
                  let size = length-sort_nodes found.0 in
                  returned-elim IsPrepared h7 (record {
                    distinct = distinct;
                    some_nodes = ground arith;
                    few_nodes = ground arith;
                    few_edges = few;
                    edges = total;
                    complete = same;
                    ordered = λ x p k. (
                      (before x p k).0,
                      omega (arith, (before x p k).1, length-vertices (sort_nodes found.0)),
                    );
                  })
