-- ===== src/Prepared/Request.antt =====
-- `normalizePreparedOperationDag`: the nodes of a request, their bindings, and the order in which
-- they run. The hash of the result is left out.
use cuda_js.Base.{
  ℕ, Bool, true, false, ◌&&◌, ◌||◌, List, [], ◌∷◌, leb, ltb, if◌then◌else◌, length, any_of,
}
use cuda_js.Base.Outcome.{Outcome, returned, ◌>>=◌, ◌>>◌, require, reject, or_throw}
use cuda_js.Js.Chars.{text_lt}
use cuda_js.Js.Keys.{sort_texts}
use cuda_js.Js.{
  Text, text, text_eq, Value, field, has_field, array_items, plain_fields, nonnegative_safe_integer,
}
use cuda_js.Failure.{Failure}
use cuda_js.Mailbox.Lanes.{is_exact}
use cuda_js.Prepared.Fields.{
  invalid, identifier, Dimensions, dimensions, Profile, normalize_profile, Executable,
  normalize_executable,
}
use cuda_js.Prepared.Arguments.{Argument, Kinds, is_the_text, normalize_arguments}
use cuda_js.Prepared.Accesses.{Access, normalize_accesses}
use cuda_js.Prepared.Matmul.{Matmul, normalize_matmul}
use cuda_js.Prepared.Topology.{Vertex, is_text_in, Topology, canonical_topology}

pub record Kernel : Type 0 where
  pub executable : Executable
  pub grid : Dimensions
  pub block : Dimensions
  pub shared_memory_bytes : ℕ
  pub arguments : List Argument
  pub accesses : List Access

pub data Body : Type 0 where
  kernel : Kernel → Body
  matmul : Matmul → Body

pub record Node : Type 0 where
  pub vertex : Vertex
  pub body : Body

-- PREPARED_OPERATION_DAG_LIMITS
abbrev pub max_nodes : ℕ
max_nodes = 32

abbrev pub max_bindings : ℕ
max_bindings = 64

abbrev pub max_predecessors : ℕ
max_predecessors = 8

unfoldable pub identifiers : List Value → Outcome Failure (List Text)
unfolding identifier
identifiers [] = returned []
identifiers (v ∷ vs) = identifier v >>= λ t. identifiers vs >>= λ ts. returned (t ∷ ts)

-- A sorted list that holds a text twice.
unfoldable pub has_repeat : List Text → Bool
unfolding text_eq
has_repeat [] = false
has_repeat (t ∷ []) = false
has_repeat (t ∷ u ∷ us) = text_eq u t || has_repeat (u ∷ us)

-- `after`
unfoldable pub normalize_after : Value → Outcome Failure (List Text)
unfolding array_items identifiers sort_texts has_repeat
normalize_after v = do
  entries ← or_throw (array_items v) (invalid "PREPARED_DAG_DEPENDENCIES_INVALID")
  require (leb (length entries) max_predecessors) (invalid "PREPARED_DAG_DEPENDENCIES_INVALID")
  names ← identifiers entries
  reject (has_repeat (sort_texts names)) (invalid "PREPARED_DAG_DEPENDENCY_DUPLICATE")
  returned (sort_texts names)

abbrev pub kernel_fields : List Text
kernel_fields =
    text "id"
    ∷ text "kind"
    ∷ text "after"
    ∷ text "executable"
    ∷ text "grid"
    ∷ text "block"
    ∷ text "sharedMemoryBytes"
    ∷ text "arguments"
    ∷ text "accesses"
    ∷ []

unfoldable pub normalize_kernel : Kinds → Value → Outcome Failure (Kernel × Kinds)
unfolding is_exact field normalize_executable dimensions nonnegative_safe_integer
    normalize_arguments normalize_accesses
normalize_kernel kinds entry = do
  require (is_exact entry kernel_fields) (invalid "PREPARED_DAG_NODE_INVALID")
  executable ← normalize_executable (field entry (text "executable"))
  grid ← dimensions (field entry (text "grid"))
  block ← dimensions (field entry (text "block"))
  shared ←
      or_throw (nonnegative_safe_integer (field entry (text "sharedMemoryBytes")))
        (invalid "PREPARED_DAG_SHARED_MEMORY_INVALID")
  given ← normalize_arguments kinds (field entry (text "arguments")) executable.parameters
  accesses ← normalize_accesses (field entry (text "accesses")) executable.parameters
  returned (
    record {
      executable = executable;
      grid = grid;
      block = block;
      shared_memory_bytes = shared;
      arguments = given.0;
      accesses = accesses;
    },
    given.1,
  )

abbrev pub as_node : Vertex → Kernel × Kinds → Node × Kinds
as_node vertex k = (record { vertex = vertex; body = kernel k.0 }, k.1)

abbrev pub as_matmul_node : Vertex → Matmul × Kinds → Node × Kinds
as_matmul_node vertex m = (record { vertex = vertex; body = matmul m.0 }, m.1)

-- One entry of `request.nodes`, given the ids and the bindings of those before it.
unfoldable pub normalize_node : List Text → Kinds → Value → Outcome Failure (Node × Kinds)
unfolding plain_fields has_field identifier is_text_in is_the_text field normalize_after
    normalize_matmul normalize_kernel
normalize_node ids kinds entry = do
  fs ← or_throw (plain_fields entry) (invalid "PREPARED_DAG_NODE_INVALID")
  require (has_field fs (text "id") && (has_field fs (text "kind") && has_field fs (text "after")))
      (invalid "PREPARED_DAG_NODE_INVALID")
  id ← identifier (field entry (text "id"))
  reject (is_text_in id ids) (invalid "PREPARED_DAG_NODE_DUPLICATE")
  require
      (is_the_text (field entry (text "kind")) (text "kernel")
        || is_the_text (field entry (text "kind")) (text "cublaslt-f32-matmul"))
      (invalid "PREPARED_DAG_NODE_KIND")
  after ← normalize_after (field entry (text "after"))
  let vertex : Vertex = record { id = id; after = after }
  if is_the_text (field entry (text "kind")) (text "cublaslt-f32-matmul")
      then (normalize_matmul kinds entry >>= λ m. returned (as_matmul_node vertex m))
      else (normalize_kernel kinds entry >>= λ k. returned (as_node vertex k))

unfoldable pub normalize_nodes :
    List Text → Kinds → List Value → Outcome Failure (List Node × Kinds)
unfolding normalize_node
normalize_nodes ids kinds [] = returned ([], kinds)
normalize_nodes ids kinds (v ∷ vs) = normalize_node ids kinds v >>= λ (n, kinds').
    normalize_nodes (n.vertex.id ∷ ids) kinds' vs >>= λ (rest, last). returned (n ∷ rest, last)

-- `.sort((left, right) => codeUnitCompare(left.id, right.id))`
unfoldable pub insert_node : Node → List Node → List Node
unfolding text_lt
insert_node n [] = n ∷ []
insert_node n (m ∷ ms) =
    if text_lt m.vertex.id n.vertex.id then m ∷ insert_node n ms else n ∷ m ∷ ms

unfoldable pub sort_nodes : List Node → List Node
unfolding insert_node
sort_nodes [] = []
sort_nodes (n ∷ ns) = insert_node n (sort_nodes ns)

abbrev pub vertices : List Node → List Vertex
vertices [] = []
vertices (n ∷ ns) = n.vertex ∷ vertices ns

-- `bindings`: the kinds by their names, in the order of the names.
unfoldable pub insert_binding : Text × Text → Kinds → Kinds
unfolding text_lt
insert_binding b [] = b ∷ []
insert_binding b (c ∷ cs) = if text_lt c.0 b.0 then c ∷ insert_binding b cs else b ∷ c ∷ cs

unfoldable pub sort_bindings : Kinds → Kinds
unfolding insert_binding
sort_bindings [] = []
sort_bindings (b ∷ bs) = insert_binding b (sort_bindings bs)

abbrev pub is_matmul : Node → Bool
is_matmul n = elim n.body [ kernel k ↦ false | matmul m ↦ true ]

-- The result, but its hash.
pub record Dag : Type 0 where
  pub with_matmul : Bool
  pub nodes : List Node
  pub bindings : Kinds
  pub profile : Profile
  pub topology : Topology

-- `normalizePreparedOperationDag`
unfoldable pub normalize_prepared_operation_dag : Value → Outcome Failure Dag
unfolding is_exact array_items field normalize_profile normalize_nodes sort_nodes canonical_topology
    sort_bindings
normalize_prepared_operation_dag request = do
  require (is_exact request (text "executionProfile" ∷ text "nodes" ∷ []))
      (invalid "PREPARED_DAG_REQUEST_INVALID")
  entries ←
      or_throw (array_items (field request (text "nodes"))) (invalid "PREPARED_DAG_REQUEST_INVALID")
  require (leb 1 (length entries) && leb (length entries) max_nodes)
      (invalid "PREPARED_DAG_REQUEST_INVALID")
  profile ← normalize_profile (field request (text "executionProfile"))
  found ← normalize_nodes [] [] entries
  reject (ltb max_bindings (length found.1)) (invalid "PREPARED_DAG_BINDING_LIMIT")
  topology ← canonical_topology (vertices (sort_nodes found.0))
  returned (record {
    with_matmul = any_of is_matmul (sort_nodes found.0);
    nodes = sort_nodes found.0;
    bindings = sort_bindings found.1;
    profile = profile;
    topology = topology;
  })
