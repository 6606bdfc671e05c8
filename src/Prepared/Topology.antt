-- ===== src/Prepared/Topology.antt =====
-- `canonicalTopology`: the order in which the nodes of a prepared DAG are submitted. A Map of the
-- source is a function of its keys; the ids of the nodes are distinct before it is called.
use cuda_js.Base.{
  ℕ, zero, suc, ◌+◌, ◌-◌, Bool, true, false, List, [], ◌∷◌, ◌++◌, keep_if, length, ltb, ◌==◌,
  if◌then◌else◌,
}
use cuda_js.Base.Outcome.{Outcome, returned, ◌>>=◌, ◌>>◌, require, reject}
use cuda_js.Js.{Text, text_eq}
use cuda_js.Js.Keys.{sort_texts}
use cuda_js.Failure.{Failure, failure, validation}

-- What the topology reads of a node.
pub record Vertex : Type 0 where
  pub id : Text
  pub after : List Text

abbrev pub max_edges : ℕ
max_edges = 64

abbrev pub ids : List Vertex → List Text
ids [] = []
ids (n ∷ ns) = n.id ∷ ids ns

unfoldable pub is_text_in : Text → List Text → Bool
unfolding text_eq
is_text_in t [] = false
is_text_in t (u ∷ us) = if text_eq u t then true else is_text_in t us

-- The two tests on one predecessor of a node.
unfoldable pub check_edge : List Text → Text → Text → Outcome Failure (Unit {0})
unfolding is_text_in text_eq
check_edge known id predecessor = do
  require (is_text_in predecessor known) (failure "PREPARED_DAG_DEPENDENCY_UNKNOWN" validation)
  reject (text_eq predecessor id) (failure "PREPARED_DAG_CYCLE" validation)

-- The inner loop over `node.after`; the answer is the number of its edges.
unfoldable pub check_after : List Text → Text → List Text → Outcome Failure ℕ
unfolding check_edge
check_after known id [] = returned 0
check_after known id (p ∷ ps) =
    check_edge known id p >> (check_after known id ps >>= λ n. returned (suc n))

unfoldable pub check_edges : List Text → List Vertex → Outcome Failure ℕ
unfolding check_after
check_edges known [] = returned 0
check_edges known (n ∷ ns) = check_after known n.id n.after >>= λ here.
    check_edges known ns >>= λ rest. returned (here + rest)

-- `successors.get(id)` before it is sorted: a node stands there once for each time it names `id`.
unfoldable pub named_in : Text → Text → List Text → List Text
unfolding text_eq
named_in p id [] = []
named_in p id (q ∷ qs) = if text_eq q p then id ∷ named_in p id qs else named_in p id qs

unfoldable pub successors_of : List Vertex → Text → List Text
unfolding named_in
successors_of [] p = []
successors_of (n ∷ ns) p = named_in p n.id n.after ++ successors_of ns p

-- `node.after.length`
unfoldable pub first_indegree : List Vertex → Text → ℕ
unfolding text_eq
first_indegree [] x = 0
first_indegree (n ∷ ns) x = if text_eq n.id x then length n.after else first_indegree ns x

pub record Walk : Type 0 where
  pub indegree : Text → ℕ
  pub ready : List Text
  pub submission_order : List Text

-- `indegree.set(successor, next)`
abbrev pub set_indegree : (Text → ℕ) → Text → ℕ → Text → ℕ
set_indegree f k n x = if text_eq k x then n else f x

-- The body of the loop over the successors of a node that was submitted.
unfoldable pub release_one : Walk → Text → Walk
unfolding sort_texts
release_one w s =
    let next : ℕ = w.indegree s - 1 in
    record w {
      indegree = set_indegree w.indegree s next;
      ready = if next == 0 then sort_texts (w.ready ++ s ∷ []) else w.ready;
    }

unfoldable pub release_all : Walk → List Text → Walk
unfolding release_one
release_all w [] = w
release_all w (s ∷ ss) = release_all (release_one w s) ss

-- `while (ready.length > 0) { … }`, for at most as many rounds as the fuel says.
unfoldable pub submit_all : List Vertex → ℕ → Walk → Walk
unfolding release_all successors_of sort_texts
submit_all nodes zero w = w
submit_all nodes (suc fuel) w = elim w.ready [
  | [] ↦ w
  | id ∷ rest ↦ submit_all nodes fuel (
      release_all (record w { ready = rest; submission_order = w.submission_order ++ id ∷ [] })
        (sort_texts (successors_of nodes id)))
]

unfoldable pub start : List Vertex → Walk
unfolding first_indegree sort_texts
start nodes = record {
  indegree = first_indegree nodes;
  ready = sort_texts (keep_if (λ id. first_indegree nodes id == 0) (ids nodes));
  submission_order = [];
}

pub record Topology : Type 0 where
  pub edge_count : ℕ
  pub submission_order : List Text

-- `canonicalTopology`
unfoldable pub canonical_topology : List Vertex → Outcome Failure Topology
unfolding check_edges submit_all start
canonical_topology nodes = do
  edge_count ← check_edges (ids nodes) nodes
  reject (ltb max_edges edge_count) (failure "PREPARED_DAG_EDGE_LIMIT" validation)
  let order = (submit_all nodes (length nodes) (start nodes)).submission_order
  require (length order == length nodes) (failure "PREPARED_DAG_CYCLE" validation)
  returned (record { edge_count = edge_count; submission_order = order })
