-- ===== src/Prepared/Tests.antt =====
-- Three nodes, of which the last waits for both others, and a request of two matrix products.
use cuda_js.Base.{ℕ, ◌≤◌, ◌<◌, ◌≡◌, ◌↔◌, refl, true, false, none, some, List, [], ◌∷◌, arith}
use cuda_js.Base.Outcome.{returned, thrown}
use cuda_js.Js.{
  Text, text, text_eq_iff, Value, natural, string, boolean, null, object, array, item, end, Fields,
  bare, entry,
}
use cuda_js.Failure.{failure, validation}
use cuda_js.Prepared.Topology.{Vertex, ids, Topology, canonical_topology}
use cuda_js.Prepared.Walks.{occurs, preds, position, Distinct}
use cuda_js.Prepared.Orders.{canonical_topology_lem, canonical_topology_iff}
use cuda_js.Prepared.Edges.{IsRanked, total_after}
use cuda_js.Prepared.Accesses.{Access}
use cuda_js.Prepared.Arguments.{binding}
use cuda_js.Prepared.Matmul.{Plan}
use cuda_js.Prepared.Request.{Node, matmul, Dag, normalize_prepared_operation_dag}
use cuda_js.Prepared.Accepted.{IsPrepared, normalize_prepared_operation_dag_lem}

abbrev three : List Vertex
three =
    record { id = text "a"; after = [] }
    ∷ record { id = text "c"; after = text "a" ∷ text "b" ∷ [] }
    ∷ record { id = text "b"; after = text "a" ∷ [] }
    ∷ []

three-Distinct : Distinct three
three-Distinct x =
    ground (arith, text_eq_iff (text "a") x, text_eq_iff (text "b") x, text_eq_iff (text "c") x)

abbrev three_topology : Topology
three_topology = record { edge_count = 3; submission_order = text "a" ∷ text "b" ∷ text "c" ∷ [] }

three_ordered : canonical_topology three ≡ returned three_topology
unfolding canonical_topology
three_ordered = refl

cyclic :
    canonical_topology (
      record { id = text "a"; after = text "b" ∷ [] }
      ∷ record { id = text "b"; after = text "a" ∷ [] }
      ∷ [])
    ≡ thrown (failure "PREPARED_DAG_CYCLE" validation)
unfolding canonical_topology
cyclic = refl

canonical_topology_example :
    ((x : Text) → occurs x three_topology.submission_order ≡ occurs x (ids three))
    × ((x p : Text)
        → 0 < occurs p (preds three x)
        → (position p three_topology.submission_order < position x three_topology.submission_order)
          × (position x three_topology.submission_order < 3))
    × (three_topology.edge_count ≡ total_after three)
    × (three_topology.edge_count ≤ 64)
canonical_topology_example = canonical_topology_lem three three-Distinct three_ordered

canonical_topology_iff_example :
    ((t : Topology) × (canonical_topology three ≡ returned t))
    ↔ (((rank : Text → ℕ) × IsRanked three rank) × (total_after three ≤ 64))
canonical_topology_iff_example = canonical_topology_iff three three-Distinct

abbrev two_of_three : List Text
two_of_three = text "device-memory" ∷ text "u32" ∷ text "device-memory" ∷ []

abbrev touches : ℕ → Text → Fields → Value
touches index mode rest = object (
    entry (text "argumentIndex") (natural index) (
      entry (text "byteOffset") (natural 0)
        (entry (text "byteLength") (natural 8) (entry (text "mode") (string mode) rest))))

abbrev touched : Value
touched = array (
    item
      (touches 2 (text "atomic-update-relaxed-device")
        (entry (text "dtype") (string (text "u32")) bare))
      (item (touches 0 (text "read") bare) end))

abbrev accepted : List Access
accepted =
    record {
      argument_index = 0;
      byte_offset = 0;
      byte_length = 8;
      mode = text "read";
      dtype = none;
    }
    ∷ record {
      argument_index = 2;
      byte_offset = 0;
      byte_length = 8;
      mode = text "atomic-update-relaxed-device";
      dtype = some (text "u32");
    }
    ∷ []

abbrev pair : Text → Value → Fields → Fields
pair = entry

abbrev bound : Text → Text → Value
bound name kind =
    object (pair (text "binding") (string name) (pair (text "kind") (string kind) bare))

abbrev memory : Text → Value
memory name = bound name (text "device-memory")

abbrev ones : List Text → Fields
ones [] = bare
ones (k ∷ ks) = pair k (natural 1) (ones ks)

abbrev plan : Value
plan = object (
    pair (text "contract") (string (text "SPEC-0029-cublaslt-f32-row-major-matmul-v1")) (
      pair (text "m") (natural 2) (
        pair (text "n") (natural 3) (
          pair (text "k") (natural 4) (
            pair (text "transposeA") (boolean false) (
              pair (text "transposeB") (boolean true) (
                pair (text "maxWorkspaceBytes") (natural 0) (
                  pair (text "workspaceBytes") (natural 0) (
                    pair (text "requirements")
                      (object (
                        pair (text "a") (natural 8) (
                          pair (text "b") (natural 12)
                            (pair (text "c") (natural 6) (pair (text "d") (natural 6) bare)))))
                      (pair (text "provider")
                        (object (
                          pair (text "name") (string (text "cublasLt")) (
                            pair (text "version") (string (text "12")) (
                              pair (text "qualification") (string (text "q"))
                                (pair (text "workspaceAlignmentBytes") (natural 256) bare)))))
                        bare))))))))))

abbrev product : Text → Value → Value
product id after = object (
    pair (text "id") (string id) (
      pair (text "kind") (string (text "cublaslt-f32-matmul")) (
        pair (text "after") after (
          pair (text "plan") plan (
            pair (text "a") (memory (text "x")) (
              pair (text "b") (memory (text "y")) (
                pair (text "c") (memory (text "z")) (
                  pair (text "d") (memory (text "z")) (
                    pair (text "alpha") (bound (text "s") (text "f32")) (
                      pair (text "beta") (bound (text "s") (text "f32"))
                        (pair (text "workspace") null bare)))))))))))

abbrev request : Value
request = object (
    pair (text "executionProfile")
      (object (
        pair (text "deviceLimits")
          (object (
            ones (
              text "maxThreadsPerBlock"
              ∷ text "maxBlockDimX"
              ∷ text "maxBlockDimY"
              ∷ text "maxBlockDimZ"
              ∷ text "maxGridDimX"
              ∷ text "maxGridDimY"
              ∷ text "maxGridDimZ"
              ∷ text "maxSharedMemoryPerBlock"
              ∷ [])))
          (pair (text "maxPendingGpuOperations") (natural 2) bare)))
      (pair (text "nodes")
        (array (
          item (product (text "second") (array (item (string (text "first")) end)))
            (item (product (text "first") (array end)) end)))
        bare))

abbrev the_plan : Plan
the_plan = record {
  m = 2;
  n = 3;
  k = 4;
  transpose_a = false;
  transpose_b = true;
  max_workspace_bytes = 0;
  workspace_bytes = 0;
  requirements = record { a = 8; b = 12; c = 6; d = 6 };
  provider = record { name = text "cublasLt"; version = text "12"; qualification = text "q" };
}

abbrev the_product : Text → List Text → Node
the_product id after = record {
  vertex = record { id = id; after = after };
  body = matmul (record {
    plan = the_plan;
    a = text "x";
    b = text "y";
    c = text "z";
    d = text "z";
    alpha = binding (text "s") (text "f32");
    beta = binding (text "s") (text "f32");
    workspace = none;
  });
}

abbrev prepared : Dag
prepared = record {
  with_matmul = true;
  nodes = the_product (text "first") [] ∷ the_product (text "second") (text "first" ∷ []) ∷ [];
  bindings =
      (text "s", text "f32")
      ∷ (text "x", text "device-memory")
      ∷ (text "y", text "device-memory")
      ∷ (text "z", text "device-memory")
      ∷ [];
  profile = record { max_pending = 2; device_limits = 1 ∷ 1 ∷ 1 ∷ 1 ∷ 1 ∷ 1 ∷ 1 ∷ 1 ∷ [] };
  topology = record { edge_count = 1; submission_order = text "first" ∷ text "second" ∷ [] };
}

request_accepted : normalize_prepared_operation_dag request ≡ returned prepared
unfolding normalize_prepared_operation_dag
request_accepted = refl

normalize_prepared_operation_dag_example : IsPrepared prepared
normalize_prepared_operation_dag_example =
    normalize_prepared_operation_dag_lem request request_accepted
