-- ===== src/Prepared/Orders.antt =====
-- What `canonicalTopology` answers: an order that respects the dependencies, exactly if there is
-- one.
use cuda_js.Base.{
  ℕ, zero, suc, ◌≤◌, ◌<◌, ◌≡◌, ◌↔◌, refl, ap, inl, inr, List, [], ◌∷◌, length, ◌==◌, Bool-cases,
  arith,
}
use cuda_js.Base.Counts.{counts_eq, length-le_of_counts}
use cuda_js.Base.Outcome.{returned, Outcome-cases}
use cuda_js.Js.{Text, text_eq, text_eq_iff}
use cuda_js.Prepared.Topology.{
  Vertex, ids, check_edges, Walk, submit_all, start, Topology, canonical_topology, max_edges,
}
use cuda_js.Prepared.Walks.{
  occurs, preds, position, Distinct, known_of_preds, position-lt-length, IsWalk,
}
use cuda_js.Prepared.Rounds.{submit_all-IsWalk, start-IsWalk}
use cuda_js.Prepared.Edges.{
  total_after, IsRanked, AllClear, check_edges_returns, check_edges-AllClear, find_outstanding,
}

-- The walk when the loop ends.
abbrev walked : List Vertex → Walk
walked nodes = submit_all nodes (length nodes) (start nodes)

length-ids : (nodes : List Vertex) → length (ids nodes) ≡ length nodes
length-ids [] = refl
length-ids (n ∷ ns) = ap suc (length-ids ns)

module _ (nodes : List Vertex) (distinct : Distinct nodes) where
  walked-IsWalk : IsWalk nodes (walked nodes) [] × ((walked nodes).ready ≡ [])
  walked-IsWalk =
      submit_all-IsWalk nodes distinct (length nodes) (start nodes) (start-IsWalk nodes distinct)
        (omega (arith, length-ids nodes))

  order-le : (x : Text) → occurs x (walked nodes).submission_order ≤ occurs x (ids nodes)
  order-le x = let (i, empty) = walked-IsWalk in ground (arith, i.placed x, ap (occurs x) empty)

  -- Nothing that is ranked is left behind.
  reached :
      (rank : Text → ℕ)
      → IsRanked nodes rank
      → (bound : ℕ) (x : Text) → rank x < bound
      → 0 < occurs x (ids nodes)
      → 0 < occurs x (walked nodes).submission_order
  reached rank r zero x h k = absurd (omega arith)
  reached rank r (suc bound) x h k =
      let (i, empty) = walked-IsWalk in
      let order = (walked nodes).submission_order in
      elim (Bool-cases (occurs x order == 0)) [
        | inr there ↦ ground arith
        | inl missing ↦
            let (p, among, new) =
              find_outstanding order (preds nodes x)
                (ground (arith, i.placed x, i.counted x, ap (occurs x) empty)) in
            absurd (
              omega (
                arith,
                reached rank r bound p (omega (arith, r.falls x p among)) (r.names x p among),
              ))
      ]

  -- A prepared DAG whose order is returned runs each node once, and each behind all that it names.
  pub canonical_topology_lem :
      {t : Topology}
      → canonical_topology nodes ≡ returned t
      → ((x : Text) → occurs x t.submission_order ≡ occurs x (ids nodes))
        × ((x p : Text)
            → 0 < occurs p (preds nodes x)
            → (position p t.submission_order < position x t.submission_order)
              × (position x t.submission_order < length nodes))
        × (t.edge_count ≡ total_after nodes)
        × (t.edge_count ≤ max_edges)
  unfolding canonical_topology
  canonical_topology_lem {t} h = elim (Outcome-cases (check_edges (ids nodes) nodes)) [
    | inr (f, e) ↦ absurd (ground arith)
    | inl (n, e) ↦
        let (i, empty) = walked-IsWalk in
        let (clear, total) = check_edges-AllClear (ids nodes) nodes e in
        let order = (walked nodes).submission_order in
        let full : length order ≡ length nodes = ground arith in
        let same : t.submission_order ≡ order = ground arith in
        let all_there : (x : Text) → occurs x order ≡ occurs x (ids nodes) =
          counts_eq text_eq text_eq_iff order (ids nodes) order-le
            (omega (arith, length-ids nodes)) in
        rw same (
          all_there,
          (λ x p k.
              let known = known_of_preds nodes x p k in
              (
                i.ordered x p (omega (arith, all_there x)) k,
                omega (arith, full, position-lt-length x order (omega (arith, all_there x))),
              )),
          ground arith,
          ground arith,
        )
  ]

  checked : {t : Topology} → canonical_topology nodes ≡ returned t → AllClear (ids nodes) nodes
  unfolding canonical_topology
  checked {t} h = elim (Outcome-cases (check_edges (ids nodes) nodes)) [
    | inr (f, e) ↦ absurd (ground arith)
    | inl (n, e) ↦ (check_edges-AllClear (ids nodes) nodes e).0
  ]

  IsRanked-AllClear : (rank : Text → ℕ) → IsRanked nodes rank → AllClear (ids nodes) nodes
  IsRanked-AllClear rank r x p k =
      (r.names x p k, λ e. absurd (omega (arith, r.falls x p k, ap rank e)))

  all_submitted :
      (rank : Text → ℕ)
      → IsRanked nodes rank
      → length (walked nodes).submission_order ≡ length nodes
  all_submitted rank r =
      let order = (walked nodes).submission_order in
      omega (
        arith,
        length-ids nodes,
        length-le_of_counts text_eq text_eq_iff order (ids nodes) order-le,
        length-le_of_counts text_eq text_eq_iff (ids nodes) order
            (λ x. ground (arith, distinct x, reached rank r (suc (rank x)) x (omega arith))),
      )

  ranked_returns :
      (rank : Text → ℕ)
      → IsRanked nodes rank
      → total_after nodes ≤ max_edges
      → (t : Topology) × (canonical_topology nodes ≡ returned t)
  unfolding canonical_topology
  ranked_returns rank r few = (
    record { edge_count = total_after nodes; submission_order = (walked nodes).submission_order },
    ground (
      arith,
      check_edges_returns (ids nodes) nodes (IsRanked-AllClear rank r),
      all_submitted rank r,
    ),
  )

  -- For nodes of distinct ids an order is returned exactly if the dependencies name nodes, go down in
  -- some rank, and are not too many.
  pub canonical_topology_iff :
      ((t : Topology) × (canonical_topology nodes ≡ returned t))
      ↔ (((rank : Text → ℕ) × IsRanked nodes rank) × (total_after nodes ≤ max_edges))
  canonical_topology_iff = (
    λ (t, h).
        let (same, before, total, few) = canonical_topology_lem h in
        (
          (
            (λ x. position x t.submission_order),
            record { names = λ x p k. (checked h x p k).0; falls = λ x p k. (before x p k).0 },
          ),
          omega arith,
        ),
    λ ((rank, r), few). ranked_returns rank r few,
  )
