-- ===== src/Prepared/Edges.antt =====
-- When the dependencies of a prepared DAG pass the tests of `canonicalTopology`.
use cuda_js.Base.{
  ℕ, ◌+◌, ◌<◌, ◌≡◌, ◌≢◌, ◌↔◌, ◌⊎◌, refl, sym, ◌∙◌, inl, inr, true, List, [], ◌∷◌, length, ltb, ◌==◌,
  Bool-cases, arith,
}
use cuda_js.Base.Counts.{count-append}
use cuda_js.Base.Outcome.{returned, Outcome-cases}
use cuda_js.Js.{Text, text_eq, text_eq_iff, text_eq_refl}
use cuda_js.Prepared.Topology.{Vertex, ids, is_text_in, check_edge, check_after, check_edges}
use cuda_js.Prepared.Walks.{occurs, preds, outstanding}

-- How many dependencies the nodes name.
abbrev pub total_after : List Vertex → ℕ
total_after [] = 0
total_after (n ∷ ns) = length n.after + total_after ns

-- Every dependency names a node, and goes down in some rank.
pub record IsRanked (nodes : List Vertex) (rank : Text → ℕ) : Type 0 where
  pub names : (x p : Text) → 0 < occurs p (preds nodes x) → 0 < occurs p (ids nodes)
  pub falls : (x p : Text) → 0 < occurs p (preds nodes x) → rank p < rank x

is_text_in_iff : (t : Text) (us : List Text) → (is_text_in t us ≡ true) ↔ (0 < occurs t us)
unfolding is_text_in
is_text_in_iff t [] = ground arith
is_text_in_iff t (u ∷ us) = ground (arith, is_text_in_iff t us)

-- A list of dependencies that passes: each names a node, and another one.
abbrev IsClear : List Text → Text → List Text → Type 0
IsClear known id ps = (p : Text) → 0 < occurs p ps → (0 < occurs p known) × (p ≢ id)

check_after_returns :
    (known : List Text) (id : Text) (ps : List Text)
    → IsClear known id ps
    → check_after known id ps ≡ returned (length ps)
unfolding check_after check_edge
check_after_returns known id [] c = refl
check_after_returns known id (p ∷ ps) c = ground (
  arith,
  c p,
  text_eq_refl p,
  text_eq_iff p id,
  is_text_in_iff p known,
  check_after_returns known id ps (λ q h. c q (ground arith)),
)

check_after-IsClear :
    (known : List Text) (id : Text) (ps : List Text) {n : ℕ}
    → check_after known id ps ≡ returned n
    → IsClear known id ps × (n ≡ length ps)
unfolding check_after check_edge
check_after-IsClear known id [] h = ((λ q k. absurd (omega arith)), ground arith)
check_after-IsClear known id (p ∷ ps) h = elim (Outcome-cases (check_after known id ps)) [
  | inl (m, e) ↦
      let (clear, len) = check_after-IsClear known id ps e in
      (
        (λ q k. ground (
          arith,
          clear q,
          text_eq_iff p q,
          text_eq_iff p id,
          is_text_in_iff p known,
          is_text_in_iff q known,
        )),
        ground arith,
      )
  | inr (f, e) ↦ absurd (ground arith)
]

preds-head :
    (n : Vertex) (ns : List Vertex) (p : Text)
    → 0 < occurs p n.after
    → 0 < occurs p (preds (n ∷ ns) n.id)
preds-head n ns p h =
    ground (arith, text_eq_refl n.id, count-append text_eq p n.after (preds ns n.id))

preds-tail :
    (n : Vertex) (ns : List Vertex) (x p : Text)
    → 0 < occurs p (preds ns x)
    → 0 < occurs p (preds (n ∷ ns) x)
preds-tail n ns x p h = ground (arith, count-append text_eq p n.after (preds ns x))

preds-cons :
    (n : Vertex) (ns : List Vertex) (x p : Text)
    → 0 < occurs p (preds (n ∷ ns) x)
    → ((n.id ≡ x) × (0 < occurs p n.after)) ⊎ (0 < occurs p (preds ns x))
preds-cons n ns x p h = elim (Bool-cases (text_eq n.id x)) [
  | inl same ↦ elim (Bool-cases (ltb 0 (occurs p n.after))) [
    | inl own ↦ inl ((text_eq_iff n.id x).0 same, ground arith)
    | inr none_own ↦ inr (ground (arith, count-append text_eq p n.after (preds ns x)))
  ]
  | inr other ↦ inr (ground arith)
]

-- All the dependencies pass.
abbrev pub AllClear : List Text → List Vertex → Type 0
AllClear known nodes = (x p : Text) → 0 < occurs p (preds nodes x) → (0 < occurs p known) × (p ≢ x)

pub check_edges_returns :
    (known : List Text) (nodes : List Vertex)
    → AllClear known nodes
    → check_edges known nodes ≡ returned (total_after nodes)
unfolding check_edges
check_edges_returns known [] c = refl
check_edges_returns known (n ∷ ns) c = ground (
  arith,
  check_after_returns known n.id n.after (λ p h. c n.id p (preds-head n ns p h)),
  check_edges_returns known ns (λ x p h. c x p (preds-tail n ns x p h)),
)

pub check_edges-AllClear :
    (known : List Text) (nodes : List Vertex) {k : ℕ}
    → check_edges known nodes ≡ returned k
    → AllClear known nodes × (k ≡ total_after nodes)
unfolding check_edges
check_edges-AllClear known [] h = ((λ x p k. absurd (omega arith)), ground arith)
check_edges-AllClear known (n ∷ ns) h = elim (Outcome-cases (check_after known n.id n.after)) [
  | inr (f, e) ↦ absurd (ground arith)
  | inl (here, e) ↦ elim (Outcome-cases (check_edges known ns)) [
    | inr (f, e') ↦ absurd (ground arith)
    | inl (rest, e') ↦
        let (clear, len) = check_after-IsClear known n.id n.after e in
        let (clears, total) = check_edges-AllClear known ns e' in
        (
          (λ x p k. elim (preds-cons n ns x p k) [
            | inl (same, own) ↦ ((clear p own).0, λ q. (clear p own).1 (q ∙ sym same))
            | inr later ↦ clears x p later
          ]),
          ground arith,
        )
  ]
]

pub find_outstanding :
    (order ps : List Text)
    → 0 < outstanding order ps
    → (p : Text) × (0 < occurs p ps) × (occurs p order ≡ 0)
find_outstanding order [] h = absurd (omega arith)
find_outstanding order (p ∷ ps) h = elim (Bool-cases (occurs p order == 0)) [
  | inl new ↦ (p, ground (arith, text_eq_refl p), ground arith)
  | inr old ↦
      let (q, among, new) = find_outstanding order ps (ground arith) in (q, ground arith, new)
]
