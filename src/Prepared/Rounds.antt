-- ===== src/Prepared/Rounds.antt =====
-- The loop of `canonicalTopology`, round by round: it ends with nobody ready.
use cuda_js.Base.{
  ℕ, zero, suc, ◌+◌, ◌≤◌, ◌<◌, ◌≡◌, refl, ap, ◌⊎◌, inl, inr, List, [], ◌∷◌, ◌++◌, keep_if, length,
  Bool-cases, length-append, ◌==◌, if◌then◌else◌, arith,
}
use cuda_js.Base.Counts.{count-append, length-le_of_counts}
use cuda_js.Js.{Text, text_eq, text_eq_iff, text_eq_refl}
use cuda_js.Js.Keys.{sort_texts, count-sort_texts}
use cuda_js.Prepared.Topology.{
  Vertex, ids, successors_of, first_indegree, Walk, release_all, submit_all, start,
}
use cuda_js.Prepared.Walks.{
  occurs, preds, outstanding, position, Distinct, occurs-successors_of, known_of_preds,
  first_indegree_lem, outstanding-nil, outstanding-append, outstanding-zero, position-lt-length,
  position-append, position-append_new, IsWalk, release_all-IsWalk, release_all-order,
}

List-cases : (xs : List Text) → (xs ≡ []) ⊎ ((x : Text) × (rest : List Text) × (xs ≡ x ∷ rest))
List-cases [] = inl refl
List-cases (x ∷ xs) = inr (x, xs, refl)

-- The walk once `id` has left the head of the queue.
abbrev submitted : Walk → Text → List Text → Walk
submitted w id rest = record w { ready = rest; submission_order = w.submission_order ++ id ∷ [] }

occurs-keep_if :
    (x : Text) (f : Text → ℕ) (xs : List Text)
    → occurs x (keep_if (λ id. f id == 0) xs) ≡ (if f x == 0 then occurs x xs else 0)
occurs-keep_if x f [] = ground arith
occurs-keep_if x f (y ∷ ys) = elim (Bool-cases (text_eq y x)) [
  | inl same ↦ ground (arith, ap f ((text_eq_iff y x).0 same), occurs-keep_if x f ys)
  | inr other ↦ ground (arith, occurs-keep_if x f ys)
]

module _ (nodes : List Vertex) (distinct : Distinct nodes) where
  -- What the head of the queue says of itself.
  head_facts :
      (w : Walk) (id : Text) (rest : List Text)
      → IsWalk nodes w []
      → w.ready ≡ id ∷ rest
      → (occurs id w.submission_order ≡ 0) × (outstanding w.submission_order (preds nodes id) ≡ 0)
  head_facts w id rest i e =
      let count_ready : occurs id w.ready ≡ suc (occurs id rest) =
        rw e (ground (arith, text_eq_refl id)) in
      ground (arith, i.placed id, i.counted id, distinct id)

  -- What a submitted node names is submitted.
  pred_placed :
      (w : Walk)
      → IsWalk nodes w []
      → (x p : Text) → 0 < occurs x w.submission_order
      → 0 < occurs p (preds nodes x)
      → 0 < occurs p w.submission_order
  pred_placed w i x p h k =
      ground (arith, i.placed x, i.counted x, outstanding-zero w.submission_order (preds nodes x) p)

  submitted-ordered :
      (w : Walk) (id : Text) (rest : List Text)
      → IsWalk nodes w []
      → w.ready ≡ id ∷ rest
      → (x p : Text) → 0 < occurs x (w.submission_order ++ id ∷ [])
      → 0 < occurs p (preds nodes x)
      → position p (w.submission_order ++ id ∷ []) < position x (w.submission_order ++ id ∷ [])
  submitted-ordered w id rest i e x p h k =
      let (fresh, none_left) = head_facts w id rest i e in
      let order = w.submission_order in
      elim (Bool-cases (text_eq id x)) [
        | inl same ↦
            let e' = (text_eq_iff id x).0 same in
            ground (
              arith,
              ap (λ y. occurs y order) e',
              ap (λ y. outstanding order (preds nodes y)) e',
              ap (λ y. position y (order ++ id ∷ [])) e',
              position-append p order (id ∷ []),
              position-append_new id order,
              position-lt-length p order,
              outstanding-zero order (preds nodes x) p,
            )
        | inr other ↦ ground (
          arith,
          count-append text_eq x order (id ∷ []),
          i.ordered x p,
          position-append x order (id ∷ []),
          position-append p order (id ∷ []),
          position-lt-length p order,
          position-lt-length x order,
          pred_placed w i x p,
        )
      ]

  submitted-IsWalk :
      (w : Walk) (id : Text) (rest : List Text)
      → IsWalk nodes w []
      → w.ready ≡ id ∷ rest
      → IsWalk nodes (submitted w id rest) (sort_texts (successors_of nodes id))
  submitted-IsWalk w id rest i e =
      let (fresh, none_left) = head_facts w id rest i e in
      record {
        counted = λ x. omega (
          arith,
          i.counted x,
          outstanding-append w.submission_order id (preds nodes x) fresh,
          count-sort_texts x (successors_of nodes id),
          occurs-successors_of nodes x id,
        );
        placed = λ x. ground (
          arith,
          ap (occurs x) e,
          i.placed x,
          count-append text_eq x w.submission_order (id ∷ []),
        );
        ordered = submitted-ordered w id rest i e;
        known = λ x h. omega (
          arith,
          distinct x,
          count-sort_texts x (successors_of nodes id),
          occurs-successors_of nodes x id,
          known_of_preds nodes x id,
        );
      }

  step-IsWalk :
      (w : Walk) (id : Text) (rest : List Text)
      → IsWalk nodes w []
      → w.ready ≡ id ∷ rest
      → IsWalk nodes (release_all (submitted w id rest) (sort_texts (successors_of nodes id))) []
  step-IsWalk w id rest i e =
      release_all-IsWalk nodes (submitted w id rest) (sort_texts (successors_of nodes id))
        (submitted-IsWalk w id rest i e)

  -- Nobody is placed twice, so there is room for all.
  placed-length :
      (w : Walk)
      → IsWalk nodes w []
      → length w.submission_order + length w.ready ≤ length (ids nodes)
  placed-length w i = omega (
    arith,
    length-append w.submission_order w.ready,
    length-le_of_counts text_eq text_eq_iff (w.submission_order ++ w.ready) (ids nodes)
        (λ x. ground (arith, count-append text_eq x w.submission_order w.ready, i.placed x)),
  )

  -- As many rounds as there are nodes are enough.
  pub submit_all-IsWalk :
      (fuel : ℕ) (w : Walk)
      → IsWalk nodes w []
      → length (ids nodes) ≤ length w.submission_order + fuel
      → IsWalk nodes (submit_all nodes fuel w) [] × ((submit_all nodes fuel w).ready ≡ [])
  unfolding submit_all
  submit_all-IsWalk zero w i h = elim (List-cases w.ready) [
    | inl empty ↦ (i, empty)
    | inr (id, rest, e) ↦ absurd (omega (arith, placed-length w i, ap length e))
  ]
  submit_all-IsWalk (suc fuel) w i h = elim (List-cases w.ready) [
    | inl empty ↦ rw (empty, submit_all) (i, empty)
    | inr (id, rest, e) ↦
        let owed = sort_texts (successors_of nodes id) in
        rw (e, submit_all)
          (submit_all-IsWalk fuel (release_all (submitted w id rest) owed)
            (step-IsWalk w id rest i e)
            (omega (
              arith,
              ap length (release_all-order (submitted w id rest) owed),
              length-append w.submission_order (id ∷ []),
            )))
  ]

  pub start-IsWalk : IsWalk nodes (start nodes) []
  unfolding start
  start-IsWalk = record {
    counted =
        λ x. omega (arith, first_indegree_lem nodes x distinct, outstanding-nil (preds nodes x));
    placed = λ x. ground (
      arith,
      count-sort_texts x (keep_if (λ id. first_indegree nodes id == 0) (ids nodes)),
      occurs-keep_if x (first_indegree nodes) (ids nodes),
    );
    ordered = λ x p h k. absurd (omega arith);
    known = λ x h. absurd (omega arith);
  }
