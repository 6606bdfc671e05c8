-- ===== src/Prepared/Walks.antt =====
-- What the loop of `canonicalTopology` keeps: the indegree of a node counts its predecessors that
-- are not submitted, and a node is submitted or ready exactly if none is left.
use cuda_js.Base.{
  ℕ, suc, ◌+◌, ◌≤◌, ◌<◌, ◌≡◌, refl, ap, List, [], ◌∷◌, ◌++◌, length, length-append, ◌==◌,
  if◌then◌else◌, arith,
}
use cuda_js.Base.Counts.{count, count-append}
use cuda_js.Js.{Text, text_eq, text_eq_iff, text_eq_refl}
use cuda_js.Js.Keys.{count-sort_texts}
use cuda_js.Prepared.Topology.{
  Vertex, ids, named_in, successors_of, first_indegree, Walk, release_one, release_all,
}

abbrev pub occurs : Text → List Text → ℕ
occurs = count text_eq

-- The predecessors that the nodes of an id name.
abbrev pub preds : List Vertex → Text → List Text
preds [] x = []
preds (n ∷ ns) x = if text_eq n.id x then n.after ++ preds ns x else preds ns x

-- How many of some texts are not in the order yet.
abbrev pub outstanding : List Text → List Text → ℕ
outstanding order [] = 0
outstanding order (p ∷ ps) =
    if occurs p order == 0 then suc (outstanding order ps) else outstanding order ps

-- The index of a text, or the length of the list.
abbrev pub position : Text → List Text → ℕ
position x [] = 0
position x (y ∷ ys) = if text_eq y x then 0 else suc (position x ys)

abbrev pub Distinct : List Vertex → Type 0
Distinct nodes = (x : Text) → occurs x (ids nodes) ≤ 1

occurs-named_in :
    (x p id : Text) (qs : List Text)
    → occurs x (named_in p id qs) ≡ (if text_eq id x then occurs p qs else 0)
unfolding named_in
occurs-named_in x p id [] = ground arith
occurs-named_in x p id (q ∷ qs) = ground (arith, occurs-named_in x p id qs)

pub occurs-successors_of :
    (nodes : List Vertex) (x p : Text) → occurs x (successors_of nodes p) ≡ occurs p (preds nodes x)
unfolding successors_of
occurs-successors_of [] x p = refl
occurs-successors_of (n ∷ ns) x p = ground (
  arith,
  count-append text_eq x (named_in p n.id n.after) (successors_of ns p),
  count-append text_eq p n.after (preds ns x),
  occurs-named_in x p n.id n.after,
  occurs-successors_of ns x p,
)

preds-unknown : (nodes : List Vertex) (x : Text) → occurs x (ids nodes) ≡ 0 → preds nodes x ≡ []
preds-unknown [] x h = refl
preds-unknown (n ∷ ns) x h = ground (arith, preds-unknown ns x)

pub known_of_preds :
    (nodes : List Vertex) (x p : Text) → 0 < occurs p (preds nodes x) → 0 < occurs x (ids nodes)
known_of_preds [] x p h = absurd (omega arith)
known_of_preds (n ∷ ns) x p h = ground (arith, known_of_preds ns x p)

Distinct-tail : (n : Vertex) (ns : List Vertex) → Distinct (n ∷ ns) → Distinct ns
Distinct-tail n ns d x = ground (arith, d x)

pub first_indegree_lem :
    (nodes : List Vertex) (x : Text)
    → Distinct nodes
    → first_indegree nodes x ≡ length (preds nodes x)
unfolding first_indegree
first_indegree_lem [] x d = refl
first_indegree_lem (n ∷ ns) x d = ground (
  arith,
  d x,
  length-append n.after (preds ns x),
  preds-unknown ns x,
  first_indegree_lem ns x (Distinct-tail n ns d),
)

pub outstanding-nil : (ps : List Text) → outstanding [] ps ≡ length ps
outstanding-nil [] = refl
outstanding-nil (p ∷ ps) = ap suc (outstanding-nil ps)

pub outstanding-append :
    (order : List Text) (id : Text) (ps : List Text)
    → occurs id order ≡ 0
    → outstanding (order ++ id ∷ []) ps + occurs id ps ≡ outstanding order ps
outstanding-append order id [] h = refl
outstanding-append order id (p ∷ ps) h = ground (
  arith,
  text_eq_iff p id,
  text_eq_iff id p,
  count-append text_eq p order (id ∷ []),
  outstanding-append order id ps h,
)

pub outstanding-zero :
    (order ps : List Text) (p : Text)
    → outstanding order ps ≡ 0
    → 0 < occurs p ps
    → 0 < occurs p order
outstanding-zero order [] p h k = absurd (omega arith)
outstanding-zero order (q ∷ ps) p h k = ground (arith, text_eq_iff q p, outstanding-zero order ps p)

pub position-lt-length : (x : Text) (xs : List Text) → 0 < occurs x xs → position x xs < length xs
position-lt-length x [] h = absurd (omega arith)
position-lt-length x (y ∷ ys) h = ground (arith, position-lt-length x ys)

pub position-append :
    (x : Text) (xs ys : List Text) → 0 < occurs x xs → position x (xs ++ ys) ≡ position x xs
position-append x [] ys h = absurd (omega arith)
position-append x (y ∷ xs) ys h = ground (arith, position-append x xs ys)

pub position-append_new :
    (x : Text) (xs : List Text) → occurs x xs ≡ 0 → position x (xs ++ x ∷ []) ≡ length xs
position-append_new x [] h = ground (arith, text_eq_refl x)
position-append_new x (y ∷ xs) h = ground (arith, position-append_new x xs)

module _ (nodes : List Vertex) where
  -- `owed` are the decrements of the current round that are still to come.
  pub record IsWalk (w : Walk) (owed : List Text) : Type 0 where
    pub counted :
        (x : Text) → w.indegree x ≡ outstanding w.submission_order (preds nodes x) + occurs x owed
    pub placed :
        (x : Text)
        → occurs x w.submission_order + occurs x w.ready
          ≡ (if w.indegree x == 0 then occurs x (ids nodes) else 0)
    pub ordered :
        (x p : Text)
        → 0 < occurs x w.submission_order
        → 0 < occurs p (preds nodes x)
        → position p w.submission_order < position x w.submission_order
    pub known : (x : Text) → 0 < occurs x owed → occurs x (ids nodes) ≡ 1

  release_one-IsWalk :
      (w : Walk) (s : Text) (ss : List Text) → IsWalk w (s ∷ ss) → IsWalk (release_one w s) ss
  unfolding release_one
  release_one-IsWalk w s ss i = record {
    counted = λ x. ground (arith, text_eq_iff s x, i.counted x, i.counted s, text_eq_refl s);
    placed = λ x. ground (
      arith,
      text_eq_iff s x,
      text_eq_refl s,
      i.counted s,
      i.counted x,
      i.placed x,
      i.placed s,
      i.known s,
      count-sort_texts x (w.ready ++ s ∷ []),
      count-append text_eq x w.ready (s ∷ []),
    );
    ordered = i.ordered;
    known = λ x h. ground (arith, i.known x);
  }

  pub release_all-IsWalk : (w : Walk) (ss : List Text) → IsWalk w ss → IsWalk (release_all w ss) []
  unfolding release_all
  release_all-IsWalk w [] i = i
  release_all-IsWalk w (s ∷ ss) i =
      release_all-IsWalk (release_one w s) ss (release_one-IsWalk w s ss i)

pub release_all-order :
    (w : Walk) (ss : List Text) → (release_all w ss).submission_order ≡ w.submission_order
unfolding release_all release_one
release_all-order w [] = refl
release_all-order w (s ∷ ss) = release_all-order (release_one w s) ss
