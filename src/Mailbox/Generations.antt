-- ===== src/Mailbox/Generations.antt =====
-- What a mailbox promises to the launches that lease it, and to those who reset it.
use cuda_js.Base.{
  ℕ, ◌+◌, ◌*◌, ◌≤◌, ◌<◌, ◌≡◌, ◌≢◌, refl, sym, ap, ◌∙◌, subst, true, false, some, List, [], ◌==◌,
  arith, get_elem?, length, map, inl, inr, Option-cases, get_elem?-lt, get_elem?-map, length-map,
}
use cuda_js.Base.Outcome.{returned, thrown, Outcome-cases}
use cuda_js.Js.{Value, array_items, max_safe}
use cuda_js.Failure.{Failure, failure, stale_resource, backpressure}
use cuda_js.Mailbox.Lanes.{Lane, normalize_lanes, normalize_from}
use cuda_js.Mailbox.Record.{
  Mailbox, assert_generation, current, reset, pointers, acquire_for_execution, release_lease,
  begin_release,
}
use cuda_js.Mailbox.Pointers.{IsIndexed, pointers-PointsTo, pointers_apart, normalize_from-index}

normalize_lanes-IsIndexed :
    (v : Value) {ls : List Lane} → normalize_lanes v ≡ returned ls → IsIndexed ls
unfolding normalize_lanes
normalize_lanes-IsIndexed v {ls} h i l at = elim (Option-cases (array_items v)) [
  | inl bad ↦ absurd (ground arith)
  | inr (vs, items) ↦
      let mapped : normalize_from [] 0 vs ≡ returned ls = ground arith in
      omega (arith, normalize_from-index [] 0 vs i l mapped at)
]

acquire_inv :
    (m : Mailbox) (generation bindings : Value) {m' : Mailbox} {ps : List ℕ}
    → acquire_for_execution m generation bindings ≡ returned (m', ps)
    → (vs : List Value) × (pointers m [] vs ≡ returned ps)
      × (m' ≡ record m { active_lease = true })
      × (m.active_lease ≡ false)
      × (assert_generation generation ≡ returned m.generation)
unfolding acquire_for_execution current
acquire_inv m generation bindings {m'} {ps} h =
    elim (Outcome-cases (assert_generation generation)) [
      | inr (f, bad) ↦ absurd (ground arith)
      | inl (g, good) ↦ elim (Option-cases (array_items bindings)) [
        | inl bad ↦ absurd (ground arith)
        | inr (vs, items) ↦ elim (Outcome-cases (pointers m [] vs)) [
          | inr (f, bad) ↦ absurd (ground arith)
          | inl (qs, made) ↦
              let e : qs ≡ ps = ground arith in
              let same : g ≡ m.generation = ground arith in
              (vs, made ∙ ap returned e, ground arith, ground arith, good ∙ ap returned same)
        ]
      ]
    ]

-- A launch leases a mailbox, made of accepted lanes, only for its current generation and only if
-- nobody else does; each pointer that it is given is that of a lane, and no two of its pointers
-- are the same.
pub acquire_for_execution_lem :
    (m : Mailbox) (v generation bindings : Value) {m' : Mailbox} {ps : List ℕ}
    → normalize_lanes v ≡ returned m.lanes
    → acquire_for_execution m generation bindings ≡ returned (m', ps)
    → (m.active_lease ≡ false)
      × (assert_generation generation ≡ returned m.generation)
      × ((i p : ℕ)
          → get_elem? ps i ≡ some p
          → (k : ℕ) × (k < length m.lanes) × (p ≡ m.device_native + k * 4))
      × ((i j p q : ℕ) → i < j → get_elem? ps i ≡ some p → get_elem? ps j ≡ some q → p ≢ q)
acquire_for_execution_lem m v generation bindings lanes h =
    let (vs, made, after, free, fresh) = acquire_inv m generation bindings h in
    let indexed = normalize_lanes-IsIndexed v lanes in
    (
      free,
      fresh,
      λ i p at.
          let (name, to, unseen) = pointers-PointsTo m [] vs i made at in
          let own = indexed to.position to.lane to.found in
          (
            to.position,
            get_elem?-lt m.lanes to.position to.found,
            to.address ∙ ap (λ n. m.device_native + n * 4) own,
          ),
      λ i j p q lt hi hj. pointers_apart m [] vs i j indexed made lt hi hj,
    )

reset_inv :
    (m : Mailbox) (generation : Value) {m' : Mailbox}
    → reset m generation ≡ returned m'
    → (assert_generation generation ≡ returned m.generation)
      × (m' ≡ record m { view = map (λ _. 0) m.view; generation = m.generation + 1 })
      × (m.active_lease ≡ false)
      × (m.generation < max_safe)
unfolding reset current
reset_inv m generation {m'} h = elim (Outcome-cases (assert_generation generation)) [
  | inr (f, bad) ↦ absurd (ground arith)
  | inl (g, good) ↦
      let same : g ≡ m.generation = ground arith in
      (good ∙ ap returned same, ground arith, ground arith, ground arith)
]

-- While a launch holds its lease, every other launch, every reset and the closing of the mailbox
-- throw; releasing the lease gives the mailbox back exactly as it was.
pub release_lease-acquire :
    (m : Mailbox) (generation bindings : Value) {m' : Mailbox} {ps : List ℕ}
    → acquire_for_execution m generation bindings ≡ returned (m', ps)
    → (release_lease m' false ≡ returned m)
      × (begin_release m' ≡ thrown (failure "MEMORY_MAILBOX_BUSY" backpressure))
      × ((g bs : Value) → (f : Failure) × (acquire_for_execution m' g bs ≡ thrown f))
      × ((g : Value) → (f : Failure) × (reset m' g ≡ thrown f))
unfolding release_lease begin_release
release_lease-acquire m generation bindings {m'} h =
    let (vs, made, after, free, fresh) = acquire_inv m generation bindings h in
    let held : m'.active_lease ≡ true = ap (λ (m : Mailbox). m.active_lease) after in
    (
      rw after (ap (λ b. returned (record m { active_lease = b })) (sym free)),
      rw after refl,
      λ g bs. elim (Outcome-cases (acquire_for_execution m' g bs)) [
        | inr (f, refused) ↦ (f, refused)
        | inl ((n, qs), gone) ↦
            let (ws, made', after', free', fresh') = acquire_inv m' g bs gone in
            absurd (ground arith)
      ],
      λ g. elim (Outcome-cases (reset m' g)) [
        | inr (f, refused) ↦ (f, refused)
        | inl (n, gone) ↦
            let (asked, same, idle, room) = reset_inv m' g gone in absurd (ground arith)
      ],
    )

-- A reset zeroes every word, keeps the lanes, and moves to the next generation, which is a safe
-- integer again; the old generation is stale from then on, for a reset and for a launch.
pub reset_lem :
    (m : Mailbox) (generation : Value) {m' : Mailbox}
    → reset m generation ≡ returned m'
    → (m'.generation ≡ m.generation + 1)
      × (m'.generation ≤ max_safe)
      × (m'.lanes ≡ m.lanes)
      × (length m'.view ≡ length m.view)
      × ((i w : ℕ) → get_elem? m'.view i ≡ some w → w ≡ 0)
      × (reset m' generation ≡ thrown (failure "MEMORY_MAILBOX_GENERATION_STALE" stale_resource))
      × ((bs : Value) → (f : Failure) × (acquire_for_execution m' generation bs ≡ thrown f))
unfolding reset current
reset_lem m generation {m'} h =
    let (asked, after, idle, room) = reset_inv m generation h in
    let grown : m'.generation ≡ m.generation + 1 = ap (λ (m : Mailbox). m.generation) after in
    let words : m'.view ≡ map (λ _. 0) m.view = ap (λ (m : Mailbox). m.view) after in
    let stale : (m'.generation == m.generation) ≡ false = ground arith in
    (
      grown,
      omega (arith, grown, room),
      ap (λ (m : Mailbox). m.lanes) after,
      ap length words ∙ length-map m.view (λ _. 0),
      λ i w at.
          let (x, hx, zero_word) =
            get_elem?-map m.view (λ _. 0) i (subst (λ ws. get_elem? ws i ≡ some w) words at) in
          zero_word,
      rw (asked, reset) (rw stale refl),
      λ bs. elim (Outcome-cases (acquire_for_execution m' generation bs)) [
        | inr (f, refused) ↦ (f, refused)
        | inl ((n, qs), gone) ↦
            let (ws, made, after', free, fresh) = acquire_inv m' generation bs gone in
            absurd (ground (arith, asked, fresh))
      ],
    )
