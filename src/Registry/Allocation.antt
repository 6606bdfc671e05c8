-- ===== src/Registry/Allocation.antt =====
-- `allocate`: a slot, a generation, a nonce, and a place among the parent's children.
use cuda_js.Base.{ℕ, ◌+◌, Option, none, some, List, [], ◌∷◌, if◌then◌else◌, get_elem?, put, length}
use cuda_js.Base.Outcome.{Outcome, returned, thrown, ◌>>=◌, ◌>>◌, require, reject, or_throw}
use cuda_js.Js.{Text, Value, string_of, is_callable, is_absent}
use cuda_js.Failure.{Failure, failure, stale_resource}
use cuda_js.Registry.Forest.{add_slot}
use cuda_js.Registry.Prune.{at_parent}
use cuda_js.Registry.State.{live, Entry, Registry, Token, token_of}
use cuda_js.Registry.Tokens.{is_kind, is_nonce}
use cuda_js.Registry.Access.{resolve}

-- The arguments of `allocate`, and what the nonce source returns if it is asked.
pub record Request {ℓ} (V : Type ℓ) : Type ℓ where
  pub kind : Value
  pub value : V
  pub parent : Value
  pub dispose : Value
  pub nonce : Value

abbrev pub kind_of : Value → Option Text
unfolding string_of
kind_of v = elim (string_of v) [ none ↦ none | some k ↦ if is_kind k then some k else none ]

abbrev pub nonce_of : Value → Option Text
unfolding string_of
nonce_of v = elim (string_of v) [ none ↦ none | some n ↦ if is_nonce n then some n else none ]

-- The first free slot, or the one past the end; and the free list without it.
abbrev pub pick_slot : List ℕ → ℕ → ℕ × List ℕ
pick_slot [] count = (count, [])
pick_slot (s ∷ rest) count = (s, rest)

module _ {ℓ} {V : Type ℓ} where
  -- No parent, or one that is left out, is none.
  unfoldable pub parent_entry : Registry V → Value → Outcome Failure (Option (Entry V))
  unfolding resolve
  parent_entry r v =
      if is_absent v then returned none else (resolve r v none >>= λ e. returned (some e))

  abbrev pub slot_of : Option (Entry V) → Option ℕ
  slot_of none = none
  slot_of (some e) = some e.slot

  -- Everything that is tested before a slot is taken.
  unfoldable pub admit : Registry V → Request V → Outcome Failure (Text × Option ℕ)
  unfolding kind_of is_callable
  admit r q = do
    reject r.dead (failure "RESOURCE_DEAD_EPOCH" stale_resource)
    kind ← or_throw (kind_of q.kind) (failure "RESOURCE_KIND_INVALID" stale_resource)
    require (is_callable q.dispose) (failure "RESOURCE_DISPOSER_INVALID" stale_resource)
    parent ← parent_entry r q.parent
    returned (kind, slot_of parent)

  abbrev pub next_generation : Option (Entry V) → ℕ
  next_generation none = 1
  next_generation (some e) = e.generation + 1

  abbrev pub new_entry : ℕ → ℕ → Text → Text → Option ℕ → V → Entry V
  new_entry slot generation nonce kind parent value = record {
    slot = slot;
    generation = generation;
    nonce = nonce;
    kind = kind;
    state = live;
    parent_slot = parent;
    children = [];
    leases = 0;
    value = some value;
    disposal_failure = none;
    orphan_disposition = none;
    orphan_reason = none;
  }

  abbrev pub adopt : ℕ → Entry V → Entry V
  adopt s e = record e { children = add_slot s e.children }

  -- The slot is taken off the free list before the nonce is asked for, and stays off where the
  -- nonce is refused.
  unfoldable pub place :
      Registry V → Request V → Text → Option ℕ → Registry V × Outcome Failure Token
  unfolding nonce_of
  place r q kind parent =
      let (slot, rest) = pick_slot r.free_slots (length r.entries) in
      let taken = record r { free_slots = rest } in
      elim (nonce_of q.nonce) [
        | none ↦ (taken, thrown (failure "RESOURCE_NONCE_INVALID" stale_resource))
        | some nonce ↦
            let e =
              new_entry slot (next_generation (get_elem? r.entries slot)) nonce kind parent
                q.value in
            (
              record taken { entries = at_parent (put r.entries slot e) parent (adopt slot) },
              returned (token_of r e),
            )
      ]

  unfoldable pub allocate : Registry V → Request V → Registry V × Outcome Failure Token
  unfolding admit place
  allocate r q = elim (admit r q) [
    | thrown e ↦ (r, thrown e)
    | returned (kind, parent) ↦ place r q kind parent
  ]
