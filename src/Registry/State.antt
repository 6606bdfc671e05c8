-- ===== src/Registry/State.antt =====
-- The private fields of ResourceRegistry, its entries and its tokens.
use cuda_js.Base.{ℕ, Bool, true, false, not, Option, List, [], map}
use cuda_js.Js.{Text}
use cuda_js.Failure.{Failure}
use cuda_js.Registry.Forest.{Shape}

pub data State : Type 0 where
  live closing closed orphaned : State

-- `orphanDisposition` and `orphanReason`.
pub data Disposition : Type 0 where
  orphaned_disposition unproved : Disposition

pub data Reason : Type 0 where
  disposal_failed owner_lost unsafe_after_disposal_failure dependent_resource_unproved : Reason

-- The disposer itself is not a field: what it did comes in when the close is settled.
pub record Entry {ℓ} (V : Type ℓ) : Type ℓ where
  pub slot : ℕ
  pub generation : ℕ
  pub nonce : Text
  pub kind : Text
  pub state : State
  pub parent_slot : Option ℕ
  pub children : List ℕ
  pub leases : ℕ
  pub value : Option V
  pub disposal_failure : Option Failure
  pub orphan_disposition : Option Disposition
  pub orphan_reason : Option Reason

pub record Registry {ℓ} (V : Type ℓ) : Type ℓ where
  pub runtime_id : Text
  pub epoch : ℕ
  pub entries : List (Entry V)
  pub free_slots : List ℕ
  pub dead : Bool

pub record Token : Type 0 where
  pub runtime_id : Text
  pub epoch : ℕ
  pub kind : Text
  pub slot : ℕ
  pub generation : ℕ
  pub nonce : Text

abbrev pub is_closed : State → Bool
is_closed closed = true
is_closed _ = false

abbrev pub is_live : State → Bool
is_live live = true
is_live _ = false

abbrev pub is_orphaned : State → Bool
is_orphaned orphaned = true
is_orphaned _ = false

abbrev pub empty {ℓ} : {V : Type ℓ} → Text → ℕ → Registry V
empty runtime_id epoch = record {
  runtime_id = runtime_id;
  epoch = epoch;
  entries = [];
  free_slots = [];
  dead = false;
}

module _ {ℓ} {V : Type ℓ} where
  -- `publicToken`, before it is an object
  abbrev pub token_of : Registry V → Entry V → Token
  token_of r e = record {
    runtime_id = r.runtime_id;
    epoch = r.epoch;
    kind = e.kind;
    slot = e.slot;
    generation = e.generation;
    nonce = e.nonce;
  }

  abbrev pub shape_of : Entry V → Shape
  shape_of e = record {
    parent = e.parent_slot;
    children = e.children;
    alive = not (is_closed e.state);
  }

  abbrev pub shapes : Registry V → List Shape
  shapes r = map shape_of r.entries
