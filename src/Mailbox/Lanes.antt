-- ===== src/Mailbox/Lanes.antt =====
-- `normalizeLanes`, and the bindings of a kernel's parameters to lanes. A lane's name that is no
-- text, which the source's pattern would first turn into one, is left out.
use cuda_js.Base.{
  ℕ, suc, Bool, false, ◌&&◌, ◌||◌, Option, none, some, List, [], ◌∷◌, leb, ◌==◌, if◌then◌else◌,
  length,
}
use cuda_js.Base.Outcome.{Outcome, returned, ◌>>=◌, ◌>>◌, require, reject, or_throw}
use cuda_js.Js.Chars.{matches, letter, digit}
use cuda_js.Js.{
  Text, text, text_eq, Value, field, exact_fields, array_items, string_of, plain_fields,
}
use cuda_js.Failure.{Failure, failure, validation}

abbrev pub max_lanes : ℕ
max_lanes = 64

pub data Direction : Type 0 where
  host_to_device device_to_host : Direction

pub record Lane : Type 0 where
  pub name : Text
  pub direction : Direction
  pub index : ℕ

-- LANE_NAME
unfoldable pub is_lane_name : Text → Bool
unfolding matches
is_lane_name = matches letter (λ c. letter c || digit c || c == b'_' || c == b'-') 63

-- DIRECTIONS
unfoldable pub direction_of : Text → Option Direction
unfolding text_eq
direction_of t =
    if text_eq t (text "host-to-device")
    then some host_to_device
    else if text_eq t (text "device-to-host")
    then some device_to_host
    else none

unfoldable pub has_text : Text → List Text → Bool
unfolding text_eq
has_text t [] = false
has_text t (u ∷ us) = text_eq u t || has_text t us

unfoldable pub is_exact : Value → List Text → Bool
unfolding plain_fields exact_fields
is_exact v names = elim (plain_fields v) [ none ↦ false | some fs ↦ exact_fields v names ]

unfoldable pub lane_name : Value → Option Text
unfolding string_of is_lane_name
lane_name v = elim (string_of v) [ none ↦ none | some t ↦ if is_lane_name t then some t else none ]

unfoldable pub lane_direction : Value → Option Direction
unfolding string_of direction_of
lane_direction v = elim (string_of v) [ none ↦ none | some t ↦ direction_of t ]

abbrev invalid : Failure
invalid = failure "MEMORY_MAILBOX_LANE_INVALID" validation

unfoldable pub normalize_lane : List Text → ℕ → Value → Outcome Failure Lane
unfolding is_exact field lane_name lane_direction has_text
normalize_lane names index v = do
  require (is_exact v (text "name" ∷ text "direction" ∷ [])) invalid
  name ← or_throw (lane_name (field v (text "name"))) invalid
  direction ← or_throw (lane_direction (field v (text "direction"))) invalid
  reject (has_text name names) invalid
  returned (record { name = name; direction = direction; index = index })

-- The turns of `value.map(…)`, with the names that were seen and the next index.
unfoldable pub normalize_from : List Text → ℕ → List Value → Outcome Failure (List Lane)
unfolding normalize_lane
normalize_from names index [] = returned []
normalize_from names index (v ∷ vs) = do
  lane ← normalize_lane names index v
  rest ← normalize_from (lane.name ∷ names) (suc index) vs
  returned (lane ∷ rest)

-- `normalizeLanes`
unfoldable pub normalize_lanes : Value → Outcome Failure (List Lane)
unfolding array_items normalize_from
normalize_lanes v = do
  vs ← or_throw (array_items v) (failure "MEMORY_MAILBOX_LANES_INVALID" validation)
  require (leb 1 (length vs) && leb (length vs) max_lanes)
      (failure "MEMORY_MAILBOX_LANES_INVALID" validation)
  normalize_from [] 0 vs

-- `record.lanes.find((entry) => entry.name === name)`
unfoldable pub find_lane : List Lane → Text → Option Lane
unfolding text_eq
find_lane [] name = none
find_lane (l ∷ ls) name = if text_eq l.name name then some l else find_lane ls name
