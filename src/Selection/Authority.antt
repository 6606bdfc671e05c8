-- ===== src/Selection/Authority.antt =====
-- DeviceSelectionAuthority: `discover` around its await, and the selectors of a snapshot.
use cuda_js.Base.{ℕ, ◌+◌, Bool, true, false, not, Option, none, some, List, [], ◌∷◌, ◌==◌, map}
use cuda_js.Base.Outcome.{Outcome, returned, thrown, ◌>>=◌, ◌>>◌, require, reject, or_throw}
use cuda_js.Js.{Value}
use cuda_js.Failure.{Failure, failure, validation, stale_resource, unsupported, provider}
use cuda_js.Selection.Inventory.{Device, normalize_inventory}

-- What `selectorData` holds for a selector: the authority by its number, the generation of the
-- discovery that made it, and the device.
pub record Selector : Type 0 where
  pub authority : ℕ
  pub generation : ℕ
  pub device : Device

-- A value that is given as a selector: no CudaDeviceSelector, one that no authority has made, or
-- one that an authority has made.
pub data Given : Type 0 where
  malformed unregistered : Given
  made : Selector → Given

-- A snapshot is the list of its selectors.
pub record Authority : Type 0 where
  pub number : ℕ
  pub generation : ℕ
  pub snapshot : Option (List Selector)

abbrev pub new_authority : ℕ → Authority
new_authority number = record { number = number; generation = 0; snapshot = none }

-- `discover` up to its await: the generation that it remembers is the new one.
unfoldable pub begin_discover : Authority → Authority
begin_discover a = record a { generation = a.generation + 1; snapshot = none }

abbrev pub selectors : ℕ → ℕ → List Device → List Selector
selectors number generation ds =
    map (λ d. record { authority = number; generation = generation; device = d }) ds

-- What the provider answered: an inventory, or an error, which may be of the source's own class.
pub data Answer : Type 0 where
  listed : Value → Answer
  own_error : Failure → Answer
  other_error : Answer

unfoldable pub answered : Answer → Outcome Failure (List Device)
unfolding normalize_inventory
answered (listed v) = normalize_inventory v
answered (own_error f) = thrown f
answered other_error = thrown (failure "DEVICE_DISCOVERY_FAILED" provider)

-- `discover` behind its await, for the generation that it remembers.
unfoldable pub finish_discover :
    Authority → ℕ → Answer → Authority × Outcome Failure (List Selector)
unfolding answered
finish_discover a generation answer = elim (answered answer) [
  | thrown f ↦ (a, thrown f)
  | returned ds ↦ (
    record a { snapshot = some (selectors a.number generation ds) },
    returned (selectors a.number generation ds),
  )
]

abbrev is_none {ℓ} : {A : Type ℓ} → Option A → Bool
is_none none = true
is_none (some a) = false

-- `#resolve`
unfoldable pub resolve_selector : Authority → Given → Outcome Failure Device
resolve_selector a malformed = thrown (failure "DEVICE_SELECTOR_INVALID" validation)
resolve_selector a unregistered = thrown (failure "DEVICE_SELECTOR_FOREIGN" validation)
resolve_selector a (made s) = do
  require (s.authority == a.number) (failure "DEVICE_SELECTOR_FOREIGN" validation)
  reject (not (s.generation == a.generation)) (failure "DEVICE_SELECTOR_STALE" stale_resource)
  reject (is_none a.snapshot) (failure "DEVICE_SELECTOR_STALE" stale_resource)
  returned s.device

-- `currentSnapshot`
unfoldable pub current_snapshot : Authority → Outcome Failure (List Selector)
current_snapshot a = or_throw a.snapshot (failure "DEVICE_SNAPSHOT_UNAVAILABLE" validation)

abbrev first : List Selector → Outcome Failure Selector
first [] = thrown (failure "DEVICE_NOT_AVAILABLE" unsupported)
first (s ∷ ss) = returned s

-- `selectDefault`
unfoldable pub select_default : Authority → Outcome Failure Device
unfolding current_snapshot resolve_selector
select_default a = do ss ← current_snapshot a; s ← first ss; resolve_selector a (made s)
