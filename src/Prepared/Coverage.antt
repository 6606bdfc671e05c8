-- ===== src/Prepared/Coverage.antt =====
-- The accesses of a prepared kernel name each of its device-memory arguments once, in order.
use cuda_js.Base.{
  ◌&&◌, none, ◌⊎◌, ℕ, ◌≤◌, ◌≡◌, true, false, not, List, [], ◌∷◌, if◌then◌else◌, length, contains,
  some,
}
use cuda_js.Js.{text, max_safe}
use cuda_js.Prepared.Accesses.{Access, is_access_mode, is_atomic}
use cuda_js.Prepared.Sorting.{counts, indexes_of}

-- What an access that is accepted says.
pub record IsAccess (a : Access) : Type 0 where
  pub not_empty : 1 ≤ a.byte_length
  pub within : a.byte_offset ≤ max_safe
  pub known_mode : is_access_mode a.mode ≡ true
  pub typed :
      is_atomic a.mode ≡ true → (a.dtype ≡ some (text "u32")) ⊎ (a.dtype ≡ some (text "u64"))
  pub untyped : is_atomic a.mode ≡ false → a.dtype ≡ none

abbrev IsPlaced : List ℕ → List ℕ → Access → Type 0
IsPlaced indexes seen a =
    IsAccess a
    × ((contains a.argument_index indexes ≡ true) × (contains a.argument_index seen ≡ false))

-- A property of every access.
abbrev pub AllAccess : (Access → Type 0) → List Access → Type 0
AllAccess P [] = Unit
AllAccess P (a ∷ rest) = P a × AllAccess P rest

-- The entries that are accepted, before they are sorted.
abbrev EntriesFit : List ℕ → List ℕ → ℕ → List Access → Type 0
EntriesFit indexes seen n found =
    AllAccess IsAccess found
    × (length (indexes_of found) ≡ n)
    × ((a : ℕ)
        → counts a (indexes_of found)
          ≤ (if contains a indexes && not (contains a seen) then 1 else 0))
