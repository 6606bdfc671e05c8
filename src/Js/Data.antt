-- ===== src/Js/Data.antt =====
-- The values of the language, as far as the validators of the source tell them apart.
use cuda_js.Base.{
  ℕ, ◌-◌, ◌^◌, ◌≤◌, ◌≡◌, Bool, true, false, ◌&&◌, Option, none, some, List, [], ◌∷◌, arith, leb,
  ltb, if◌then◌else◌,
}
use cuda_js.Js.Chars.{Text, text_eq}

-- `negative n` is -(n + 1); `fraction` is a finite number that is no integer, and `not_finite` is NaN
-- or an infinity. `exotic` is an object that is not plain, such as an Error, with its fields. `bytes`
-- is an ordinary Uint8Array, `shared n` a SharedArrayBuffer of n bytes, and `bigint n` a bigint that
-- is not negative.
mutual
  pub data Value : Type 0 where
    undefined null fraction not_finite callable : Value
    boolean : Bool → Value
    natural negative : ℕ → Value
    string : Text → Value
    bytes : List ℕ → Value
    shared bigint : ℕ → Value
    array : Items → Value
    object exotic : Fields → Value

  pub data Items : Type 0 where
    end : Items
    item : Value → Items → Items

  pub data Fields : Type 0 where
    bare : Fields
    entry : Text → Value → Fields → Fields

abbrev pub max_safe : ℕ
max_safe = 2 ^ 53 - 1

unfoldable pub lookup_field : Fields → Text → Value
lookup_field bare k = undefined
lookup_field (entry j v fs) k = if text_eq j k then v else lookup_field fs k

unfoldable pub has_field : Fields → Text → Bool
has_field bare k = false
has_field (entry j v fs) k = if text_eq j k then true else has_field fs k

-- `value?.[name]`; the fields of what is no object are never read by the source.
unfoldable pub field : Value → Text → Value
unfolding lookup_field
field (object fs) k = lookup_field fs k
field (exotic fs) k = lookup_field fs k
field _ k = undefined

-- `value ?? fallback`
unfoldable pub or_else : Value → Value → Value
or_else undefined d = d
or_else null d = d
or_else v d = v

unfoldable pub is_absent : Value → Bool
is_absent undefined = true
is_absent null = true
is_absent _ = false

-- `Number.isSafeInteger(value)`
unfoldable pub is_safe_integer : Value → Bool
is_safe_integer (natural n) = leb n max_safe
is_safe_integer (negative n) = ltb n max_safe
is_safe_integer _ = false

-- `Number.isSafeInteger(value) && value >= 0`
unfoldable pub nonnegative_safe_integer : Value → Option ℕ
nonnegative_safe_integer (natural n) = if leb n max_safe then some n else none
nonnegative_safe_integer _ = none

-- `Number.isSafeInteger(value) && value >= 1`
unfoldable pub positive_safe_integer : Value → Option ℕ
positive_safe_integer (natural n) = if leb 1 n && leb n max_safe then some n else none
positive_safe_integer _ = none

unfoldable pub string_of : Value → Option Text
string_of (string t) = some t
string_of _ = none

unfoldable pub is_callable : Value → Bool
is_callable callable = true
is_callable _ = false

unfoldable pub plain_fields : Value → Option Fields
plain_fields (object fs) = some fs
plain_fields _ = none

unfoldable pub to_list : Items → List Value
to_list end = []
to_list (item v vs) = v ∷ to_list vs

unfoldable pub array_items : Value → Option (List Value)
unfolding to_list
array_items (array vs) = some (to_list vs)
array_items _ = none

pub positive_safe_integer_bounds :
    (v : Value) {n : ℕ} → positive_safe_integer v ≡ some n → (1 ≤ n) × (n ≤ max_safe)
unfolding positive_safe_integer
positive_safe_integer_bounds v h = ground arith

pub nonnegative_safe_integer_bounds :
    (v : Value) {n : ℕ} → nonnegative_safe_integer v ≡ some n → n ≤ max_safe
unfolding nonnegative_safe_integer
nonnegative_safe_integer_bounds v h = ground arith
