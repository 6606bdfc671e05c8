-- ===== src/Registry/Tokens.antt =====
-- `isResourceToken` and `publicToken`: the shape of a token, whoever hands it in.
use cuda_js.Base.{
  ◌≡◌, ◌≤◌, Bool, true, false, ◌&&◌, ◌||◌, Option, none, some, List, [], ◌∷◌, arith, not, String,
  ◌==◌, length, all_of,
}
use cuda_js.Js.{
  Text, text, text_eq, Value, natural, string, object, bare, entry, field, string_of,
  positive_safe_integer, nonnegative_safe_integer, exact_fields, max_safe,
}
use cuda_js.Js.Chars.{matches, lower, digit, hex}
use cuda_js.Registry.State.{Token}

abbrev token_fields : List Text
token_fields =
    text "schemaVersion"
    ∷ text "runtimeId"
    ∷ text "epoch"
    ∷ text "kind"
    ∷ text "slot"
    ∷ text "generation"
    ∷ text "nonce"
    ∷ text "state"
    ∷ []

-- `/^[a-z][a-z0-9-]{0,31}$/`
unfoldable pub is_kind : Text → Bool
unfolding matches
is_kind = matches lower (λ c. lower c || digit c || c == b'-') 31

-- `/^[a-f0-9]{32}$/`
unfoldable pub is_nonce : Text → Bool
is_nonce t = all_of hex t && length t == 32

infixl 5 ◌>>=◌ ◌>>◌
abbrev ◌>>=◌ : {A B : Type 0} → Option A → (A → Option B) → Option B
none >>= f = none
some a >>= f = f a

abbrev ◌>>◌ : {B : Type 0} → Option (Unit {0}) → Option B → Option B
m >> k = m >>= λ _. k

abbrev guard : Bool → Option (Unit {0})
guard true = some tt
guard false = none

abbrev is_text : Value → String → Bool
unfolding text_eq
is_text (string t) s = text_eq t (text s)
is_text _ _ = false

abbrev is_one : Value → Bool
is_one (natural n) = n == 1
is_one _ = false

abbrev pub is_empty : Text → Bool
is_empty [] = true
is_empty _ = false

-- A token as the registry reads it, if `isResourceToken` holds of the value.
unfoldable pub read_token : Value → Option Token
unfolding field string_of positive_safe_integer nonnegative_safe_integer exact_fields is_text
read_token v = do
  guard (exact_fields v token_fields)
  guard (is_one (field v (text "schemaVersion")))
  runtime_id ← string_of (field v (text "runtimeId"))
  guard (not (is_empty runtime_id))
  epoch ← positive_safe_integer (field v (text "epoch"))
  kind ← string_of (field v (text "kind"))
  guard (is_kind kind)
  slot ← nonnegative_safe_integer (field v (text "slot"))
  generation ← positive_safe_integer (field v (text "generation"))
  nonce ← string_of (field v (text "nonce"))
  guard (is_nonce nonce)
  guard (is_text (field v (text "state")) "live")
  some (record {
    runtime_id = runtime_id;
    epoch = epoch;
    kind = kind;
    slot = slot;
    generation = generation;
    nonce = nonce;
  })

-- `isResourceToken`
pub is_resource_token : Value → Bool
unfolding read_token
is_resource_token v = elim (read_token v) [ none ↦ false | some t ↦ true ]

-- `publicToken`
unfoldable pub token_value : Token → Value
token_value t = object (
    entry (text "schemaVersion") (natural 1) (
      entry (text "runtimeId") (string t.runtime_id) (
        entry (text "epoch") (natural t.epoch) (
          entry (text "kind") (string t.kind) (
            entry (text "slot") (natural t.slot) (
              entry (text "generation") (natural t.generation) (
                entry (text "nonce") (string t.nonce)
                  (entry (text "state") (string (text "live")) bare))))))))

-- What the fields of a token must be.
pub record IsToken (t : Token) : Type 0 where
  pub named : is_empty t.runtime_id ≡ false
  pub epoch_low : 1 ≤ t.epoch
  pub epoch_high : t.epoch ≤ max_safe
  pub kind_lem : is_kind t.kind ≡ true
  pub slot_high : t.slot ≤ max_safe
  pub generation_low : 1 ≤ t.generation
  pub generation_high : t.generation ≤ max_safe
  pub nonce_lem : is_nonce t.nonce ≡ true

-- A token that is handed out is read back as it was.
pub read_token-token_value : (t : Token) → IsToken t → read_token (token_value t) ≡ some t
unfolding read_token token_value
read_token-token_value t h = ground arith

-- A value that passes is a token with every field in its bounds.
pub read_token-IsToken : (v : Value) {t : Token} → read_token v ≡ some t → IsToken t
unfolding read_token
read_token-IsToken v h = ground arith
