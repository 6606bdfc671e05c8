-- ===== src/Js/Chars.antt =====
-- Texts as lists of UTF-16 code units, their equality and order, and the character classes of the
-- regular expressions in the source.
use Prim.Native.Char.{code}
use cuda_js.Base.{
  ℕ, suc, ◌≤◌, ◌≡◌, refl, ◌↔◌, String, Bool, true, false, ◌&&◌, ◌||◌, List, [], ◌∷◌, Option, none,
  some, arith, ltb, leb, ◌==◌, if◌then◌else◌, all_of, any_of, length,
}

abbrev pub Text : Type 0
Text = List ℕ

-- An ASCII literal of the source.
abbrev pub text : String → Text
text String.[] = []
text (String.◌∷◌ c s) = code c ∷ text s

unfoldable pub text_eq : Text → Text → Bool
text_eq [] [] = true
text_eq (x ∷ xs) (y ∷ ys) = x == y && text_eq xs ys
text_eq _ _ = false

pub text_eq_refl : (xs : Text) → text_eq xs xs ≡ true
unfolding text_eq
text_eq_refl [] = refl
text_eq_refl (x ∷ xs) = ground (arith, text_eq_refl xs)

text_eq_sound : (xs ys : Text) → text_eq xs ys ≡ true → xs ≡ ys
unfolding text_eq
text_eq_sound [] [] h = refl
text_eq_sound [] (y ∷ ys) h = cc
text_eq_sound (x ∷ xs) [] h = cc
text_eq_sound (x ∷ xs) (y ∷ ys) h = ground (arith, text_eq_sound xs ys)

pub text_eq_iff : (xs ys : Text) → (text_eq xs ys ≡ true) ↔ (xs ≡ ys)
text_eq_iff xs ys = (text_eq_sound xs ys, λ e. rw e (text_eq_refl ys))

-- The order of `<` on strings, and of `sort()` without a comparator: by code units.
unfoldable pub text_lt : Text → Text → Bool
text_lt [] [] = false
text_lt [] (y ∷ ys) = true
text_lt (x ∷ xs) [] = false
text_lt (x ∷ xs) (y ∷ ys) = ltb x y || x == y && text_lt xs ys

pub text_lt_irrefl : (xs : Text) → text_lt xs xs ≡ false
unfolding text_lt
text_lt_irrefl [] = refl
text_lt_irrefl (x ∷ xs) = ground (arith, text_lt_irrefl xs)

pub text_lt_asymm : (xs ys : Text) → text_lt xs ys ≡ true → text_lt ys xs ≡ false
unfolding text_lt
text_lt_asymm [] [] h = refl
text_lt_asymm [] (y ∷ ys) h = refl
text_lt_asymm (x ∷ xs) [] h = cc
text_lt_asymm (x ∷ xs) (y ∷ ys) h = ground (arith, text_lt_asymm xs ys)

abbrev pub between : ℕ → ℕ → ℕ → Bool
between lo hi c = leb lo c && leb c hi

abbrev pub lower : ℕ → Bool
lower = between b'a' b'z'

abbrev pub upper : ℕ → Bool
upper = between b'A' b'Z'

abbrev pub digit : ℕ → Bool
digit = between b'0' b'9'

abbrev pub hex : ℕ → Bool
hex c = between b'a' b'f' c || digit c

abbrev pub letter : ℕ → Bool
letter c = lower c || upper c

-- `/^[first][rest]{0,most}$/`
unfoldable pub matches : (ℕ → Bool) → (ℕ → Bool) → ℕ → Text → Bool
matches first rest most [] = false
matches first rest most (c ∷ cs) = first c && all_of rest cs && leb (length cs) most

-- What is left of a text behind a prefix.
unfoldable pub strip_prefix : Text → Text → Option Text
strip_prefix [] t = some t
strip_prefix (p ∷ ps) [] = none
strip_prefix (p ∷ ps) (c ∷ cs) = if p == c then strip_prefix ps cs else none

-- A text that matches has at most `most + 1` characters.
pub matches_bounds :
    (first rest : ℕ → Bool) (most : ℕ) (t : Text)
    → matches first rest most t ≡ true
    → length t ≤ suc most
unfolding matches
matches_bounds first rest most [] h = cc
matches_bounds first rest most (c ∷ cs) h = ground arith

-- The names of Object.prototype: `key in record` and `record[key]` find them in every plain object.
abbrev pub inherited_names : List Text
inherited_names =
    text "constructor"
    ∷ text "__proto__"
    ∷ text "hasOwnProperty"
    ∷ text "isPrototypeOf"
    ∷ text "propertyIsEnumerable"
    ∷ text "toLocaleString"
    ∷ text "toString"
    ∷ text "valueOf"
    ∷ text "__defineGetter__"
    ∷ text "__defineSetter__"
    ∷ text "__lookupGetter__"
    ∷ text "__lookupSetter__"
    ∷ []

unfoldable pub is_inherited : Text → Bool
unfolding text_eq
is_inherited t = any_of (text_eq t) inherited_names
