-- ===== src/Driver/ViewFields.antt =====
-- The fields of a view's options: what passes `validateRequest` is a value for the view manager.
use cuda_js.Base.{
  ℕ, ◌≡◌, inl, inr, refl, ◌∙◌, Bool, true, false, not, ◌&&◌, ◌||◌, some, List, [], ◌∷◌, Bool-cases,
  Option-cases, arith,
}
use cuda_js.Js.{
  Text, text, text_eq, text_eq_iff, Value, undefined, null, Fields, bare, entry, lookup_field,
  has_field, or_else, string, nonnegative_safe_integer,
}
use cuda_js.Mailbox.Lanes.{has_text}
use cuda_js.Views.Options.{Access, width_of, role_of, access_of, only_create_fields}
use cuda_js.Driver.Shapes.{is_nonnegative, only_fields, is_one_of}
use cuda_js.Driver.Payloads.{has_width}
use cuda_js.Driver.Accepted.{left, right}

abbrev pub view_fields : List Text
view_fields = text "dtype" ∷ text "byteOffset" ∷ text "elementCount" ∷ text "access" ∷ []

abbrev pub roles : List Text
roles = text "read" ∷ text "write" ∷ text "read-write" ∷ []

text_eq_comm : (s t : Text) → text_eq s t ≡ text_eq t s
text_eq_comm s t = ground (arith, text_eq_iff s t, text_eq_iff t s)

without_false :
    (a b c d : Bool) → (a || (b || (c || (d || false)))) ≡ true → (a || (b || (c || d))) ≡ true
without_false a b c d h = ground arith

and_both : (s t : Bool) → s ≡ true → t ≡ true → (s && t) ≡ true
and_both s t p q = ground arith

abbrev is_create_field : Text → Bool
is_create_field k =
    text_eq k (text "dtype")
    || (text_eq k (text "byteOffset")
        || (text_eq k (text "elementCount") || text_eq k (text "access")))

known_field : (k : Text) → has_text k view_fields ≡ true → is_create_field k ≡ true
unfolding has_text
known_field k h =
    rw
      (
        text_eq_comm k (text "dtype"),
        text_eq_comm k (text "byteOffset"),
        text_eq_comm k (text "elementCount"),
        text_eq_comm k (text "access"),
      )
      (without_false (text_eq (text "dtype") k) (text_eq (text "byteOffset") k)
        (text_eq (text "elementCount") k) (text_eq (text "access") k) h)

pub only_fields-only_create_fields :
    (fs : Fields) → only_fields view_fields fs ≡ true → only_create_fields fs ≡ true
unfolding only_fields only_create_fields
only_fields-only_create_fields bare h = refl
only_fields-only_create_fields (entry k v fs) h =
    and_both (is_create_field k) (only_create_fields fs)
      (known_field k (left (has_text k view_fields) _ h))
      (only_fields-only_create_fields fs (right (has_text k view_fields) h))

lookup_field-missing :
    (fs : Fields) (k : Text) → has_field fs k ≡ false → lookup_field fs k ≡ undefined
unfolding has_field lookup_field
lookup_field-missing bare k h = refl
lookup_field-missing (entry j v fs) k h = ground (arith, lookup_field-missing fs k)

-- `value ?? fallback` under a test that null and undefined fail.
or_else-present :
    (test : Value → Bool) (v d : Value)
    → test undefined ≡ false
    → test null ≡ false
    → test v ≡ true
    → or_else v d ≡ v
unfolding or_else
or_else-present test undefined d u n h = cc
or_else-present test null d u n h = cc
or_else-present test v d u n h = refl

-- An optional field that passes its test if it is there.
pub optional_field :
    (test : Value → Bool) (fs : Fields) (k : Text) (d : Value)
    → test undefined ≡ false
    → test null ≡ false
    → test d ≡ true
    → (not (has_field fs k) || test (lookup_field fs k)) ≡ true
    → test (or_else (lookup_field fs k) d) ≡ true
unfolding or_else
optional_field test fs k d u n ok h = elim (Bool-cases (has_field fs k)) [
  | inl there ↦
      let passes : test (lookup_field fs k) ≡ true = ground arith in
      rw (or_else-present test (lookup_field fs k) d u n passes) passes
  | inr missing ↦ rw (lookup_field-missing fs k missing, or_else) ok
]

pub nonnegative_of :
    (v : Value) → is_nonnegative v ≡ true → (n : ℕ) × (nonnegative_safe_integer v ≡ some n)
unfolding is_nonnegative
nonnegative_of v h = elim (Option-cases (nonnegative_safe_integer v)) [
  | inl missing ↦ absurd (ground arith)
  | inr found ↦ found
]

pub width_known : (v : Value) → has_width v ≡ true → (w : ℕ) × (width_of v ≡ some w)
unfolding has_width
width_known v h = elim (Option-cases (width_of v)) [
  | inl missing ↦ absurd (ground arith)
  | inr found ↦ found
]

third_of : (a b c : Bool) → a ≡ false → b ≡ false → (a || (b || (c || false))) ≡ true → c ≡ true
third_of a b c p q h = ground arith

third :
    (t : Text)
    → text_eq t (text "read") ≡ false
    → text_eq t (text "write") ≡ false
    → has_text t roles ≡ true
    → text_eq t (text "read-write") ≡ true
unfolding has_text
third t p q h =
    text_eq_comm t (text "read-write")
    ∙ third_of (text_eq (text "read") t) (text_eq (text "write") t) (text_eq (text "read-write") t)
        (text_eq_comm (text "read") t ∙ p) (text_eq_comm (text "write") t ∙ q) h

pub role_known : (v : Value) → is_one_of v roles ≡ true → (a : Access) × (role_of v ≡ some a)
unfolding role_of access_of is_one_of has_text
role_known (string t) h = elim (Bool-cases (text_eq t (text "read"))) [
  | inl same ↦ (Access.reads, rw same)
  | inr other ↦ elim (Bool-cases (text_eq t (text "write"))) [
    | inl same ↦ (Access.writes, rw (other, same))
    | inr other' ↦ (Access.reads_writes, rw (other, other', third t other other' h))
  ]
]
role_known undefined h = cc
role_known v h = cc
