-- ===== src/Driver/Public.antt =====
-- A record is public exactly if it is small, flat and made of plain data.
use cuda_js.Base.{
  ℕ, suc, ◌+◌, ◌≤◌, ◌<◌, ◌≡◌, ◌↔◌, refl, Bool, true, false, ◌&&◌, leb, ltb, length, if◌then◌else◌,
  arith, ap, String, ◌∙◌,
}
use cuda_js.Base.Outcome.{returned, >>=-elim, require-elim}
use cuda_js.Js.{
  Value, undefined, null, fraction, not_finite, callable, boolean, natural, negative, string, bytes,
  shared, bigint, array, object, exotic, Items, end, item, Fields, bare, entry, max_safe,
}
use cuda_js.Driver.Records.{
  Bounds, enter, leaf, visit, visit_items, visit_fields, assert_public_record,
}

abbrev pub larger : ℕ → ℕ → ℕ
larger a b = if ltb a b then b else a

unfoldable mutual
  -- The values within a value, itself among them.
  pub size : Value → ℕ
  size (array vs) = suc (size_items vs)
  size (object fs) = suc (size_fields fs)
  size _ = 1

  pub size_items : Items → ℕ
  size_items end = 0
  size_items (item v vs) = size v + size_items vs

  pub size_fields : Fields → ℕ
  size_fields bare = 0
  size_fields (entry k v fs) = size v + size_fields fs

unfoldable mutual
  -- How many steps down the deepest value within a value lies.
  pub depth : Value → ℕ
  depth (array vs) = depth_items vs
  depth (object fs) = depth_fields fs
  depth _ = 0

  pub depth_items : Items → ℕ
  depth_items end = 0
  depth_items (item v vs) = larger (suc (depth v)) (depth_items vs)

  pub depth_fields : Fields → ℕ
  depth_fields bare = 0
  depth_fields (entry k v fs) = larger (suc (depth v)) (depth_fields fs)

unfoldable mutual
  -- Only null, Booleans, safe integers, short strings, short bytes, arrays and plain objects with
  -- short keys.
  pub is_data : ℕ → Value → Bool
  is_data most null = true
  is_data most (boolean t) = true
  is_data most (natural n) = leb n max_safe
  is_data most (negative n) = ltb n max_safe
  is_data most (string t) = leb (length t) 4096
  is_data most (bytes bs) = leb (length bs) most
  is_data most (array vs) = are_data most vs
  is_data most (object fs) = fields_data most fs
  is_data most _ = false

  pub are_data : ℕ → Items → Bool
  are_data most end = true
  are_data most (item v vs) = is_data most v && are_data most vs

  pub fields_data : ℕ → Fields → Bool
  fields_data most bare = true
  fields_data most (entry k v fs) = leb (length k) 128 && (is_data most v && fields_data most fs)

-- The public values within a count of nodes and a depth.
abbrev Fits : Bounds → ℕ → ℕ → ℕ → ℕ → Bool → Type 0
Fits b d n size depth ok = (n + size ≤ b.max_nodes) × (d + depth ≤ b.max_depth) × (ok ≡ true)

larger_le : (d a b : ℕ) {m : ℕ} → d + larger a b ≤ m → (d + a ≤ m) × (d + b ≤ m)
larger_le d a b h = ground arith

both : (s t : Bool) → (s && t) ≡ true → (s ≡ true) × (t ≡ true)
both true t h = (refl, h)
both false t h = cc

enter-Fits :
    (b : Bounds) (d n : ℕ) → n < b.max_nodes → d ≤ b.max_depth → enter b d n ≡ returned (suc n)
unfolding enter
enter-Fits b d n p q = ground arith

mutual
  unfolding visit enter leaf size depth is_data

  visit-Fits :
      (b : Bounds) (d n : ℕ) (v : Value)
      → Fits b d n (size v) (depth v) (is_data b.max_byte_length v)
      → visit b d n v ≡ returned (n + size v)
  visit-Fits b d n (array vs) h =
      rw (enter-Fits b d n (omega arith) (omega arith))
        (visit_items-Fits b d (suc n) vs (omega arith, h.1, h.2) ∙ ap returned (omega arith))
  visit-Fits b d n (object fs) h =
      rw (enter-Fits b d n (omega arith) (omega arith))
        (visit_fields-Fits b d (suc n) fs (omega arith, h.1, h.2) ∙ ap returned (omega arith))
  visit-Fits b d n v h = ground arith

  visit_items-Fits :
      (b : Bounds) (d n : ℕ) (vs : Items)
      → Fits b d n (size_items vs) (depth_items vs) (are_data b.max_byte_length vs)
      → visit_items b (suc d) n vs ≡ returned (n + size_items vs)
  visit_items-Fits b d n end h = ground arith
  visit_items-Fits b d n (item v vs) h =
      let (deep, deeper) = larger_le d (suc (depth v)) (depth_items vs) h.1 in
      let (ok, oks) = both (is_data b.max_byte_length v) (are_data b.max_byte_length vs) h.2 in
      rw (visit-Fits b (suc d) n v (omega arith, omega arith, ok)) (
        visit_items-Fits b d (n + size v) vs (omega arith, deeper, oks) ∙ ap returned (omega arith))

  visit_fields-Fits :
      (b : Bounds) (d n : ℕ) (fs : Fields)
      → Fits b d n (size_fields fs) (depth_fields fs) (fields_data b.max_byte_length fs)
      → visit_fields b (suc d) n fs ≡ returned (n + size_fields fs)
  visit_fields-Fits b d n bare h = ground arith
  visit_fields-Fits b d n (entry k v fs) h =
      let (deep, deeper) = larger_le d (suc (depth v)) (depth_fields fs) h.1 in
      let (short, rest) =
        both (leb (length k) 128) (is_data b.max_byte_length v && fields_data b.max_byte_length fs)
          h.2 in
      let (ok, oks) = both (is_data b.max_byte_length v) (fields_data b.max_byte_length fs) rest in
      rw (short, visit-Fits b (suc d) n v (omega arith, omega arith, ok))
        (visit_fields-Fits b d (n + size v) fs (omega arith, deeper, oks)
          ∙ ap returned (omega arith))

-- What a visit that returns says.
abbrev Visited : Bounds → ℕ → ℕ → ℕ → ℕ → Bool → ℕ → Type 0
Visited b d n size depth ok m = Fits b d n size depth ok × (m ≡ n + size)

enter-returned :
    (b : Bounds) (d n : ℕ) {m : ℕ}
    → enter b d n ≡ returned m
    → (m ≡ suc n) × (suc n ≤ b.max_nodes) × (d ≤ b.max_depth)
unfolding enter
enter-returned b d n h = ground arith

leaf-returned :
    (b : Bounds) (d n : ℕ) (ok : Bool) (code : String) {m : ℕ}
    → leaf b d n ok code ≡ returned m
    → Visited b d n 1 0 ok m
unfolding leaf enter
leaf-returned b d n ok code h = ground arith

mutual
  unfolding visit size depth is_data

  visit-returned :
      (b : Bounds) (d n : ℕ) (v : Value) {m : ℕ}
      → visit b d n v ≡ returned m
      → Visited b d n (size v) (depth v) (is_data b.max_byte_length v) m
  visit-returned b d n (array vs) h = >>=-elim (enter b d n) h λ k e h1.
      let (next, room, shallow) = enter-returned b d n e in
      let (within, total) = visit_items-returned b d k vs (omega arith) shallow h1 in
      ((omega arith, within.1, within.2), omega arith)
  visit-returned b d n (object fs) h = >>=-elim (enter b d n) h λ k e h1.
      let (next, room, shallow) = enter-returned b d n e in
      let (within, total) = visit_fields-returned b d k fs (omega arith) shallow h1 in
      ((omega arith, within.1, within.2), omega arith)
  visit-returned b d n null h =
      let (next, room, shallow) = enter-returned b d n h in
      ((omega arith, omega arith, refl), omega arith)
  visit-returned b d n (boolean t) h =
      let (next, room, shallow) = enter-returned b d n h in
      ((omega arith, omega arith, refl), omega arith)
  visit-returned b d n (natural k) h = leaf-returned b d n (leb k max_safe) "DRIVER_RESULT_NUMBER" h
  visit-returned b d n (negative k) h =
      leaf-returned b d n (ltb k max_safe) "DRIVER_RESULT_NUMBER" h
  visit-returned b d n fraction h = leaf-returned b d n false "DRIVER_RESULT_NUMBER" h
  visit-returned b d n not_finite h = leaf-returned b d n false "DRIVER_RESULT_NUMBER" h
  visit-returned b d n (string t) h =
      leaf-returned b d n (leb (length t) 4096) "DRIVER_RESULT_STRING" h
  visit-returned b d n undefined h = leaf-returned b d n false "DRIVER_RESULT_NATIVE_VALUE" h
  visit-returned b d n callable h = leaf-returned b d n false "DRIVER_RESULT_NATIVE_VALUE" h
  visit-returned b d n (bigint k) h = leaf-returned b d n false "DRIVER_RESULT_NATIVE_VALUE" h
  visit-returned b d n (bytes bs) h =
      leaf-returned b d n (leb (length bs) b.max_byte_length) "DRIVER_RESULT_BOUNDS" h
  visit-returned b d n (shared k) h = leaf-returned b d n false "DRIVER_RESULT_NATIVE_VALUE" h
  visit-returned b d n (exotic fs) h = leaf-returned b d n false "DRIVER_RESULT_OBJECT" h

  visit_items-returned :
      (b : Bounds) (d n : ℕ) (vs : Items) {m : ℕ}
      → n ≤ b.max_nodes
      → d ≤ b.max_depth
      → visit_items b (suc d) n vs ≡ returned m
      → Visited b d n (size_items vs) (depth_items vs) (are_data b.max_byte_length vs) m
  visit_items-returned b d n end p q h = ground arith
  visit_items-returned b d n (item v vs) p q h = >>=-elim (visit b (suc d) n v) h λ k e h1.
      let (here_fits, here_total) = visit-returned b (suc d) n v e in
      let (later_fits, later_total) = visit_items-returned b d k vs (omega arith) q h1 in
      (
        (
          omega arith,
          ground (arith, here_fits.1, later_fits.1),
          ground (arith, here_fits.2, later_fits.2),
        ),
        omega arith,
      )

  visit_fields-returned :
      (b : Bounds) (d n : ℕ) (fs : Fields) {m : ℕ}
      → n ≤ b.max_nodes
      → d ≤ b.max_depth
      → visit_fields b (suc d) n fs ≡ returned m
      → Visited b d n (size_fields fs) (depth_fields fs) (fields_data b.max_byte_length fs) m
  visit_fields-returned b d n bare p q h = ground arith
  visit_fields-returned b d n (entry key v fs) p q h =
      require-elim (leb (length key) 128) _ h λ short h0.
        >>=-elim (visit b (suc d) n v) h0 λ k e h1.
          let (here_fits, here_total) = visit-returned b (suc d) n v e in
          let (later_fits, later_total) = visit_fields-returned b d k fs (omega arith) q h1 in
          (
            (
              omega arith,
              ground (arith, here_fits.1, later_fits.1),
              ground (arith, short, here_fits.2, later_fits.2),
            ),
            omega arith,
          )

-- A record is public exactly if it is small, flat and made of plain data.
pub assert_public_record_iff :
    (b : Bounds) (v : Value)
    → (assert_public_record b v ≡ returned v)
      ↔ ((size v ≤ b.max_nodes) × (depth v ≤ b.max_depth) × (is_data b.max_byte_length v ≡ true))
unfolding assert_public_record
assert_public_record_iff b v = (
  λ h. >>=-elim (visit b 0 0 v) h λ n e h1.
      let (within, total) = visit-returned b 0 0 v e in (omega arith, omega arith, within.2),
  λ h. ground (arith, visit-Fits b 0 0 v (omega arith, omega arith, h.2)),
)
