-- ===== src/Registry/Picking.antt =====
-- The slot that `allocate` picks, and the parent that it has resolved.
use cuda_js.Base.{
  ℕ, ◌≤◌, ◌≡◌, ◌≢◌, inl, inr, true, false, Option, none, some, List, [], ◌∷◌, arith, get_elem?,
  subst, Bool-cases, length, contains, get_elem?-lt,
}
use cuda_js.Base.Outcome.{returned, >>=-eq-returned, Outcome-cases}
use cuda_js.Js.{Text, Value, is_absent}
use cuda_js.Registry.Forest.{Shape, IsDistinct}
use cuda_js.Registry.Prune.{IsForest}
use cuda_js.Registry.State.{live, Entry, Registry, Token, token_of}
use cuda_js.Registry.Access.{resolve}
use cuda_js.Registry.Locating.{resolve_inv}
use cuda_js.Registry.Allocation.{Request, admit, pick_slot, parent_entry, slot_of}
use cuda_js.Registry.Steps.{World}
use cuda_js.Registry.Invariant.{IsSound}

-- The slot that `allocate` picks: its entry is closed, or it is the one past the end.
pub record Picked (count : ℕ) (xs : List Shape) (free : List ℕ) (s : ℕ) (rest : List ℕ)
    : Type 0 where
  pub room : s ≤ length xs
  pub unused : (x : Shape) → get_elem? xs s ≡ some x → x.alive ≡ false
  pub kept : (n : ℕ) → contains n rest ≡ true → (contains n free ≡ true) × (n ≢ s)
  pub distinct : IsDistinct rest

pub pick_slot-Picked :
    (xs : List Shape) (free : List ℕ)
    → IsForest xs free
    → Picked (length xs) xs free (pick_slot free (length xs)).0 (pick_slot free (length xs)).1
pick_slot-Picked xs [] v = record {
  room = omega arith;
  unused = λ x h. absurd (omega (arith, get_elem?-lt xs (length xs) h));
  kept = λ n h. cc;
  distinct = tt;
}
pick_slot-Picked xs (s ∷ rest) v =
    let (y, hy, closed) = v.reusable s (ground arith) in
    record {
      room = omega (arith, get_elem?-lt xs s hy);
      unused = λ x h. ground arith;
      kept = λ n h. (ground arith, λ e. absurd (ground (arith, v.distinct)));
      distinct = v.distinct.1;
    }

-- What an allocation that returns has put in the token's slot.
pub record Issued {ℓ} {V : Type ℓ} (r : Registry V) (t : Token) (value : V) : Type ℓ where
  pub holder : Entry V
  pub found : get_elem? r.entries t.slot ≡ some holder
  pub token : t ≡ token_of r holder
  pub alive : holder.state ≡ live
  pub content : holder.value ≡ some value

module _ {ℓ} {V : Type ℓ} (w : World V) (v : IsSound w) where
  abbrev pub IsOwner : Option ℕ → Type ℓ
  IsOwner p =
      (q : ℕ)
      → p ≡ some q
      → (e : Entry V) × (get_elem? w.registry.entries q ≡ some e) × (e.state ≡ live)

  -- The parent that `allocate` has resolved is a living entry.
  parent_entry-IsOwner :
      (token : Value) (o : Option (Entry V))
      → parent_entry w.registry token ≡ returned o
      → IsOwner (slot_of o)
  unfolding parent_entry
  parent_entry-IsOwner token o h = elim (Bool-cases (is_absent token)) [
    | inl absent ↦ let e : o ≡ none = ground arith in rw e (λ q p. absurd (cc p))
    | inr given ↦
        let (e, p, q) =
          >>=-eq-returned (resolve w.registry token none) (λ e. returned (some e))
            (rw given at h) in
        let (t, good, at, alive) = resolve_inv w.registry token none p in
        let e' : o ≡ some e = cc q in
        rw e' (λ n p.
          let same : e.slot ≡ n = ground arith in
          (e, rw (← same, v.slots t.slot e at.found) at.found, alive))
  ]

  pub admit-IsOwner :
      (q : Request V) (kind : Text) (p : Option ℕ)
      → admit w.registry q ≡ returned (kind, p)
      → IsOwner p
  unfolding admit
  admit-IsOwner q kind p h = elim (Outcome-cases (parent_entry w.registry q.parent)) [
    | inl (o, e) ↦
        let same : slot_of o ≡ p = ground arith in
        subst IsOwner same (parent_entry-IsOwner q.parent o e)
    | inr (f, e) ↦ absurd (ground arith)
  ]
