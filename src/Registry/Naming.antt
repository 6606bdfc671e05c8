-- ===== src/Registry/Naming.antt =====
-- The tokens that `allocate` issues name the registry, and pass its own tests on tokens.
use cuda_js.Base.{
  ℕ, ◌≤◌, ◌≡◌, refl, ◌∙◌, inl, inr, Bool, true, false, Option, none, some, arith, get_elem?,
  Option-cases, Bool-cases, length, if◌then◌else◌,
}
use cuda_js.Base.Outcome.{returned, Outcome-cases}
use cuda_js.Js.{Text, Value, string, string_of, max_safe}
use cuda_js.Registry.State.{Entry, Registry, Token, token_of}
use cuda_js.Registry.Tokens.{IsToken, is_empty, is_kind, is_nonce}
use cuda_js.Registry.Allocation.{
  Request, allocate, admit, place, nonce_of, kind_of, next_generation, pick_slot, new_entry,
}
use cuda_js.Registry.Closing.{settle, mark_epoch_dead}
use cuda_js.Registry.Disposal.{Disposal, resolved, rejected}
use cuda_js.Registry.Steps.{
  World, Step, allocates, acquires, releases, begins, settles, dies, Reach, here, next,
}
use cuda_js.Registry.Settling.{begin_close_inv}
use cuda_js.Registry.Leasing.{acquire_inv, release_inv}
use cuda_js.Registry.Safety.{Reach-IsSound}
use cuda_js.Registry.Invariant.{IsSound}

checked_text :
    (test : Text → Bool) (t : Text) {n : Text}
    → (if test t then some t else none) ≡ some n
    → test n ≡ true
checked_text test t {n} h = elim (Bool-cases (test t)) [
  | inl good ↦ let same : t ≡ n = ground arith in rw (← same) good
  | inr bad ↦ absurd (ground arith)
]

nonce_of-is_nonce : (v : Value) {n : Text} → nonce_of v ≡ some n → is_nonce n ≡ true
unfolding string_of
nonce_of-is_nonce (string t) h = checked_text is_nonce t h
nonce_of-is_nonce v h = cc

kind_of-is_kind : (v : Value) {k : Text} → kind_of v ≡ some k → is_kind k ≡ true
unfolding string_of
kind_of-is_kind (string t) h = checked_text is_kind t h
kind_of-is_kind v h = cc

module _ {ℓ} {V : Type ℓ} where
  next_generation-pos : (o : Option (Entry V)) → 1 ≤ next_generation o
  next_generation-pos none = omega arith
  next_generation-pos (some e) = omega arith

  admit-is_kind :
      (r : Registry V) (q : Request V) {kind : Text} {p : Option ℕ}
      → admit r q ≡ returned (kind, p)
      → is_kind kind ≡ true
  unfolding admit
  admit-is_kind r q {kind} h = elim (Option-cases (kind_of q.kind)) [
    | inl bad ↦ absurd (ground arith)
    | inr (k, good) ↦
        let same : k ≡ kind = ground arith in rw (← same) (kind_of-is_kind q.kind good)
  ]

  -- What `place` puts into a token.
  record IsNamed (r : Registry V) (kind : Text) (t : Token) : Type 0 where
    pub runtime : t.runtime_id ≡ r.runtime_id
    pub epoch : t.epoch ≡ r.epoch
    pub named : t.kind ≡ kind
    pub fresh : is_nonce t.nonce ≡ true
    pub counted : 1 ≤ t.generation

  place-IsNamed :
      (r r' : Registry V) (q : Request V) (kind : Text) (p : Option ℕ) (t : Token)
      → place r q kind p ≡ (r', returned t)
      → IsNamed r kind t
  unfolding place
  place-IsNamed r r' q kind p t h = elim (Option-cases (nonce_of q.nonce)) [
    | inl bad ↦ absurd (ground arith)
    | inr (nonce, good) ↦
        let slot = (pick_slot r.free_slots (length r.entries)).0 in
        let e = new_entry slot (next_generation (get_elem? r.entries slot)) nonce kind p q.value in
        let same : token_of r e ≡ t = ground arith in
        rw (← same) (record {
          runtime = refl;
          epoch = refl;
          named = refl;
          fresh = nonce_of-is_nonce q.nonce good;
          counted = next_generation-pos (get_elem? r.entries slot);
        })
  ]

  -- A token that `allocate` issues passes as a token, if the registry has a name and an epoch as its
  -- constructor asserts, and the numbers are safe integers.
  pub allocate-IsToken :
      (r r' : Registry V) (q : Request V) (t : Token)
      → allocate r q ≡ (r', returned t)
      → is_empty r.runtime_id ≡ false
      → 1 ≤ r.epoch
      → r.epoch ≤ max_safe
      → t.slot ≤ max_safe
      → t.generation ≤ max_safe
      → IsToken t
  unfolding allocate
  allocate-IsToken r r' q t h named low high slot generation = elim (Outcome-cases (admit r q)) [
    | inr (f, e) ↦ absurd (ground arith)
    | inl ((kind, p), e) ↦
        let x = place-IsNamed r r' q kind p t (rw (e, allocate) at h) in
        record {
          named = rw x.runtime named;
          epoch_low = rw x.epoch low;
          epoch_high = rw x.epoch high;
          kind_lem = rw x.named (admit-is_kind r q e);
          slot_high = slot;
          generation_low = x.counted;
          generation_high = generation;
          nonce_lem = x.fresh;
        }
  ]

  -- The name and the epoch of a registry never change.
  abbrev SameName : Registry V → Registry V → Type 0
  SameName r s = (s.runtime_id ≡ r.runtime_id) × (s.epoch ≡ r.epoch)

  allocate-SameName : (r : Registry V) (q : Request V) → SameName r (allocate r q).0
  unfolding allocate place
  allocate-SameName r q = elim (Outcome-cases (admit r q)) [
    | inr (f, e) ↦ rw (e, allocate) (refl, refl)
    | inl ((kind, p), e) ↦ rw (e, allocate) (ground arith, ground arith)
  ]

  settle-SameName :
      (r : Registry V) (s : ℕ) (p : Option ℕ) (d : Disposal) → SameName r (settle r s p d).0
  unfolding settle
  settle-SameName r s p resolved = (refl, refl)
  settle-SameName r s p (rejected error) = (refl, refl)

  mark_epoch_dead-SameName : (r : Registry V) → SameName r (mark_epoch_dead r)
  unfolding mark_epoch_dead
  mark_epoch_dead-SameName r = (ground arith, ground arith)

  Step-SameName : {w u : World V} → IsSound w → Step w u → SameName w.registry u.registry
  Step-SameName {w} v (allocates q) = allocate-SameName w.registry q
  Step-SameName {w} v (acquires token kind r l h) =
      let (e, ok, found, alive, same, its) = acquire_inv w v token kind h in rw same (refl, refl)
  Step-SameName {w} v (releases i l l' r at h) =
      let (e, found, active, some_held, same, its) = release_inv w v l h in rw same (refl, refl)
  Step-SameName {w} v (begins token r e h) =
      let (ok, same) = begin_close_inv w v token h in rw same (refl, refl)
  Step-SameName {w} v (settles i c d h) = settle-SameName w.registry c.slot c.parent d
  Step-SameName {w} v dies = mark_epoch_dead-SameName w.registry

  pub Reach-SameName :
      {w u : World V}
      → IsSound w
      → Reach w u
      → (u.registry.runtime_id ≡ w.registry.runtime_id) × (u.registry.epoch ≡ w.registry.epoch)
  Reach-SameName v here = (refl, refl)
  Reach-SameName v (next r s) =
      let (a, b) = Reach-SameName v r in
      let (c, d) = Step-SameName (Reach-IsSound v r) s in (c ∙ a, d ∙ b)
