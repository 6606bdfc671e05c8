-- ===== src/Registry/Locating.antt =====
-- What it takes for a token to be accepted.
use cuda_js.Base.{
  ◌≡◌, Bool, true, false, ◌&&◌, not, Option, some, arith, get_elem?, Option-cases, inl, inr, subst,
}
use cuda_js.Base.Outcome.{returned, >>=-eq-returned, ◌>>◌}
use cuda_js.Js.{Text, text_eq_iff, Value}
use cuda_js.Registry.State.{live, Entry, Registry, Token}
use cuda_js.Registry.Tokens.{read_token}
use cuda_js.Registry.Access.{kind_expected, locate_token, locate, assert_live, resolve}

module _ {ℓ} {V : Type ℓ} (r : Registry V) where
  -- A located entry stands at the token's slot, and the token repeats all that the registry knows.
  pub record Located (t : Token) (expected : Option Text) (allow_dead : Bool) (e : Entry V)
      : Type ℓ where
    pub found : get_elem? r.entries t.slot ≡ some e
    pub runtime : t.runtime_id ≡ r.runtime_id
    pub epoch : t.epoch ≡ r.epoch
    pub generation : t.generation ≡ e.generation
    pub kind : t.kind ≡ e.kind
    pub nonce : t.nonce ≡ e.nonce
    pub wanted : kind_expected expected e.kind ≡ true
    pub alive : (r.dead && not allow_dead) ≡ false

  pub locate_token_inv :
      (t : Token) (expected : Option Text) (allow_dead : Bool) {e : Entry V}
      → locate_token r t expected allow_dead ≡ returned e
      → Located t expected allow_dead e
  unfolding locate_token
  locate_token_inv t expected allow_dead {e} h = record {
    found = ground arith;
    runtime = ground (arith, text_eq_iff t.runtime_id r.runtime_id);
    epoch = ground arith;
    generation = ground arith;
    kind = ground (arith, text_eq_iff t.kind e.kind);
    nonce = ground (arith, text_eq_iff t.nonce e.nonce);
    wanted = ground arith;
    alive = ground arith;
  }

  pub locate_inv :
      (v : Value) (expected : Option Text) (allow_dead : Bool) {e : Entry V}
      → locate r v expected allow_dead ≡ returned e
      → (t : Token) × (read_token v ≡ some t) × Located t expected allow_dead e
  unfolding locate
  locate_inv v expected allow_dead h = elim (Option-cases (read_token v)) [
    | inl bad ↦ absurd (ground arith)
    | inr (t, good) ↦ (t, good, locate_token_inv t expected allow_dead (ground arith))
  ]

  assert_live_inv :
      (a e : Entry V)
      → (assert_live a.state >> returned a) ≡ returned e
      → (a ≡ e) × (a.state ≡ live)
  assert_live_inv a e h = ground arith

  pub resolve_inv :
      (v : Value) (expected : Option Text) {e : Entry V}
      → resolve r v expected ≡ returned e
      → (t : Token) × (read_token v ≡ some t) × Located t expected false e × (e.state ≡ live)
  unfolding resolve
  resolve_inv v expected {e} h =
      let (a, p, q) =
        >>=-eq-returned (locate r v expected false) (λ a. assert_live a.state >> returned a) h in
      let (same, alive) = assert_live_inv a e q in
      let (t, good, at) = locate_inv v expected false p in
      (
        t,
        good,
        subst (Located t expected false) same at,
        subst (λ (x : Entry V). x.state ≡ live) same alive,
      )
