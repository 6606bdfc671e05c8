-- ===== src/Execution/Ordered.antt =====
-- What the scheduler keeps, whatever is submitted, polled and timed out, in any order.
use cuda_js.Base.{
  ℕ, ◌+◌, ◌≤◌, ◌<◌, ◌≡◌, refl, sym, ◌∙◌, ap, inl, inr, Bool, true, false, not, some, List, [], ◌∷◌,
  ◌==◌, ==_iff, if◌then◌else◌, length, length-modify, get_elem?, modify, modify_cases, arith,
}
use cuda_js.Base.Counts.{count}
use cuda_js.Execution.Conflicts.{any_conflict}
use cuda_js.Execution.Scheduler.{Status, pending, orphaned, Operation, Scheduler}
use cuda_js.Execution.Completion.{orphan, orphan_each, remove, set_orphan, polled}

abbrev pub times : ℕ → List ℕ → ℕ
times = count ◌==◌

-- The GPU may still be at work on it.
abbrev pub is_flying : Status → Bool
is_flying pending = true
is_flying orphaned = true
is_flying _ = false

pub record IsScheduled (s : Scheduler) : Type 0 where
  pub few : length s.in_flight ≤ s.max_pending
  pub known : (i : ℕ) → length s.operations ≤ i → times i s.in_flight ≡ 0
  pub flying :
      (i : ℕ) (o : Operation)
      → get_elem? s.operations i ≡ some o
      → times i s.in_flight ≡ (if is_flying o.status then 1 else 0)
  pub leased :
      (i : ℕ) (o : Operation)
      → get_elem? s.operations i ≡ some o
      → o.leases_released ≡ not (is_flying o.status)
  pub ordered :
      (i j : ℕ) (p q : Operation)
      → get_elem? s.operations i ≡ some p
      → get_elem? s.operations j ≡ some q
      → i < j
      → is_flying p.status ≡ true
      → is_flying q.status ≡ true
      → any_conflict q.accesses p.accesses ≡ true
      → p.stream ≡ q.stream

-- Two records of an operation that the invariant does not tell apart.
record Same (o o' : Operation) : Type 0 where
  pub stream : o'.stream ≡ o.stream
  pub accesses : o'.accesses ≡ o.accesses
  pub leases : o'.leases_released ≡ o.leases_released
  pub flight : is_flying o'.status ≡ is_flying o.status

abbrev Kept : List Operation → List Operation → Type 0
Kept os os' =
    (length os' ≡ length os)
    × ((i : ℕ) (o' : Operation)
        → get_elem? os' i ≡ some o'
        → (o : Operation) × (get_elem? os i ≡ some o) × Same o o')

Kept-refl : (os : List Operation) → Kept os os
Kept-refl os =
    (refl, λ i o h. (o, h, record { stream = refl; accesses = refl; leases = refl; flight = refl }))

Kept-trans : (xs ys zs : List Operation) → Kept xs ys → Kept ys zs → Kept xs zs
Kept-trans xs ys zs (m, p) (n, q) = (
  n ∙ m,
  λ i o h.
      let (o1, h1, s1) = q i o h in
      let (o2, h2, s2) = p i o1 h1 in
      (
        o2,
        h2,
        record {
          stream = s1.stream ∙ s2.stream;
          accesses = s1.accesses ∙ s2.accesses;
          leases = s1.leases ∙ s2.leases;
          flight = s1.flight ∙ s2.flight;
        },
      ),
)

Kept-modify :
    (os : List Operation) (i : ℕ) (f : Operation → Operation)
    → ((o : Operation) → get_elem? os i ≡ some o → Same o (f o))
    → Kept os (modify os i f)
Kept-modify os i f same = (
  length-modify os i f,
  λ j o' h. elim (modify_cases os i j f h) [
    | inl (e, (o, h', e')) ↦ (o, rw e h', rw e' (same o h'))
    | inr (e, h') ↦
        (o', h', record { stream = refl; accesses = refl; leases = refl; flight = refl })
  ],
)

Kept-IsScheduled :
    (s : Scheduler) (os : List Operation)
    → Kept s.operations os
    → IsScheduled s
    → IsScheduled (record s { operations = os })
Kept-IsScheduled s os (len, back) v = record {
  few = v.few;
  known = λ i h. v.known i (omega (arith, len));
  flying = λ i o h.
      let (p, h', same) = back i o h in
      v.flying i p h' ∙ ap (λ b. if b then 1 else 0) (sym same.flight);
  leased = λ i o h.
      let (p, h', same) = back i o h in same.leases ∙ v.leased i p h' ∙ ap not (sym same.flight);
  ordered = λ i j p q hp hq lt fp fq conflict.
      let (p', hp', sp) = back i p hp in
      let (q', hq', sq) = back j q hq in
      sp.stream
      ∙ v.ordered i j p' q' hp' hq' lt (sym sp.flight ∙ fp) (sym sq.flight ∙ fq)
          (rw (sq.accesses, sp.accesses) at conflict)
      ∙ sym sq.stream;
}

pub polled-IsScheduled : (s : Scheduler) (i : ℕ) → IsScheduled s → IsScheduled (polled s i)
polled-IsScheduled s i v =
    Kept-IsScheduled s (polled s i).operations
      (Kept-modify s.operations i (λ o. record o { poll_count = o.poll_count + 1 })
        (λ o h. record { stream = refl; accesses = refl; leases = refl; flight = refl }))
      v

abbrev pub Flies : List Operation → ℕ → Type 0
Flies os i = (o : Operation) → get_elem? os i ≡ some o → is_flying o.status ≡ true

Kept-orphan : (os : List Operation) (i : ℕ) → Flies os i → Kept os (modify os i orphan)
Kept-orphan os i f =
    Kept-modify os i orphan
      (λ o h. record { stream = refl; accesses = refl; leases = refl; flight = sym (f o h) })

pub set_orphan-IsScheduled :
    (s : Scheduler) (i : ℕ) → Flies s.operations i → IsScheduled s → IsScheduled (set_orphan s i)
set_orphan-IsScheduled s i f v =
    Kept-IsScheduled s (modify s.operations i orphan) (Kept-orphan s.operations i f) v

Kept-orphan_each :
    (os : List Operation) (is : List ℕ)
    → ((i : ℕ) → 0 < times i is → Flies os i)
    → Kept os (orphan_each os is)
unfolding orphan_each
Kept-orphan_each os [] f = Kept-refl os
Kept-orphan_each os (i ∷ is) f =
    let once = Kept-orphan os i (f i (ground (arith, ==_iff i i))) in
    Kept-trans os (modify os i orphan) (orphan_each (modify os i orphan) is) once (
      Kept-orphan_each (modify os i orphan) is
        (λ j h o' e. let (o, e', same) = once.1 j o' e in same.flight ∙ f j (ground arith) o e'))

-- All that is in flight flies.
in_flight-Flies :
    (s : Scheduler) → IsScheduled s → (i : ℕ) → 0 < times i s.in_flight → Flies s.operations i
in_flight-Flies s v i h o e = ground (arith, v.flying i o e)

pub orphan_each-IsScheduled :
    (s : Scheduler)
    → IsScheduled s
    → IsScheduled (record s { operations = orphan_each s.operations s.in_flight })
orphan_each-IsScheduled s v =
    Kept-IsScheduled s (orphan_each s.operations s.in_flight)
      (Kept-orphan_each s.operations s.in_flight (in_flight-Flies s v)) v

pub times-remove :
    (i j : ℕ) (js : List ℕ) → times j (remove i js) ≡ (if i == j then 0 else times j js)
times-remove i j [] = ground arith
times-remove i j (k ∷ ks) = ground (arith, times-remove i j ks)

pub length-remove_le : (i : ℕ) (js : List ℕ) → length (remove i js) ≤ length js
length-remove_le i [] = omega arith
length-remove_le i (j ∷ js) = ground (arith, length-remove_le i js)
