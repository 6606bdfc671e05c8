-- ===== src/Registry/Steps.antt =====
-- A registry in use: leases that are held, closes that await their disposers, and every order of
-- calls and of settled disposers.
use cuda_js.Base.{ℕ, zero, suc, ◌≡◌, Option, some, List, [], ◌∷◌, get_elem?, modify}
use cuda_js.Base.Outcome.{returned}
use cuda_js.Js.{Text, Value}
use cuda_js.Registry.State.{Entry, Registry, empty}
use cuda_js.Registry.Access.{Lease, acquire, release}
use cuda_js.Registry.Allocation.{Request, allocate}
use cuda_js.Registry.Closing.{begin_close, settle, mark_epoch_dead}
use cuda_js.Registry.Disposal.{Disposal}

-- The slot of an entry that is closing, and its parent's slot.
pub record Closing : Type 0 where
  pub slot : ℕ
  pub parent : Option ℕ

pub record World {ℓ} (V : Type ℓ) : Type ℓ where
  pub registry : Registry V
  pub handles : List (Lease V)
  pub pending : List Closing

abbrev pub remove_at {ℓ} : {A : Type ℓ} → List A → ℕ → List A
remove_at [] i = []
remove_at (x ∷ xs) zero = xs
remove_at (x ∷ xs) (suc i) = x ∷ remove_at xs i

-- A call that throws leaves the world as it was, but for `allocate`.
pub data Step {ℓ} {V : Type ℓ} (w : World V) : World V → Type ℓ where
  allocates : (q : Request V) → Step w (record w { registry = (allocate w.registry q).0 })
  acquires :
      (v : Value) (kind : Option Text) (r : Registry V) (l : Lease V)
      → acquire w.registry v kind ≡ returned (r, l)
      → Step w (record w { registry = r; handles = l ∷ w.handles })
  releases :
      (i : ℕ) (l l' : Lease V) (r : Registry V)
      → get_elem? w.handles i ≡ some l
      → release w.registry l ≡ returned (r, l')
      → Step w (record w { registry = r; handles = modify w.handles i (λ _. l') })
  begins :
      (v : Value) (r : Registry V) (e : Entry V)
      → begin_close w.registry v ≡ returned (r, e)
      → Step w (record w {
        registry = r;
        pending = record { slot = e.slot; parent = e.parent_slot } ∷ w.pending;
      })
  settles :
      (i : ℕ) (c : Closing) (d : Disposal)
      → get_elem? w.pending i ≡ some c
      → Step w (record w {
        registry = (settle w.registry c.slot c.parent d).0;
        pending = remove_at w.pending i;
      })
  dies : Step w (record w { registry = mark_epoch_dead w.registry })

pub data Reach {ℓ} {V : Type ℓ} (w : World V) : World V → Type ℓ where
  here : Reach w w
  next : {u v : World V} → Reach w u → Step u v → Reach w v

abbrev pub start {ℓ} : {V : Type ℓ} → Text → ℕ → World V
start runtime_id epoch = record { registry = empty runtime_id epoch; handles = []; pending = [] }
