-- ===== src/Com/States.antt =====
-- The states of an object of src/wrapper.rs from its construction to its end.
use kcom_rs.Prelude.{
  ℕ, zero, suc, ◌≡◌, ◌<◌, refl, ap, arith, true, Option, none, some, ◌∷◌, replicate,
}
use kcom_rs.Com.{
  Pointer, null, primary, non_delegating, secondary, foreign, Object, World, init_entries,
  try_new_with,
}
use kcom_rs.Com.Methods.{entry}

-- An object with `m` secondary interfaces and `n` references; without references it is freed.
abbrev pub object_at : {T : Type 0} → ℕ → Option (Option ℕ) → T → ℕ → Object T
object_at m outer inner zero = record {
  secondaries = replicate m primary;
  unknown_parent = primary;
  ref_count = 0;
  outer_unknown = outer;
  inner = inner;
  drops = 1;
  frees = 1;
}
object_at m outer inner (suc n) = record {
  secondaries = replicate m primary;
  unknown_parent = primary;
  ref_count = suc n;
  outer_unknown = outer;
  inner = inner;
  drops = 0;
  frees = 0;
}

abbrev pub world_at : {T O : Type 0} → ℕ → Option (Option ℕ) → T → ℕ → O → World T O
world_at m outer inner n o = record { object = object_at m outer inner n; others = o }

-- The pointers that lead to an object with `m` secondary interfaces.
abbrev pub IsOwn : ℕ → Pointer → Type 0
IsOwn m null = ⊥
IsOwn m primary = Unit
IsOwn m non_delegating = Unit
IsOwn m (secondary i) = i < m
IsOwn m (foreign k) = ⊥

-- The interface pointers among them: all but the non-delegating `IUnknown`.
abbrev pub IsInterface : ℕ → Pointer → Type 0
IsInterface m null = ⊥
IsInterface m primary = Unit
IsInterface m non_delegating = ⊥
IsInterface m (secondary i) = i < m
IsInterface m (foreign k) = ⊥

pub IsInterface-IsOwn : (m : ℕ) (p : Pointer) → IsInterface m p → IsOwn m p
IsInterface-IsOwn m primary h = h
IsInterface-IsOwn m (secondary i) h = h
IsInterface-IsOwn m null h = h
IsInterface-IsOwn m non_delegating h = absurd h
IsInterface-IsOwn m (foreign k) h = h

pub entry-replicate : (m i : ℕ) → i < m → entry (replicate m primary) i ≡ some primary
unfolding entry
entry-replicate zero i h = absurd (ground (arith, h))
entry-replicate (suc m) zero h = refl
entry-replicate (suc m) (suc i) h = entry-replicate m i (omega (arith, h))

init_entries-replicate :
    (m : ℕ) (e parent : Pointer) → init_entries (replicate m e) parent ≡ replicate m parent
unfolding init_entries
init_entries-replicate zero e parent = refl
init_entries-replicate (suc m) e parent = ap (λ es. parent ∷ es) (init_entries-replicate m e parent)

pub new_lem :
    {T : Type 0} (m : ℕ) (inner : T)
    → try_new_with true m inner ≡ some (primary, object_at m none inner 1)
unfolding try_new_with
new_lem m inner = rw (init_entries-replicate m null primary) refl
