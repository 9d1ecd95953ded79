-- ===== src/Allocator/KBox/Scope.antt =====
-- A scope that makes a `KBox` (src/allocator.rs), uses its value, and drops it.
use kcom_rs.Prelude.{
  ℕ, ◌≡◌, ◌≢◌, refl, sym, ap, ◌∙◌, subst, Option, none, some, ◌∷◌, M, ◌>>=◌, ◌>>◌, pure,
}
use kcom_rs.Allocator.{Layout}
use kcom_rs.Allocator.Interface.{Allocator}
use kcom_rs.Allocator.KBox.{
  KBoxError, Outcome, done, failed, KBox, Heap, Init, on_memory, try_pin_init, drop_kbox,
}
use kcom_rs.Allocator.KBox.Life.{InitReturns, DropReturns, Refused, Made, made_lem, memory-bind}

module _ {S E I : Type 0} (alloc : Allocator S) (init : Init S E I) (i : I)
    (user drop_value : ℕ → M S (Unit {0})) (l : Layout) where
  used : Outcome (KBoxError E) KBox → M (Heap S) (Outcome (KBoxError E) ℕ)
  used (failed e) = pure (failed e)
  used (done b) = on_memory (user b.ptr) >> (drop_kbox alloc drop_value b >> pure (done b.ptr))

  -- `user` is what the owner does with the value at its address.
  unfoldable pub with_kbox : M (Heap S) (Outcome (KBoxError E) ℕ)
  unfolding used
  with_kbox = try_pin_init alloc init i l >>= used

  abbrev pub Lived : Heap S → Option (Outcome (KBoxError E) ℕ × Heap S) → Type 0
  Lived h none = ⊥
  Lived h (some (failed e, h')) =
      Refused alloc init i l h.memory e × (h'.drops ≡ h.drops) × alloc.Restored h.memory h'.memory
  Lived h (some (done p, h')) =
      (p ≢ 0) × (h'.drops ≡ p ∷ h.drops) × alloc.Restored h.memory h'.memory

  dropped :
      (b : KBox) (h1 h3 : Heap S) (s2 : S)
      → user b.ptr h1.memory ≡ some (tt, s2)
      → drop_kbox alloc drop_value b (record h1 { memory = s2 }) ≡ some (tt, h3)
      → used (done b) h1 ≡ some (done b.ptr, h3)
  unfolding used
  dropped b h1 h3 s2 e f =
      memory-bind (user b.ptr) (λ _. drop_kbox alloc drop_value b >> pure (done b.ptr)) h1 tt s2 e
      ∙ rw (◌>>◌, ◌>>=◌, f) refl

  used-Lived :
      (h : Heap S) (user_returns : DropReturns alloc user)
      (r : Option (Outcome (KBoxError E) KBox × Heap S))
      → Made alloc drop_value init i l h r
      → Lived h (elim r [ none ↦ none | some (o, h1) ↦ used o h1 ])
  unfolding used
  used-Lived h u none m = m
  used-Lived h u (some (failed e, h1)) m = m
  used-Lived h u (some (done b, h1)) (n, y, d, droppable) =
      let (s2, e, t) = u b.ptr h1.memory in
      let (h3, f, g, r) = droppable (record h1 { memory = s2 }) t in
      subst (Lived h) (sym (dropped b h1 h3 s2 e f)) (n, g ∙ ap (λ x. b.ptr ∷ x) d, r)

  -- A scope that makes a `KBox` in place, uses its value and drops it returns whatever the allocator
  -- and the initialiser answer, and never leaks: the same memory is in use as before. There is no box
  -- only because the allocator answered null or the initialiser failed, the error says which, and no
  -- value is dropped; else the box is not null, and its value is dropped in place just once. The
  -- allocator is any that keeps its interface, the layout one that it can be asked for; the
  -- initialiser, the owner's use and the destructor are assumed to return and to touch only the
  -- memory of the value.
  pub kbox_lem :
      (valid : alloc.Valid l) (init_returns : InitReturns alloc init i)
      (user_returns : DropReturns alloc user) (drop_returns : DropReturns alloc drop_value)
      (h : Heap S)
      → Lived h (with_kbox h)
  unfolding with_kbox
  kbox_lem valid init_returns user_returns drop_returns h =
      used-Lived h user_returns (try_pin_init alloc init i l h)
        (made_lem alloc init i init_returns drop_value drop_returns l h valid)
