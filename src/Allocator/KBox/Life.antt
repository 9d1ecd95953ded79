-- ===== src/Allocator/KBox/Life.antt =====
-- The life of a `KBox` (src/allocator.rs), from its allocation to its drop.
use kcom_rs.Prelude.{
  ℕ, ◌≡◌, ◌≢◌, refl, sym, subst, arith, Bool, true, false, Option, none, some, ◌∷◌, ◌==◌, M, ◌>>=◌,
  ◌>>◌, pure,
}
use kcom_rs.Status.{status_insufficient_resources}
use kcom_rs.Allocator.{Layout}
use kcom_rs.Allocator.Interface.{Allocator}
use kcom_rs.Allocator.KBox.{
  KBoxError, alloc_error, init_error, Outcome, done, failed, KBox, Heap, Init, on_memory,
  finish_init, initialise, try_pin_init, drop_kbox, from_raw_parts,
}

pub memory-bind :
    {S A B : Type 0} (m : M S A) (f : A → M (Heap S) B) (h : Heap S) (a : A) (s : S)
    → m h.memory ≡ some (a, s)
    → (on_memory m >>= f) h ≡ f a (record h { memory = s })
memory-bind m f h a s e = rw (◌>>=◌, on_memory, e) refl

module _ {S : Type 0} (alloc : Allocator S) where
  -- What the code relies on of an initialiser and of a destructor: they return, and touch only the
  -- memory of their value.
  abbrev pub InitReturns : {E I : Type 0} → Init S E I → I → Type 0
  InitReturns {E} {I} init i =
      (p : ℕ) (s : S)
      → (r : Outcome E (Unit {0}) × I) × (s' : S) × (init i p s ≡ some (r, s'))
        × alloc.Touched p s s'

  abbrev pub DropReturns : (ℕ → M S (Unit {0})) → Type 0
  DropReturns drop_value =
      (p : ℕ) (s : S) → (s' : S) × (drop_value p s ≡ some (tt, s')) × alloc.Touched p s s'

  -- Why there is no box: the allocator answered null, or the initialiser failed.
  abbrev pub Refused : {E I : Type 0} → Init S E I → I → Layout → S → KBoxError E → Type 0
  Refused init i l s (alloc_error status) =
      (status ≡ status_insufficient_resources) × ((s1 : S) × (alloc.alloc l s ≡ some (0, s1)))
  Refused {E} {I} init i l s (init_error e) =
      (p : ℕ) × (s1 : S) × (i' : I) × (s2 : S) × (alloc.alloc l s ≡ some (p, s1))
      × (init i p s1 ≡ some ((failed e, i'), s2))

  -- The box can be dropped once its owner is done with it.
  abbrev pub Droppable : (ℕ → M S (Unit {0})) → KBox → S → Heap S → Type 0
  Droppable drop_value b s h =
      (h2 : Heap S)
      → alloc.Touched b.ptr h.memory h2.memory
      → (h3 : Heap S) × (drop_kbox alloc drop_value b h2 ≡ some (tt, h3))
        × (h3.drops ≡ b.ptr ∷ h2.drops)
        × alloc.Restored s h3.memory

  abbrev pub Made :
      {E I : Type 0}
      → (ℕ → M S (Unit {0}))
      → Init S E I
      → I
      → Layout
      → Heap S
      → Option (Outcome (KBoxError E) KBox × Heap S)
      → Type 0
  Made drop_value init i l h none = ⊥
  Made drop_value init i l h (some (failed e, h')) =
      Refused init i l h.memory e × (h'.drops ≡ h.drops) × alloc.Restored h.memory h'.memory
  Made drop_value init i l h (some (done b, h')) =
      (b.ptr ≢ 0) × (b.layout ≡ l) × (h'.drops ≡ h.drops) × Droppable drop_value b h.memory h'

  Lent : Layout → S → ℕ → S → Type 0
  Lent l s p s1 =
      p ≢ 0
      → (s2 : S) → alloc.Touched p s1 s2
      → (s3 : S) × (alloc.dealloc p l s2 ≡ some (tt, s3)) × alloc.Restored s s3

  module _ {E I : Type 0} (init : Init S E I) (i : I) (init_returns : InitReturns init i)
      (drop_value : ℕ → M S (Unit {0})) (drop_returns : DropReturns drop_value) (l : Layout)
      (h : Heap S) where
    drop_lem :
        (p : ℕ) (h2 : Heap S) (s3 s4 : S)
        → drop_value p h2.memory ≡ some (tt, s3)
        → alloc.dealloc p l s3 ≡ some (tt, s4)
        → drop_kbox alloc drop_value (from_raw_parts p l) h2
          ≡ some (tt, record { memory = s4; drops = p ∷ h2.drops })
    unfolding drop_kbox from_raw_parts
    drop_lem p h2 s3 s4 e f = rw (◌>>◌, ◌>>=◌, on_memory, e, f) refl

    droppable :
        (p : ℕ) (s1 s2 : S)
        → p ≢ 0
        → Lent l h.memory p s1
        → alloc.Touched p s1 s2
        → Droppable drop_value (from_raw_parts p l) h.memory (record h { memory = s2 })
    unfolding Lent drop_kbox from_raw_parts
    droppable p s1 s2 n lent t h2 t2 =
        let (s3, e, t3) = drop_returns p h2.memory in
        let all : alloc.Touched p s1 s3 =
          alloc.Touched_trans p s1 s2 s3 t (alloc.Touched_trans p s2 h2.memory s3 t2 t3) in
        let (s4, f, r) = lent n s3 all in
        subst
          (λ r.
            (h3 : Heap S) × (r ≡ some (tt, h3))
            × (h3.drops ≡ p ∷ h2.drops)
            × alloc.Restored h.memory h3.memory)
          (sym (drop_lem p h2 s3 s4 e f))
          (record { memory = s4; drops = p ∷ h2.drops }, refl, refl, r)

    finish_init-Made :
        (p : ℕ) (s1 s2 : S) (r : Outcome E (Unit {0})) (i' : I)
        → alloc.alloc l h.memory ≡ some (p, s1)
        → init i p s1 ≡ some ((r, i'), s2)
        → p ≢ 0
        → Lent l h.memory p s1
        → alloc.Touched p s1 s2
        → Made drop_value init i l h (finish_init alloc p l r (record h { memory = s2 }))
    unfolding finish_init Lent from_raw_parts
    finish_init-Made p s1 s2 (done u) i' a e n lent t = (n, refl, refl, droppable p s1 s2 n lent t)
    finish_init-Made p s1 s2 (failed x) i' a e n lent t =
        let (s3, f, r) = lent n s2 t in
        subst (Made drop_value init i l h)
          (sym (
            memory-bind (alloc.dealloc p l) (λ _. pure (failed (init_error x)))
              (record h { memory = s2 }) tt s3 f))
          ((p, s1, i', s2, a, e), refl, r)

    initialise-Made :
        (p : ℕ) (s1 : S)
        → alloc.alloc l h.memory ≡ some (p, s1)
        → (p ≡ 0 → alloc.Restored h.memory s1)
        → Lent l h.memory p s1
        → (null : Bool) → (p == 0) ≡ null
        → Made drop_value init i l h (initialise alloc init i l p null (record h { memory = s1 }))
    unfolding initialise Lent
    initialise-Made p s1 a z lent true b =
        let e : p ≡ 0 = ground (arith, b) in ((refl, (s1, rw⁻¹ e a)), refl, z e)
    initialise-Made p s1 a z lent false b =
        let n : p ≢ 0 = λ e. ground (arith, b, e) in
        let ((r, i'), s2, e, t) = init_returns p s1 in
        subst (Made drop_value init i l h)
          (sym (
            memory-bind (init i p) (λ q. finish_init alloc p l q.0) (record h { memory = s1 })
              (r, i') s2 e))
          (finish_init-Made p s1 s2 r i' a e n lent t)

    pub made_lem : alloc.Valid l → Made drop_value init i l h (try_pin_init alloc init i l h)
    unfolding try_pin_init Lent
    made_lem valid =
        let (p, s1, a, z, lent) = alloc.alloc_lem l valid h.memory in
        subst (Made drop_value init i l h)
          (sym (memory-bind (alloc.alloc l) (λ p. initialise alloc init i l p (p == 0)) h p s1 a))
          (initialise-Made p s1 a z lent (p == 0) refl)
