-- ===== src/Allocator/Resolve/Safety.antt =====
-- The interleaved accesses of any number of threads to the cached address (src/allocator.rs).
use kcom_rs.Prelude.{
  ℕ, ◌≤◌, ◌≡◌, ◌≢◌, inl, inr, refl, subst, arith, Option, none, some, List, [], ◌∷◌, ◌==◌,
  Bool-cases,
}
use kcom_rs.Allocator.Resolve.{
  Cached, uninit, initing, ready, Cache, by_init, Pc, outside, before_load, before_exchange,
  before_lookup, before_store, before_ready, before_second_load, before_read, returned, advance,
  enter, Event, calls_init, calls_get, advances, System, put_thread, moved, step, steps, loaded,
}
use kcom_rs.Allocator.Resolve.Inv.{Fits, Whole, Inv, Moves, Whole-at}
use kcom_rs.Allocator.Resolve.Moves.{advance-Moves}

module _ (routine : ℕ) where
  thread-Fits :
      (c : Cache) (owner : Option ℕ) (i : ℕ) (pc : Pc) (threads : ℕ → Pc)
      → Fits routine c owner i pc
      → ((j : ℕ) → j ≢ i → Fits routine c owner j (threads j))
      → (j : ℕ) → Fits routine c owner j (put_thread i pc threads j)
  thread-Fits c owner i pc threads f g j = elim (Bool-cases (j == i)) [
    | inl y ↦ let e : i ≡ j = ground (arith, y) in rw y (subst (λ x. Fits routine c owner x pc) e f)
    | inr n ↦ rw n (g j (λ e. ground (arith, n, e)))
  ]

  enter-Fits :
      (c : Cache) (owner : Option ℕ) (i : ℕ) (to pc : Pc)
      → Fits routine c owner i to
      → Fits routine c owner i pc
      → Fits routine c owner i (enter to pc)
  enter-Fits c owner i to outside t f = t
  enter-Fits c owner i to (before_load irql) t f = f
  enter-Fits c owner i to (before_exchange by irql) t f = f
  enter-Fits c owner i to (before_lookup by irql) t f = f
  enter-Fits c owner i to (before_store by found) t f = f
  enter-Fits c owner i to (before_ready by) t f = f
  enter-Fits c owner i to before_second_load t f = f
  enter-Fits c owner i to before_read t f = f
  enter-Fits c owner i to (returned func) t f = t

  abbrev pub Stays : Option System → Type 0
  Stays none = ⊥
  Stays (some s) = Inv routine s

  moved-Stays :
      (s : System) (owner : Option ℕ) (i : ℕ) (r : Option (Pc × Cache))
      → ((j : ℕ) → Fits routine s.cache owner j (s.threads j))
      → Moves routine s.cache owner i r
      → Stays (moved i s.threads r)
  moved-Stays s owner i none f m = m
  moved-Stays s owner i (some (pc, c)) f (owner', w, g, h) =
      (owner', w, thread-Fits c owner' i pc s.threads g (λ j n. h j (s.threads j) n (f j)))

  step-Stays : (e : Event) (s : System) → Inv routine s → Stays (step routine e s)
  unfolding step
  step-Stays (calls_init i irql) s (owner, w, f) = (
    owner,
    w,
    thread-Fits s.cache owner i (enter (before_exchange by_init irql) (s.threads i)) s.threads
        (enter-Fits s.cache owner i (before_exchange by_init irql) (s.threads i) tt (f i))
        (λ j n. f j),
  )
  step-Stays (calls_get i irql) s (owner, w, f) = (
    owner,
    w,
    thread-Fits s.cache owner i (enter (before_load irql) (s.threads i)) s.threads
        (enter-Fits s.cache owner i (before_load irql) (s.threads i) tt (f i)) (λ j n. f j),
  )
  step-Stays (advances i) s (owner, w, f) =
      moved-Stays s owner i (advance routine (s.threads i) s.cache) f
        (advance-Moves routine s.cache owner i (s.threads i) w (f i))

  then-Stays :
      (k : System → Option System) (r : Option System)
      → Stays r
      → ((s : System) → Inv routine s → Stays (k s))
      → Stays (elim r [ none ↦ none | some s' ↦ k s' ])
  then-Stays k none b g = b
  then-Stays k (some s) b g = g s b

  pub steps-Stays : (es : List Event) (s : System) → Inv routine s → Stays (steps routine es s)
  unfolding steps
  steps-Stays [] s h = h
  steps-Stays (e ∷ es) s h =
      then-Stays (steps routine es) (step routine e s) (step-Stays e s h) (steps-Stays es)

  -- Whatever threads call `init_ex_allocate_pool2` and `get_ex_allocate_pool2`, at whatever IRQL, and
  -- however their accesses interleave: the kernel is asked for the address at most once, and only at
  -- PASSIVE_LEVEL; once the state is READY the stored address is what the kernel answered, though
  -- the stores are two; and each `some` that a thread is returned is that address and not null.
  pub resolve_lem :
      (es : List Event)
      → (s : System) × (steps routine es loaded ≡ some s)
        × (s.cache.lookups ≤ 1)
        × (s.cache.state ≡ ready → (s.cache.ptr ≡ routine) × (s.cache.lookups ≡ 1))
        × ((i f : ℕ) → s.threads i ≡ returned (some f) → (f ≡ routine) × (f ≢ 0))
  resolve_lem es = seen (steps routine es loaded) (steps-Stays es loaded (none, refl, λ i. tt))
    where
      lookups-Whole : (c : Cache) (s : Cached) → Whole routine s c → c.lookups ≤ 1
      lookups-Whole c uninit w = omega (arith, w)
      lookups-Whole c initing w = w
      lookups-Whole c ready (p, l) = omega (arith, l)

      seen :
          (r : Option System)
          → Stays r
          → (s : System) × (r ≡ some s)
            × (s.cache.lookups ≤ 1)
            × (s.cache.state ≡ ready → (s.cache.ptr ≡ routine) × (s.cache.lookups ≡ 1))
            × ((i f : ℕ) → s.threads i ≡ returned (some f) → (f ≡ routine) × (f ≢ 0))
      seen none b = absurd b
      seen (some s) (owner, w, f) = (
        s,
        refl,
        lookups-Whole s.cache s.cache.state w,
        λ e. Whole-at routine s.cache ready e w,
        λ i g e. subst (Fits routine s.cache owner i) e (f i),
      )
