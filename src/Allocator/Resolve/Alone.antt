-- ===== src/Allocator/Resolve/Alone.antt =====
-- A call of `get_ex_allocate_pool2` (src/allocator.rs) that no other thread interrupts.
use kcom_rs.Prelude.{
  ℕ, zero, suc, ◌+◌, ◌≡◌, refl, ap, subst, arith, Bool, true, false, Option, none, some, List, [],
  ◌∷◌, ◌==◌, ltb, if◌then◌else◌,
}
use kcom_rs.Allocator.Resolve.{
  Cached, uninit, initing, ready, Cache, Pc, outside, before_load, returned, advance, enter, Event,
  calls_get, advances, System, put_thread, moved, step, steps, passive_level,
}

-- What the call returns, and the cache afterwards, for what the two tests of it find.
abbrev pub answer : (routine : ℕ) → (above : Bool) → Cached → (ptr : ℕ) → Option ℕ
answer routine above ready ptr = if ptr == 0 then none else some ptr
answer routine above initing ptr = none
answer routine true uninit ptr = none
answer routine false uninit ptr = if routine == 0 then none else some routine

abbrev pub cache_after : (routine : ℕ) → (above : Bool) → Cached → (ptr lookups : ℕ) → Cache
cache_after routine false uninit ptr n = record { state = ready; ptr = routine; lookups = n + 1 }
cache_after routine above st ptr n = record { state = st; ptr = ptr; lookups = n }

unfoldable pub advances_by : ℕ → ℕ → List Event
advances_by i zero = []
advances_by i (suc n) = advances i ∷ advances_by i n

-- The accesses of one thread.
path_of : (routine n : ℕ) → Pc → Cache → Option (Pc × Cache)
unfolding advance
path_of routine zero pc c = some (pc, c)
path_of routine (suc n) pc c = elim (advance routine pc c) [
  | none ↦ none
  | some (pc', c') ↦ path_of routine n pc' c'
]

module _ (routine : ℕ) where
  abbrev pub Ends : ℕ → Pc → Cache → Option System → Type 0
  Ends i pc c r = (s : System) × (r ≡ some s) × (s.threads i ≡ pc) × (s.cache ≡ c)

  put_same : (i : ℕ) (pc : Pc) (threads : ℕ → Pc) → put_thread i pc threads i ≡ pc
  put_same i pc threads = let e : (i == i) ≡ true = ground arith in rw e refl

  abbrev pub EndsAs : ℕ → Option (Pc × Cache) → Option System → Type 0
  EndsAs i none r = Unit
  EndsAs i (some (pc, c)) r = Ends i pc c r

  step_lem :
      (i : ℕ) (threads : ℕ → Pc) (pc : Pc) (c : Cache)
      → threads i ≡ pc
      → step routine (advances i) (record { cache = c; threads = threads })
        ≡ moved i threads (advance routine pc c)
  unfolding step
  step_lem i threads pc c e = rw e refl

  follow :
      (n i : ℕ) (threads : ℕ → Pc) (r : Option (Pc × Cache)) (more : List Event)
      → ((pc : Pc) (c : Cache)
          → EndsAs i
              (path_of routine n pc c)
              (steps routine more (record { cache = c; threads = put_thread i pc threads })))
      → EndsAs i
          (elim r [ none ↦ none | some (pc, c) ↦ path_of routine n pc c ])
          (elim (moved i threads r) [ none ↦ none | some s ↦ steps routine more s ])
  follow n i threads none more h = tt
  follow n i threads (some (pc, c)) more h = h pc c

  path_lem :
      (n i : ℕ) (threads : ℕ → Pc) (pc : Pc) (c : Cache)
      → threads i ≡ pc
      → EndsAs i
          (path_of routine n pc c)
          (steps routine (advances_by i n) (record { cache = c; threads = threads }))
  unfolding path_of steps advances_by
  path_lem zero i threads pc c e = (record { cache = c; threads = threads }, refl, e, refl)
  path_lem (suc n) i threads pc c e =
      rw (steps, step_lem i threads pc c e)
        (follow n i threads (advance routine pc c) (advances_by i n)
          (λ pc' c'. path_lem n i (put_thread i pc' threads) pc' c' (put_same i pc' threads)))

  run_lem :
      (above : Bool) (irql : ℕ) (st : Cached) (ptr lookups : ℕ)
      → ltb passive_level irql ≡ above
      → path_of routine 7 (before_load irql) (record { state = st; ptr = ptr; lookups = lookups })
        ≡ some (returned (answer routine above st ptr), cache_after routine above st ptr lookups)
  unfolding path_of advance
  run_lem true irql uninit p n a = rw (path_of, a) refl
  run_lem false irql uninit p n a = let z : irql ≡ 0 = ground (arith, a) in rw z refl
  run_lem true irql initing p n a = rw (path_of, a) refl
  run_lem false irql initing p n a = rw (path_of, a) refl
  run_lem true irql ready p n a = refl
  run_lem false irql ready p n a = refl

  enter_lem :
      (i irql : ℕ) (threads : ℕ → Pc) (c : Cache) (more : List Event)
      → threads i ≡ outside
      → steps routine (calls_get i irql ∷ more) (record { cache = c; threads = threads })
        ≡ steps routine more
            (record { cache = c; threads = put_thread i (before_load irql) threads })
  unfolding steps step
  enter_lem i irql threads c more e =
      ap
        (λ pc.
          steps routine more
            (record { cache = c; threads = put_thread i (enter (before_load irql) pc) threads }))
        e

  -- A call of `get_ex_allocate_pool2` that no other thread interrupts, on each of its branches: once
  -- the address is cached it returns it at every IRQL; at PASSIVE_LEVEL the first call finds and
  -- caches it; and above PASSIVE_LEVEL, or while another thread is finding it, the call returns
  -- `None` and leaves the cache as it is.
  pub get_lem :
      (i irql : ℕ) (above : Bool) (level : ltb passive_level irql ≡ above) (st : Cached)
      (ptr lookups : ℕ) (threads : ℕ → Pc) (free : threads i ≡ outside)
      → (s : System) × (steps routine (calls_get i irql ∷ advances_by i 7) (record {
        cache = record { state = st; ptr = ptr; lookups = lookups };
        threads = threads;
      })
          ≡ some s)
        × (s.threads i ≡ returned (answer routine above st ptr))
        × (s.cache ≡ cache_after routine above st ptr lookups)
  get_lem i irql above level st ptr lookups threads free =
      rw
        (enter_lem i irql threads (record { state = st; ptr = ptr; lookups = lookups })
          (advances_by i 7) free)
        (subst
          (λ r. EndsAs i r (
            steps routine (advances_by i 7) (record {
              cache = record { state = st; ptr = ptr; lookups = lookups };
              threads = put_thread i (before_load irql) threads;
            })))
          (run_lem above irql st ptr lookups level)
          (path_lem 7 i (put_thread i (before_load irql) threads) (before_load irql)
            (record { state = st; ptr = ptr; lookups = lookups })
            (put_same i (before_load irql) threads)))
