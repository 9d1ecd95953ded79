-- ===== src/Allocator/Resolve/Inv.antt =====
-- The invariant of the cached address of `ExAllocatePool2` (src/allocator.rs).
use kcom_rs.Prelude.{ℕ, ◌≤◌, ◌≡◌, ◌≢◌, sym, subst, arith, Option, none, some}
use kcom_rs.Allocator.Resolve.{
  Cached, uninit, initing, ready, Cache, Caller, by_init, by_get, Pc, outside, before_load,
  before_exchange, before_lookup, before_store, before_ready, before_second_load, before_read,
  returned, back_to, first_load, second_load, System,
}

-- A thread may use the address `f`.
abbrev pub Usable : (routine : ℕ) → Option ℕ → Type 0
Usable routine none = Unit
Usable routine (some f) = (f ≡ routine) × (f ≢ 0)

-- What the place of thread `i` says of the cache, when `owner` is the thread whose compare-exchange
-- succeeded and that has not stored READY yet.
abbrev pub Fits : (routine : ℕ) → Cache → (owner : Option ℕ) → ℕ → Pc → Type 0
Fits routine c owner i (before_lookup by irql) =
    (owner ≡ some i) × ((c.state ≡ initing) × ((irql ≡ 0) × (c.lookups ≡ 0)))
Fits routine c owner i (before_store by found) =
    (owner ≡ some i) × ((c.state ≡ initing) × ((found ≡ routine) × (c.lookups ≡ 1)))
Fits routine c owner i (before_ready by) =
    (owner ≡ some i) × ((c.state ≡ initing) × ((c.ptr ≡ routine) × (c.lookups ≡ 1)))
Fits routine c owner i before_read = c.state ≡ ready
Fits routine c owner i (returned func) = Usable routine func
Fits routine c owner i _ = Unit

abbrev pub Whole : (routine : ℕ) → Cached → Cache → Type 0
Whole routine uninit c = c.lookups ≡ 0
Whole routine initing c = c.lookups ≤ 1
Whole routine ready c = (c.ptr ≡ routine) × (c.lookups ≡ 1)

abbrev pub Inv : (routine : ℕ) → System → Type 0
Inv routine s =
    (owner : Option ℕ) × Whole routine s.cache.state s.cache
    × ((i : ℕ) → Fits routine s.cache owner i (s.threads i))

module _ (routine : ℕ) where
  -- What a thread's place says of it stays true, whatever becomes of the cache, unless it relies on
  -- the cache.
  pub outsider :
      (c c' : Cache) (owner owner' : Option ℕ) (j : ℕ) (pc : Pc)
      → c.state ≢ ready
      → ((c.state ≡ initing) → owner ≢ some j)
      → Fits routine c owner j pc
      → Fits routine c' owner' j pc
  outsider c c' owner owner' j outside h k f = tt
  outsider c c' owner owner' j (before_load irql) h k f = tt
  outsider c c' owner owner' j (before_exchange by irql) h k f = tt
  outsider c c' owner owner' j (before_lookup by irql) h k (o, (s, r)) = absurd (k s o)
  outsider c c' owner owner' j (before_store by found) h k (o, (s, r)) = absurd (k s o)
  outsider c c' owner owner' j (before_ready by) h k (o, (s, r)) = absurd (k s o)
  outsider c c' owner owner' j before_second_load h k f = tt
  outsider c c' owner owner' j before_read h k f = absurd (h f)
  outsider c c' owner owner' j (returned func) h k f = f

  -- A thread's step, which keeps what all others rely on.
  abbrev pub Moves : Cache → (owner : Option ℕ) → ℕ → Option (Pc × Cache) → Type 0
  Moves c owner i none = ⊥
  Moves c owner i (some (pc, c')) =
      (owner' : Option ℕ) × Whole routine c'.state c'
      × Fits routine c' owner' i pc
      × ((j : ℕ) (other : Pc)
          → j ≢ i
          → Fits routine c owner j other
          → Fits routine c' owner' j other)

  pub stays :
      (c : Cache) (owner : Option ℕ) (i : ℕ) (pc : Pc)
      → Whole routine c.state c
      → Fits routine c owner i pc
      → Moves c owner i (some (pc, c))
  stays c owner i pc w f = (owner, w, f, λ j other n g. g)

  pub back_to-Fits :
      (c : Cache) (owner : Option ℕ) (i : ℕ) (by : Caller) → Fits routine c owner i (back_to by)
  back_to-Fits c owner i by_init = tt
  back_to-Fits c owner i by_get = tt

  pub first_load-Fits :
      (c : Cache) (owner : Option ℕ) (i irql : ℕ) (s : Cached)
      → Fits routine c owner i (first_load irql s)
  first_load-Fits c owner i irql uninit = tt
  first_load-Fits c owner i irql initing = tt
  first_load-Fits c owner i irql ready = tt

  pub second_load-Fits :
      (c : Cache) (owner : Option ℕ) (i : ℕ) (s : Cached)
      → c.state ≡ s
      → Fits routine c owner i (second_load s)
  second_load-Fits c owner i uninit e = tt
  second_load-Fits c owner i initing e = tt
  second_load-Fits c owner i ready e = e

  pub Whole-at :
      (c : Cache) (s : Cached) → c.state ≡ s → Whole routine c.state c → Whole routine s c
  Whole-at c s e w = subst (λ x. Whole routine x c) e w

  pub Whole-initing : (c c' : Cache) → c.state ≡ initing → c'.lookups ≤ 1 → Whole routine c.state c'
  Whole-initing c c' e h = subst (λ x. Whole routine x c') (sym e) h

  -- No thread relies on the cache while nobody resolves the address.
  pub nobody :
      (c c' : Cache) (owner owner' : Option ℕ) (j : ℕ) (pc : Pc)
      → c.state ≡ uninit
      → Fits routine c owner j pc
      → Fits routine c' owner' j pc
  nobody c c' owner owner' j pc e f =
      outsider c c' owner owner' j pc (λ r. grind (arith, e, r)) (λ r. grind (arith, e, r)) f

  -- No other thread relies on the cache while thread `i` resolves the address.
  pub others :
      (c c' : Cache) (owner owner' : Option ℕ) (i j : ℕ) (pc : Pc)
      → owner ≡ some i
      → c.state ≡ initing
      → j ≢ i
      → Fits routine c owner j pc
      → Fits routine c' owner' j pc
  others c c' owner owner' i j pc o e n f =
      outsider c c' owner owner' j pc (λ r. grind (arith, e, r)) (λ r q. grind (arith, o, q, n)) f
