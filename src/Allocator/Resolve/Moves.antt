-- ===== src/Allocator/Resolve/Moves.antt =====
-- One access of a thread to the cached address (src/allocator.rs) keeps the invariant.
use kcom_rs.Prelude.{
  ℕ, ◌+◌, ◌≡◌, inl, inr, refl, arith, Bool, true, false, Option, none, some, ◌==◌, ltb,
  if◌then◌else◌, Bool-cases,
}
use kcom_rs.Allocator.Resolve.{
  Cached, uninit, initing, ready, Cache, Caller, Pc, outside, before_load, before_exchange,
  before_lookup, before_store, before_ready, before_second_load, before_read, returned, back_to,
  first_load, second_load, exchange, try_exchange, lookup, advance, passive_level,
}
use kcom_rs.Allocator.Resolve.Inv.{
  Usable, Fits, Whole, Moves, stays, back_to-Fits, first_load-Fits, second_load-Fits, Whole-at,
  Whole-initing, nobody, others,
}

module _ (routine : ℕ) where
  exchange-Moves :
      (c : Cache) (owner : Option ℕ) (i : ℕ) (by : Caller) (irql : ℕ) (s : Cached)
      → c.state ≡ s
      → irql ≡ 0
      → Whole routine c.state c
      → Moves routine c owner i (some (exchange by irql s c))
  exchange-Moves c owner i by irql uninit e z w =
      let l : c.lookups ≡ 0 = Whole-at routine c uninit e w in
      (
        some i,
        omega (arith, l),
        (refl, (refl, (z, l))),
        λ j other n f. nobody routine c (record c { state = initing }) owner (some i) j other e f,
      )
  exchange-Moves c owner i by irql initing e z w =
      stays routine c owner i (back_to by) w (back_to-Fits routine c owner i by)
  exchange-Moves c owner i by irql ready e z w =
      stays routine c owner i (back_to by) w (back_to-Fits routine c owner i by)

  try_exchange-Moves :
      (c : Cache) (owner : Option ℕ) (i : ℕ) (by : Caller) (irql : ℕ) (above : Bool)
      → ltb passive_level irql ≡ above
      → Whole routine c.state c
      → Moves routine c owner i (some (try_exchange by irql above c))
  try_exchange-Moves c owner i by irql true e w =
      stays routine c owner i (back_to by) w (back_to-Fits routine c owner i by)
  try_exchange-Moves c owner i by irql false e w =
      exchange-Moves c owner i by irql c.state refl (ground (arith, e)) w

  -- The value that `before_read` leaves.
  read-Usable : (p : ℕ) → p ≡ routine → Usable routine (if p == 0 then none else some p)
  read-Usable p e = elim (Bool-cases (p == 0)) [
    | inl z ↦ rw z tt
    | inr n ↦ rw n (e, λ z. ground (arith, n, z))
  ]

  lookup-Moves :
      (c : Cache) (owner : Option ℕ) (i : ℕ) (by : Caller) (irql : ℕ)
      → Fits routine c owner i (before_lookup by irql)
      → Moves routine c owner i (lookup routine by (ltb passive_level irql) c)
  lookup-Moves c owner i by irql (o, (e, (z, l))) =
      let b : ltb passive_level irql ≡ false = ground (arith, z) in
      let n : c.lookups + 1 ≡ 1 = omega (arith, l) in
      rw b (
        owner,
        Whole-initing routine c (record c { lookups = c.lookups + 1 }) e (omega (arith, l)),
        (o, (e, (refl, n))),
        λ j other k f.
            others routine c (record c { lookups = c.lookups + 1 }) owner owner i j other o e k f,
      )

  pub advance-Moves :
      (c : Cache) (owner : Option ℕ) (i : ℕ) (pc : Pc)
      → Whole routine c.state c
      → Fits routine c owner i pc
      → Moves routine c owner i (advance routine pc c)
  unfolding advance
  advance-Moves c owner i outside w f = stays routine c owner i outside w tt
  advance-Moves c owner i (before_load irql) w f =
      stays routine c owner i (first_load irql c.state) w
        (first_load-Fits routine c owner i irql c.state)
  advance-Moves c owner i (before_exchange by irql) w f =
      try_exchange-Moves c owner i by irql (ltb passive_level irql) refl w
  advance-Moves c owner i (before_lookup by irql) w f = lookup-Moves c owner i by irql f
  advance-Moves c owner i (before_store by found) w (o, (e, (r, l))) = (
    owner,
    Whole-initing routine c (record c { ptr = found }) e (omega (arith, l)),
    (o, (e, (r, l))),
    λ j other k f. others routine c (record c { ptr = found }) owner owner i j other o e k f,
  )
  advance-Moves c owner i (before_ready by) w (o, (e, (r, l))) = (
    none,
    (r, l),
    back_to-Fits routine (record c { state = ready }) none i by,
    λ j other k f. others routine c (record c { state = ready }) owner none i j other o e k f,
  )
  advance-Moves c owner i before_second_load w f =
      stays routine c owner i (second_load c.state) w
        (second_load-Fits routine c owner i c.state refl)
  advance-Moves c owner i before_read w f =
      stays routine c owner i (returned (if c.ptr == 0 then none else some c.ptr)) w
        (read-Usable c.ptr (Whole-at routine c ready f w).0)
  advance-Moves c owner i (returned func) w f = stays routine c owner i (returned func) w f
