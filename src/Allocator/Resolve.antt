-- ===== src/Allocator/Resolve.antt =====
-- src/allocator.rs: how threads find `ExAllocatePool2` and cache its address, one access to the
-- shared memory at a time: `init_ex_allocate_pool2`, `try_init_ex_allocate_pool2` and
-- `get_ex_allocate_pool2`.
pub mod Inv
pub mod Moves
pub mod Safety
pub mod Alone
use kcom_rs.Prelude.{
  ℕ, suc, ◌+◌, ◌≡◌, Bool, true, false, Option, none, some, List, [], ◌∷◌, ◌==◌, ltb, if◌then◌else◌,
}

-- The values of EX_ALLOCATE_POOL2_STATE.
pub data Cached : Type 0 where
  uninit initing ready : Cached

-- EX_ALLOCATE_POOL2_STATE and EX_ALLOCATE_POOL2_PTR, and how often the kernel was asked for the
-- address.
pub record Cache : Type 0 where
  pub state : Cached
  pub ptr : ℕ
  pub lookups : ℕ

abbrev pub passive_level : ℕ
passive_level = 0

-- Who called `try_init_ex_allocate_pool2`: `init_ex_allocate_pool2` or `get_ex_allocate_pool2`.
pub data Caller : Type 0 where
  by_init by_get : Caller

-- Where a thread is, each time before an access to what the threads share: in no call, before the
-- first load of the state, before the compare-exchange, before `MmGetSystemRoutineAddress`, before
-- the stores of the address and of the state, before the second load, before the load of the address,
-- or back, with what `get_ex_allocate_pool2` returned. A thread keeps its IRQL during a call.
pub data Pc : Type 0 where
  outside : Pc
  before_load : (irql : ℕ) → Pc
  before_exchange : Caller → (irql : ℕ) → Pc
  before_lookup : Caller → (irql : ℕ) → Pc
  before_store : Caller → (found : ℕ) → Pc
  before_ready : Caller → Pc
  before_second_load : Pc
  before_read : Pc
  returned : (func : Option ℕ) → Pc

-- `try_init_ex_allocate_pool2` returns to its caller.
abbrev pub back_to : Caller → Pc
back_to by_init = outside
back_to by_get = before_second_load

abbrev pub first_load : (irql : ℕ) → Cached → Pc
first_load irql ready = before_second_load
first_load irql _ = before_exchange by_get irql

abbrev pub second_load : Cached → Pc
second_load ready = before_read
second_load _ = returned none

-- The compare-exchange from UNINIT to INITING.
abbrev pub exchange : Caller → (irql : ℕ) → Cached → Cache → Pc × Cache
exchange by irql uninit c = (before_lookup by irql, record c { state = initing })
exchange by irql _ c = (back_to by, c)

-- `KeGetCurrentIrql() > PASSIVE_LEVEL` comes first.
abbrev pub try_exchange : Caller → (irql : ℕ) → (above : Bool) → Cache → Pc × Cache
try_exchange by irql true c = (back_to by, c)
try_exchange by irql false c = exchange by irql c.state c

-- `MmGetSystemRoutineAddress` may only be called at PASSIVE_LEVEL.
abbrev pub lookup : (routine : ℕ) → Caller → (above : Bool) → Cache → Option (Pc × Cache)
lookup routine by true c = none
lookup routine by false c = some (before_store by routine, record c { lookups = c.lookups + 1 })

-- The next access of a thread. `routine` is the address that the kernel knows for the name, 0 if it
-- knows none.
unfoldable pub advance : (routine : ℕ) → Pc → Cache → Option (Pc × Cache)
advance routine outside c = some (outside, c)
advance routine (before_load irql) c = some (first_load irql c.state, c)
advance routine (before_exchange by irql) c = some (try_exchange by irql (ltb passive_level irql) c)
advance routine (before_lookup by irql) c = lookup routine by (ltb passive_level irql) c
advance routine (before_store by found) c = some (before_ready by, record c { ptr = found })
advance routine (before_ready by) c = some (back_to by, record c { state = ready })
advance routine before_second_load c = some (second_load c.state, c)
advance routine before_read c = some (returned (if c.ptr == 0 then none else some c.ptr), c)
advance routine (returned func) c = some (returned func, c)

-- A thread calls one of the two functions, unless it is in a call.
abbrev pub enter : (to : Pc) → Pc → Pc
enter to outside = to
enter to (returned func) = to
enter to pc = pc

pub data Event : Type 0 where
  calls_init calls_get : (thread irql : ℕ) → Event
  advances : (thread : ℕ) → Event

pub record System : Type 0 where
  pub cache : Cache
  pub threads : ℕ → Pc

abbrev pub put_thread : ℕ → Pc → (ℕ → Pc) → ℕ → Pc
put_thread i pc threads j = if j == i then pc else threads j

abbrev pub moved : ℕ → (ℕ → Pc) → Option (Pc × Cache) → Option System
moved i threads none = none
moved i threads (some (pc, c)) = some (record { cache = c; threads = put_thread i pc threads })

unfoldable pub step : (routine : ℕ) → Event → System → Option System
unfolding advance
step routine (calls_init i irql) s = some (record s {
  threads = put_thread i (enter (before_exchange by_init irql) (s.threads i)) s.threads;
})
step routine (calls_get i irql) s =
    some (record s { threads = put_thread i (enter (before_load irql) (s.threads i)) s.threads })
step routine (advances i) s = moved i s.threads (advance routine (s.threads i) s.cache)

unfoldable pub steps : (routine : ℕ) → List Event → System → Option System
unfolding step
steps routine [] s = some s
steps routine (e ∷ es) s = elim (step routine e s) [ none ↦ none | some s' ↦ steps routine es s' ]

-- When the driver is loaded.
abbrev pub loaded : System
loaded = record { cache = record { state = uninit; ptr = 0; lookups = 0 }; threads = λ i. outside }
