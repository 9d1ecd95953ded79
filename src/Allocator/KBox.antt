-- ===== src/Allocator/KBox.antt =====
-- src/allocator.rs: `KBox` and what initialises it in place, `PinInit`, `PinInitOnce` and `InitBox`,
-- for an allocator that is known by its interface.
pub mod Life
pub mod Once
pub mod Scope
pub mod Wdk
use kcom_rs.Prelude.{
  ℕ, ◌≡◌, ◌*◌, ◌+◌, ◌-◌, ◌^◌, Bool, true, false, Option, none, some, List, ◌∷◌, ◌==◌, ltb,
  if◌then◌else◌, M, ◌>>=◌, ◌>>◌, pure,
}
use kcom_rs.Status.{NtStatus, Result, ok, err, status_insufficient_resources, status_unsuccessful}
use kcom_rs.Allocator.{Layout}
use kcom_rs.Allocator.Interface.{Allocator}

pub data KBoxError (E : Type 0) : Type 0 where
  alloc_error : NtStatus → KBoxError E
  init_error : E → KBoxError E

unfoldable pub into_status : {E : Type 0} → (into : E → NtStatus) → KBoxError E → NtStatus
into_status into (alloc_error status) = status
into_status into (init_error e) = into e

-- `core::result::Result`, with any type of errors.
pub data Outcome (E A : Type 0) : Type 0 where
  done : A → Outcome E A
  failed : E → Outcome E A

-- A `KBox`, without its allocator.
pub record KBox : Type 0 where
  pub ptr : ℕ
  pub layout : Layout

unfoldable pub from_raw_parts : ℕ → Layout → KBox
from_raw_parts ptr layout = record { ptr = ptr; layout = layout }

unfoldable pub into_raw_parts : KBox → ℕ × Layout
into_raw_parts b = (b.ptr, b.layout)

-- The memory, and the addresses where a value was dropped in place.
pub record Heap (S : Type 0) : Type 0 where
  pub memory : S
  pub drops : List ℕ

-- `PinInit::init` of an initialiser with the state `I`.
abbrev pub Init : (S E I : Type 0) → Type 0
Init S E I = I → (ptr : ℕ) → M S (Outcome E (Unit {0}) × I)

-- `PinInitOnce`: the closure, until it has run.
unfoldable pub init_once :
    {S E : Type 0}
    → (from_status : NtStatus → E) → Init S E (Option (ℕ → M S (Outcome E (Unit {0}))))
init_once from_status none ptr = pure (failed (from_status status_unsuccessful), none)
init_once from_status (some init) ptr = init ptr >>= λ r. pure (r, none)

-- Code that sees the memory only.
abbrev pub on_memory : {S A : Type 0} → M S A → M (Heap S) A
on_memory m h = elim (m h.memory) [ none ↦ none | some (a, s) ↦ some (a, record h { memory = s }) ]

module _ {S : Type 0} (alloc : Allocator S) where
  -- `try_pin_init` after the initialiser has run.
  unfoldable pub finish_init :
      {E : Type 0}
      → (ptr : ℕ) → Layout
      → Outcome E (Unit {0})
      → M (Heap S) (Outcome (KBoxError E) KBox)
  unfolding from_raw_parts
  finish_init ptr l (failed e) = on_memory (alloc.dealloc ptr l) >> pure (failed (init_error e))
  finish_init ptr l (done u) = pure (done (from_raw_parts ptr l))

  unfoldable pub initialise :
      {E I : Type 0}
      → Init S E I
      → I
      → Layout
      → (ptr : ℕ) → (is_null : Bool) → M (Heap S) (Outcome (KBoxError E) KBox)
  unfolding finish_init
  initialise init i l ptr true = pure (failed (alloc_error status_insufficient_resources))
  initialise init i l ptr false = on_memory (init i ptr) >>= λ r. finish_init ptr l r.0

  -- `KBox::try_pin_init`, and `InitBox::try_pin`.
  unfoldable pub try_pin_init :
      {E I : Type 0} → Init S E I → I → Layout → M (Heap S) (Outcome (KBoxError E) KBox)
  unfolding initialise
  try_pin_init init i l = on_memory (alloc.alloc l) >>= λ p. initialise init i l p (p == 0)

  -- `Drop`: `drop_value` is `ptr::drop_in_place`.
  unfoldable pub drop_kbox : (drop_value : ℕ → M S (Unit {0})) → KBox → M (Heap S) (Unit {0})
  drop_kbox drop_value b =
      on_memory (drop_value b.ptr)
      >> (λ h. some (tt, record h { drops = b.ptr ∷ h.drops }))
      >> on_memory (alloc.dealloc b.ptr b.layout)

  unfoldable pub try_alloc_layout : Layout → M S (Result ℕ)
  try_alloc_layout l =
      alloc.alloc l >>= λ p. pure (if p == 0 then err status_insufficient_resources else ok p)

  -- `write` is the store of the value at an address.
  unfoldable pub try_alloc_value_in : (write : ℕ → S → S) → Layout → M S (Result ℕ)
  try_alloc_value_in write l = alloc.alloc l >>= λ p.
      if p == 0 then pure (err status_insufficient_resources) else λ s. some (ok p, write p s)

  unfoldable pub dealloc_value_in : (ptr : ℕ) → Layout → M S (Unit {0})
  dealloc_value_in ptr l = alloc.dealloc ptr l

  -- `Layout::array`: none if the size, rounded up to the alignment, passes `isize::MAX`.
  abbrev pub layout_array : Layout → (len : ℕ) → Option Layout
  layout_array l len =
      if ltb (2 ^ 63 - l.align) (l.size * len)
      then none
      else some (record { size = l.size * len; align = l.align })

  -- Without `debug_assertions`.
  unfoldable pub dealloc_slice_in : (ptr len : ℕ) → Layout → M S (Unit {0})
  dealloc_slice_in ptr len l = elim (layout_array l len) [
    | none ↦ pure tt
    | some array ↦ alloc.dealloc ptr array
  ]
