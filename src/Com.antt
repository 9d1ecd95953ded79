-- ===== src/Com.antt =====
-- src/wrapper.rs, src/iunknown.rs: a COM object, the pointers to it, and the world that its methods
-- work in.
pub mod Run
pub mod Count
pub mod Methods
pub mod Interfaces
pub mod States
pub mod Calls
pub mod Identity
pub mod Query
pub mod Clients
pub mod Lifetime
pub mod Rc
pub mod Destructor
pub mod Aggregation
pub mod Consistency
use kcom_rs.Prelude.{
  ℕ, ◌≡◌, Bool, true, false, ◌&&◌, Option, none, some, List, [], ◌∷◌, replicate, ◌==◌,
}
use kcom_rs.Status.{NtStatus}

-- `GUID`; `data4` is the list of its bytes.
pub record Guid : Type 0 where
  pub data1 : ℕ
  pub data2 : ℕ
  pub data3 : ℕ
  pub data4 : List ℕ

same_bytes : List ℕ → List ℕ → Bool
same_bytes [] [] = true
same_bytes (x ∷ xs) (y ∷ ys) = (x == y) && same_bytes xs ys
same_bytes [] (y ∷ ys) = false
same_bytes (x ∷ xs) [] = false

-- The derived `PartialEq`
unfoldable pub same : Guid → Guid → Bool
unfolding same_bytes
same a b =
    (a.data1 == b.data1)
    && (a.data2 == b.data2)
    && (a.data3 == b.data3)
    && same_bytes a.data4 b.data4

abbrev pub iid_iunknown : Guid
iid_iunknown = record {
  data1 = 0;
  data2 = 0;
  data3 = 0;
  data4 = 0xC0 ∷ 0 ∷ 0 ∷ 0 ∷ 0 ∷ 0 ∷ 0 ∷ 0x46 ∷ [];
}

-- An interface pointer: to the object itself, to the entry of a secondary interface, to its
-- non-delegating `IUnknown`, or to another object.
pub data Pointer : Type 0 where
  null primary non_delegating : Pointer
  secondary : (index : ℕ) → Pointer
  foreign : (other : ℕ) → Pointer

-- `ComObjectN`; a `ComObject` is one without secondaries. An entry of the secondaries is its pointer
-- `parent`, and the non-delegating `IUnknown` is its own. An outer object is the number of another
-- object, or `none` for the null pointer. `drops` and `frees` count what is done to `inner` and to
-- the memory.
pub record Object (T : Type 0) : Type 0 where
  pub secondaries : List Pointer
  pub unknown_parent : Pointer
  pub ref_count : ℕ
  pub outer_unknown : Option (Option ℕ)
  pub inner : T
  pub drops : ℕ
  pub frees : ℕ

-- The object and the state of all others.
pub record World (T O : Type 0) : Type 0 where
  pub object : Object T
  pub others : O

-- The `IUnknown` methods of the other objects, which are parameters. `QueryInterface` gets its two
-- arguments, null or not, and gives what it wrote through the second, if anything.
pub record Others (O : Type 0) : Type 0 where
  pub add_ref : ℕ → O → ℕ × O
  pub release : ℕ → O → ℕ × O
  pub query_interface : ℕ → Option Guid → (ppv_is_null : Bool) → O → (NtStatus × Option Pointer) × O

-- What the destructor of `inner` does to the count of its own object, in order. If a release brings
-- the count to zero, `inner` is destroyed again: `again` is what its destructor does then.
pub data Acts : Type 0 where
  quiet : Acts
  adds : (later : Acts) → Acts
  releases : (again later : Acts) → Acts

-- `SecondaryList::init`
unfoldable pub init_entries : List Pointer → Pointer → List Pointer
init_entries [] parent = []
init_entries (e ∷ es) parent = parent ∷ init_entries es parent

module _ {T : Type 0} where
  -- The memory that the constructors write, before the pointers to it are set.
  abbrev written : ℕ → Option (Option ℕ) → T → Object T
  written n outer inner = record {
    secondaries = replicate n null;
    unknown_parent = null;
    ref_count = 1;
    outer_unknown = outer;
    inner = inner;
    drops = 0;
    frees = 0;
  }

  unfoldable pub init_non_delegating_ptr : Object T → Object T
  init_non_delegating_ptr o = record o { unknown_parent = primary }

  unfoldable pub init_secondary_ptr : Object T → Object T
  unfolding init_entries
  init_secondary_ptr o = record o { secondaries = init_entries o.secondaries primary }

  -- `ComObject::try_new_in`; the allocation succeeds or not.
  unfoldable pub try_new_in : (allocated : Bool) → T → Option (Pointer × Object T)
  unfolding init_non_delegating_ptr
  try_new_in false inner = none
  try_new_in true inner = some (primary, init_non_delegating_ptr (written 0 none inner))

  unfoldable pub try_new_aggregated_in :
      (allocated : Bool) → (outer : Option ℕ) → T → Option (Pointer × Object T)
  unfolding init_non_delegating_ptr
  try_new_aggregated_in false outer inner = none
  try_new_aggregated_in true outer inner =
      some (non_delegating, init_non_delegating_ptr (written 0 (some outer) inner))

  -- `ComObjectN::try_new_in`, with `n` secondary interfaces.
  unfoldable pub try_new_with : (allocated : Bool) → (n : ℕ) → T → Option (Pointer × Object T)
  unfolding init_non_delegating_ptr init_secondary_ptr
  try_new_with false n inner = none
  try_new_with true n inner =
      some (primary, init_secondary_ptr (init_non_delegating_ptr (written n none inner)))
