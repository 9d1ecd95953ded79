-- ===== src/Com/Interfaces.antt =====
-- src/macros/impl_interface.rs, src/traits.rs, src/vtable.rs: the `query_interface` methods that the
-- macros write for a type with a primary interface and secondary ones.
use kcom_rs.Prelude.{ℕ, ◌+◌, Bool, Option, none, some, List, [], ◌∷◌, if◌then◌else◌}
use kcom_rs.Com.{Guid, Pointer, null, primary, secondary, same}

-- `<T as ComImpl<IUnknownVtbl>>::query_interface`, the fallback when none is named.
unfoldable pub query_iunknown {ℓ} : {T : Type ℓ} → T → Pointer → Guid → Option Pointer
query_iunknown inner this riid = none

unfoldable pub is_null : Pointer → Bool
is_null null = Bool.true
is_null _ = Bool.false

unfoldable pub non_null : Pointer → Option Pointer
unfolding is_null
non_null ptr = if is_null ptr then none else some ptr

unfoldable pub match_interface_ptr : (iid riid : Guid) → Pointer → Option Pointer
unfolding non_null
match_interface_ptr iid riid ptr = if same riid iid then non_null ptr else none

-- `ComObjectN::secondary_ptr`, the address of an entry of the object behind a primary pointer.
unfoldable pub secondary_ptr : Pointer → ℕ → Pointer
secondary_ptr primary index = secondary index
secondary_ptr _ index = null

-- `impl_com_interface!` for a type without secondary interfaces.
unfoldable pub query_single {ℓ} :
    {T : Type ℓ}
    → (iid : Guid) → (fallback : T → Pointer → Guid → Option Pointer) → T
    → Pointer
    → Guid
    → Option Pointer
unfolding is_null
query_single iid fallback inner this riid =
    if is_null this then none else if same riid iid then some this else fallback inner this riid

-- `__kcom_qi_match_secondaries_from_wrapper!`: the tests that it writes one after the other, and what
-- follows them.
unfoldable pub match_secondaries :
    (iids : List Guid)
    → (index : ℕ) → (wrapper : Pointer) → Guid
    → (rest : Option Pointer) → Option Pointer
unfolding secondary_ptr non_null
match_secondaries [] index wrapper riid rest = rest
match_secondaries (head ∷ tail) index wrapper riid rest =
    let later = match_secondaries tail (index + 1) wrapper riid rest in
    if same riid head then non_null (secondary_ptr wrapper index) else later

-- `impl_com_interface!` for the primary interface of a type with secondary ones, and
-- `impl_com_interface_multiple!`, which writes the same tests for a secondary interface.
unfoldable pub query_primary {ℓ} :
    {T : Type ℓ}
    → (iid : Guid) → (secondaries : List Guid) → (fallback : T → Pointer → Guid → Option Pointer)
    → T
    → Pointer
    → Guid
    → Option Pointer
unfolding is_null match_secondaries
query_primary iid secondaries fallback inner this riid =
    if is_null this
    then none
    else if same riid iid
    then some this
    else match_secondaries secondaries 0 this riid (fallback inner this riid)

-- The tests of `impl_query_interface!` on the interfaces whose pointers are given.
unfoldable pub match_pointers : List (Guid × Pointer) → Guid → Option Pointer → Option Pointer
unfolding non_null
match_pointers [] riid rest = rest
match_pointers ((iid, ptr) ∷ more) riid rest =
    let later = match_pointers more riid rest in if same riid iid then non_null ptr else later

-- `impl_query_interface!` in a release build, for a primary interface with no pointer of its own.
unfoldable pub query_listed {ℓ} :
    {T : Type ℓ}
    → (iid : Guid) → (listed : List (Guid × Pointer))
    → (fallback : T → Pointer → Guid → Option Pointer) → T
    → Pointer
    → Guid
    → Option Pointer
unfolding match_pointers
query_listed iid listed fallback inner this riid =
    if same riid iid then some this else match_pointers listed riid (fallback inner this riid)
