-- ===== src/Com/Methods.antt =====
-- src/wrapper.rs: the `IUnknown` methods of an object, called on any pointer to it.
use kcom_rs.Prelude.{
  ℕ, zero, suc, Bool, true, false, Option, none, some, List, [], ◌∷◌, if◌then◌else◌,
}
use kcom_rs.Status.{NtStatus, status_success, status_nointerface}
use kcom_rs.RefCount.{RefCounter}
use kcom_rs.Com.{
  Guid, Pointer, null, primary, non_delegating, secondary, foreign, Object, World, Others, Acts,
  same, iid_iunknown,
}
use kcom_rs.Com.Run.{Run, returned, ◌>>=◌, pure, stray}
use kcom_rs.Com.Count.{
  access, count_up, release_own, other_add_ref, other_release, delegating_add_ref,
  delegating_release,
}

unfoldable pub entry : List Pointer → ℕ → Option Pointer
entry [] i = none
entry (p ∷ ps) zero = some p
entry (p ∷ ps) (suc i) = entry ps i

module _ {T O : Type 0} where
  -- The object behind a pointer that a method takes for its primary one.
  unfoldable pub from_ptr : Pointer → Run (World T O) (Object T)
  unfolding access
  from_ptr primary = access
  from_ptr _ = stray

  unfoldable pub found_parent : Option Pointer → Run (World T O) Pointer
  found_parent none = stray
  found_parent (some parent) = pure parent

  unfoldable pub parent_from_ptr : Pointer → Run (World T O) Pointer
  unfolding access entry found_parent
  parent_from_ptr (secondary i) = access >>= λ o. found_parent (entry o.secondaries i)
  parent_from_ptr _ = stray

  unfoldable pub from_secondary_ptr : Pointer → Run (World T O) (Object T)
  unfolding parent_from_ptr from_ptr
  from_secondary_ptr this = parent_from_ptr this >>= from_ptr

  unfoldable pub non_delegating_parent_ptr : Pointer → Run (World T O) Pointer
  unfolding access
  non_delegating_parent_ptr non_delegating = access >>= λ o. pure o.unknown_parent
  non_delegating_parent_ptr _ = stray

  unfoldable pub from_non_delegating : Pointer → Run (World T O) (Object T)
  unfolding non_delegating_parent_ptr from_ptr
  from_non_delegating this = non_delegating_parent_ptr this >>= from_ptr

  unfoldable pub other_query :
      Others O → ℕ → Option Guid → Bool → Run (World T O) (NtStatus × Option Pointer)
  other_query others k riid ppv_is_null w =
      let r = others.query_interface k riid ppv_is_null w.others in
      returned (r.0) (record w { others = r.1 })

-- `destructor` is what the destructor of `T` does to the count, and `custom` the method
-- `query_interface` of `T`.
module _ {T O : Type 0} (counter : RefCounter) (others : Others O) (destructor : Acts)
    (custom : T → Pointer → Guid → Option Pointer) where
  unfoldable pub shim_add_ref : Pointer → Run (World T O) ℕ
  unfolding from_ptr delegating_add_ref
  shim_add_ref this = from_ptr this >>= λ o. delegating_add_ref counter others o.outer_unknown

  unfoldable pub shim_release : Pointer → Run (World T O) ℕ
  unfolding from_ptr delegating_release
  shim_release this =
      from_ptr this >>= λ o. delegating_release counter others destructor o.outer_unknown

  unfoldable pub shim_add_ref_secondary : Pointer → Run (World T O) ℕ
  unfolding from_secondary_ptr delegating_add_ref
  shim_add_ref_secondary this =
      from_secondary_ptr this >>= λ o. delegating_add_ref counter others o.outer_unknown

  unfoldable pub shim_release_secondary : Pointer → Run (World T O) ℕ
  unfolding parent_from_ptr shim_release
  shim_release_secondary this = parent_from_ptr this >>= shim_release

  unfoldable pub shim_non_delegating_add_ref : Pointer → Run (World T O) ℕ
  unfolding from_non_delegating count_up
  shim_non_delegating_add_ref this = from_non_delegating this >>= λ _. count_up counter

  unfoldable pub shim_non_delegating_release : Pointer → Run (World T O) ℕ
  unfolding from_non_delegating release_own
  shim_non_delegating_release this =
      from_non_delegating this >>= λ _. release_own counter destructor

  -- `AddRef` and `Release` through the vtable of a pointer.
  unfoldable pub add_ref : Pointer → Run (World T O) ℕ
  unfolding shim_add_ref shim_add_ref_secondary shim_non_delegating_add_ref other_add_ref
  add_ref null = stray
  add_ref primary = shim_add_ref primary
  add_ref (secondary i) = shim_add_ref_secondary (secondary i)
  add_ref non_delegating = shim_non_delegating_add_ref non_delegating
  add_ref (foreign k) = other_add_ref others k

  unfoldable pub release : Pointer → Run (World T O) ℕ
  unfolding shim_release shim_release_secondary shim_non_delegating_release other_release
  release null = stray
  release primary = shim_release primary
  release (secondary i) = shim_release_secondary (secondary i)
  release non_delegating = shim_non_delegating_release non_delegating
  release (foreign k) = other_release others k

  -- The end of `QueryInterface` on the primary and the non-delegating interface, on what `custom`
  -- finds.
  unfoldable pub handed_out : Option Pointer → Run (World T O) (NtStatus × Option Pointer)
  unfolding add_ref
  handed_out none = pure (status_nointerface, some null)
  handed_out (some ptr) = add_ref ptr >>= λ _. pure (status_success, some ptr)

  -- What they share: `unknown` is the answer to `IID_IUNKNOWN`, whose reference `add_unknown` counts.
  unfoldable pub answer :
      (unknown : Pointer)
      → (add_unknown : Run (World T O) ℕ) → Object T
      → Option Guid
      → (ppv_is_null : Bool) → Run (World T O) (NtStatus × Option Pointer)
  unfolding handed_out
  answer unknown add_unknown o none ppv_is_null = pure (status_nointerface, none)
  answer unknown add_unknown o (some riid) true = pure (status_nointerface, none)
  answer unknown add_unknown o (some riid) false =
      if same riid iid_iunknown
      then (add_unknown >>= λ _. pure (status_success, some unknown))
      else handed_out (custom o.inner primary riid)

  -- The body of `shim_query_interface`, by the outer object.
  unfoldable pub primary_query :
      (this : Pointer)
      → Option (Option ℕ)
      → Object T
      → Option Guid
      → Bool
      → Run (World T O) (NtStatus × Option Pointer)
  unfolding other_query answer shim_add_ref
  primary_query this (some (some outer)) o riid ppv_is_null =
      other_query others outer riid ppv_is_null
  primary_query this (some none) o riid ppv_is_null =
      answer this (shim_add_ref this) o riid ppv_is_null
  primary_query this none o riid ppv_is_null = answer this (shim_add_ref this) o riid ppv_is_null

  unfoldable pub shim_query_interface :
      Pointer → Option Guid → Bool → Run (World T O) (NtStatus × Option Pointer)
  unfolding from_ptr primary_query
  shim_query_interface this riid ppv_is_null =
      from_ptr this >>= λ o. primary_query this o.outer_unknown o riid ppv_is_null

  -- The body of `shim_query_interface_secondary`, which the source writes out again: its end, its
  -- tests on its arguments, and its test for an outer object. `parent` is the pointer that the entry
  -- holds.
  unfoldable pub secondary_handed_out : Option Pointer → Run (World T O) (NtStatus × Option Pointer)
  unfolding add_ref
  secondary_handed_out (some ptr) = do _ ← add_ref ptr; pure (status_success, some ptr)
  secondary_handed_out none = pure (status_nointerface, some null)

  unfoldable pub secondary_answer :
      (parent : Pointer)
      → Object T
      → Option Guid
      → (ppv_is_null : Bool) → Run (World T O) (NtStatus × Option Pointer)
  unfolding secondary_handed_out shim_add_ref
  secondary_answer parent o riid true = pure (status_nointerface, none)
  secondary_answer parent o none false = pure (status_nointerface, none)
  secondary_answer parent o (some riid) false =
      if same riid iid_iunknown
      then (do _ ← shim_add_ref parent; pure (status_success, some parent))
      else secondary_handed_out (custom o.inner parent riid)

  unfoldable pub secondary_query :
      (parent : Pointer)
      → Option (Option ℕ)
      → Object T
      → Option Guid
      → Bool
      → Run (World T O) (NtStatus × Option Pointer)
  unfolding other_query secondary_answer
  secondary_query parent none o riid ppv_is_null = secondary_answer parent o riid ppv_is_null
  secondary_query parent (some none) o riid ppv_is_null = secondary_answer parent o riid ppv_is_null
  secondary_query parent (some (some outer)) o riid ppv_is_null =
      other_query others outer riid ppv_is_null

  unfoldable pub shim_query_interface_secondary :
      Pointer → Option Guid → Bool → Run (World T O) (NtStatus × Option Pointer)
  unfolding parent_from_ptr from_ptr secondary_query
  shim_query_interface_secondary this riid ppv_is_null = do
    parent ← parent_from_ptr this
    o ← from_ptr parent
    secondary_query parent o.outer_unknown o riid ppv_is_null

  unfoldable pub shim_non_delegating_query_interface :
      Pointer → Option Guid → Bool → Run (World T O) (NtStatus × Option Pointer)
  unfolding from_non_delegating answer shim_non_delegating_add_ref
  shim_non_delegating_query_interface this riid ppv_is_null = do
    o ← from_non_delegating this
    answer this (shim_non_delegating_add_ref this) o riid ppv_is_null

  -- `QueryInterface` through the vtable of a pointer.
  unfoldable pub query_interface :
      Pointer → Option Guid → Bool → Run (World T O) (NtStatus × Option Pointer)
  unfolding shim_query_interface shim_query_interface_secondary shim_non_delegating_query_interface
      other_query
  query_interface null riid ppv_is_null = stray
  query_interface primary riid ppv_is_null = shim_query_interface primary riid ppv_is_null
  query_interface (secondary i) riid ppv_is_null =
      shim_query_interface_secondary (secondary i) riid ppv_is_null
  query_interface non_delegating riid ppv_is_null =
      shim_non_delegating_query_interface non_delegating riid ppv_is_null
  query_interface (foreign k) riid ppv_is_null = other_query others k riid ppv_is_null
