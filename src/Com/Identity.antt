-- ===== src/Com/Identity.antt =====
-- The identity of an object of src/wrapper.rs: a secondary interface answers as the primary one does,
-- though `shim_query_interface` and `shim_query_interface_secondary` are written separately.
use kcom_rs.Prelude.{
  ℕ, suc, ◌≡◌, ◌<◌, refl, sym, ◌∙◌, arith, Bool, true, false, Option, none, some, inl, inr,
  Bool-cases,
}
use kcom_rs.RefCount.{RefCounter}
use kcom_rs.Com.{
  Guid, Pointer, primary, secondary, Object, World, Others, Acts, same, iid_iunknown, try_new_with,
}
use kcom_rs.Com.Run.{bind_lem}
use kcom_rs.Com.Methods.{
  query_interface, from_ptr, parent_from_ptr, handed_out, secondary_handed_out, answer,
  secondary_answer, primary_query, secondary_query, shim_query_interface,
  shim_query_interface_secondary, shim_add_ref,
}
use kcom_rs.Com.States.{object_at, world_at, entry-replicate, new_lem}

first_pair :
    {A B : Type 0} {a c : A} {b d : B}
    → ◌≡◌ {A = Option (A × B)} (some (a, b)) (some (c, d))
    → (a ≡ c) × (b ≡ d)
first_pair e = (cc e, cc e)

module _ {T O : Type 0} (counter : RefCounter) (others : Others O) (destructor : Acts)
    (custom : T → Pointer → Guid → Option Pointer) where
  same_end :
      (found : Option Pointer) (w : World T O)
      → secondary_handed_out counter others destructor custom found w
        ≡ handed_out counter others destructor custom found w
  unfolding secondary_handed_out handed_out
  same_end none w = refl
  same_end (some ptr) w = refl

  same_answer :
      (object : Object T) (riid : Option Guid) (ppv_is_null : Bool) (w : World T O)
      → secondary_answer counter others destructor custom primary object riid ppv_is_null w
        ≡ answer counter others destructor custom primary
            (shim_add_ref counter others destructor custom primary)
            object
            riid
            ppv_is_null
            w
  unfolding secondary_answer answer
  same_answer object none true w = refl
  same_answer object none false w = refl
  same_answer object (some riid) true w = refl
  same_answer object (some riid) false w = elim (Bool-cases (same riid iid_iunknown)) [
    | inl unknown ↦ rw unknown refl
    | inr other ↦ rw other (same_end (custom object.inner primary riid) w)
  ]

  same_query :
      (outer : Option (Option ℕ)) (object : Object T) (riid : Option Guid) (ppv_is_null : Bool)
      (w : World T O)
      → secondary_query counter others destructor custom primary outer object riid ppv_is_null w
        ≡ primary_query counter others destructor custom primary outer object riid ppv_is_null w
  unfolding secondary_query primary_query
  same_query none object riid ppv_is_null w = same_answer object riid ppv_is_null w
  same_query (some none) object riid ppv_is_null w = same_answer object riid ppv_is_null w
  same_query (some (some k)) object riid ppv_is_null w = refl

  pub query-secondary_at :
      (m i n : ℕ) (outer : Option (Option ℕ)) (inner : T) (o : O) (riid : Option Guid)
      (ppv_is_null : Bool)
      → i < m
      → query_interface counter others destructor custom
          (secondary i)
          riid
          ppv_is_null
          (world_at m outer inner (suc n) o)
        ≡ query_interface counter others destructor custom primary riid ppv_is_null
            (world_at m outer inner (suc n) o)
  unfolding query_interface shim_query_interface shim_query_interface_secondary from_ptr
  query-secondary_at m i n outer inner o riid ppv_is_null h =
      bind_lem (parent_from_ptr (secondary i)) _ (world_at m outer inner (suc n) o)
        (world_at m outer inner (suc n) o) primary (ground (arith, entry-replicate m i h))
      ∙ same_query outer (object_at m outer inner (suc n)) riid ppv_is_null
          (world_at m outer inner (suc n) o)

  -- An object is made with `m` secondary interfaces, and may then have been given an outer object and
  -- other references than the first. A query through its secondary interface number `i` returns what
  -- the query through the primary interface returns and leaves the same world, whatever identifier
  -- and whatever null arguments it gets, and whatever `query_interface` its type has.
  pub query-secondary :
      (m i n : ℕ) (outer : Option (Option ℕ)) (inner : T) (o : O) (riid : Option Guid)
      (ppv_is_null : Bool) (p : Pointer) (object : Object T)
      → try_new_with true m inner ≡ some (p, object)
      → i < m
      → let w : World T O = record {
        object = record object { ref_count = suc n; outer_unknown = outer };
        others = o;
      } in
        query_interface counter others destructor custom (secondary i) riid ppv_is_null w
        ≡ query_interface counter others destructor custom p riid ppv_is_null w
  query-secondary m i n outer inner o riid ppv_is_null p object made h =
      let new : (p ≡ primary) × (object ≡ object_at m none inner 1) =
        first_pair (sym made ∙ new_lem m inner) in
      rw (new.0, new.1) (query-secondary_at m i n outer inner o riid ppv_is_null h)
