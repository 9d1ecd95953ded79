-- ===== src/Com/Consistency.antt =====
-- The rules of COM for `QueryInterface`, on an object of src/wrapper.rs with the interfaces that the
-- macros of src/macros/impl_interface.rs give it.
use kcom_rs.Prelude.{
  ℕ, suc, ◌≡◌, ◌<◌, inl, inr, refl, sym, subst, ap, ◌∙◌, arith, false, Bool-cases, Option, none,
  some, List, length, if◌then◌else◌,
}
use kcom_rs.Status.{NtStatus, status_success, status_nointerface}
use kcom_rs.RefCount.{RefCounter}
use kcom_rs.Com.{
  Guid, Pointer, null, primary, non_delegating, secondary, foreign, World, Others, Acts, same,
  iid_iunknown,
}
use kcom_rs.Com.Run.{Outcome, returned, halted, undefined}
use kcom_rs.Com.Methods.{query_interface}
use kcom_rs.Com.Interfaces.{query_primary, query_iunknown}
use kcom_rs.Com.States.{IsOwn, IsInterface, IsInterface-IsOwn, world_at}
use kcom_rs.Com.Query.{interface_of, found, answered, query_lem, interface_of-IsInterface}

-- What the caller of a method gets.
abbrev pub result_of : {A W : Type 0} → Outcome A W → Option A
result_of (returned a w) = some a
result_of halted = none
result_of (undefined w) = none

verdict : Option Pointer → NtStatus × Option Pointer
verdict none = (status_nointerface, some null)
verdict (some q) = (status_success, some q)

result_of-answered :
    {T O : Type 0} (m : ℕ) (inner : T) (n : ℕ) (o : O) (x : Option Pointer)
    → result_of (answered m inner n o x) ≡ some (verdict x)
unfolding verdict
result_of-answered m inner n o none = refl
result_of-answered m inner n o (some q) = refl

handed :
    {T O : Type 0} (m : ℕ) (inner : T) (n : ℕ) (o : O) (x : Option Pointer) (q : Pointer)
    (w : World T O)
    → answered m inner n o x ≡ returned (status_success, some q) w
    → (x ≡ some q) × (w ≡ world_at m none inner (suc (suc n)) o)
handed m inner n o none q w e = absurd (ground (arith, e))
handed m inner n o (some r) q w e = (cc e, cc e)

module _ (iid : Guid) (secondaries : List Guid) where
  -- What every interface pointer finds.
  abbrev shared : Guid → Option Pointer
  shared g = if same g iid_iunknown then some primary else interface_of iid secondaries g

  found-shared :
      (p : Pointer) (g : Guid)
      → IsInterface (length secondaries) p
      → found iid secondaries p g ≡ shared g
  found-shared primary g h = refl
  found-shared (secondary i) g h = refl
  found-shared null g h = absurd h
  found-shared non_delegating g h = absurd h
  found-shared (foreign k) g h = absurd h

  shared-IsInterface :
      (g : Guid) (q : Pointer) → shared g ≡ some q → IsInterface (length secondaries) q
  shared-IsInterface g q e = elim (Bool-cases (same g iid_iunknown)) [
    | inl t ↦
        let is : primary ≡ q = ground (arith, t, e) in
        subst (IsInterface (length secondaries)) is tt
    | inr f ↦ interface_of-IsInterface iid secondaries g q (ground (arith, f, e))
  ]

  module _ {T O : Type 0} (counter : RefCounter) (others : Others O) (destructor : Acts) (inner : T)
      (o : O) where
    result_lem :
        (p : Pointer) (g : Guid) (n : ℕ)
        → IsInterface (length secondaries) p
        → suc n < counter.limit
        → result_of (
            query_interface counter others destructor
              (query_primary iid secondaries query_iunknown)
              p
              (some g)
              false
              (world_at (length secondaries) none inner (suc n) o))
          ≡ some (verdict (shared g))
    result_lem p g n h room =
        ap result_of (
          query_lem counter others destructor iid secondaries inner o p g n
            (IsInterface-IsOwn (length secondaries) p h) room)
        ∙ result_of-answered (length secondaries) inner n o (found iid secondaries p g)
        ∙ ap (λ x. some (verdict x)) (found-shared p g h)

    -- If a query through an interface pointer hands out another pointer, then a query through that
    -- one, for any identifier, gives the same status and the same pointer as through the first. So
    -- interfaces found from one another are found from each of them, and `IID_IUNKNOWN` always gives
    -- the same pointer. The non-delegating `IUnknown` is no interface pointer.
    pub query-query :
        (p q : Pointer) (a b : Guid) (n : ℕ) (w : World T O)
        → IsInterface (length secondaries) p
        → suc (suc n) < counter.limit
        → query_interface counter others destructor
            (query_primary iid secondaries query_iunknown)
            p
            (some a)
            false
            (world_at (length secondaries) none inner (suc n) o)
          ≡ returned (status_success, some q) w
        → result_of (
            query_interface counter others destructor
              (query_primary iid secondaries query_iunknown)
              q
              (some b)
              false
              w)
          ≡ result_of (
              query_interface counter others destructor
                (query_primary iid secondaries query_iunknown)
                p
                (some b)
                false
                (world_at (length secondaries) none inner (suc n) o))
    query-query p q a b n w h room e =
        let m = length secondaries in
        let own : IsOwn m p = IsInterface-IsOwn m p h in
        let asked =
          query_lem counter others destructor iid secondaries inner o p a n own
            (omega (arith, room)) in
        let there = handed m inner n o (found iid secondaries p a) q w (sym asked ∙ e) in
        let interface : IsInterface m q =
          shared-IsInterface a q (sym (found-shared p a h) ∙ there.0) in
        rw (there.1)
          (result_lem q b (suc n) interface room ∙ sym (result_lem p b n h (omega (arith, room))))
