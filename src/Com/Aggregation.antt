-- ===== src/Com/Aggregation.antt =====
-- An aggregated object of src/wrapper.rs: what it leaves to its outer object, and what keeps it alive.
use kcom_rs.Prelude.{
  ℕ, zero, suc, ◌≡◌, ◌<◌, inl, inr, refl, ◌∙◌, arith, true, false, Bool-cases, Option, some, List,
  [], ◌∷◌, if◌then◌else◌,
}
use kcom_rs.RefCount.{RefCounter}
use kcom_rs.Com.{
  quiet, Guid, Pointer, null, primary, non_delegating, secondary, foreign, Object, World, Others,
  same, iid_iunknown, try_new_aggregated_in,
}
use kcom_rs.Com.Run.{returned, bind_lem}
use kcom_rs.Com.Methods.{add_ref, release, query_interface}
use kcom_rs.Com.Interfaces.{query_single, query_iunknown}
use kcom_rs.Com.States.{object_at, world_at}
use kcom_rs.Com.Clients.{Call, adding, releasing, querying, IsOwnCall, perform, performs}
use kcom_rs.Com.Lifetime.{one_less}

module _ (iid : Guid) {O : Type 0} (others : Others O) (outer : ℕ) where
  -- What a call does to the references of the non-delegating `IUnknown` and to the other objects. A
  -- call through the interface is the same call of the outer object.
  abbrev pub step : Call → ℕ × O → ℕ × O
  step (adding non_delegating) (n, o) = (suc n, o)
  step (releasing non_delegating) (n, o) = (one_less n, o)
  step (querying non_delegating g) (n, o) =
      if same g iid_iunknown
      then (suc n, o)
      else if same g iid
      then (n, (others.add_ref outer o).1)
      else (n, o)
  step (adding _) (n, o) = (n, (others.add_ref outer o).1)
  step (releasing _) (n, o) = (n, (others.release outer o).1)
  step (querying _ g) (n, o) = (n, (others.query_interface outer (some g) false o).1)

  abbrev pub steps : List Call → ℕ × O → ℕ × O
  steps [] s = s
  steps (c ∷ later) s = steps later (step c s)

  -- The non-delegating `IUnknown` has a reference left at each call, and they stay below the limit.
  abbrev pub Fits : (limit : ℕ) → List Call → ℕ × O → Type 0
  Fits limit [] s = Unit
  Fits limit (c ∷ later) (zero, o) = ⊥
  Fits limit (c ∷ later) (suc n, o) =
      IsOwnCall 0 c × (suc n < limit) × Fits limit later (step c (suc n, o))

  module _ {T : Type 0} (counter : RefCounter) (inner : T) where
    abbrev custom : T → Pointer → Guid → Option Pointer
    custom = query_single iid query_iunknown

    abbrev pub at : ℕ × O → World T O
    at s = world_at 0 (some (some outer)) inner (s.0) (s.1)

    step_lem :
        (c : Call) (n : ℕ) (o : O)
        → IsOwnCall 0 c
        → suc n < counter.limit
        → perform counter others quiet custom c (at (suc n, o))
          ≡ returned tt (at (step c (suc n, o)))
    unfolding add_ref release query_interface query_single query_iunknown
    step_lem (adding primary) n o own h = refl
    step_lem (adding non_delegating) n o own h = ground (arith, counter.add_within (suc n) h)
    step_lem (releasing primary) n o own h = refl
    step_lem (releasing non_delegating) zero o own h =
        ground (arith, counter.sub_within zero (omega (arith, h)))
    step_lem (releasing non_delegating) (suc n) o own h =
        ground (arith, counter.sub_within (suc n) (omega (arith, h)))
    step_lem (querying primary g) n o own h = refl
    step_lem (querying non_delegating g) n o own h = elim (Bool-cases (same g iid_iunknown)) [
      | inl t ↦ ground (arith, t, counter.add_within (suc n) h)
      | inr f ↦ elim (Bool-cases (same g iid)) [
        | inl t ↦ ground (arith, f, t)
        | inr f' ↦ ground (arith, f, f')
      ]
    ]
    step_lem (adding null) n o own h = absurd own
    step_lem (adding (secondary i)) n o own h = absurd (omega (arith, own))
    step_lem (adding (foreign k)) n o own h = absurd own
    step_lem (releasing null) n o own h = absurd own
    step_lem (releasing (secondary i)) n o own h = absurd (omega (arith, own))
    step_lem (releasing (foreign k)) n o own h = absurd own
    step_lem (querying null g) n o own h = absurd own
    step_lem (querying (secondary i) g) n o own h = absurd (omega (arith, own))
    step_lem (querying (foreign k) g) n o own h = absurd own

    steps_lem :
        (calls : List Call) (s : ℕ × O)
        → Fits counter.limit calls s
        → performs counter others quiet custom calls (at s) ≡ returned tt (at (steps calls s))
    steps_lem [] s fits = refl
    steps_lem (c ∷ later) (zero, o) fits = absurd fits
    steps_lem (c ∷ later) (suc n, o) (own, h, fits) =
        bind_lem (perform counter others quiet custom c)
          (λ _. performs counter others quiet custom later) _ _ tt (step_lem c n o own h)
        ∙ steps_lem later (step c (suc n, o)) fits

    -- Clients call `AddRef`, `Release` and `QueryInterface` on an object made by `new_aggregated`, on
    -- its interface and on the non-delegating `IUnknown` that the outer object holds, in any order, as
    -- long as the latter has a reference left at each call and its references stay below the
    -- counter's limit. All calls return. Each call on the interface, and the `AddRef` for an interface
    -- that the non-delegating `QueryInterface` hands out, is one call of the outer object and leaves
    -- this object as it was. Only the non-delegating calls count here: the value is dropped and the
    -- memory freed, once each, exactly when their references are all given back.
    pub aggregated_lem :
        (calls : List Call) (o : O) (p : Pointer) (object : Object T)
        → try_new_aggregated_in true (some outer) inner ≡ some (p, object)
        → Fits counter.limit calls (1, o)
        → (p ≡ non_delegating)
          × (performs counter others quiet custom calls (record { object = object; others = o })
              ≡ returned tt (at (steps calls (1, o))))
    unfolding try_new_aggregated_in
    aggregated_lem calls o p object e fits =
        let same_object : object ≡ object_at 0 (some (some outer)) inner 1 = cc e in
        (cc e, rw same_object (steps_lem calls (1, o) fits))
