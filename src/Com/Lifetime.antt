-- ===== src/Com/Lifetime.antt =====
-- A COM object of src/wrapper.rs from its construction to its end, whatever its clients call on it.
use kcom_rs.Prelude.{
  ℕ, zero, suc, ◌≡◌, ◌<◌, refl, sym, ◌∙◌, arith, true, false, Option, none, some, List, [], ◌∷◌,
  length,
}
use kcom_rs.Status.{NtStatus}
use kcom_rs.RefCount.{RefCounter}
use kcom_rs.Com.{quiet, Guid, Pointer, Object, World, Others, try_new_with}
use kcom_rs.Com.Run.{Run, returned, bind_lem, quietly, quietly_lem}
use kcom_rs.Com.Methods.{add_ref, release, query_interface}
use kcom_rs.Com.Interfaces.{query_primary, query_iunknown}
use kcom_rs.Com.Clients.{Call, adding, releasing, querying, IsOwnCall, perform, performs}
use kcom_rs.Com.States.{object_at, world_at, new_lem}
use kcom_rs.Com.Calls.{add_ref_lem, release_lem}
use kcom_rs.Com.Query.{found, answered, query_lem}

abbrev pub one_less : ℕ → ℕ
one_less zero = zero
one_less (suc n) = n

quiet_answer :
    {T O : Type 0} (call : Run (World T O) (NtStatus × Option Pointer)) (m : ℕ) (inner : T) (n : ℕ)
    (o : O) (q : Option Pointer)
    → call (world_at m none inner (suc n) o) ≡ answered m inner n o q
    → quietly call (world_at m none inner (suc n) o)
      ≡ returned tt (world_at m none inner (elim q [ none ↦ suc n | some p ↦ suc (suc n) ]) o)
quiet_answer call m inner n o none e = quietly_lem call _ _ _ e
quiet_answer call m inner n o (some q) e = quietly_lem call _ _ _ e

module _ (iid : Guid) (secondaries : List Guid) where
  -- The references after a call.
  abbrev pub after : Call → ℕ → ℕ
  after (adding p) n = suc n
  after (releasing p) n = one_less n
  after (querying p g) n = elim (found iid secondaries p g) [ none ↦ n | some q ↦ suc n ]

  abbrev pub total : List Call → ℕ → ℕ
  total [] n = n
  total (c ∷ later) n = total later (after c n)

  -- Every call goes to the object while a reference to it is left, and the references stay below the
  -- limit.
  abbrev pub Fits : (limit : ℕ) → List Call → ℕ → Type 0
  Fits limit [] n = Unit
  Fits limit (c ∷ later) zero = ⊥
  Fits limit (c ∷ later) (suc n) =
      IsOwnCall (length secondaries) c × (suc n < limit) × Fits limit later (after c (suc n))

  module _ {T O : Type 0} (counter : RefCounter) (others : Others O) where
    abbrev custom : T → Pointer → Guid → Option Pointer
    custom = query_primary iid secondaries query_iunknown

    perform_lem :
        (c : Call) (inner : T) (n : ℕ) (o : O)
        → IsOwnCall (length secondaries) c
        → suc n < counter.limit
        → perform counter others quiet custom c (world_at (length secondaries) none inner (suc n) o)
          ≡ returned tt (world_at (length secondaries) none inner (after c (suc n)) o)
    perform_lem (adding p) inner n o own h =
        quietly_lem (add_ref counter others quiet custom p) _ _ _
          (add_ref_lem counter others quiet custom (length secondaries) inner o p n own h)
    perform_lem (releasing p) inner n o own h =
        quietly_lem (release counter others quiet custom p) _ _ _ (
          release_lem counter others custom (length secondaries) inner o p n own (omega (arith, h)))
    perform_lem (querying p g) inner n o own h =
        quiet_answer (query_interface counter others quiet custom p (some g) false)
          (length secondaries) inner n o (found iid secondaries p g)
          (query_lem counter others quiet iid secondaries inner o p g n own h)

    performs_lem :
        (calls : List Call) (inner : T) (n : ℕ) (o : O)
        → Fits counter.limit calls n
        → performs counter others quiet custom calls (world_at (length secondaries) none inner n o)
          ≡ returned tt (world_at (length secondaries) none inner (total calls n) o)
    performs_lem [] inner n o fits = refl
    performs_lem (c ∷ later) inner zero o fits = absurd fits
    performs_lem (c ∷ later) inner (suc n) o (own, h, fits) =
        bind_lem (perform counter others quiet custom c)
          (λ _. performs counter others quiet custom later) _ _ tt (perform_lem c inner n o own h)
        ∙ performs_lem later inner (after c (suc n)) o fits

    -- Clients call `AddRef`, `Release` and `QueryInterface` on a new object through any of its
    -- pointers, in any order, as long as a reference is left for each call and the references stay
    -- below the counter's limit. All calls return. The count is then the number of references that
    -- were taken and not given back: one for the construction, each `AddRef` and each query with an
    -- answer. While it is not zero nothing is dropped or freed; at zero the value was dropped once and
    -- the memory freed once.
    pub lifetime_lem :
        (calls : List Call) (inner : T) (o : O) (p : Pointer) (object : Object T)
        → try_new_with true (length secondaries) inner ≡ some (p, object)
        → Fits counter.limit calls 1
        → performs counter others quiet custom calls (record { object = object; others = o })
          ≡ returned tt (world_at (length secondaries) none inner (total calls 1) o)
    lifetime_lem calls inner o p object e fits =
        let same_object : object ≡ object_at (length secondaries) none inner 1 =
          cc (sym (new_lem (length secondaries) inner) ∙ e) in
        rw same_object (performs_lem calls inner 1 o fits)
