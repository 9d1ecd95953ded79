-- ===== src/Com/Query.antt =====
-- What `QueryInterface` of src/wrapper.rs finds, with the interfaces that the macros of
-- src/macros/impl_interface.rs give a type.
use kcom_rs.Prelude.{
  ℕ, suc, ◌+◌, ◌≡◌, ◌<◌, inl, inr, refl, subst, ◌∙◌, arith, false, Bool-cases, Option, Option-cases,
  none, some, List, [], ◌∷◌, length, if◌then◌else◌,
}
use kcom_rs.Status.{NtStatus, status_success, status_nointerface}
use kcom_rs.RefCount.{RefCounter}
use kcom_rs.Com.{
  Guid, Pointer, null, primary, non_delegating, secondary, foreign, World, Others, Acts, same,
  iid_iunknown,
}
use kcom_rs.Com.Run.{Run, Outcome, returned, bind_lem}
use kcom_rs.Com.Methods.{add_ref, query_interface, answer, handed_out}
use kcom_rs.Com.Interfaces.{query_primary, query_iunknown, match_secondaries}
use kcom_rs.Com.States.{IsOwn, IsInterface, IsInterface-IsOwn, world_at, object_at}
use kcom_rs.Com.Calls.{add_ref_lem}
use kcom_rs.Com.Identity.{query-secondary_at}

-- The first interface in a list that has the identifier.
abbrev pub position : List Guid → Guid → Option ℕ
position [] g = none
position (head ∷ tail) g =
    if same g head then some 0 else elim (position tail g) [ none ↦ none | some i ↦ some (suc i) ]

abbrev pub secondary_from : ℕ → Option ℕ → Option Pointer
secondary_from k none = none
secondary_from k (some i) = some (secondary (k + i))

position-lt : (iids : List Guid) (g : Guid) (i : ℕ) → position iids g ≡ some i → i < length iids
position-lt [] g i e = absurd (ground (arith, e))
position-lt (head ∷ tail) g i e = elim (Bool-cases (same g head)) [
  | inl t ↦ ground (arith, t, e)
  | inr f ↦ elim (Option-cases (position tail g)) [
    | inl none_there ↦ absurd (ground (arith, f, e, none_there))
    | inr (j, there) ↦ ground (arith, f, e, there, position-lt tail g j there)
  ]
]

match-position :
    (iids : List Guid) (k : ℕ) (g : Guid)
    → match_secondaries iids k primary g none ≡ secondary_from k (position iids g)
unfolding match_secondaries
match-position [] k g = refl
match-position (head ∷ tail) k g = elim (Bool-cases (same g head)) [
  | inl t ↦ ground (arith, t)
  | inr f ↦ elim (Option-cases (position tail g)) [
    | inl e ↦ ground (arith, f, e, match-position tail (k + 1) g)
    | inr (j, e) ↦ ground (arith, f, e, match-position tail (k + 1) g)
  ]
]

-- The interface pointer that an object with these interfaces has for an identifier.
abbrev pub interface_of : (iid : Guid) → (secondaries : List Guid) → Guid → Option Pointer
interface_of iid secondaries g =
    if same g iid then some primary else secondary_from 0 (position secondaries g)

-- What a query gives through a pointer.
abbrev pub found : (iid : Guid) → (secondaries : List Guid) → Pointer → Guid → Option Pointer
found iid secondaries p g =
    if same g iid_iunknown
    then some (elim p [ non_delegating ↦ non_delegating | _ ↦ primary ])
    else interface_of iid secondaries g

pub interface_of-IsInterface :
    (iid : Guid) (secondaries : List Guid) (g : Guid) (q : Pointer)
    → interface_of iid secondaries g ≡ some q
    → IsInterface (length secondaries) q
interface_of-IsInterface iid secondaries g q e = elim (Bool-cases (same g iid)) [
  | inl t ↦
      let is : primary ≡ q = ground (arith, t, e) in subst (IsInterface (length secondaries)) is tt
  | inr f ↦ elim (Option-cases (position secondaries g)) [
    | inl n ↦ absurd (ground (arith, f, e, n))
    | inr (j, there) ↦
        let is : secondary j ≡ q = ground (arith, f, e, there) in
        subst (IsInterface (length secondaries)) is (position-lt secondaries g j there)
  ]
]

pub query_primary_lem :
    {T : Type 0} (iid : Guid) (secondaries : List Guid) (inner : T) (g : Guid)
    → query_primary iid secondaries query_iunknown inner primary g ≡ interface_of iid secondaries g
unfolding query_primary query_iunknown
query_primary_lem iid secondaries inner g = rw (match-position secondaries 0 g) refl

-- A query with an answer counts one reference and hands the pointer out; one without answers
-- `STATUS_NOINTERFACE` and a null pointer.
abbrev pub answered :
    {T O : Type 0}
    → ℕ
    → T
    → ℕ
    → O
    → Option Pointer
    → Outcome (NtStatus × Option Pointer) (World T O)
answered m inner n o none =
    returned (status_nointerface, some null) (world_at m none inner (suc n) o)
answered m inner n o (some q) =
    returned (status_success, some q) (world_at m none inner (suc (suc n)) o)

module _ {T O : Type 0} (counter : RefCounter) (others : Others O) (destructor : Acts) (iid : Guid)
    (secondaries : List Guid) (inner : T) (o : O) where
  abbrev own_query : T → Pointer → Guid → Option Pointer
  own_query = query_primary iid secondaries query_iunknown

  handed_out_lem :
      (n : ℕ) (q : Option Pointer)
      → ((p : Pointer) → q ≡ some p → IsOwn (length secondaries) p)
      → suc n < counter.limit
      → handed_out counter others destructor own_query q
          (world_at (length secondaries) none inner (suc n) o)
        ≡ answered (length secondaries) inner n o q
  unfolding handed_out
  handed_out_lem n none own h = refl
  handed_out_lem n (some q) own h =
      bind_lem (add_ref counter others destructor own_query q) _ _ _ _ (
        add_ref_lem counter others destructor own_query (length secondaries) inner o q n
          (own q refl) h)

  answer_lem :
      (unknown : Pointer) (add : Run (World T O) ℕ) (g : Guid) (n : ℕ)
      → suc n < counter.limit
      → add (world_at (length secondaries) none inner (suc n) o)
        ≡ returned (suc (suc n)) (world_at (length secondaries) none inner (suc (suc n)) o)
      → answer counter others destructor own_query unknown add
          (object_at (length secondaries) none inner (suc n))
          (some g)
          false
          (world_at (length secondaries) none inner (suc n) o)
        ≡ answered
            (length secondaries)
            inner
            n
            o
            (if same g iid_iunknown then some unknown else interface_of iid secondaries g)
  unfolding answer
  answer_lem unknown add g n h e = elim (Bool-cases (same g iid_iunknown)) [
    | inl t ↦ rw t (bind_lem add _ _ _ _ e)
    | inr f ↦
        rw (f, query_primary_lem iid secondaries inner g)
          (handed_out_lem n (interface_of iid secondaries g)
            (λ q e.
              IsInterface-IsOwn (length secondaries) q
                (interface_of-IsInterface iid secondaries g q e))
            h)
  ]

  query_primary_pointer :
      (g : Guid) (n : ℕ)
      → suc n < counter.limit
      → query_interface counter others destructor own_query primary
          (some g)
          false
          (world_at (length secondaries) none inner (suc n) o)
        ≡ answered (length secondaries) inner n o (found iid secondaries primary g)
  unfolding query_interface add_ref
  query_primary_pointer g n h =
      answer_lem primary (add_ref counter others destructor own_query primary) g n h (
        add_ref_lem counter others destructor own_query (length secondaries) inner o primary n tt h)

  pub query_lem :
      (p : Pointer) (g : Guid) (n : ℕ)
      → IsOwn (length secondaries) p
      → suc n < counter.limit
      → query_interface counter others destructor own_query p
          (some g)
          false
          (world_at (length secondaries) none inner (suc n) o)
        ≡ answered (length secondaries) inner n o (found iid secondaries p g)
  unfolding query_interface add_ref
  query_lem primary g n own h = query_primary_pointer g n h
  query_lem non_delegating g n own h =
      answer_lem non_delegating (add_ref counter others destructor own_query non_delegating) g n h (
        add_ref_lem counter others destructor own_query (length secondaries) inner o non_delegating
          n own h)
  query_lem (secondary i) g n own h =
      query-secondary_at counter others destructor own_query (length secondaries) i n none inner o
        (some g) false own
      ∙ query_primary_pointer g n h
  query_lem null g n own h = absurd own
  query_lem (foreign k) g n own h = absurd own
