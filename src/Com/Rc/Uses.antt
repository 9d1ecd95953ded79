-- ===== src/Com/Rc/Uses.antt =====
-- What one use of a `ComRc` (src/smart_ptr.rs) does to an object and to the handles owned.
use kcom_rs.Prelude.{
  ℕ, suc, ◌≡◌, ◌<◌, refl, sym, ap, ◌∙◌, false, Option, none, some, List, [], ◌∷◌, length,
}
use kcom_rs.Status.{NtStatus, Result, ok, err}
use kcom_rs.RefCount.{RefCounter}
use kcom_rs.Com.{quiet, Guid, Pointer, World, Others}
use kcom_rs.Com.Run.{Run, returned, ◌>>=◌, pure, bind_lem, bind_bind}
use kcom_rs.Com.Methods.{add_ref, release, query_interface}
use kcom_rs.Com.Interfaces.{query_primary, query_iunknown}
use kcom_rs.Com.States.{IsOwn, world_at}
use kcom_rs.Com.Calls.{add_ref_lem, release_lem}
use kcom_rs.Com.Query.{found, answered, query_lem}
use kcom_rs.Com.Rc.{ComRc, clone, drop, query, queried}
use kcom_rs.Com.Rc.Handles.{
  Use, cloning, dropping, querying, pick, without, AllOwn, found-IsOwn, queried-none, queried-some,
}

abbrev pub kept : Result ComRc → List ComRc → List ComRc
kept (ok h) hs = h ∷ hs
kept (err status) hs = hs

-- Without an owned reference a use does nothing.
module _ (iid : Guid) (secondaries : List Guid) {T O : Type 0} (counter : RefCounter)
    (others : Others O) where
  abbrev pub custom : T → Pointer → Guid → Option Pointer
  custom = query_primary iid secondaries query_iunknown

  abbrev pub cloned : List ComRc → Option ComRc → Run (World T O) (List ComRc)
  cloned hs none = pure hs
  cloned hs (some h) = clone counter others quiet custom h >>= λ c. pure (c ∷ hs)

  abbrev pub dropped : List ComRc → ℕ → Option ComRc → Run (World T O) (List ComRc)
  dropped hs i none = pure hs
  dropped hs i (some h) = drop counter others quiet custom h >>= λ _. pure (without hs i)

  abbrev pub asked : List ComRc → Guid → Option ComRc → Run (World T O) (List ComRc)
  asked hs g none = pure hs
  asked hs g (some h) = query counter others quiet custom h g >>= λ r. pure (kept r hs)

  abbrev pub use_rc : Use → List ComRc → Run (World T O) (List ComRc)
  use_rc (cloning i) hs = cloned hs (pick hs i)
  use_rc (dropping i) hs = dropped hs i (pick hs i)
  use_rc (querying i g) hs = asked hs g (pick hs i)

  abbrev pub uses : List Use → List ComRc → Run (World T O) (List ComRc)
  uses [] hs = pure hs
  uses (u ∷ later) hs = use_rc u hs >>= uses later

  module _ (inner : T) (o : O) where
    abbrev pub at : ℕ → World T O
    at n = world_at (length secondaries) none inner n o

    pub clone-at :
        (hs : List ComRc) (h : ComRc) (n : ℕ)
        → IsOwn (length secondaries) h.ptr
        → suc n < counter.limit
        → cloned hs (some h) (at (suc n)) ≡ returned (h ∷ hs) (at (suc (suc n)))
    unfolding clone
    clone-at hs h n own room =
        bind_lem (clone counter others quiet custom h) (λ c. pure (c ∷ hs)) _ _ h
          (bind_lem (add_ref counter others quiet custom h.ptr) (λ _. pure h) _ _ (suc (suc n))
            (add_ref_lem counter others quiet custom (length secondaries) inner o h.ptr n own room))

    pub drop-at :
        (hs : List ComRc) (i : ℕ) (h : ComRc) (n : ℕ)
        → IsOwn (length secondaries) h.ptr
        → n < counter.limit
        → dropped hs i (some h) (at (suc n)) ≡ returned (without hs i) (at n)
    unfolding drop
    drop-at hs i h n own room =
        bind_lem (drop counter others quiet custom h) (λ _. pure (without hs i)) _ _ tt
          (bind_lem (release counter others quiet custom h.ptr) (λ _. pure tt) _ _ n
            (release_lem counter others custom (length secondaries) inner o h.ptr n own room))

    -- The handle that a query adds, if it finds a pointer.
    abbrev pub added : List ComRc → Option Pointer → List ComRc
    added hs none = hs
    added hs (some q) = record { ptr = q } ∷ hs

    answered-at :
        (hs : List ComRc) (n : ℕ) (m' : Run (World T O) (NtStatus × Option Pointer))
        (x : Option Pointer)
        → ((q : Pointer) → x ≡ some q → IsOwn (length secondaries) q)
        → m' (at (suc n)) ≡ answered (length secondaries) inner n o x
        → ((m' >>= λ r. pure (queried r)) >>= λ r. pure (kept r hs)) (at (suc n))
          ≡ returned (added hs x) (at (elim x [ none ↦ suc n | some q ↦ suc (suc n) ]))
    answered-at hs n m' none own e =
        bind_bind m' (λ r. pure (queried r)) (λ r. pure (kept r hs)) _ _ _ e ∙ rw queried-none refl
    answered-at hs n m' (some q) own e =
        bind_bind m' (λ r. pure (queried r)) (λ r. pure (kept r hs)) _ _ _ e
        ∙ rw (queried-some (length secondaries) q (own q refl)) refl

    pub query-at :
        (hs : List ComRc) (g : Guid) (h : ComRc) (n : ℕ)
        → IsOwn (length secondaries) h.ptr
        → suc n < counter.limit
        → asked hs g (some h) (at (suc n))
          ≡ returned
              (added hs (found iid secondaries h.ptr g))
              (at (elim (found iid secondaries h.ptr g) [ none ↦ suc n | some q ↦ suc (suc n) ]))
    unfolding query
    query-at hs g h n own room =
        answered-at hs n (query_interface counter others quiet custom h.ptr (some g) false)
          (found iid secondaries h.ptr g) (λ q e. found-IsOwn iid secondaries h.ptr g q own e)
          (query_lem counter others quiet iid secondaries inner o h.ptr g n own room)

    abbrev with_clone : List ComRc → Option ComRc → List ComRc
    with_clone hs none = hs
    with_clone hs (some h) = h ∷ hs

    abbrev with_answer : List ComRc → Guid → Option ComRc → List ComRc
    with_answer hs g none = hs
    with_answer hs g (some h) = added hs (found iid secondaries h.ptr g)

    -- The handles after a use.
    abbrev pub next_of : Use → List ComRc → List ComRc
    next_of (cloning i) hs = with_clone hs (pick hs i)
    next_of (dropping i) hs = without hs i
    next_of (querying i g) hs = with_answer hs g (pick hs i)

    pub added-length :
        (hs : List ComRc) (n : ℕ) (x : Option Pointer)
        → length hs ≡ suc n
        → elim x [ none ↦ suc n | some q ↦ suc (suc n) ] ≡ length (added hs x)
    added-length hs n none e = sym e
    added-length hs n (some q) e = ap suc (sym e)

    pub added-AllOwn :
        (hs : List ComRc) (x : Option Pointer)
        → ((q : Pointer) → x ≡ some q → IsOwn (length secondaries) q)
        → AllOwn (length secondaries) hs
        → AllOwn (length secondaries) (added hs x)
    added-AllOwn hs none own all = all
    added-AllOwn hs (some q) own all = (own q refl, all)
