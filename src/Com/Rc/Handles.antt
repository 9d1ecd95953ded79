-- ===== src/Com/Rc/Handles.antt =====
-- Lists of `ComRc`s (src/smart_ptr.rs), and the pointers that queries hand out.
use kcom_rs.Prelude.{
  ℕ, zero, suc, ◌≡◌, inl, inr, refl, subst, ap, arith, Bool-cases, Option, none, some, List, [],
  ◌∷◌, length, if◌then◌else◌,
}
use kcom_rs.Status.{ok, err, status_success, status_nointerface}
use kcom_rs.Com.{
  Guid, Pointer, null, primary, non_delegating, secondary, foreign, same, iid_iunknown,
}
use kcom_rs.Com.States.{IsOwn, IsInterface-IsOwn}
use kcom_rs.Com.Query.{found, interface_of, interface_of-IsInterface}
use kcom_rs.Com.Rc.{ComRc, queried}

pub data Use : Type 0 where
  cloning dropping : ℕ → Use
  querying : ℕ → Guid → Use

abbrev pub pick : List ComRc → ℕ → Option ComRc
pick [] i = none
pick (h ∷ hs) zero = some h
pick (h ∷ hs) (suc i) = pick hs i

abbrev pub without : List ComRc → ℕ → List ComRc
without [] i = []
without (h ∷ hs) zero = hs
without (h ∷ hs) (suc i) = h ∷ without hs i

abbrev pub AllOwn : ℕ → List ComRc → Type 0
AllOwn m [] = Unit
AllOwn m (h ∷ hs) = IsOwn m h.ptr × AllOwn m hs

pub pick-IsOwn :
    (m : ℕ) (hs : List ComRc) (i : ℕ) (h : ComRc) → AllOwn m hs → pick hs i ≡ some h → IsOwn m h.ptr
pick-IsOwn m [] i h own e = absurd (ground (arith, e))
pick-IsOwn m (k ∷ hs) zero h own e = let is : k ≡ h = cc e in subst (λ x. IsOwn m x.ptr) is own.0
pick-IsOwn m (k ∷ hs) (suc i) h own e = pick-IsOwn m hs i h own.1 e

pub without-AllOwn : (m : ℕ) (hs : List ComRc) (i : ℕ) → AllOwn m hs → AllOwn m (without hs i)
without-AllOwn m [] i own = own
without-AllOwn m (h ∷ hs) zero own = own.1
without-AllOwn m (h ∷ hs) (suc i) own = (own.0, without-AllOwn m hs i own.1)

pub pick-length :
    (hs : List ComRc) (i : ℕ) (h : ComRc)
    → pick hs i ≡ some h
    → length hs ≡ suc (length (without hs i))
pick-length [] i h e = absurd (ground (arith, e))
pick-length (k ∷ hs) zero h e = refl
pick-length (k ∷ hs) (suc i) h e = ap suc (pick-length hs i h e)

either-IsOwn :
    (iid : Guid) (secondaries : List Guid) (unknown : Pointer) (g : Guid) (q : Pointer)
    → IsOwn (length secondaries) unknown
    → (if same g iid_iunknown then some unknown else interface_of iid secondaries g) ≡ some q
    → IsOwn (length secondaries) q
either-IsOwn iid secondaries unknown g q own e = elim (Bool-cases (same g iid_iunknown)) [
  | inl t ↦ let is : unknown ≡ q = ground (arith, t, e) in subst (IsOwn (length secondaries)) is own
  | inr f ↦
      IsInterface-IsOwn (length secondaries) q
        (interface_of-IsInterface iid secondaries g q (ground (arith, f, e)))
]

pub pick-none : (hs : List ComRc) (i : ℕ) → pick hs i ≡ none → without hs i ≡ hs
pick-none [] i e = refl
pick-none (k ∷ hs) zero e = absurd (ground (arith, e))
pick-none (k ∷ hs) (suc i) e = ap (λ l. k ∷ l) (pick-none hs i e)

pub found-IsOwn :
    (iid : Guid) (secondaries : List Guid) (p : Pointer) (g : Guid) (q : Pointer)
    → IsOwn (length secondaries) p
    → found iid secondaries p g ≡ some q
    → IsOwn (length secondaries) q
found-IsOwn iid secondaries primary g q own e = either-IsOwn iid secondaries primary g q tt e
found-IsOwn iid secondaries (secondary i) g q own e = either-IsOwn iid secondaries primary g q tt e
found-IsOwn iid secondaries non_delegating g q own e =
    either-IsOwn iid secondaries non_delegating g q tt e
found-IsOwn iid secondaries null g q own e = absurd own
found-IsOwn iid secondaries (foreign k) g q own e = absurd own

pub queried-none : queried (status_nointerface, some null) ≡ err status_nointerface
unfolding queried
queried-none = refl

pub queried-some :
    (m : ℕ) (q : Pointer) → IsOwn m q → queried (status_success, some q) ≡ ok (record { ptr = q })
unfolding queried
queried-some m primary own = refl
queried-some m non_delegating own = refl
queried-some m (secondary i) own = refl
queried-some m null own = absurd own
queried-some m (foreign k) own = absurd own
