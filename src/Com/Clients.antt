-- ===== src/Com/Clients.antt =====
-- What clients call on a COM object of src/wrapper.rs.
use kcom_rs.Prelude.{ℕ, false, Option, some, List, [], ◌∷◌}
use kcom_rs.RefCount.{RefCounter}
use kcom_rs.Com.{Guid, Pointer, World, Others, Acts}
use kcom_rs.Com.Run.{Run, ◌>>=◌, pure, quietly}
use kcom_rs.Com.Methods.{add_ref, release, query_interface}
use kcom_rs.Com.States.{IsOwn}

-- What a client calls through a pointer.
pub data Call : Type 0 where
  adding releasing : Pointer → Call
  querying : Pointer → Guid → Call

abbrev pub IsOwnCall : ℕ → Call → Type 0
IsOwnCall m (adding p) = IsOwn m p
IsOwnCall m (releasing p) = IsOwn m p
IsOwnCall m (querying p g) = IsOwn m p

module _ {T O : Type 0} (counter : RefCounter) (others : Others O) (destructor : Acts)
    (custom : T → Pointer → Guid → Option Pointer) where
  abbrev pub perform : Call → Run (World T O) (Unit {0})
  perform (adding p) = quietly (add_ref counter others destructor custom p)
  perform (releasing p) = quietly (release counter others destructor custom p)
  perform (querying p g) =
      quietly (query_interface counter others destructor custom p (some g) false)

  abbrev pub performs : List Call → Run (World T O) (Unit {0})
  performs [] = pure tt
  performs (c ∷ later) = perform c >>= λ _. performs later
