-- ===== src/Com/Calls.antt =====
-- What `AddRef`, `Release` and `QueryInterface` do to an object of src/wrapper.rs that is not
-- aggregated, through any of its pointers.
use kcom_rs.Prelude.{ℕ, zero, suc, ◌≡◌, ◌<◌, refl, arith, Option, none}
use kcom_rs.RefCount.{RefCounter}
use kcom_rs.Com.{
  quiet, Guid, Pointer, null, primary, non_delegating, secondary, foreign, Others, Acts,
}
use kcom_rs.Com.Run.{returned}
use kcom_rs.Com.Methods.{add_ref, release}
use kcom_rs.Com.States.{IsOwn, world_at, entry-replicate}

module _ {T O : Type 0} (counter : RefCounter) (others : Others O) (destructor : Acts)
    (custom : T → Pointer → Guid → Option Pointer) (m : ℕ) (inner : T) (o : O) where
  pub add_ref_lem :
      (p : Pointer) (n : ℕ)
      → IsOwn m p
      → suc n < counter.limit
      → add_ref counter others destructor custom p (world_at m none inner (suc n) o)
        ≡ returned (suc (suc n)) (world_at m none inner (suc (suc n)) o)
  unfolding add_ref
  add_ref_lem primary n own h = rw (counter.add_within (suc n) h) refl
  add_ref_lem non_delegating n own h = rw (counter.add_within (suc n) h) refl
  add_ref_lem (secondary i) n own h =
      ground (arith, entry-replicate m i own, counter.add_within (suc n) h)
  add_ref_lem null n own h = absurd own
  add_ref_lem (foreign k) n own h = absurd own

module _ {T O : Type 0} (counter : RefCounter) (others : Others O)
    (custom : T → Pointer → Guid → Option Pointer) (m : ℕ) (inner : T) (o : O) where
  pub release_lem :
      (p : Pointer) (n : ℕ)
      → IsOwn m p
      → n < counter.limit
      → release counter others quiet custom p (world_at m none inner (suc n) o)
        ≡ returned n (world_at m none inner n o)
  unfolding release
  release_lem primary zero own h = ground (arith, counter.sub_within zero h)
  release_lem primary (suc n) own h = ground (arith, counter.sub_within (suc n) h)
  release_lem non_delegating zero own h = ground (arith, counter.sub_within zero h)
  release_lem non_delegating (suc n) own h = ground (arith, counter.sub_within (suc n) h)
  release_lem (secondary i) zero own h =
      ground (arith, entry-replicate m i own, counter.sub_within zero h)
  release_lem (secondary i) (suc n) own h =
      ground (arith, entry-replicate m i own, counter.sub_within (suc n) h)
  release_lem null n own h = absurd own
  release_lem (foreign k) n own h = absurd own
