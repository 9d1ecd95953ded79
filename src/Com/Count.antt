-- ===== src/Com/Count.antt =====
-- src/wrapper.rs: the count of an object, delegated or not, and the end of its life.
use kcom_rs.Prelude.{ℕ, Option, none, some, ◌+◌, ◌==◌, if◌then◌else◌}
use kcom_rs.RefCount.{RefCounter}
use kcom_rs.Com.{Object, World, Others, Acts, quiet, adds, releases}
use kcom_rs.Com.Run.{Run, returned, undefined, ◌>>=◌, pure, halt}

module _ {T O : Type 0} where
  -- An access to the object, which is undefined once its memory is freed.
  unfoldable pub access : Run (World T O) (Object T)
  access w = if w.object.frees == 0 then returned w.object w else undefined w

  unfoldable pub change : (Object T → Object T) → Run (World T O) (Unit {0})
  change f w = returned tt (record w { object = f w.object })

  unfoldable pub counted : Option (ℕ × ℕ) → Run (World T O) ℕ
  unfolding change
  counted none = halt
  counted (some (count, value)) = do _ ← change (λ o. record o { ref_count = count }); pure value

  -- The end of the closure that `shim_release` passes on. `resurrection_violation` does not return.
  unfoldable pub free_inner : Run (World T O) (Unit {0})
  unfolding access change
  free_inner = do
    o ← access
    if o.ref_count == 0 then change (λ o. record o { frees = o.frees + 1 }) else halt

  -- The closure, which drops `inner` first; `destroy` is what the destructor does.
  unfoldable pub closure : (destroy : Run (World T O) (Unit {0})) → Run (World T O) (Unit {0})
  unfolding access change free_inner
  closure destroy = do
    _ ← access
    _ ← change (λ o. record o { drops = o.drops + 1 })
    _ ← destroy
    free_inner

module _ {T O : Type 0} (counter : RefCounter) where
  -- `refcount::add` and `refcount::sub` on the count of the object
  unfoldable pub count_up : Run (World T O) ℕ
  unfolding access counted
  count_up = access >>= λ o. counted (counter.add o.ref_count)

  unfoldable pub count_down : Run (World T O) ℕ
  unfolding access counted
  count_down = access >>= λ o. counted (counter.sub o.ref_count)

  -- The destructor's own `AddRef` and `Release`; a release that brings the count to zero runs the
  -- closure, which drops `inner` again.
  unfoldable pub acts : Acts → Run (World T O) (Unit {0})
  unfolding count_up count_down closure
  acts quiet = pure tt
  acts (adds later) = count_up >>= λ _. acts later
  acts (releases again later) = count_down >>= λ count.
      (if count == 0 then closure (acts again) else pure tt) >>= λ _. acts later

  unfoldable pub release_inner : (destructor : Acts) → Run (World T O) (Unit {0})
  unfolding acts closure
  release_inner destructor = closure (acts destructor)

  -- The part of a release that is not delegated.
  unfoldable pub release_own : (destructor : Acts) → Run (World T O) ℕ
  unfolding count_down release_inner
  release_own destructor = do
    count ← count_down
    if count == 0 then (release_inner destructor >>= λ _. pure count) else pure count

module _ {T O : Type 0} (others : Others O) where
  unfoldable pub other_add_ref : ℕ → Run (World T O) ℕ
  other_add_ref k w =
      let r = others.add_ref k w.others in returned (r.0) (record w { others = r.1 })

  unfoldable pub other_release : ℕ → Run (World T O) ℕ
  other_release k w =
      let r = others.release k w.others in returned (r.0) (record w { others = r.1 })

module _ {T O : Type 0} (counter : RefCounter) (others : Others O) where
  unfoldable pub delegating_add_ref : Option (Option ℕ) → Run (World T O) ℕ
  unfolding other_add_ref count_up
  delegating_add_ref none = count_up counter
  delegating_add_ref (some none) = count_up counter
  delegating_add_ref (some (some outer)) = other_add_ref others outer

  unfoldable pub delegating_release : (destructor : Acts) → Option (Option ℕ) → Run (World T O) ℕ
  unfolding other_release release_own
  delegating_release destructor none = release_own counter destructor
  delegating_release destructor (some none) = release_own counter destructor
  delegating_release destructor (some (some outer)) = other_release others outer
