-- ===== src/AsyncCom/Life.antt =====
-- The life of an operation (src/async_com.rs): its spawning, the polls of its task, and the references
-- to its object.
use kcom_rs.Prelude.{
  ℕ, suc, ◌==◌, ◌<◌, ◌≡◌, refl, arith, sym, ◌∙◌, Bool, true, false, Option, none, some, List, [],
  ◌∷◌, Poll, ready, pending, inl, inr, ◌⊎◌,
}
use kcom_rs.Status.{Result, ok, err, status_pending}
use kcom_rs.RefCount.{RefCounter}
use kcom_rs.Task.{try_finally, poll}
use kcom_rs.AsyncCom.Readers.{Ending, completes, cancels, result_of}
use kcom_rs.AsyncCom.{object, new_state, get_result_raw}
use kcom_rs.AsyncCom.Object.{
  Object, AsyncTask, unstarted, waiting, shim_release, spawn_raw, conclude, drive,
}

-- The object as `spawn_raw` hands it out: one reference for the caller, one for the task.
abbrev pub shared : {T : Type 0} → Object T
shared = record { refs = 2; freed = false; inner = new_state }

module _ {T M : Type 0} (counter : RefCounter) (within : 1 < counter.limit) where
  -- `spawn_raw` always returns. If the allocation fails there is no object; if the task cannot be
  -- spawned, the object is freed, its count at zero, and the error is passed on; otherwise the
  -- operation is fresh, with one reference for the caller and one for the task.
  pub spawn_raw_lem :
      (allocated spawned : Result (Unit {0})) (future : M)
      → spawn_raw {T = T} counter allocated spawned future ≡ (elim allocated [
        | err status ↦ some (err status, none)
        | ok _ ↦ elim spawned [
          | err status ↦ some (err status, some (record shared { refs = 0; freed = true }))
          | ok _ ↦ some (ok (unstarted future), some shared)
        ]
      ])
  unfolding spawn_raw
  spawn_raw_lem (err status) spawned future = refl
  spawn_raw_lem (ok _) (ok _) future = rw (counter.add_within 1 within) refl
  spawn_raw_lem (ok _) (err status) future =
      rw (counter.add_within 1 within, counter.sub_within 1 within, counter.sub_within 0 positive)
        refl
    where
      positive : 0 < counter.limit
      positive = omega (arith, within)

poll_cases :
    {A M : Type 0} (p : Poll A × M)
    → ((v : A) × (m : M) × p ≡ (ready v, m)) ⊎ ((m : M) × p ≡ (pending, m))
poll_cases (ready v, m) = inl (v, m, refl)
poll_cases (pending, m) = inr (m, refl)

module _ {T : Type 0} where
  -- A fresh object with `others` references beside the task's.
  abbrev pub held : (others : ℕ) → Object T
  held others = record { refs = suc others; freed = false; inner = new_state }

  -- What is left before an ending or after it: the result, the references, and whether the object is
  -- freed.
  abbrev pub seen_of : (others : ℕ) → Option (Ending T) → Option (Result T) × ℕ × Bool
  seen_of others none = (some (err status_pending), suc others, false)
  seen_of others (some e) = (result_of e, others, others == 0)

  abbrev pub left_with :
      {M : Type 0} → Option (AsyncTask M × Object T) → Option (Option (Result T) × ℕ × Bool)
  left_with none = none
  left_with (some (t, o)) = some (get_result_raw (object o.inner), o.refs, o.freed)

module _ {T M : Type 0} (poll_main : M → Poll T × M) where
  -- How the polls end the operation, if they do: the first poll with a cancellation request cancels
  -- it, and the first other poll at which the future gives a value completes it.
  abbrev pub ended : List Bool → M → Option (Ending T)
  ended [] future = none
  ended (true ∷ later) future = some cancels
  ended (false ∷ later) future =
      let p = poll_main future in
      elim (p.0) [ ready value ↦ some (completes value) | pending ↦ ended later (p.1) ]

  module _ (counter : RefCounter) (others : ℕ) (within : others < counter.limit) where
    drive-waiting :
        (polls : List Bool) (future : M)
        → left_with (drive counter poll_main polls (waiting (try_finally future tt)) (held others))
          ≡ some (seen_of others (ended polls future))
    unfolding drive try_finally poll get_result_raw new_state conclude
    drive-waiting [] future = refl
    drive-waiting (true ∷ later) future = rw (counter.sub_within others within) refl
    drive-waiting (false ∷ later) future = elim (poll_cases (poll_main future)) [
      | inl (v, m, e) ↦ ground (arith, e, counter.sub_within others within)
      | inr (m, e) ↦ ground (arith, e, drive-waiting later m)
    ]

    drive-unstarted :
        (polls : List Bool) (future : M)
        → left_with (drive counter poll_main polls (unstarted future) (held others))
          ≡ some (seen_of others (ended polls future))
    unfolding drive get_result_raw new_state
    drive-unstarted [] future = refl
    drive-unstarted (cancelled ∷ later) future = drive-waiting (cancelled ∷ later) future

  module _ (counter : RefCounter) (within : 1 < counter.limit) where
    -- A task that `spawn_raw` hands to the executor can be polled any number of times until it is
    -- ready, each poll with or without a cancellation request. The polls never touch a freed object,
    -- and the caller, whose reference stays valid, gets the result that they lead to:
    -- `STATUS_CANCELLED` after the first poll with a request, the value after the first other poll at
    -- which the future gives one, and `STATUS_PENDING` before both. The task holds its reference until
    -- then and gives it back with the end.
    pub drive_lem :
        (polls : List Bool) (future : M) (t : AsyncTask M) (o : Object T)
        → spawn_raw counter (ok tt) (ok tt) future ≡ some (ok t, some o)
        → left_with (drive counter poll_main polls t o) ≡ some (seen_of 1 (ended polls future))
    drive_lem polls future t o h =
        let fresh = sym (spawn_raw_lem counter within (ok tt) (ok tt) future) ∙ h in
        let same_task : t ≡ unstarted future = cc fresh in
        let same_object : o ≡ shared = cc fresh in
        rw (same_task, same_object) (drive-unstarted counter 1 within polls future)

    -- If the caller gives its reference back before the polls, the task's reference keeps the object
    -- until the end of the operation, and the end frees it: the polls touch no freed object, and
    -- afterwards the count is zero and the object freed exactly if they led to an ending.
    pub release-drive :
        (polls : List Bool) (future : M) (t : AsyncTask M) (o o' : Object T)
        → spawn_raw counter (ok tt) (ok tt) future ≡ some (ok t, some o)
        → shim_release counter o ≡ some o'
        → left_with (drive counter poll_main polls t o') ≡ some (seen_of 0 (ended polls future))
    unfolding shim_release
    release-drive polls future t o o' h r =
        let fresh = sym (spawn_raw_lem counter within (ok tt) (ok tt) future) ∙ h in
        let same_task : t ≡ unstarted future = cc fresh in
        let same_object : o ≡ shared = cc fresh in
        let alone : shim_release {T = T} counter shared ≡ some (held 0) =
          rw (counter.sub_within 1 within) refl in
        let left : o' ≡ held 0 = cc (same_object, alone, r) in
        rw (same_task, left) (drive-unstarted counter 0 (omega (arith, within)) polls future)
