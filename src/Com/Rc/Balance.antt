-- ===== src/Com/Rc/Balance.antt =====
-- Programs that own `ComRc`s (src/smart_ptr.rs) to one object.
use kcom_rs.Prelude.{
  ℕ, suc, ◌≡◌, ◌<◌, inl, inr, refl, sym, subst, ◌∙◌, arith, true, Option-cases, none, some, List,
  [], ◌∷◌, length,
}
use kcom_rs.RefCount.{RefCounter}
use kcom_rs.Com.{Guid, Pointer, primary, Object, Others, try_new_with}
use kcom_rs.Com.Run.{returned, bind_lem}
use kcom_rs.Com.States.{IsOwn, object_at, new_lem}
use kcom_rs.Com.Query.{found}
use kcom_rs.Com.Rc.{ComRc, from_raw}
use kcom_rs.Com.Rc.Handles.{
  Use, cloning, dropping, querying, pick, without, AllOwn, pick-IsOwn, without-AllOwn, pick-length,
  pick-none, found-IsOwn,
}
use kcom_rs.Com.Rc.Uses.{
  use_rc, uses, at, clone-at, drop-at, query-at, next_of, added-length, added-AllOwn,
}

module _ (iid : Guid) (secondaries : List Guid) {T O : Type 0} (counter : RefCounter)
    (others : Others O) (inner : T) (o : O) where
  -- The use returns the handles that are left, all own, and leaves a reference for each.
  abbrev Balanced : Use → List ComRc → Type 0
  Balanced u hs =
      (use_rc iid secondaries counter others u hs
          (at iid secondaries counter others inner o (length hs))
        ≡ returned (next_of iid secondaries counter others inner o u hs) (
            at iid secondaries counter others inner o
              (length (next_of iid secondaries counter others inner o u hs))))
      × AllOwn (length secondaries) (next_of iid secondaries counter others inner o u hs)

  cloning-Balanced :
      (i : ℕ) (hs : List ComRc)
      → AllOwn (length secondaries) hs
      → suc (length hs) < counter.limit
      → Balanced (cloning i) hs
  cloning-Balanced i hs own room = elim (Option-cases (pick hs i)) [
    | inl e ↦ rw e (refl, own)
    | inr (h, e) ↦
        let mine = pick-IsOwn (length secondaries) hs i h own e in
        let l = pick-length hs i h e in
        rw e (
          rw l (
              clone-at iid secondaries counter others inner o hs h (length (without hs i)) mine
                (omega (arith, room, l))),
          (mine, own),
        )
  ]

  dropping-Balanced :
      (i : ℕ) (hs : List ComRc)
      → AllOwn (length secondaries) hs
      → suc (length hs) < counter.limit
      → Balanced (dropping i) hs
  dropping-Balanced i hs own room = elim (Option-cases (pick hs i)) [
    | inl e ↦ rw (e, pick-none hs i e) (refl, own)
    | inr (h, e) ↦
        let mine = pick-IsOwn (length secondaries) hs i h own e in
        let l = pick-length hs i h e in
        rw e (
          rw l (
              drop-at iid secondaries counter others inner o hs i h (length (without hs i)) mine
                (omega (arith, room, l))),
          without-AllOwn (length secondaries) hs i own,
        )
  ]

  querying-Balanced :
      (i : ℕ) (g : Guid) (hs : List ComRc)
      → AllOwn (length secondaries) hs
      → suc (length hs) < counter.limit
      → Balanced (querying i g) hs
  querying-Balanced i g hs own room = elim (Option-cases (pick hs i)) [
    | inl e ↦ rw e (refl, own)
    | inr (h, e) ↦
        let mine = pick-IsOwn (length secondaries) hs i h own e in
        let l = pick-length hs i h e in
        let x = found iid secondaries h.ptr g in
        rw e (
          rw
              (sym (
                added-length iid secondaries counter others inner o hs (length (without hs i)) x l))
              (rw l (
                query-at iid secondaries counter others inner o hs g h (length (without hs i)) mine
                  (omega (arith, room, l)))),
          added-AllOwn iid secondaries counter others inner o hs x
              (λ q f. found-IsOwn iid secondaries h.ptr g q mine f) own,
        )
  ]

  use-Balanced :
      (u : Use) (hs : List ComRc)
      → AllOwn (length secondaries) hs
      → suc (length hs) < counter.limit
      → Balanced u hs
  use-Balanced (cloning i) hs own room = cloning-Balanced i hs own room
  use-Balanced (dropping i) hs own room = dropping-Balanced i hs own room
  use-Balanced (querying i g) hs own room = querying-Balanced i g hs own room

  abbrev pub left : List Use → List ComRc → List ComRc
  left [] hs = hs
  left (u ∷ later) hs = left later (next_of iid secondaries counter others inner o u hs)

  -- There is room for one more handle at every use.
  abbrev pub Fits : List Use → List ComRc → Type 0
  Fits [] hs = Unit
  Fits (u ∷ later) hs =
      (suc (length hs) < counter.limit)
      × Fits later (next_of iid secondaries counter others inner o u hs)

  uses_lem :
      (us : List Use) (hs : List ComRc)
      → AllOwn (length secondaries) hs
      → Fits us hs
      → uses iid secondaries counter others us hs
          (at iid secondaries counter others inner o (length hs))
        ≡ returned (left us hs) (at iid secondaries counter others inner o (length (left us hs)))
  uses_lem [] hs own room = refl
  uses_lem (u ∷ later) hs own (room, rooms) =
      let first = use-Balanced u hs own room in
      bind_lem (use_rc iid secondaries counter others u hs)
        (uses iid secondaries counter others later) _ _ _ (first.0)
      ∙ uses_lem later (next_of iid secondaries counter others inner o u hs) (first.1) rooms

  -- A program takes a new object over into a `ComRc` and then clones, drops and queries the
  -- `ComRc`s that it owns, in any order. All calls return, and the object's count is always the number
  -- of `ComRc`s owned. While one is left nothing is dropped or freed; when the last one is dropped,
  -- the value is dropped once and the memory freed once.
  pub comrc_lem :
      (us : List Use) (p : Pointer) (object : Object T) (h : ComRc)
      → try_new_with true (length secondaries) inner ≡ some (p, object)
      → from_raw p ≡ some h
      → Fits us (h ∷ [])
      → uses iid secondaries counter others us (h ∷ []) (record { object = object; others = o })
        ≡ returned
            (left us (h ∷ []))
            (at iid secondaries counter others inner o (length (left us (h ∷ []))))
  unfolding from_raw
  comrc_lem us p object h e f rooms =
      let same_object : object ≡ object_at (length secondaries) none inner 1 =
        cc (sym (new_lem (length secondaries) inner) ∙ e) in
      let first : p ≡ primary = cc (sym (new_lem (length secondaries) inner) ∙ e) in
      let at_first = subst (λ x. from_raw x ≡ some h) first f in
      let handle : record { ptr = primary } ≡ h = cc at_first in
      rw same_object
        (uses_lem us (h ∷ []) (subst (λ x. IsOwn (length secondaries) x.ptr) handle tt, tt) rooms)
