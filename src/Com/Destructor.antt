-- ===== src/Com/Destructor.antt =====
-- The last release of a COM object of src/wrapper.rs, when the destructor of its value calls `AddRef`
-- and `Release` on the object that is being destroyed.
use kcom_rs.Prelude.{
  false, ℕ, zero, suc, ◌+◌, ◌≡◌, ◌<◌, ◌≤◌, ◌≢◌, refl, ap, ◌∙◌, arith, ◌==◌, if◌then◌else◌, Option,
  none,
}
use kcom_rs.RefCount.{RefCounter}
use kcom_rs.Com.{
  Guid, Pointer, null, primary, non_delegating, secondary, foreign, Object, World, Others, Acts,
  quiet, adds, releases,
}
use kcom_rs.Com.Run.{Run, Outcome, returned, halted, undefined, ◌>>=◌, pure, bind_bind, bind_lem}
use kcom_rs.Com.Count.{acts, closure, free_inner, release_inner, release_own, count_up, count_down}
use kcom_rs.Com.Methods.{release, shim_release, parent_from_ptr}
use kcom_rs.Com.States.{IsOwn, world_at, object_at, entry-replicate}

-- The ways in which it can end: the object is freed; `resurrection_violation` stops the machine; the
-- value was destroyed `drops` times, the object freed, and then used again; or the destructor gives
-- back a reference that it does not have.
pub data Fate : Type 0 where
  frees stops overdraws : Fate
  reuses : (drops : ℕ) → Fate

-- The release that ran the destructor again came back to a freed object.
abbrev pub back_from : (drops : ℕ) → Fate → Fate
back_from k frees = reuses k
back_from k stops = stops
back_from k overdraws = overdraws
back_from k (reuses j) = reuses j

-- What a destructor leads to that has `c` references and is the `k`-th to run.
abbrev pub fate : Acts → (c k : ℕ) → Fate
fate quiet zero k = frees
fate quiet (suc c) k = stops
fate (adds later) c k = fate later (suc c) k
fate (releases again later) zero k = overdraws
fate (releases again later) (suc zero) k = back_from (k + 1) (fate again 0 (k + 1))
fate (releases again later) (suc (suc c)) k = fate later (suc c) k

-- A value that was destroyed again was destroyed twice or more.
abbrev pub IsAgain : Fate → Type 0
IsAgain frees = Unit
IsAgain stops = Unit
IsAgain overdraws = Unit
IsAgain (reuses drops) = 2 ≤ drops

back_from-IsAgain : (k : ℕ) (f : Fate) → 2 ≤ k → IsAgain f → IsAgain (back_from k f)
back_from-IsAgain k frees h a = h
back_from-IsAgain k stops h a = tt
back_from-IsAgain k overdraws h a = tt
back_from-IsAgain k (reuses j) h a = a

fate-IsAgain : (d : Acts) (c k : ℕ) → 1 ≤ k → IsAgain (fate d c k)
fate-IsAgain quiet zero k h = tt
fate-IsAgain quiet (suc c) k h = tt
fate-IsAgain (adds later) c k h = fate-IsAgain later (suc c) k h
fate-IsAgain (releases again later) zero k h = tt
fate-IsAgain (releases again later) (suc zero) k h =
    back_from-IsAgain (k + 1) (fate again 0 (k + 1)) (omega (arith, h))
      (fate-IsAgain again 0 (k + 1) (omega arith))
fate-IsAgain (releases again later) (suc (suc c)) k h = fate-IsAgain later (suc c) k h

abbrev pub size : Acts → ℕ
size quiet = 0
size (adds later) = suc (size later)
size (releases again later) = size again + size later

-- The object while its value is dropped for the `k`-th time, with `c` references; and once it is freed.
abbrev pub dying : {T : Type 0} → ℕ → T → (c k : ℕ) → Object T
dying m inner c k = record (object_at m none inner 1) { ref_count = c; drops = k }

abbrev pub gone : {T : Type 0} → ℕ → T → (k : ℕ) → Object T
gone m inner k = record (dying m inner 0 k) { frees = 1 }

module _ {T O : Type 0} (m : ℕ) (inner : T) (o : O) where
  abbrev pub outcome_of : {A : Type 0} → A → (k : ℕ) → Fate → Outcome A (World T O)
  outcome_of a k frees = returned a (record { object = gone m inner k; others = o })
  outcome_of a k stops = halted
  outcome_of a k (reuses j) = undefined (record { object = gone m inner j; others = o })
  outcome_of a k overdraws = halted

module _ {T O : Type 0} (counter : RefCounter) (m : ℕ) (inner : T) (o : O) where
  abbrev at : (c k : ℕ) → World T O
  at c k = record { object = dying m inner c k; others = o }

  -- What a destructor does after the object was freed.
  after_free :
      (later : Acts) (k : ℕ)
      → (acts counter later >>= λ _. free_inner) (record { object = gone m inner k; others = o })
        ≡ undefined (record { object = gone m inner k; others = o })
  unfolding acts free_inner count_up count_down
  after_free quiet k = refl
  after_free (adds later) k = refl
  after_free (releases again later) k = refl

  resumed :
      (x : Run (World T O) (Unit {0})) (later : Acts) (w : World T O) (j k : ℕ) (f : Fate)
      → x w ≡ outcome_of m inner o tt k f
      → back_from k f ≢ overdraws
      → ((x >>= λ _. acts counter later) >>= λ _. free_inner) w
        ≡ outcome_of m inner o tt j (back_from k f)
  resumed x later w j k frees e fair = rw (◌>>=◌, e) (after_free later k)
  resumed x later w j k stops e fair = rw (◌>>=◌, e) refl
  resumed x later w j k (reuses i) e fair = rw (◌>>=◌, e) refl
  resumed x later w j k overdraws e fair = absurd (fair refl)

  not_last :
      (x : Run (World T O) (Unit {0})) (later : Acts) (c : ℕ) (w : World T O)
      → (((if suc c == 0 then x else pure tt) >>= λ _. acts counter later) >>= λ _. free_inner) w
        ≡ (acts counter later >>= λ _. free_inner) w
  not_last x later c w = let n : (suc c == 0) ≡ false = ground arith in rw n refl

  acts_lem :
      (d : Acts) (c k : ℕ)
      → c + size d < counter.limit
      → 0 < counter.limit
      → fate d c k ≢ overdraws
      → (acts counter d >>= λ _. free_inner) (at c k) ≡ outcome_of m inner o tt k (fate d c k)
  unfolding acts free_inner closure
  acts_lem quiet zero k h pos fair = refl
  acts_lem quiet (suc c) k h pos fair = ground arith
  acts_lem (adds later) c k h pos fair =
      bind_bind (count_up counter) (λ _. acts counter later) (λ _. free_inner) (at c k)
        (at (suc c) k) (suc c) (ground (arith, counter.add_within c (omega (arith, h))))
      ∙ acts_lem later (suc c) k (omega (arith, h)) pos fair
  acts_lem (releases again later) zero k h pos fair = absurd (fair refl)
  acts_lem (releases again later) (suc zero) k h pos fair =
      bind_bind (count_down counter) _ (λ _. free_inner) (at 1 k) (at 0 k) 0
        (ground (arith, counter.sub_within zero (omega (arith, h))))
      ∙ resumed (closure (acts counter again)) later (at 0 k) k (k + 1) (fate again 0 (k + 1))
          (acts_lem again 0 (k + 1) (omega (arith, h)) pos (λ e. fair (ap (back_from (k + 1)) e)))
          fair
  acts_lem (releases again later) (suc (suc c)) k h pos fair =
      bind_bind (count_down counter) _ (λ _. free_inner) (at (suc (suc c)) k) (at (suc c) k) (suc c)
        (ground (arith, counter.sub_within (suc c) (omega (arith, h))))
      ∙ not_last (closure (acts counter again)) later c (at (suc c) k)
      ∙ acts_lem later (suc c) k (omega (arith, h)) pos fair

  abbrev give_zero : Unit {0} → Run (World T O) ℕ
  give_zero u = pure 0

  drop_then_return :
      (x : Run (World T O) (Unit {0})) (w : World T O) (k : ℕ) (f : Fate)
      → x w ≡ outcome_of m inner o tt k f
      → (x >>= give_zero) w ≡ outcome_of m inner o 0 k f
  drop_then_return x w k frees e = rw (◌>>=◌, e) refl
  drop_then_return x w k stops e = rw (◌>>=◌, e) refl
  drop_then_return x w k (reuses j) e = rw (◌>>=◌, e) refl
  drop_then_return x w k overdraws e = rw (◌>>=◌, e) refl

  release_own_lem :
      (d : Acts)
      → size d < counter.limit
      → fate d 0 1 ≢ overdraws
      → release_own counter d (world_at m none inner 1 o) ≡ outcome_of m inner o 0 1 (fate d 0 1)
  unfolding release_own release_inner closure count_down
  release_own_lem d h fair =
      bind_lem (count_down counter) _ (world_at m none inner 1 o) (at 0 0) 0
        (ground (arith, counter.sub_within zero (omega (arith, h))))
      ∙ drop_then_return (release_inner counter d) (at 0 0) 1 (fate d 0 1)
          (acts_lem d 0 1 (omega (arith, h)) (omega (arith, h)) fair)

  pub release_last :
      (others : Others O) (custom : T → Pointer → Guid → Option Pointer) (d : Acts) (p : Pointer)
      → IsOwn m p
      → size d < counter.limit
      → fate d 0 1 ≢ overdraws
      → (release counter others d custom p (world_at m none inner 1 o)
          ≡ outcome_of m inner o 0 1 (fate d 0 1))
        × IsAgain (fate d 0 1)
  unfolding release shim_release parent_from_ptr
  release_last others custom d primary own h fair =
      (release_own_lem d h fair, fate-IsAgain d 0 1 (omega arith))
  release_last others custom d non_delegating own h fair =
      (release_own_lem d h fair, fate-IsAgain d 0 1 (omega arith))
  release_last others custom d (secondary i) own h fair = (
    bind_lem (parent_from_ptr (secondary i)) (shim_release counter others d custom)
          (world_at m none inner 1 o) (world_at m none inner 1 o) primary
          (ground (arith, entry-replicate m i own))
        ∙ release_own_lem d h fair,
    fate-IsAgain d 0 1 (omega arith),
  )
  release_last others custom d null own h fair = absurd own
  release_last others custom d (foreign k) own h fair = absurd own
