-- ===== src/Executor/Dpc/Loop.antt =====
-- The loop of `dpc_routine` (src/executor.rs) keeps the invariant of the task.
use kcom_rs.Prelude.{
  ℕ, zero, suc, ◌+◌, ◌≤◌, ◌≡◌, ◌∙◌, Option, some, ◌==◌, if◌then◌else◌, M, ◌>>◌, List, [], ◌∷◌,
  Returns, Returns-bind, arith, Bool-cases, inl, inr, zero_or_suc, pure, Option-cases,
}
use kcom_rs.RefCount.{RefCounter}
use kcom_rs.Executor.Budget.{Settings, Clock, Spent, budget_exhausted}
use kcom_rs.Executor.Dpc.{Task, Kernel, header, destroy_shim, queue_dpc}
use kcom_rs.Executor.Dpc.Inv.{Inv, Keeps, queue_dpc-Inv}
use kcom_rs.Executor.Dpc.Owners.{Owners, total, own, own_all, perform-Inv}
use kcom_rs.Executor.Dpc.Routine.{
  Act, Round, Exit, skipped, completed, parked, out_of_rounds, perform_all, on_ready, on_pending,
}

own-le :
    (cap : ℕ) (a : Act) (o o' : Owners) → total o ≤ cap → own cap a o ≡ some o' → total o' ≤ cap
own-le cap Act.clone_waker o o' h e = ground arith
own-le cap _ o o' h e = ground arith

own-running : (cap : ℕ) (a : Act) (o o' : Owners) → own cap a o ≡ some o' → o'.running ≡ o.running
own-running cap Act.clone_waker o o' e = ground arith
own-running cap _ o o' e = ground arith

pub own_all-le :
    (cap : ℕ) (acts : List Act) (o o' : Owners)
    → total o ≤ cap
    → own_all cap acts o ≡ some o'
    → (total o' ≤ cap) × (o'.running ≡ o.running)
own_all-le cap [] o o' h e = ground arith
own_all-le cap (a ∷ acts) o o' h e = elim (Option-cases (own cap a o)) [
  | inl stuck ↦ absurd (ground arith)
  | inr (p, q) ↦
      let r = own_all-le cap acts p o' (own-le cap a o p h q) (ground arith) in
      (r.0, r.1 ∙ own-running cap a o p q)
]

module _ (rc : RefCounter) (kernel : Kernel) (cpu : Option ℕ) (c cap : ℕ)
    (room : cap + 2 ≤ rc.limit) where
  pub perform_all-Inv :
      (acts : List Act) (o o' : Owners) (t : Task)
      → total o ≤ cap
      → own_all cap acts o ≡ some o'
      → Inv c (total o) t
      → Keeps c (total o') (perform_all rc kernel cpu acts t)
  unfolding perform_all
  perform_all-Inv [] o o' t h e v = let same : o ≡ o' = ground arith in rw (← same) v
  perform_all-Inv (a ∷ acts) o o' t h e v = elim (Option-cases (own cap a o)) [
    | inl stuck ↦ absurd (ground arith)
    | inr (p, q) ↦
        Returns-bind (λ _ s. Inv c (total p) s) (λ _ s. Inv c (total o') s) _ _
          (perform-Inv rc kernel cpu c cap room a o p t h q v)
          (λ _ s w. perform_all-Inv acts p o' s (own-le cap a o p h q) (ground arith) w)
  ]

-- A future that keeps to ownership: the owners before each poll and after it, and, if it is ready in
-- that poll, after its destructor ran.
pub record Obeys (cap : ℕ) (future : ℕ → Round) (drop_acts : List Act) (start : Owners)
    : Type 0 where
  pub held : ℕ → Owners
  pub gone : ℕ → Owners
  pub begins : held 0 ≡ start
  pub polled : (i : ℕ) → own_all cap (future i).acts (held i) ≡ some (held (suc i))
  pub destroyed : (i : ℕ) → own_all cap drop_acts (held (suc i)) ≡ some (gone i)

-- Whether the task counts as completed after a run.
abbrev pub stage_of : Exit → ℕ
stage_of skipped = 1
stage_of completed = 1
stage_of parked = 0
stage_of out_of_rounds = 0

module _ (rc : RefCounter) (kernel : Kernel) (cpu : Option ℕ) (cap : ℕ) (room : cap + 2 ≤ rc.limit)
    (settings : Settings) (clock : Clock) (future : ℕ → Round) (drop_acts : List Act)
    (start : Owners) (fits : total start ≤ cap) (lent : start.running ≡ 2)
    (obeys : Obeys cap future drop_acts start) where
  open obeys use {held, gone, begins, polled, destroyed}

  -- The owners when a run ends after the poll with the number `i`.
  abbrev pub ended : Exit → ℕ → Owners
  ended skipped i = held 0
  ended completed i = gone i
  ended parked i = held (suc i)
  ended out_of_rounds i = held i

  pub held-le : (i : ℕ) → (total (held i) ≤ cap) × ((held i).running ≡ 2)
  held-le zero = rw begins (fits, lent)
  held-le (suc i) =
      let r = own_all-le cap (future i).acts (held i) (held (suc i)) (held-le i).0 (polled i) in
      (r.0, r.1 ∙ (held-le i).1)

  pub ended-le : (e : Exit) (i : ℕ) → (total (ended e i) ≤ cap) × ((ended e i).running ≡ 2)
  ended-le skipped i = held-le 0
  ended-le completed i =
      let h = held-le (suc i) in
      let r = own_all-le cap drop_acts (held (suc i)) (gone i) h.0 (destroyed i) in (r.0, r.1 ∙ h.1)
  ended-le parked i = held-le (suc i)
  ended-le out_of_rounds i = held-le i

  abbrev pub Left : Exit → Task → Type 0
  Left e t = (i : ℕ) × Inv (stage_of e) (total (ended e i)) t

  dropped-Inv :
      (n : ℕ) (t : Task)
      → Inv 0 (suc n) t
      → Inv 1 (suc n) (record t { completed = 1; future_drops = t.future_drops + 1 })
  dropped-Inv n t v = ground arith

  alive : (c n : ℕ) (t : Task) → Inv c (suc n) t → t.frees ≡ 0
  alive c n t v = ground arith

  on_ready_lem :
      (t : Task)
      → t.frees ≡ 0
      → on_ready rc kernel cpu settings clock future drop_acts t
        ≡ (perform_all rc kernel cpu drop_acts >> pure completed)
            (record t { completed = 1; future_drops = t.future_drops + 1 })
  unfolding on_ready header destroy_shim
  on_ready_lem t e = ground (arith, e)

  pub on_ready-Left :
      (i : ℕ) (t : Task)
      → Inv 0 (total (held (suc i))) t
      → Returns Left (on_ready rc kernel cpu settings clock future drop_acts t)
  on_ready-Left i t v = elim (zero_or_suc (total (held (suc i)))) [
    | inl z ↦ absurd (omega (arith, (held-le (suc i)).1))
    | inr (n, p) ↦ rw (on_ready_lem t (alive 0 n t (rw p at v))) (
        Returns-bind (λ _ s. Inv 1 (total (gone i)) s) Left _ _
          (perform_all-Inv rc kernel cpu 1 cap room drop_acts (held (suc i)) (gone i) _
            (held-le (suc i)).0 (destroyed i) (rw p (dropped-Inv n t (rw p at v))))
          (λ _ s w. (i, w)))
  ]

  restarted-Inv : (n : ℕ) (t : Task) → Inv 0 (suc n) t → Inv 0 (suc n) (record t { scheduled = 0 })
  restarted-Inv n t v = ground arith

  on_pending_lem :
      (i : ℕ) (spent : Spent) (next : M Task Exit) (t : Task)
      → t.frees ≡ 0
      → on_pending rc kernel cpu settings clock future drop_acts i spent next t ≡ (
          if t.scheduled == 0
          then some (parked, t)
          else if budget_exhausted settings clock i spent
          then (queue_dpc rc kernel >> pure parked) t
          else next (record t { scheduled = 0 }))
  unfolding on_pending header
  on_pending_lem i spent next t e = ground (arith, e)

  pub on_pending-Left :
      (i : ℕ) (spent : Spent) (next : M Task Exit) (t : Task)
      → Inv 0 (total (held (suc i))) t
      → ((s : Task) → Inv 0 (total (held (suc i))) s → Returns Left (next s))
      → Returns Left (on_pending rc kernel cpu settings clock future drop_acts i spent next t)
  on_pending-Left i spent next t v k = elim (zero_or_suc (total (held (suc i)))) [
    | inl z ↦ absurd (omega (arith, (held-le (suc i)).1))
    | inr r ↦ go r.0 r.1
  ]
    where
      again :
          (n : ℕ)
          → total (held (suc i)) ≡ suc n
          → Returns Left ((queue_dpc rc kernel >> pure parked) t)
      again n p =
          Returns-bind (λ _ s. Inv 0 (suc n) s) Left _ _
            (queue_dpc-Inv rc kernel 0 n t (rw p at v)
              (omega (arith, room, p, (held-le (suc i)).0)))
            (λ _ s w. (i, rw p w))

      go :
          (n : ℕ)
          → total (held (suc i)) ≡ suc n
          → Returns Left (on_pending rc kernel cpu settings clock future drop_acts i spent next t)
      go n p =
          rw (on_pending_lem i spent next t (alive 0 n t (rw p at v)))
            (elim (Bool-cases (t.scheduled == 0)) [
              | inl idle ↦ rw idle (i, v)
              | inr busy ↦ rw busy (elim (Bool-cases (budget_exhausted settings clock i spent)) [
                | inl over ↦ rw over (again n p)
                | inr under ↦ rw under (k _ (rw p (restarted-Inv n t (rw p at v))))
              ])
            ])
