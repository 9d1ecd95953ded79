-- ===== src/Executor/WorkItem/Items.antt =====
-- The work items of a task (src/executor.rs): every one that the context made is in use or was deleted,
-- once.
use kcom_rs.Prelude.{
  ℕ, zero, suc, ◌+◌, ◌≤◌, ◌<◌, ◌≡◌, refl, sym, ap, ◌∙◌, false, none, some, List, [], ◌∷◌, ◌==◌,
  arith, Returns, length,
}
use kcom_rs.RefCount.{RefCounter}
use kcom_rs.Executor.WorkItem.{Task, TaskContext, is_deleted, release}
use kcom_rs.Executor.WorkItem.Ops.{release_shared, release_last}
use kcom_rs.Executor.WorkItem.Inv.{Inv, alive, count, fewer-Inv, finished-Inv, fits}

-- The items before number `k`, the last first.
abbrev pub before : ℕ → List ℕ
before zero = []
before (suc k) = k ∷ before k

-- No item is in use: all that were made are deleted.
abbrev pub Idle : Task → Type 0
Idle t = (t.queue ≡ []) × (t.work_item ≡ none) × (t.deleted ≡ before t.created)

-- The last item that was made is the task's, and runs; all others are deleted.
abbrev pub Running : (k : ℕ) → Task → Type 0
Running k t = (t.queue ≡ []) × (t.work_item ≡ some k) × (t.created ≡ suc k) × (t.deleted ≡ before k)

-- The same while it is in the kernel's queue.
abbrev pub Queued : (k : ℕ) → Task → Type 0
Queued k t =
    (t.queue ≡ k ∷ [])
    × (t.work_item ≡ some k)
    × (t.created ≡ suc k)
    × (t.deleted ≡ before k)
    × (t.completed ≡ 0)

pub is_deleted-before : (item k : ℕ) → k ≤ item → is_deleted item (before k) ≡ false
is_deleted-before item zero h = refl
is_deleted-before item (suc k) h =
    let n : (k == item) ≡ false = ground (arith, h) in
    rw n (is_deleted-before item k (omega (arith, h)))

-- What the counts of references do not touch.
abbrev pub Same : Task → Task → Type 0
Same t u =
    (u.queue ≡ t.queue)
    × (u.work_item ≡ t.work_item)
    × (u.created ≡ t.created)
    × (u.deleted ≡ t.deleted)
    × (u.completed ≡ t.completed)

pub Running-Same : (k : ℕ) (t u : Task) → Same t u → Running k t → Running k u
Running-Same k t u (a, b, c, d, e) (q, w, m, l) = (a ∙ q, b ∙ w, c ∙ m, d ∙ l)

pub Queued-Same : (k : ℕ) (t u : Task) → Same t u → Queued k t → Queued k u
Queued-Same k t u (a, b, c, d, e) (q, w, m, l, z) = (a ∙ q, b ∙ w, c ∙ m, d ∙ l, e ∙ z)

pub Idle-Same : (t u : Task) → Same t u → Idle t → Idle u
Idle-Same t u (a, b, c, d, e) (q, w, l) = (a ∙ q, b ∙ w, d ∙ l ∙ ap before (sym c))

module _ (rc : RefCounter) (context : TaskContext) (r n : ℕ) (t : Task)
    (v : Inv context r (suc n) t) (room : n + 2 < rc.limit) where
  -- A release gives back a reference and leaves the items alone.
  pub release-Same : Returns (λ _ u. Inv context r n u × Same t u) (release rc context t)
  release-Same = go (n + length t.queue) refl
    where
      go :
          (k : ℕ)
          → n + length t.queue ≡ k
          → Returns (λ _ u. Inv context r n u × Same t u) (release rc context t)
      go zero e =
          rw
            (release_last rc context t (alive context r n t v)
              (omega (arith, count context r n t v, e))
              (omega (arith, fits rc context r n t v room)))
            (finished-Inv context r n t v e, (refl, refl, refl, refl, refl))
      go (suc k) e =
          rw
            (release_shared rc context t (alive context r n t v) k
              (omega (arith, count context r n t v, e))
              (omega (arith, fits rc context r n t v room, count context r n t v, e)))
            (fewer-Inv context r n t v k e, (refl, refl, refl, refl, refl))
