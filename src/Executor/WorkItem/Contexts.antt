-- ===== src/Executor/WorkItem/Contexts.antt =====
-- src/executor.rs: the two implementations of `TaskContext`, for a `DEVICE_OBJECT` (WDM) and a
-- `WDFDEVICE` (KMDF). A pointer or handle is a number, and 0 is null.
use kcom_rs.Prelude.{
  ℕ, ◌+◌, ◌-◌, ◌≡◌, ◌≢◌, ◌⊎◌, inl, inr, refl, ap, Bool, true, false, not, List, [], ◌∷◌, ◌++◌, ◌==◌,
  if◌then◌else◌, arith, Bool-cases,
}
use kcom_rs.Status.{
  NtStatus, status_success, status_invalid_parameter, status_insufficient_resources,
}

pub data DriverModel : Type 0 where
  wdm kmdf : DriverModel

-- What the kernel keeps: the references of the device object, the work items that are allocated,
-- those in its queue, and the task pointer in an item's context.
pub record Io : Type 0 where
  pub device_refs : ℕ
  pub items : List ℕ
  pub queue : List ℕ
  pub task_of : ℕ → ℕ

-- What the kernel answers, a parameter: `IoAllocateWorkItem`, 0 if there is no memory; or
-- `WdfWorkItemCreate`, its status and the item, and whether the item has a context of our type.
pub record Answer : Type 0 where
  pub status : NtStatus
  pub item : ℕ
  pub typed : Bool

unfoldable pub is_valid : (device : ℕ) → Bool
is_valid device = not (device == 0)

-- `ObReferenceObject` and `ObDereferenceObject`; the framework keeps a `WDFDEVICE`.
unfoldable pub retain : DriverModel → (device : ℕ) → Io → Io
retain wdm device io = if device == 0 then io else record io { device_refs = io.device_refs + 1 }
retain kmdf device io = io

unfoldable pub release : DriverModel → (device : ℕ) → Io → Io
release wdm device io = if device == 0 then io else record io { device_refs = io.device_refs - 1 }
release kmdf device io = io

abbrev pub remove : ℕ → List ℕ → List ℕ
remove item [] = []
remove item (i ∷ is) = if i == item then is else i ∷ remove item is

-- `IoFreeWorkItem` and `WdfObjectDelete`
unfoldable pub delete_work_item : (item : ℕ) → Io → Io
delete_work_item item io = if item == 0 then io else record io { items = remove item io.items }

abbrev pub allocated : ℕ → Io → Io
allocated item io = record io { items = item ∷ io.items }

-- `WdfWorkItemCreate` succeeded.
typed_item : (task : ℕ) → Answer → (out : ℕ) → Io → (NtStatus × ℕ) × Io
unfolding delete_work_item
typed_item task a out io =
    if a.typed
    then (
      (status_success, a.item),
      record (allocated a.item io) { task_of = λ i. if i == a.item then task else io.task_of i },
    )
    else ((status_invalid_parameter, out), delete_work_item a.item (allocated a.item io))

-- The status, `out_item` afterwards, and the kernel's state.
create_in : DriverModel → (task : ℕ) → Answer → (out : ℕ) → Io → (NtStatus × ℕ) × Io
unfolding typed_item
create_in wdm task a out io =
    if a.item == 0
    then ((status_insufficient_resources, out), io)
    else ((status_success, a.item), allocated a.item io)
create_in kmdf task a out io =
    if a.status == status_success then typed_item task a out io else ((a.status, out), io)

unfoldable pub create_work_item :
    DriverModel → (device task : ℕ) → Answer → (out : ℕ) → Io → (NtStatus × ℕ) × Io
unfolding create_in
create_work_item m device task a out io =
    if device == 0 then ((status_invalid_parameter, out), io) else create_in m task a out io

-- `IoQueueWorkItem` and `WdfWorkItemEnqueue`
unfoldable pub enqueue_work_item : (item : ℕ) → Io → Io
enqueue_work_item item io = if item == 0 then io else record io { queue = io.queue ++ item ∷ [] }

-- An item is made, or the call fails and leaves everything as it was.
abbrev pub Created : (out : ℕ) → Io → (NtStatus × ℕ) × Io → Type 0
Created out io ((status, item), io') =
    ((status ≡ status_success)
      × (item ≢ 0)
      × (io'.items ≡ item ∷ io.items)
      × ((delete_work_item item io').items ≡ io.items))
    ⊎ ((status ≢ status_success) × (item ≡ out) × (io'.items ≡ io.items))

deleted_lem :
    (item : ℕ) (io : Io) (m : ℕ → ℕ)
    → item ≢ 0
    → (delete_work_item item (record (allocated item io) { task_of = m })).items ≡ io.items
unfolding delete_work_item
deleted_lem item io m n =
    let z : (item == 0) ≡ false = ground (arith, n) in
    let s : (item == item) ≡ true = ground arith in rw (z, s) refl

made-Created :
    (out item : ℕ) (io : Io) (m : ℕ → ℕ)
    → item ≢ 0
    → Created out io ((status_success, item), record (allocated item io) { task_of = m })
made-Created out item io m n = inl (refl, n, refl, deleted_lem item io m n)

failed-Created :
    (out : ℕ) (io io' : Io) (status : NtStatus)
    → status ≢ status_success
    → io'.items ≡ io.items
    → Created out io ((status, out), io')
failed-Created out io io' status n e = inr (n, refl, e)

create_wdm :
    (task : ℕ) (a : Answer) (out : ℕ) (io : Io) → Created out io (create_in wdm task a out io)
unfolding create_in
create_wdm task a out io = elim (Bool-cases (a.item == 0)) [
  | inl z ↦
      rw z (failed-Created out io io status_insufficient_resources (λ e. ground (arith, e)) refl)
  | inr n ↦ rw n (made-Created out a.item io io.task_of (λ e. ground (arith, n, e)))
]

create_typed :
    (task : ℕ) (a : Answer) (out : ℕ) (io : Io)
    → a.item ≢ 0
    → Created out io (typed_item task a out io)
unfolding typed_item
create_typed task a out io n = elim (Bool-cases a.typed) [
  | inl t ↦ rw t (made-Created out a.item io (λ i. if i == a.item then task else io.task_of i) n)
  | inr t ↦ rw t (
      failed-Created out io (delete_work_item a.item (allocated a.item io)) status_invalid_parameter
        (λ e. ground (arith, e)) (deleted_lem a.item io io.task_of n))
]

create_kmdf :
    (task : ℕ) (a : Answer) (real : a.status ≡ status_success → a.item ≢ 0) (out : ℕ) (io : Io)
    → Created out io (create_in kmdf task a out io)
unfolding create_in
create_kmdf task a real out io = elim (Bool-cases (a.status == status_success)) [
  | inl s ↦ rw s (create_typed task a out io (real (ground (arith, s))))
  | inr f ↦ rw f (failed-Created out io io a.status (λ e. ground (arith, f, e)) refl)
]

create_any :
    (m : DriverModel) (task : ℕ) (a : Answer) (real : a.status ≡ status_success → a.item ≢ 0)
    (out : ℕ) (io : Io)
    → Created out io (create_in m task a out io)
create_any wdm task a real out io = create_wdm task a out io
create_any kmdf task a real out io = create_kmdf task a real out io

-- In both driver models `create_work_item` leaks nothing: on success there is one new item, which is
-- not null and stored in `out_item`, and deleting it leaves the items that there were; on failure,
-- also when a new item turns out to have no context of the type, `out_item` is not written and there
-- is no new item. A successful `WdfWorkItemCreate` is assumed to give an item that is not null.
pub create_lem :
    (m : DriverModel) (device task : ℕ) (a : Answer) (real : a.status ≡ status_success → a.item ≢ 0)
    (out : ℕ) (io : Io)
    → Created out io (create_work_item m device task a out io)
unfolding create_work_item
create_lem m device task a real out io = elim (Bool-cases (device == 0)) [
  | inl z ↦ rw z (failed-Created out io io status_invalid_parameter (λ e. ground (arith, e)) refl)
  | inr n ↦ rw n (create_any m task a real out io)
]

-- A device that is retained and released has the references that it had.
pub release-retain :
    (m : DriverModel) (device : ℕ) (io : Io) → release m device (retain m device io) ≡ io
unfolding release retain
release-retain kmdf device io = refl
release-retain wdm device io = elim (Bool-cases (device == 0)) [
  | inl z ↦ rw z refl
  | inr n ↦
      let e : io.device_refs + 1 - 1 ≡ io.device_refs = omega arith in
      rw n (ap (λ r. record io { device_refs = r }) e)
]
