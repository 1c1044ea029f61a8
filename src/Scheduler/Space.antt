-- ===== src/Scheduler/Space.antt =====
-- The free space that `can_start_task` of worker/scheduler.py asks for.
use all_debrid_proxy.Base.{
  ℕ, ◌+◌, ◌-◌, ◌*◌, ◌≤◌, ◌≡◌, ap, ◌&&◌, List, [], ◌∷◌, arith, leb, if◌then◌else◌, Bool-cases, inl,
  inr, Text, text_eq, text_eq→eq, sum_of, count_if,
}
use all_debrid_proxy.Models.{Db, Task, TaskFile, or_zero, files_of, has_task_id}
use all_debrid_proxy.Scheduler.{
  Settings, task_total_size, reserved_of, reserved_bytes_for_task, global_reserved_bytes, low_floor,
  can_start_task,
}

reserved_of-le-size : (f : TaskFile) → reserved_of f ≤ or_zero f.size_bytes
unfolding reserved_of
reserved_of-le-size f = ground arith

sum_of_mono :
    (f g : TaskFile → ℕ) (xs : List TaskFile)
    → ((x : TaskFile) → f x ≤ g x)
    → sum_of f xs ≤ sum_of g xs
sum_of_mono f g [] h = omega arith
sum_of_mono f g (x ∷ xs) h = omega (arith, h x, sum_of_mono f g xs h)

-- A task never reserves more than its total size, so the `need` of `can_start_task` is not negative.
reserved_bytes_for_task-le-total :
    (id : Text) (db : Db) → reserved_bytes_for_task id db ≤ task_total_size id db
unfolding reserved_bytes_for_task task_total_size
reserved_bytes_for_task-le-total id db =
    sum_of_mono reserved_of (λ f. or_zero f.size_bytes) (files_of id db) reserved_of-le-size

-- What all tasks but one reserve.
abbrev elsewhere_of : Text → Db → Task → ℕ
elsewhere_of id db t = if text_eq t.id id then 0 else reserved_bytes_for_task t.id db

pub reserved_elsewhere : Text → Db → ℕ
reserved_elsewhere id db = sum_of (elsewhere_of id db) db.tasks

split_sum :
    (id : Text) (db : Db) (ts : List Task)
    → sum_of (λ t. reserved_bytes_for_task t.id db) ts
      ≡ sum_of (elsewhere_of id db) ts
        + count_if (has_task_id id) ts * reserved_bytes_for_task id db
split_sum id db [] = omega arith
split_sum id db (t ∷ ts) = elim (Bool-cases (text_eq t.id id)) [
  | inl e ↦ rw e (
      omega
        (arith, split_sum id db ts, ap (λ i. reserved_bytes_for_task i db) (text_eq→eq t.id id e)))
  | inr e ↦ rw e (omega (arith, split_sum id db ts))
]

global-eq :
    (id : Text) (db : Db)
    → count_if (has_task_id id) db.tasks ≡ 1
    → global_reserved_bytes db ≡ reserved_elsewhere id db + reserved_bytes_for_task id db
unfolding global_reserved_bytes reserved_elsewhere
global-eq id db one =
    let s = split_sum id db db.tasks in
    omega (arith, s, ap (λ (n : ℕ). n * reserved_bytes_for_task id db) one)

leb_of_eq : (a b c : ℕ) → a ≡ b → leb a c ≡ leb b c
leb_of_eq a b c e = ap (λ n. leb n c) e

-- A task may go on exactly if the free space holds its whole size, downloaded parts included, beside
-- what all other tasks reserve, and is not below the floor.
pub can_start_task-eq :
    (settings : Settings) (free : ℕ) (id : Text) (db : Db)
    → count_if (has_task_id id) db.tasks ≡ 1
    → can_start_task settings free id db ≡ (
        leb (reserved_elsewhere id db + task_total_size id db) free
        && leb (low_floor settings) free)
can_start_task-eq settings free id db one =
    unfold can_start_task in
    ap (λ b. b && leb (low_floor settings) free)
      (leb_of_eq
        (global_reserved_bytes db + (task_total_size id db - reserved_bytes_for_task id db))
        (reserved_elsewhere id db + task_total_size id db) free
        (omega (arith, global-eq id db one, reserved_bytes_for_task-le-total id db)))
