-- ===== src/Tasks/Race.antt =====
-- Concurrent updates of one task. Each request reads the task and writes it later, and requests
-- interleave as the schedule says. A write is the UPDATE statement with the commit that follows:
-- the database locks the row until the commit and evaluates the `where` clause again on the
-- committed row, so that the writes of different requests to one row do not overlap. Versions are
-- taken to stay below the bound of their column.
pub mod Status
pub mod Fields
use multi_tenant_saas.Base.{
  ℕ, ◌+◌, Bool, true, false, ◌&&◌, Option, none, some, List, [], ◌∷◌, ◌==◌, if◌then◌else◌, filter,
  map_where, head?,
}
use multi_tenant_saas.Text.{text_eq}
use multi_tenant_saas.Models.{Db, Uuid, Timestamp, Task, TaskStatus, priority_eq}
use multi_tenant_saas.Repositories.Tables.{task_table}
use multi_tenant_saas.Tasks.{occ_where, occ_values}
use multi_tenant_saas.Tasks.Occ.{live_task}
use multi_tenant_saas.Tasks.Endpoints.{TaskUpdate, apply_update, stripped, override}
use multi_tenant_saas.Base.{or_else}

-- A request is named by a number; `read` is its first query, `write` its update.
pub data Move : Type 0 where
  read write : ℕ → Move

-- The committed tasks, what each request has read, and how many requests have succeeded.
pub record Race : Type 0 where
  pub tasks : List Task
  pub seen : ℕ → Option Task
  pub accepted : ℕ

abbrev pub start : List Task → Race
start tasks = record { tasks = tasks; seen = λ _. none; accepted = 0 }

abbrev pub remember : (ℕ → Option Task) → ℕ → Option Task → ℕ → Option Task
remember seen c found d = if d == c then found else seen d

abbrev pub null_eq {ℓ} : {A : Type ℓ} → (A → A → Bool) → Option A → Option A → Bool
null_eq eq none none = true
null_eq eq none (some y) = false
null_eq eq (some x) none = false
null_eq eq (some x) (some y) = eq x y

-- The value of a column after the flush: only a value that differs from the loaded one is sent.
abbrev pub net {ℓ} : {A : Type ℓ} → (A → A → Bool) → A → A → A → A
net eq loaded assigned stored = if eq loaded assigned then stored else assigned

-- The UPDATE that the flush in `update_task` sends, by the primary key alone: the columns whose
-- value is no longer the loaded one, and `updated_at`.
unfoldable pub flushed_columns : Timestamp → TaskUpdate → Task → Task → Task
flushed_columns now payload loaded row = record row {
  title = net text_eq loaded.title (stripped payload.title loaded.title) row.title;
  description =
      net (null_eq text_eq) loaded.description (override payload.description loaded.description)
        row.description;
  priority =
      net priority_eq loaded.priority (or_else payload.priority loaded.priority) row.priority;
  assignee_id =
      net (null_eq ◌==◌) loaded.assignee_id (override payload.assignee_id loaded.assignee_id)
        row.assignee_id;
  due_date =
      net (null_eq ◌==◌) loaded.due_date (override payload.due_date loaded.due_date) row.due_date;
  version_id = loaded.version_id + 1;
  updated_at = now;
}

module _ (o task_id : Uuid) (now : Timestamp) where
  -- The first query of both kinds of update: `get_by_id`.
  abbrev pub read_task : ℕ → Race → Race
  read_task c s = record s { seen = remember s.seen c (live_task o task_id s.tasks) }

  -- The conditional update of `update_task_status_occ`; without a returned row it raises.
  abbrev pub write_returned : ℕ → TaskStatus → ℕ → Race → Option Task → Race
  write_returned c new_status v s none = s
  write_returned c new_status v s (some _) = record s {
    tasks = map_where (occ_where o task_id v) (occ_values new_status v now) s.tasks;
    accepted = s.accepted + 1;
  }

  abbrev pub write_status : ℕ → TaskStatus → ℕ → Race → Option Task → Race
  write_status c new_status v s none = s
  write_status c new_status v s (some _) =
      write_returned c new_status v s (head? (filter (occ_where o task_id v) s.tasks))

  unfoldable pub status_step : (ℕ → TaskStatus) → (ℕ → ℕ) → Move → Race → Race
  status_step new_status expected (read c) s = read_task c s
  status_step new_status expected (write c) s =
      write_status c (new_status c) (expected c) s (s.seen c)

  unfoldable pub status_run : (ℕ → TaskStatus) → (ℕ → ℕ) → List Move → Race → Race
  status_run new_status expected [] s = s
  status_run new_status expected (m ∷ schedule) s =
      status_run new_status expected schedule (status_step new_status expected m s)

  -- The version test is made on the row that was read. A value that a constraint refuses is an
  -- error of the flush; `db` holds the rows that keys refer to.
  abbrev pub write_fields : Db → TaskUpdate → Race → Option Task → Race
  write_fields db payload s none = s
  write_fields db payload s (some loaded) =
      if (loaded.version_id == payload.expected_version)
        && task_table.valid db (apply_update payload now loaded)
      then record s {
        tasks = map_where (λ r. r.id == loaded.id) (flushed_columns now payload loaded) s.tasks;
        accepted = s.accepted + 1;
      }
      else s

  unfoldable pub fields_step : Db → (ℕ → TaskUpdate) → Move → Race → Race
  unfolding flushed_columns apply_update
  fields_step db payloads (read c) s = read_task c s
  fields_step db payloads (write c) s = write_fields db (payloads c) s (s.seen c)

  unfoldable pub fields_run : Db → (ℕ → TaskUpdate) → List Move → Race → Race
  unfolding fields_step
  fields_run db payloads [] s = s
  fields_run db payloads (m ∷ schedule) s =
      fields_run db payloads schedule (fields_step db payloads m s)
