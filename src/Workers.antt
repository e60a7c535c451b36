-- ===== src/Workers.antt =====
-- app/workers/tasks.py: `cleanup_soft_deleted_tasks_job`, with the `ON DELETE CASCADE` of the
-- tables that refer to tasks (app/models/task.py). The two other jobs only log.
pub mod Rounds
pub mod Purge
mod Tests
use multi_tenant_saas.Base.{
  ℕ, zero, suc, ◌-◌, ◌*◌, Bool, true, false, ◌&&◌, not, Option, none, some, List, [], ◌∷◌, ◌++◌,
  ◌==◌, leb, if◌then◌else◌, filter, any, length,
}
use multi_tenant_saas.Models.{Db, Uuid, Timestamp, Task, Comment, Attachment}
use multi_tenant_saas.Session.{ok, Action, roll_back}

-- `deleted_at <= cutoff`, where a null is no match.
abbrev pub no_later : Option Timestamp → Timestamp → Bool
no_later none cutoff_time = false
no_later (some t) cutoff_time = leb t cutoff_time

-- The `where` clause of the statement.
abbrev pub is_expired : Timestamp → Task → Bool
is_expired cutoff_time task = task.is_deleted && no_later task.deleted_at cutoff_time

abbrev pub has_id : Option Uuid → Task → Bool
has_id none g = false
has_id (some id) g = id == g.id

-- The task's parent is among the rows that go.
abbrev pub is_subtask : List Task → Task → Bool
is_subtask gone task = any (has_id task.parent_id) gone

-- The rows that are kept and those that go, when `gone` went last: their subtasks go next. Every
-- round but the last takes rows away, so as many rounds as there are rows are enough.
unfoldable pub cascade : ℕ → List Task → List Task → List Task → List Task × List Task
cascade zero gone removed kept = (kept, removed)
cascade (suc rounds) gone removed kept =
    cascade rounds (filter (is_subtask gone) kept) (removed ++ filter (is_subtask gone) kept)
      (filter (λ t. not (is_subtask gone t)) kept)

-- The tables after `DELETE FROM tasks`.
unfoldable pub delete_expired : Timestamp → Db → Db
unfolding cascade
delete_expired cutoff_time db =
    let expired = filter (is_expired cutoff_time) db.tasks in
    let (kept, removed) =
      cascade (length db.tasks) expired expired
        (filter (λ t. not (is_expired cutoff_time t)) db.tasks) in
    record db {
      tasks = kept;
      comments = filter (λ c. not (any (has_id (some c.task_id)) removed)) db.comments;
      attachments = filter (λ a. not (any (has_id (some a.task_id)) removed)) db.attachments;
    }

abbrev pub day : ℕ
day = 86400000000

-- The statement returns the ids of the rows that its own clause matches.
unfoldable pub cleanup_soft_deleted_tasks_job : ℕ → Action ℕ
unfolding delete_expired
cleanup_soft_deleted_tasks_job days_threshold w =
    let cutoff_time = w.now - days_threshold * day in
    let after = delete_expired cutoff_time w.committed in
    (
      ok (length (filter (is_expired cutoff_time) w.committed.tasks)),
      record w { committed = after; working = after },
    )
