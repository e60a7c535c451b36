-- ===== src/Tasks.antt =====
-- Tasks: app/services/task.py, and the handlers of app/api/v1/endpoints/tasks.py that change tasks.
pub mod Endpoints
pub mod Listing
pub mod OffsetPages
pub mod Create
pub mod Assigned
pub mod Change
pub mod Isolation
pub mod Occ
pub mod Race
mod Tests
use Prim.Native.String.{String}
use multi_tenant_saas.Base.{
  ℕ, ◌+◌, Bool, true, false, ◌&&◌, not, Option, none, some, List, [], ◌∷◌, ◌==◌, ltb, if◌then◌else◌,
  filter, map_where, head?, is_some, or_else,
}
use multi_tenant_saas.Text.{Text, strip}
use multi_tenant_saas.Models.{
  Db, Uuid, Timestamp, Task, TaskStatus, backlog, TaskPriority, AuditAction, create, update,
  AuditLog, JsonState, JsonValue, OrgRole,
}
use multi_tenant_saas.Session.{
  Error, entity_not_found, entity_conflict, database_error, Action, pure, raise, query, execute,
  uuid4, utc_now, ◌>>=◌, ◌>>◌, raise_if, commit, transaction, broadcast_to_room,
}
use multi_tenant_saas.Repositories as Repo
use multi_tenant_saas.Repositories.{get_by_id, create_scoped, soft_delete, flush_row, add_row}
use multi_tenant_saas.Repositories.Tables.{task_model, task_table, audit_table}
use multi_tenant_saas.Access.{TenantContext}

-- `session.add(AuditLog(...))`; the row is written by the flush of the commit.
unfoldable pub add_audit :
    Uuid
    → Option Uuid
    → String
    → Uuid
    → AuditAction
    → Option JsonState
    → Option JsonState
    → Action (Unit {0})
unfolding add_row
add_audit organization_id actor_id entity_type entity_id action before_state after_state = do
  audit_id ← uuid4
  now ← utc_now
  add_row audit_table (record {
    id = audit_id;
    organization_id = organization_id;
    actor_id = actor_id;
    entity_type = entity_type;
    entity_id = entity_id;
    action = action;
    before_state = before_state;
    after_state = after_state;
    ip_address = none;
    user_agent = none;
    timestamp = now;
  })

-- The `values` of the conditional update; `updated_at` has `onupdate=utc_now`.
unfoldable pub occ_values : TaskStatus → ℕ → Timestamp → Task → Task
occ_values new_status expected_version now task = record task {
  status = new_status;
  version_id = expected_version + 1;
  updated_at = now;
}

module _ (organization_id : Uuid) where
  -- `TaskService.create_task`
  unfoldable pub create_task_service :
      Uuid → Uuid → Text → Option Text → TaskPriority → Option Uuid → Action Task
  unfolding create_scoped add_audit transaction
  create_task_service project_id reporter_id title description priority assignee_id =
      transaction (do
        task ← create_scoped task_model organization_id (λ organization task_id now. record {
          id = task_id;
          organization_id = organization;
          project_id = project_id;
          parent_id = none;
          reporter_id = reporter_id;
          assignee_id = assignee_id;
          title = title;
          description = description;
          status = backlog;
          priority = priority;
          due_date = none;
          version_id = 1;
          created_at = now;
          updated_at = now;
          is_deleted = false;
          deleted_at = none;
        })
        add_audit organization_id (some reporter_id) "Task" task.id create none (
            some (
              ("title", JsonValue.text task.title)
              ∷ ("status", JsonValue.status task.status)
              ∷ ("priority", JsonValue.priority task.priority)
              ∷ []))
        pure task)

  -- The `where` clause of the conditional update.
  unfoldable pub occ_where : Uuid → ℕ → Task → Bool
  occ_where task_id expected_version task =
      (task.id == task_id)
      && (task.organization_id == organization_id)
      && (task.version_id == expected_version)
      && not task.is_deleted

  -- `TaskService.update_task_status_occ`. The statement binds `expected_version` and the number
  -- after it as 32-bit integers, which the driver refuses out of range.
  unfoldable pub update_task_status_occ : Uuid → Uuid → TaskStatus → ℕ → Action Task
  unfolding get_by_id add_audit transaction occ_where occ_values
  update_task_status_occ task_id actor_id new_status expected_version = transaction (do
    found ← get_by_id task_model organization_id task_id false
    elim found [
      | none ↦ raise (entity_not_found "Task")
      | some existing_task ↦ do
        raise_if (not (ltb expected_version 2147483647)) database_error
        now ← utc_now
        returned ← query (λ db. head? (filter (occ_where task_id expected_version) db.tasks))
        execute (λ db. record db {
          tasks =
              map_where (occ_where task_id expected_version)
                (occ_values new_status expected_version now) db.tasks;
        })
        elim returned [
          | none ↦ raise entity_conflict
          | some row ↦ do
            let updated_task = occ_values new_status expected_version now row
            add_audit organization_id (some actor_id) "Task" updated_task.id update
                (some (
                  ("status", JsonValue.status existing_task.status)
                  ∷ ("version_id", JsonValue.number existing_task.version_id)
                  ∷ []))
                (some (
                  ("status", JsonValue.status updated_task.status)
                  ∷ ("version_id", JsonValue.number updated_task.version_id)
                  ∷ []))
            pure updated_task
        ]
    ])
