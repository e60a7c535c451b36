-- ===== src/Tasks/Endpoints.antt =====
-- The handlers of app/api/v1/endpoints/tasks.py that create, change and delete tasks, with the
-- payloads of app/schemas/task.py.
use multi_tenant_saas.Base.{ℕ, ◌+◌, false, not, Option, none, some, [], ◌∷◌, ◌==◌, or_else}
use multi_tenant_saas.Text.{Text, strip}
use multi_tenant_saas.Models.{Uuid, Timestamp, Task, TaskStatus, TaskPriority, JsonValue}
use multi_tenant_saas.Session.{
  entity_not_found, entity_conflict, Action, pure, raise, utc_now, ◌>>=◌, ◌>>◌, raise_if, commit,
  broadcast_to_room,
}
use multi_tenant_saas.Repositories.{get_by_id, soft_delete, flush_row}
use multi_tenant_saas.Repositories.Tables.{task_model, task_table}
use multi_tenant_saas.Access.{TenantContext}
use multi_tenant_saas.Tasks.{create_task_service, update_task_status_occ}

pub record TaskCreate : Type 0 where
  pub project_id : Uuid
  pub title : Text
  pub description : Option Text
  pub priority : TaskPriority
  pub assignee_id : Option Uuid
  pub parent_id : Option Uuid
  pub due_date : Option Timestamp

pub record TaskUpdate : Type 0 where
  pub title : Option Text
  pub description : Option Text
  pub status : Option TaskStatus
  pub priority : Option TaskPriority
  pub assignee_id : Option Uuid
  pub due_date : Option Timestamp
  pub expected_version : ℕ

-- `v if v is not None else d`, for a column that may be null.
abbrev pub override {ℓ} : {A : Type ℓ} → Option A → Option A → Option A
override none d = d
override (some x) _ = some x

abbrev pub stripped : Option Text → Text → Text
stripped none d = d
stripped (some t) _ = strip t

-- The assignments of `update_task`, with `onupdate` of the row.
unfoldable pub apply_update : TaskUpdate → Timestamp → Task → Task
apply_update payload now task = record task {
  title = stripped payload.title task.title;
  description = override payload.description task.description;
  priority = or_else payload.priority task.priority;
  assignee_id = override payload.assignee_id task.assignee_id;
  due_date = override payload.due_date task.due_date;
  version_id = task.version_id + 1;
  updated_at = now;
}

unfoldable pub create_task : TaskCreate → TenantContext → Action Task
create_task payload ctx = do
  task ←
      create_task_service ctx.organization_id payload.project_id ctx.user.id payload.title
        payload.description payload.priority payload.assignee_id
  broadcast_to_room payload.project_id "TASK_CREATED" (
      ("task_id", JsonValue.uuid task.id)
      ∷ ("title", JsonValue.text task.title)
      ∷ ("priority", JsonValue.priority task.priority)
      ∷ ("status", JsonValue.status task.status)
      ∷ [])
  pure task

-- The branch of `update_task` for a payload with a status.
unfoldable pub update_task_status : Uuid → TaskUpdate → TenantContext → TaskStatus → Action Task
update_task_status task_id payload ctx new_status = do
  updated_task ←
      update_task_status_occ ctx.organization_id task_id ctx.user.id new_status
        payload.expected_version
  broadcast_to_room updated_task.project_id "TASK_UPDATED" (
      ("task_id", JsonValue.uuid task_id)
      ∷ ("status", JsonValue.status updated_task.status)
      ∷ ("version_id", JsonValue.number updated_task.version_id)
      ∷ [])
  pure updated_task

-- The branch of `update_task` for a payload without a status.
unfoldable pub update_task_fields : Uuid → TaskUpdate → TenantContext → Action Task
unfolding get_by_id flush_row apply_update
update_task_fields task_id payload ctx = do
  found ← get_by_id task_model ctx.organization_id task_id false
  elim found [
    | none ↦ raise (entity_not_found "Task")
    | some loaded ↦ do
      raise_if (not (loaded.version_id == payload.expected_version)) entity_conflict
      now ← utc_now
      let task = apply_update payload now loaded
      flush_row task_table task
      commit
      broadcast_to_room task.project_id "TASK_UPDATED" (
          ("task_id", JsonValue.uuid task_id)
          ∷ ("title", JsonValue.text task.title)
          ∷ ("priority", JsonValue.priority task.priority)
          ∷ ("version_id", JsonValue.number task.version_id)
          ∷ [])
      pure task
  ]

unfoldable pub update_task : Uuid → TaskUpdate → TenantContext → Action Task
update_task task_id payload ctx = elim payload.status [
  | some new_status ↦ update_task_status task_id payload ctx new_status
  | none ↦ update_task_fields task_id payload ctx
]

unfoldable pub delete_task : Uuid → TenantContext → Action (Unit {0})
unfolding get_by_id soft_delete
delete_task task_id ctx = do
  found ← get_by_id task_model ctx.organization_id task_id false
  elim found [
    | none ↦ raise (entity_not_found "Task")
    | some task ↦ do
      let project_id = task.project_id
      success ← soft_delete task_model ctx.organization_id task_id
      raise_if (not success) (entity_not_found "Task")
      commit
      broadcast_to_room project_id "TASK_DELETED" (("task_id", JsonValue.uuid task_id) ∷ [])
  ]
