-- ===== src/Tasks/Change.antt =====
-- What `PATCH /tasks/{task_id}` without a status and `DELETE /tasks/{task_id}` do, on every branch.
use multi_tenant_saas.Base.{
  ℕ, ◌+◌, refl, ◌≡◌, ap, ◌∙◌, fun_ext, Bool, true, false, ◌&&◌, not, Option, none, some, List, [],
  ◌∷◌, ◌++◌, ◌==◌, arith, if◌then◌else◌, inl, inr, filter, map_where, head?, Unique, map_where-key,
  head?-filter_passes, Option-cases,
}
use multi_tenant_saas.Models.{Uuid, Timestamp, Task, JsonValue}
use multi_tenant_saas.Session.{
  entity_not_found, entity_conflict, database_error, Result, ok, err, Event, World,
  broadcast_to_room,
}
use multi_tenant_saas.Repositories.{in_scope}
use multi_tenant_saas.Repositories.Tables.{task_model, task_table, task_deletion}
use multi_tenant_saas.Access.{TenantContext}
use multi_tenant_saas.Tasks.Occ.{live_task}
use multi_tenant_saas.Tasks.Assigned.{
  kept_or, kept_or_null, new_title, kept_or-or_else, kept_or_null-override, new_title-stripped,
}
use multi_tenant_saas.Tasks.Endpoints.{TaskUpdate, apply_update, update_task_fields, delete_task}

abbrev pub publish : World → Event → List Event
publish w event = if w.pubsub_up then w.published ++ event ∷ [] else w.published

-- The tasks with one row put in the place of the row with its key.
abbrev pub replace_task : Task → List Task → List Task
replace_task task tasks = map_where (λ r. r.id == task.id) (λ _. task) tasks

abbrev pub stored : World → List Task → Event → World
stored w tasks event = record w {
  working = record w.working { tasks = tasks };
  committed = record w.working { tasks = tasks };
  published = publish w event;
}

abbrev pub update_event : Uuid → Task → Event
update_event task_id task = record {
  room = task.project_id;
  event_type = "TASK_UPDATED";
  payload =
      ("task_id", JsonValue.uuid task_id)
      ∷ ("title", JsonValue.text task.title)
      ∷ ("priority", JsonValue.priority task.priority)
      ∷ ("version_id", JsonValue.number task.version_id)
      ∷ [];
}

-- The row that the update should leave.
abbrev pub updated_task : TaskUpdate → Timestamp → Task → Task
updated_task payload now t = record {
  id = t.id;
  organization_id = t.organization_id;
  project_id = t.project_id;
  parent_id = t.parent_id;
  reporter_id = t.reporter_id;
  assignee_id = kept_or_null t.assignee_id payload.assignee_id;
  title = new_title t.title payload.title;
  description = kept_or_null t.description payload.description;
  status = t.status;
  priority = kept_or t.priority payload.priority;
  due_date = kept_or_null t.due_date payload.due_date;
  version_id = t.version_id + 1;
  created_at = t.created_at;
  updated_at = now;
  is_deleted = t.is_deleted;
  deleted_at = t.deleted_at;
}

updated_task-apply_update :
    (payload : TaskUpdate) (now : Timestamp) (t : Task)
    → apply_update payload now t ≡ updated_task payload now t
unfolding apply_update
updated_task-apply_update payload now t =
    rw
      (
        new_title-stripped t.title payload.title,
        kept_or_null-override t.description payload.description,
        kept_or-or_else t.priority payload.priority,
        kept_or_null-override t.assignee_id payload.assignee_id,
        kept_or_null-override t.due_date payload.due_date,
      )
      refl

-- What the update should do, in terms of the live task and of the row that it becomes.
abbrev pub fields_change_to : (Task → Task) → Uuid → ℕ → World → Option Task → Result Task × World
fields_change_to next task_id expected w none = (err (entity_not_found "Task"), w)
fields_change_to next task_id expected w (some t) =
    let task = next t in
    if t.version_id == expected
    then (if task_table.valid w.working task
        then (ok task, stored w (replace_task task w.working.tasks) (update_event task_id task))
        else (err database_error, w))
    else (err entity_conflict, w)

abbrev pub fields_change : Uuid → TaskUpdate → World → Option Task → Result Task × World
fields_change task_id payload w =
    fields_change_to (updated_task payload w.now) task_id payload.expected_version w

abbrev pub deleted_task : Timestamp → Task → Task
deleted_task now t = record t { is_deleted = true; deleted_at = some now; updated_at = now }

abbrev pub delete_event : Uuid → Task → Event
delete_event task_id task = record {
  room = task.project_id;
  event_type = "TASK_DELETED";
  payload = ("task_id", JsonValue.uuid task_id) ∷ [];
}

-- What the deletion should do, in terms of the live task alone.
abbrev pub deletion_change : Uuid → World → Option Task → Result (Unit {0}) × World
deletion_change task_id w none = (err (entity_not_found "Task"), w)
deletion_change task_id w (some t) =
    (ok tt, stored w (replace_task (deleted_task w.now t) w.working.tasks) (delete_event task_id t))

module _ (task_id : Uuid) (payload : TaskUpdate) (ctx : TenantContext) (w : World) where
  fields_change_to_lem :
      update_task_fields task_id payload ctx w
      ≡ fields_change_to
          (apply_update payload w.now)
          task_id
          payload.expected_version
          w
          (live_task ctx.organization_id task_id w.working.tasks)
  unfolding update_task_fields broadcast_to_room
  fields_change_to_lem = ground arith

  -- An update without a status does exactly this: no live task of the tenant, another version than
  -- the expected one and a row that the database refuses are errors that change nothing; otherwise
  -- the given attributes are assigned, the title without outer spaces, the version is one higher,
  -- only the task's own row changes, it is committed, and the project's room is told, if the broker
  -- answers.
  pub update_task_fields_lem :
      update_task_fields task_id payload ctx w
      ≡ fields_change task_id payload w (live_task ctx.organization_id task_id w.working.tasks)
  update_task_fields_lem =
      fields_change_to_lem
      ∙ ap
          (λ next.
            fields_change_to next task_id payload.expected_version w
              (live_task ctx.organization_id task_id w.working.tasks))
          (fun_ext (updated_task-apply_update payload w.now))

module _ (task_id : Uuid) (ctx : TenantContext) (w : World) where
  deletable : Task → Bool
  deletable t = (t.id == task_id) && (t.organization_id == ctx.organization_id) && not t.is_deleted

  deletable_eq :
      (t : Task)
      → deletable t ≡ ((t.id == task_id) && in_scope task_model ctx.organization_id false t)
  unfolding deletable
  deletable_eq t = ground arith

  deletable_found :
      head? (filter deletable w.working.tasks)
      ≡ live_task ctx.organization_id task_id w.working.tasks
  deletable_found =
      ap (λ (p : Task → Bool). head? (filter p w.working.tasks)) (fun_ext deletable_eq)

  deletable_marked :
      (t : Task)
      → Unique (λ (r : Task). r.id) w.working.tasks
      → live_task ctx.organization_id task_id w.working.tasks ≡ some t
      → map_where deletable (task_deletion.mark_deleted w.now) w.working.tasks
        ≡ replace_task (deleted_task w.now t) w.working.tasks
  deletable_marked t u h =
      let passes =
        head?-filter_passes
          (λ r. (r.id == task_id) && in_scope task_model ctx.organization_id false r)
          w.working.tasks t h in
      let same_id : task_id ≡ t.id = ground arith in
      ap (λ (p : Task → Bool). map_where p (task_deletion.mark_deleted w.now) w.working.tasks)
        (fun_ext deletable_eq)
      ∙ (map_where-key (λ r. r.id) task_id (in_scope task_model ctx.organization_id false)
            (task_deletion.mark_deleted w.now) w.working.tasks t u h
          ∙ ap
              (λ (k : Uuid). map_where (λ r. r.id == k) (λ _. deleted_task w.now t) w.working.tasks)
              same_id)

  deletion_found :
      (t : Task) (tasks : List Task)
      → live_task ctx.organization_id task_id w.working.tasks ≡ some t
      → head? (filter deletable w.working.tasks) ≡ some t
      → map_where deletable (task_deletion.mark_deleted w.now) w.working.tasks ≡ tasks
      → delete_task task_id ctx w ≡ (ok tt, stored w tasks (delete_event task_id t))
  unfolding delete_task deletable broadcast_to_room
  deletion_found t tasks h f e = ground arith

  deletion_absent :
      live_task ctx.organization_id task_id w.working.tasks ≡ none
      → delete_task task_id ctx w ≡ (err (entity_not_found "Task"), w)
  unfolding delete_task
  deletion_absent h = ground arith

  -- With distinct keys, a deletion does exactly this: without a live task of the tenant it fails
  -- and changes nothing; otherwise the row stays, marked as deleted at the time of the request, no
  -- other row changes, it is committed, and the project's room is told.
  pub delete_task_lem :
      Unique (λ (r : Task). r.id) w.working.tasks
      → delete_task task_id ctx w
        ≡ deletion_change task_id w (live_task ctx.organization_id task_id w.working.tasks)
  delete_task_lem u = elim (Option-cases (live_task ctx.organization_id task_id w.working.tasks)) [
    | inl absent ↦ rw absent (deletion_absent absent)
    | inr (t, h) ↦ rw h (deletion_found t _ h (deletable_found ∙ h) (deletable_marked t u h))
  ]
