-- ===== src/Tasks/Isolation.antt =====
-- Requests on tasks and what another tenant sees (app/api/v1/endpoints/tasks.py).
use multi_tenant_saas.Base.{
  ℕ, ◌≡◌, ◌≢◌, ap, ◌∙◌, refl, sym, true, false, ◌&&◌, List, some, none, Option, ◌==◌, arith, filter,
  map_where, Unique, head?-filter_passes, Option-cases, inl, inr,
}
use multi_tenant_saas.Models.{Uuid, Task, TaskStatus}
use multi_tenant_saas.Session.{World, with_session, roll_back, broadcast_to_room}
use multi_tenant_saas.Repositories.{in_scope}
use multi_tenant_saas.Repositories.Tables.{task_model, has_organization, has_user}
use multi_tenant_saas.Access.{TenantContext}
use multi_tenant_saas.Tenancy.{tenant_view, view-append, view-replaced}
use multi_tenant_saas.Tasks.{update_task_status_occ}
use multi_tenant_saas.Tasks.Create.{create_task_lem, requested_task, creation_audit}
use multi_tenant_saas.Tasks.Occ.{
  live_task, status_change, update_task_status_occ_lem, status_audit, with_status,
}
use multi_tenant_saas.Tasks.Change.{
  fields_change, deletion_change, update_task_fields_lem, delete_task_lem, replace_task,
  updated_task, deleted_task,
}
use multi_tenant_saas.Tasks.Endpoints.{
  TaskCreate, TaskUpdate, create_task, update_task_status, update_task_fields, update_task,
  delete_task,
}

module _ (ctx : TenantContext) (other : Uuid) (foreign : ctx.organization_id ≢ other) where
  abbrev o : Uuid
  o = ctx.organization_id

  not_seen : (o == other) ≡ false
  not_seen = ground arith

  scope_not_seen :
      (t : Task) → in_scope task_model o false t ≡ true → (t.organization_id == other) ≡ false
  scope_not_seen t h = ground arith

  live_not_seen :
      (task_id : Uuid) (t : Task) (tasks : List Task)
      → live_task o task_id tasks ≡ some t
      → (t.organization_id == other) ≡ false
  live_not_seen task_id t tasks h =
      let passes =
        head?-filter_passes (λ r. (r.id == task_id) && in_scope task_model o false r) tasks t h in
      ground arith

  live_id :
      (task_id : Uuid) (t : Task) (tasks : List Task)
      → live_task o task_id tasks ≡ some t
      → task_id ≡ t.id
  live_id task_id t tasks h =
      let passes =
        head?-filter_passes (λ r. (r.id == task_id) && in_scope task_model o false r) tasks t h in
      ground arith

  -- The tasks that the other tenant sees after one live task has been replaced.
  replaced_not_seen :
      (task_id : Uuid) (t t' : Task) (tasks : List Task)
      → Unique (λ (r : Task). r.id) tasks
      → live_task o task_id tasks ≡ some t
      → t'.id ≡ t.id
      → t'.organization_id ≡ t.organization_id
      → filter (λ r. r.organization_id == other) (replace_task t' tasks)
        ≡ filter (λ r. r.organization_id == other) tasks
  replaced_not_seen task_id t t' tasks u h same_id same_tenant =
      let k : t'.id ≡ task_id = same_id ∙ sym (live_id task_id t tasks h) in
      ap
        (λ (k : Uuid).
          filter (λ r. r.organization_id == other) (map_where (λ r. r.id == k) (λ _. t') tasks))
        k
      ∙ view-replaced (λ r. r.id) (λ r. r.organization_id) other task_id
          (in_scope task_model o false) t t' tasks u h scope_not_seen
          (rw same_tenant (live_not_seen task_id t tasks h))

  module _ (w : World) where
    creation_not_seen :
        (payload : TaskCreate)
        → tenant_view other (with_session (create_task payload ctx) w).1.committed
          ≡ tenant_view other w.committed
    unfolding with_session
    creation_not_seen payload =
        let start = roll_back w in
        rw (create_task_lem payload ctx start) (
          ground (
            arith,
            view-append {A = Task} (λ r. r.id) (λ r. r.organization_id) other w.committed.tasks
                (requested_task payload ctx start) not_seen,
            view-append (λ r. r.id) (λ r. r.organization_id) other w.committed.audit_logs
                (creation_audit start (requested_task payload ctx start)) not_seen,
          ))

    -- The view of the other tenant after the tasks have been changed and a record has been added.
    fields_not_seen :
        (task_id : Uuid) (payload : TaskUpdate) (found : Option Task)
        → Unique (λ (r : Task). r.id) w.committed.tasks
        → live_task o task_id w.committed.tasks ≡ found
        → tenant_view other (fields_change task_id payload (roll_back w) found).1.committed
          ≡ tenant_view other w.committed
    fields_not_seen task_id payload none u h = refl
    fields_not_seen task_id payload (some t) u h = ground (
      arith,
      replaced_not_seen task_id t (updated_task payload w.now t) w.committed.tasks u h refl refl,
    )

    deletion_not_seen :
        (task_id : Uuid) (found : Option Task)
        → Unique (λ (r : Task). r.id) w.committed.tasks
        → live_task o task_id w.committed.tasks ≡ found
        → tenant_view other (deletion_change task_id (roll_back w) found).1.committed
          ≡ tenant_view other w.committed
    deletion_not_seen task_id none u h = refl
    deletion_not_seen task_id (some t) u h =
        ground (
          arith,
          replaced_not_seen task_id t (deleted_task w.now t) w.committed.tasks u h refl refl,
        )

    status_not_seen :
        (task_id actor_id : Uuid) (new_status : TaskStatus) (v : ℕ) (found : Option Task)
        → Unique (λ (r : Task). r.id) w.committed.tasks
        → live_task o task_id w.committed.tasks ≡ found
        → tenant_view other (status_change o actor_id new_status v (roll_back w) found).1.committed
          ≡ tenant_view other w.committed
    status_not_seen task_id actor_id new_status v none u h = refl
    status_not_seen task_id actor_id new_status v (some t) u h =
        let t' = with_status new_status w.now t in
        ground (
          arith,
          replaced_not_seen task_id t t' w.committed.tasks u h refl refl,
          view-append (λ r. r.id) (λ r. r.organization_id) other w.committed.audit_logs
              (status_audit o actor_id (roll_back w) t t') not_seen,
        )

    status_committed :
        (task_id : Uuid) (payload : TaskUpdate) (new_status : TaskStatus) (s : World)
        → (update_task_status task_id payload ctx new_status s).1.committed
          ≡ (update_task_status_occ o task_id ctx.user.id new_status payload.expected_version
              s).1.committed
    unfolding update_task_status broadcast_to_room
    status_committed task_id payload new_status s = ground arith

    plain_update :
        (task_id : Uuid) (payload : TaskUpdate)
        → payload.status ≡ none
        → update_task task_id payload ctx (roll_back w)
          ≡ update_task_fields task_id payload ctx (roll_back w)
    unfolding update_task
    plain_update task_id payload h = ground arith

    status_update :
        (task_id : Uuid) (payload : TaskUpdate) (new_status : TaskStatus)
        → payload.status ≡ some new_status
        → update_task task_id payload ctx (roll_back w)
          ≡ update_task_status task_id payload ctx new_status (roll_back w)
    unfolding update_task
    status_update task_id payload new_status h = ground arith

    update_not_seen :
        (task_id : Uuid) (payload : TaskUpdate)
        → Unique (λ (r : Task). r.id) w.committed.tasks
        → has_organization w.committed o ≡ true
        → has_user w.committed ctx.user.id ≡ true
        → tenant_view other (with_session (update_task task_id payload ctx) w).1.committed
          ≡ tenant_view other w.committed
    unfolding with_session
    update_not_seen task_id payload u ho hu = elim (Option-cases payload.status) [
      | inl plain ↦
          rw
            (
              plain_update task_id payload plain,
              update_task_fields_lem task_id payload ctx (roll_back w),
            )
            (fields_not_seen task_id payload _ u refl)
      | inr (new_status, h) ↦
          rw
            (
              status_update task_id payload new_status h,
              status_committed task_id payload new_status (roll_back w),
              update_task_status_occ_lem o task_id ctx.user.id new_status payload.expected_version
                  (roll_back w) u ho hu,
            )
            (status_not_seen task_id ctx.user.id new_status payload.expected_version _ u refl)
    ]

    deletion_request_not_seen :
        (task_id : Uuid)
        → Unique (λ (r : Task). r.id) w.committed.tasks
        → tenant_view other (with_session (delete_task task_id ctx) w).1.committed
          ≡ tenant_view other w.committed
    unfolding with_session
    deletion_request_not_seen task_id u =
        rw (delete_task_lem task_id ctx (roll_back w) u) (deletion_not_seen task_id _ u refl)

-- With distinct keys, and a caller and an organization that exist, no request of one tenant to
-- create, update or delete a task changes, in what is committed, the rows of another tenant in any
-- table, whether the request succeeds or fails.
pub tasks_isolated :
    (ctx : TenantContext) (other : Uuid) (w : World) (task_id : Uuid) (new : TaskCreate)
    (change : TaskUpdate)
    → ctx.organization_id ≢ other
    → Unique (λ (r : Task). r.id) w.committed.tasks
    → has_organization w.committed ctx.organization_id ≡ true
    → has_user w.committed ctx.user.id ≡ true
    → let seen = tenant_view other w.committed in
      (tenant_view other (with_session (create_task new ctx) w).1.committed ≡ seen)
      × (tenant_view other (with_session (update_task task_id change ctx) w).1.committed ≡ seen)
      × (tenant_view other (with_session (delete_task task_id ctx) w).1.committed ≡ seen)
tasks_isolated ctx other w task_id new change foreign u ho hu = (
  creation_not_seen ctx other foreign w new,
  update_not_seen ctx other foreign w task_id change u ho hu,
  deletion_request_not_seen ctx other foreign w task_id u,
)
