-- ===== src/Tasks/Occ.antt =====
-- Optimistic concurrency control in `TaskService.update_task_status_occ`: what the call does.
use multi_tenant_saas.Base.{
  ℕ, ◌+◌, ◌≡◌, ap, sym, ◌∙◌, fun_ext, ◌⊎◌, inl, inr, Bool, true, false, ◌&&◌, Option, none, some,
  List, [], ◌∷◌, ◌++◌, ◌==◌, ltb, arith, if◌then◌else◌, filter, map_where, head?, Unique,
  head?-filter-key, head?-filter_passes, map_where-key, Bool-cases, Option-cases,
}
use multi_tenant_saas.Models.{Db, Uuid, Timestamp, Task, TaskStatus, AuditLog, update, JsonValue}
use multi_tenant_saas.Session.{
  entity_not_found, entity_conflict, database_error, Result, ok, err, World, roll_back,
}
use multi_tenant_saas.Repositories.{in_scope}
use multi_tenant_saas.Repositories.Tables.{task_model, has_organization, has_user}
use multi_tenant_saas.Tasks.{occ_where, occ_values, update_task_status_occ}

-- The task of the tenant with this key that is not deleted.
abbrev pub live_task : Uuid → Uuid → List Task → Option Task
live_task o task_id tasks =
    head? (filter (λ t. (t.id == task_id) && in_scope task_model o false t) tasks)

module _ (o task_id : Uuid) (v : ℕ) where
  occ_where_eq :
      (t : Task)
      → occ_where o task_id v t
        ≡ ((t.id == task_id) && (in_scope task_model o false t && (t.version_id == v)))
  unfolding occ_where
  occ_where_eq t = ground arith

  -- The conditional update finds the live task exactly when its version is the expected one.
  pub occ_where_finds :
      (tasks : List Task) (t : Task)
      → Unique (λ (r : Task). r.id) tasks
      → live_task o task_id tasks ≡ some t
      → head? (filter (occ_where o task_id v) tasks) ≡ (if t.version_id == v then some t else none)
  occ_where_finds tasks t u h =
      ap (λ (p : Task → Bool). head? (filter p tasks)) (fun_ext occ_where_eq)
      ∙ head?-filter-key (λ r. r.id) task_id (in_scope task_model o false) (λ r. r.version_id == v)
          tasks t u h

  pub occ_where_replaces :
      (f : Task → Task) (tasks : List Task) (t : Task)
      → Unique (λ (r : Task). r.id) tasks
      → head? (filter (occ_where o task_id v) tasks) ≡ some t
      → map_where (occ_where o task_id v) f tasks
        ≡ map_where (λ r. r.id == task_id) (λ _. f t) tasks
  occ_where_replaces f tasks t u h =
      let same = fun_ext occ_where_eq in
      ap (λ (p : Task → Bool). map_where p f tasks) same
      ∙ map_where-key (λ r. r.id) task_id
          (λ r. in_scope task_model o false r && (r.version_id == v)) f tasks t u
          (ap (λ (p : Task → Bool). head? (filter p tasks)) (sym same) ∙ h)

-- The audit record of a status change, the row it becomes, and the database with both written.
abbrev pub status_audit : Uuid → Uuid → World → Task → Task → AuditLog
status_audit o actor_id w before after = record {
  id = w.next_uuid;
  organization_id = o;
  actor_id = some actor_id;
  entity_type = "Task";
  entity_id = after.id;
  action = update;
  before_state = some (
      ("status", JsonValue.status before.status)
      ∷ ("version_id", JsonValue.number before.version_id)
      ∷ []);
  after_state = some (
      ("status", JsonValue.status after.status)
      ∷ ("version_id", JsonValue.number after.version_id)
      ∷ []);
  ip_address = none;
  user_agent = none;
  timestamp = w.now;
}

abbrev pub with_status : TaskStatus → Timestamp → Task → Task
with_status new_status now t = record t {
  status = new_status;
  version_id = t.version_id + 1;
  updated_at = now;
}

abbrev pub status_written : Uuid → Uuid → World → Task → Task → Db
status_written o actor_id w before after = record w.working {
  tasks = map_where (λ r. r.id == after.id) (λ _. after) w.working.tasks;
  audit_logs = w.working.audit_logs ++ status_audit o actor_id w before after ∷ [];
}

abbrev pub saved : Db → World → World
saved db w = record w { working = db; committed = db; next_uuid = w.next_uuid + 1 }

-- What a status change should do, in terms of the live task alone.
abbrev pub status_change : Uuid → Uuid → TaskStatus → ℕ → World → Option Task → Result Task × World
status_change o actor_id new_status v w none = (err (entity_not_found "Task"), roll_back w)
status_change o actor_id new_status v w (some t) =
    if ltb (v + 1) 2147483648
    then (if t.version_id == v
        then (
          ok (with_status new_status w.now t),
          saved (status_written o actor_id w t (with_status new_status w.now t)) w,
        )
        else (err entity_conflict, roll_back w))
    else (err database_error, roll_back w)

module _ (o task_id actor_id : Uuid) (new_status : TaskStatus) (v : ℕ) (w : World) where
  status_not_found :
      live_task o task_id w.working.tasks ≡ none
      → update_task_status_occ o task_id actor_id new_status v w
        ≡ (err (entity_not_found "Task"), roll_back w)
  unfolding update_task_status_occ
  status_not_found h = ground arith

  status_out_of_range :
      (t : Task)
      → live_task o task_id w.working.tasks ≡ some t
      → ltb (v + 1) 2147483648 ≡ false
      → update_task_status_occ o task_id actor_id new_status v w ≡ (err database_error, roll_back w)
  unfolding update_task_status_occ
  status_out_of_range t h r = ground arith

  status_conflict :
      (t : Task)
      → ltb (v + 1) 2147483648 ≡ true
      → live_task o task_id w.working.tasks ≡ some t
      → head? (filter (occ_where o task_id v) w.working.tasks) ≡ none
      → update_task_status_occ o task_id actor_id new_status v w
        ≡ (err entity_conflict, roll_back w)
  unfolding update_task_status_occ
  status_conflict t r h c = ground arith

  status_success :
      (t t' : Task) (tasks : List Task)
      → ltb (v + 1) 2147483648 ≡ true
      → live_task o task_id w.working.tasks ≡ some t
      → head? (filter (occ_where o task_id v) w.working.tasks) ≡ some t
      → occ_values new_status v w.now t ≡ t'
      → map_where (occ_where o task_id v) (occ_values new_status v w.now) w.working.tasks ≡ tasks
      → has_organization w.working o ≡ true
      → has_user w.working actor_id ≡ true
      → update_task_status_occ o task_id actor_id new_status v w ≡ (
        ok t',
        saved
            (record w.working {
              tasks = tasks;
              audit_logs = w.working.audit_logs ++ status_audit o actor_id w t t' ∷ [];
            })
            w,
      )
  unfolding update_task_status_occ
  status_success t t' tasks r h c e m ho hu = ground arith

  occ_values-with_status :
      (t : Task)
      → (t.version_id == v) ≡ true
      → occ_values new_status v w.now t ≡ with_status new_status w.now t
  unfolding occ_values
  occ_values-with_status t e = ground arith

  live_task-id :
      (t : Task) (tasks : List Task) → live_task o task_id tasks ≡ some t → t.id ≡ task_id
  live_task-id t tasks h =
      let passes =
        head?-filter_passes (λ r. (r.id == task_id) && in_scope task_model o false r) tasks t h in
      ground arith

  status_written-tasks :
      (t : Task)
      → Unique (λ (r : Task). r.id) w.working.tasks
      → live_task o task_id w.working.tasks ≡ some t
      → (t.version_id == v) ≡ true
      → map_where (occ_where o task_id v) (occ_values new_status v w.now) w.working.tasks
        ≡ map_where (λ r. r.id == t.id) (λ _. with_status new_status w.now t) w.working.tasks
  status_written-tasks t u h e =
      occ_where_replaces o task_id v (occ_values new_status v w.now) w.working.tasks t u
        (rw (occ_where_finds o task_id v w.working.tasks t u h, e))
      ∙ ap (λ (x : Task). map_where (λ r. r.id == task_id) (λ _. x) w.working.tasks)
          (occ_values-with_status t e)
      ∙ ap
          (λ (k : Uuid).
            map_where (λ r. r.id == k) (λ _. with_status new_status w.now t) w.working.tasks)
          (sym (live_task-id t w.working.tasks h))

  -- With distinct keys, and an organization and an actor that exist, a status update does exactly
  -- this. No live task of the tenant: `EntityNotFoundException`. An expected version that, with one
  -- added, is no 32-bit integer: the database's error. A live task with another version than the
  -- expected one: `EntityConflictException`. In these cases the session is rolled back. Otherwise
  -- the task gets the status and the next version, no other row of any table changes, one audit
  -- record with both states is added, and all of it is committed.
  pub update_task_status_occ_lem :
      Unique (λ (r : Task). r.id) w.working.tasks
      → has_organization w.working o ≡ true
      → has_user w.working actor_id ≡ true
      → update_task_status_occ o task_id actor_id new_status v w
        ≡ status_change o actor_id new_status v w (live_task o task_id w.working.tasks)
  update_task_status_occ_lem u ho hu = elim (Option-cases (live_task o task_id w.working.tasks)) [
    | inl absent ↦ rw absent (status_not_found absent)
    | inr (t, h) ↦ elim (Bool-cases (ltb (v + 1) 2147483648)) [
      | inl r ↦ rw h (live_case t r h (Bool-cases (t.version_id == v)))
      | inr r ↦ rw (h, r) (status_out_of_range t h r)
    ]
  ]
    where
      live_case :
          (t : Task)
          → ltb (v + 1) 2147483648 ≡ true
          → live_task o task_id w.working.tasks ≡ some t
          → ((t.version_id == v) ≡ true) ⊎ ((t.version_id == v) ≡ false)
          → update_task_status_occ o task_id actor_id new_status v w
            ≡ status_change o actor_id new_status v w (some t)
      live_case t r h (inl e) =
          rw (r, e)
            (status_success t (with_status new_status w.now t) _ r h
              (rw (occ_where_finds o task_id v w.working.tasks t u h, e))
              (occ_values-with_status t e) (status_written-tasks t u h e) ho hu)
      live_case t r h (inr e) =
          rw (r, e)
            (status_conflict t r h (rw (occ_where_finds o task_id v w.working.tasks t u h, e)))
