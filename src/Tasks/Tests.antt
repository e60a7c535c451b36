-- ===== src/Tasks/Tests.antt =====
-- The theorems on tasks at the sample database.
use multi_tenant_saas.Base.{
  ℕ, ◌+◌, ◌≤◌, ◌≡◌, ◌≢◌, refl, arith, some, none, Bool, true, false, filter, length, List, [], ◌∷◌,
  ◌++◌, if◌then◌else◌,
}
use multi_tenant_saas.Text.{strip, rstrip, lstrip, is_space}
use multi_tenant_saas.Models.{Task, done, in_progress, manager, medium}
use multi_tenant_saas.Session.{ok, err, database_error, roll_back, with_session}
use multi_tenant_saas.Repositories.Tables.{task_table}
use multi_tenant_saas.Access.{TenantContext}
use multi_tenant_saas.Tenancy.{tenant_view}
use multi_tenant_saas.Samples.{sample_world, sample_db, acme_task, ann, globex_project}
use multi_tenant_saas.Tasks.{update_task_status_occ}
use multi_tenant_saas.Tasks.Occ.{live_task, status_change, update_task_status_occ_lem}
use multi_tenant_saas.Tasks.Create.{
  create_task_lem, requested_task, created, creation_event, create_task_foreign_project,
}
use multi_tenant_saas.Tasks.Change.{
  fields_change, update_task_fields_lem, deletion_change, delete_task_lem,
}
use multi_tenant_saas.Tasks.Isolation.{tasks_isolated}
use multi_tenant_saas.Tasks.Endpoints.{
  TaskUpdate, TaskCreate, apply_update, create_task, update_task_fields, update_task, delete_task,
}
use multi_tenant_saas.Tasks.Listing.{TaskFilterParams}
use multi_tenant_saas.Tasks.OffsetPages.{
  joined_pages, total_pages, InOrder, wanted, joined_pages_cover,
}
use multi_tenant_saas.Tasks.Race.{Move, read, write, start, status_run, fields_run}
use multi_tenant_saas.Tasks.Race.Status.{status_race, status_race_winner}
use multi_tenant_saas.Tasks.Race.Fields.{lost_update, overlapped}

update_task_status_occ_lem_example :
    update_task_status_occ 11 41 1 done 3 sample_world
    ≡ status_change 11 1 done 3 sample_world (live_task 11 41 sample_db.tasks)
update_task_status_occ_lem_example =
    update_task_status_occ_lem 11 41 1 done 3 sample_world (refl, (refl, tt)) refl refl

abbrev contest : List Move
contest = read 0 ∷ read 1 ∷ write 1 ∷ write 0 ∷ []

status_race_example :
    let end = status_run 11 41 1000 (λ _. in_progress) (λ _. 3) contest (start sample_db.tasks) in
    (end.accepted ≤ 1)
    × (t' : Task) × (live_task 11 41 end.tasks ≡ some t')
    × (t'.version_id ≡ 3 + end.accepted)
status_race_example =
    status_race 11 41 1000 (λ _. in_progress) 3 sample_db.tasks acme_task contest (refl, (refl, tt))
      refl

status_race_winner_example :
    (status_run 11 41 1000
      (λ _. in_progress)
      (λ _. 3)
      (contest ++ read 2 ∷ write 2 ∷ [])
      (start sample_db.tasks)).accepted
    ≡ 1
status_race_winner_example =
    status_race_winner 11 41 1000 (λ _. in_progress) sample_db.tasks acme_task contest 2
      (refl, (refl, tt)) refl

abbrev rename : ℕ → TaskUpdate
rename c = record {
  title = some (c ∷ []);
  description = none;
  status = none;
  priority = none;
  assignee_id = none;
  due_date = none;
  expected_version = 3;
}

lost_update_example :
    let end = fields_run 11 41 1000 sample_db rename overlapped (start sample_db.tasks) in
    (end.accepted ≡ 2)
    × (t' : Task) × (live_task 11 41 end.tasks ≡ some t')
    × (t'.version_id ≡ 4)
    × (t'.title ≡ strip (1 ∷ []))
unfolding apply_update strip rstrip lstrip is_space
lost_update_example =
    lost_update 11 41 1000 sample_db rename sample_db.tasks acme_task (1 ∷ []) refl refl refl refl
      refl refl (λ e. cc)

abbrev ann_at_acme : TenantContext
ann_at_acme = record { user = ann; organization_id = 11; role = manager }

abbrev in_globex : TaskCreate
in_globex = record {
  project_id = 32;
  title = 84 ∷ [];
  description = none;
  priority = medium;
  assignee_id = none;
  parent_id = none;
  due_date = none;
}

create_task_foreign_project_example :
    let (r, w') = create_task in_globex ann_at_acme sample_world in
    (task : Task) × (r ≡ ok task)
    × (w'.committed.tasks ≡ sample_db.tasks ++ task ∷ [])
    × (task.project_id ≡ 32)
    × (task.organization_id ≢ 12)
    × (w'.published ≡ [] ++ creation_event task ∷ [])
    × ((creation_event task).room ≡ 32)
create_task_foreign_project_example =
    create_task_foreign_project in_globex ann_at_acme sample_world globex_project refl (omega arith)
      refl refl refl (omega arith) refl

create_task_lem_example : create_task in_globex ann_at_acme sample_world ≡ (
    if task_table.valid sample_db (requested_task in_globex ann_at_acme sample_world)
    then (
      ok (requested_task in_globex ann_at_acme sample_world),
      created sample_world (requested_task in_globex ann_at_acme sample_world),
    )
    else (err database_error, roll_back (record sample_world { next_uuid = 101 })))
create_task_lem_example = create_task_lem in_globex ann_at_acme sample_world

update_task_fields_lem_example :
    update_task_fields 41 (rename 7) ann_at_acme sample_world
    ≡ fields_change 41 (rename 7) sample_world (live_task 11 41 sample_db.tasks)
update_task_fields_lem_example = update_task_fields_lem 41 (rename 7) ann_at_acme sample_world

delete_task_lem_example :
    delete_task 41 ann_at_acme sample_world
    ≡ deletion_change 41 sample_world (live_task 11 41 sample_db.tasks)
delete_task_lem_example = delete_task_lem 41 ann_at_acme sample_world (refl, (refl, tt))

tasks_isolated_example :
    let seen = tenant_view 12 sample_db in
    (tenant_view 12 (with_session (create_task in_globex ann_at_acme) sample_world).1.committed
      ≡ seen)
    × (tenant_view 12
          (with_session (update_task 41 (rename 7) ann_at_acme) sample_world).1.committed
        ≡ seen)
    × (tenant_view 12 (with_session (delete_task 41 ann_at_acme) sample_world).1.committed ≡ seen)
tasks_isolated_example =
    tasks_isolated ann_at_acme 12 sample_world 41 in_globex (rename 7) (omega arith)
      (refl, (refl, tt)) refl refl

abbrev all_tasks : TaskFilterParams
all_tasks = record {
  project_id = none;
  status = none;
  priority = none;
  assignee_id = none;
  reporter_id = none;
  search = none;
  sort_by = "created_at:desc";
}

joined_pages_cover_example :
    let joined =
      joined_pages
        (λ _ _. true)
        11
        all_tasks
        1
        sample_db.tasks
        (total_pages (λ _ _. true) 11 all_tasks 1 sample_db.tasks) in
    InOrder false joined
    × ((p : Task → Bool)
        → length (filter p joined)
          ≡ length (filter p (filter (wanted (λ _ _. true) 11 all_tasks) sample_db.tasks)))
joined_pages_cover_example =
    joined_pages_cover (λ _ _. true) 11 all_tasks 1 sample_db.tasks (refl, (refl, tt))
