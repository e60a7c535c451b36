-- ===== src/Workers/Tests.antt =====
-- The purge of a task that was marked as deleted long ago, with a live subtask and a comment.
use multi_tenant_saas.Base.{◌≡◌, ◌≢◌, ◌↔◌, ◌-◌, ◌*◌, refl, true, some, [], ◌∷◌, In}
use multi_tenant_saas.Models.{Task, Comment, Attachment}
use multi_tenant_saas.Session.{World, ok}
use multi_tenant_saas.Samples.{sample_world, sample_db, acme_task}
use multi_tenant_saas.Workers.{cleanup_soft_deleted_tasks_job, day, delete_expired, cascade}
use multi_tenant_saas.Workers.Rounds.{Doomed}
use multi_tenant_saas.Workers.Purge.{cleanup_soft_deleted_tasks_job_lem}

abbrev old_task : Task
old_task = record acme_task { is_deleted = true; deleted_at = some 5 }

abbrev live_subtask : Task
live_subtask = record acme_task { id = 43; parent_id = some 41 }

abbrev live_task : Task
live_task = record acme_task { id = 44 }

abbrev remark : Comment
remark = record {
  id = 51;
  organization_id = 11;
  task_id = 43;
  author_id = 1;
  content = [];
  is_edited = true;
  created_at = 10;
  updated_at = 10;
}

abbrev purge_world : World
purge_world = record sample_world {
  now = 3000000000000;
  committed = record sample_db {
    tasks = live_subtask ∷ old_task ∷ live_task ∷ [];
    comments = remark ∷ [];
  };
}

-- One row matches the clause, two tasks and the comment go.
purge_result :
    ((cleanup_soft_deleted_tasks_job 30 purge_world).0 ≡ ok 1)
    × ((cleanup_soft_deleted_tasks_job 30 purge_world).1.committed.tasks ≡ live_task ∷ [])
    × ((cleanup_soft_deleted_tasks_job 30 purge_world).1.committed.comments ≡ [])
unfolding cleanup_soft_deleted_tasks_job delete_expired cascade
purge_result = (refl, refl, refl)

cleanup_soft_deleted_tasks_job_lem_example :
    let cutoff = 3000000000000 - 30 * day in
    let tasks = purge_world.committed.tasks in
    let after = (cleanup_soft_deleted_tasks_job 30 purge_world).1.committed in
    ((t : Task) → In t after.tasks ↔ (In t tasks × ¬ Doomed cutoff tasks t))
    × ((c : Comment)
        → In c after.comments ↔ (
            In c purge_world.committed.comments
            × ((t : Task) → Doomed cutoff tasks t → c.task_id ≢ t.id)))
    × ((a : Attachment)
        → In a after.attachments ↔ (
            In a purge_world.committed.attachments
            × ((t : Task) → Doomed cutoff tasks t → a.task_id ≢ t.id)))
cleanup_soft_deleted_tasks_job_lem_example = cleanup_soft_deleted_tasks_job_lem 30 purge_world
