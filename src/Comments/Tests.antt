-- ===== src/Comments/Tests.antt =====
-- The theorems on comments at the sample database.
use multi_tenant_saas.Base.{◌≡◌, ◌≢◌, refl, arith, [], ◌∷◌, ◌++◌, false}
use multi_tenant_saas.Text.{strip, rstrip, lstrip, is_space}
use multi_tenant_saas.Models.{Comment, admin}
use multi_tenant_saas.Session.{World, ok}
use multi_tenant_saas.Access.{TenantContext}
use multi_tenant_saas.Samples.{sample_world, sample_db, acme_task, bob}
use multi_tenant_saas.Tasks.Occ.{live_task}
use multi_tenant_saas.Comments.{CommentResponse, create_comment, update_comment}
use multi_tenant_saas.Comments.Add.{addition_change, create_comment_lem}
use multi_tenant_saas.Comments.Edit.{
  own_comment, rewritten, edit_change, edit_event, update_comment_lem, update_comment_path_task,
}

abbrev remark : Comment
remark = record {
  id = 51;
  organization_id = 11;
  task_id = 42;
  author_id = 1;
  content = 65 ∷ [];
  is_edited = false;
  created_at = 20;
  updated_at = 20;
}

abbrev commented : World
commented = record sample_world { working = record sample_db { comments = remark ∷ [] } }

abbrev bob_at_acme : TenantContext
bob_at_acme = record { user = bob; organization_id = 11; role = admin }

create_comment_lem_example :
    create_comment 41 (32 ∷ 72 ∷ []) bob_at_acme commented
    ≡ addition_change 41 (32 ∷ 72 ∷ []) bob_at_acme commented (live_task 11 41 sample_db.tasks)
create_comment_lem_example = create_comment_lem 41 (32 ∷ 72 ∷ []) bob_at_acme commented

update_comment_lem_example :
    update_comment 41 51 (72 ∷ []) bob_at_acme commented
    ≡ edit_change 41 (72 ∷ []) bob_at_acme commented (own_comment 11 51 (remark ∷ []))
update_comment_lem_example = update_comment_lem 41 51 (72 ∷ []) bob_at_acme commented

update_comment_path_task_example :
    let (r, w') = update_comment 41 51 (72 ∷ []) bob_at_acme commented in
    (answer : CommentResponse) × (r ≡ ok answer)
    × (answer.task_id ≡ 41)
    × (answer.task_id ≢ 42)
    × (answer.author_id ≡ 2)
    × (w'.published ≡ [] ++ edit_event 31 41 (rewritten (72 ∷ []) sample_world.now remark) ∷ [])
unfolding strip rstrip lstrip is_space
update_comment_path_task_example =
    update_comment_path_task 41 51 (72 ∷ []) bob_at_acme commented remark acme_task refl
      (omega arith) refl refl refl refl
