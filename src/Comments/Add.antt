-- ===== src/Comments/Add.antt =====
-- What `POST /tasks/{task_id}/comments` does.
use multi_tenant_saas.Base.{
  ◌+◌, ◌≡◌, false, Option, none, some, [], ◌∷◌, ◌++◌, arith, if◌then◌else◌,
}
use multi_tenant_saas.Text.{Text, strip}
use multi_tenant_saas.Models.{Uuid, Task, Comment, JsonValue}
use multi_tenant_saas.Session.{
  entity_not_found, database_error, Result, ok, err, Event, World, roll_back, broadcast_to_room,
}
use multi_tenant_saas.Repositories.Tables.{comment_table}
use multi_tenant_saas.Access.{TenantContext}
use multi_tenant_saas.Tasks.Occ.{live_task}
use multi_tenant_saas.Comments.{
  CommentResponse, comment_response, add_comment, create_comment, tell_room,
}

abbrev pub new_comment : Uuid → Text → TenantContext → World → Comment
new_comment task_id content ctx w = record {
  id = w.next_uuid;
  organization_id = ctx.organization_id;
  task_id = task_id;
  author_id = ctx.user.id;
  content = strip content;
  is_edited = false;
  created_at = w.now;
  updated_at = w.now;
}

abbrev pub comment_event : Uuid → TenantContext → Comment → Event
comment_event room ctx comment = record {
  room = room;
  event_type = "COMMENT_ADDED";
  payload =
      ("task_id", JsonValue.uuid comment.task_id)
      ∷ ("comment_id", JsonValue.uuid comment.id)
      ∷ ("author", JsonValue.text ctx.user.full_name)
      ∷ ("content", JsonValue.text comment.content)
      ∷ [];
}

abbrev pub with_comment : TenantContext → Task → Comment → World → World
with_comment ctx t comment w =
    let db = record w.working { comments = w.working.comments ++ comment ∷ [] } in
    record w {
      working = db;
      committed = db;
      next_uuid = w.next_uuid + 1;
      published =
          if w.pubsub_up
          then w.published ++ comment_event t.project_id ctx comment ∷ []
          else w.published;
    }

-- What adding a comment should do, in terms of the live task alone.
abbrev pub addition_change :
    Uuid → Text → TenantContext → World → Option Task → Result CommentResponse × World
addition_change task_id content ctx w none = (err (entity_not_found "Task"), roll_back w)
addition_change task_id content ctx w (some t) =
    let comment = new_comment task_id content ctx w in
    if comment_table.valid w.working comment
    then (ok (comment_response task_id ctx comment), with_comment ctx t comment w)
    else (err database_error, roll_back (record w { next_uuid = w.next_uuid + 1 }))

module _ (task_id : Uuid) (content : Text) (ctx : TenantContext) (w : World) where
  -- Adding a comment does exactly this: without a live task of the tenant it is a 404 that changes
  -- nothing, and a row that the database refuses is an error that stores nothing; otherwise the
  -- comment, with the caller as its author and the content stripped, is committed, and the room of
  -- the task's project is told.
  pub create_comment_lem :
      create_comment task_id content ctx w
      ≡ addition_change task_id content ctx w
          (live_task ctx.organization_id task_id w.working.tasks)
  unfolding create_comment add_comment tell_room broadcast_to_room
  create_comment_lem = ground arith
