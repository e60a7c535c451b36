-- ===== src/Comments.antt =====
-- Comments on tasks: app/services/comment.py and app/api/v1/endpoints/comments.py.
pub mod Edit
pub mod Add
pub mod Listing
mod Tests
use Prim.Native.String.{String}
use multi_tenant_saas.Base.{
  ℕ, Bool, true, false, ◌&&◌, ◌||◌, not, Option, none, some, [], ◌∷◌, ◌==◌, if◌then◌else◌,
}
use multi_tenant_saas.Text.{Text, text_eq, strip}
use multi_tenant_saas.Models.{
  Uuid, Timestamp, Comment, JsonValue, JsonState, OrgRole, role_eq, admin, owner,
}
use multi_tenant_saas.Session.{
  entity_not_found, forbidden_operation, Action, pure, raise, utc_now, ◌>>=◌, ◌>>◌, raise_if,
  transaction, broadcast_to_room,
}
use multi_tenant_saas.Repositories.{get_by_id, create_scoped, flush_row}
use multi_tenant_saas.Repositories.Tables.{task_model, comment_model, comment_table}
use multi_tenant_saas.Access.{TenantContext}

pub record CommentResponse : Type 0 where
  pub id : Uuid
  pub organization_id : Uuid
  pub task_id : Uuid
  pub author_id : Uuid
  pub author_name : Text
  pub author_avatar_url : Option Text
  pub content : Text
  pub is_edited : Bool
  pub created_at : Timestamp

-- The assignments of `update_comment`. An unchanged object is not written, so its `updated_at`
-- stays.
unfoldable pub edited : Text → Timestamp → Comment → Comment
edited content now comment =
    if text_eq comment.content (strip content) && comment.is_edited
    then comment
    else (record comment { content = strip content; is_edited = true; updated_at = now })

-- `comment.author_id == user_id or user_role in [ADMIN, OWNER]`
unfoldable pub may_edit : Uuid → OrgRole → Comment → Bool
may_edit user_id user_role comment =
    (comment.author_id == user_id) || (role_eq user_role admin || role_eq user_role owner)

module _ (organization_id : Uuid) where
  -- `CommentService.add_comment`
  unfoldable pub add_comment : Uuid → Uuid → Text → Action Comment
  unfolding get_by_id create_scoped transaction
  add_comment task_id author_id content = transaction (do
    found ← get_by_id task_model organization_id task_id false
    elim found [
      | none ↦ raise (entity_not_found "Task")
      | some _ ↦ create_scoped comment_model organization_id (λ organization comment_id now.
          record {
            id = comment_id;
            organization_id = organization;
            task_id = task_id;
            author_id = author_id;
            content = strip content;
            is_edited = false;
            created_at = now;
            updated_at = now;
          })
    ])

  -- `CommentService.update_comment`
  unfoldable pub update_comment_service : Uuid → Uuid → OrgRole → Text → Action Comment
  unfolding get_by_id flush_row transaction edited may_edit
  update_comment_service comment_id user_id user_role content = transaction (do
    found ← get_by_id comment_model organization_id comment_id false
    elim found [
      | none ↦ raise (entity_not_found "Comment")
      | some loaded ↦ do
        raise_if (not (may_edit user_id user_role loaded)) forbidden_operation
        now ← utc_now
        let comment = edited content now loaded
        flush_row comment_table comment
        pure comment
    ])

-- The event of both handlers, to the room of the task that the path names, if it is live.
unfoldable pub tell_room : Uuid → Uuid → String → JsonState → Action (Unit {0})
unfolding get_by_id
tell_room organization_id task_id event_type payload = do
  task ← get_by_id task_model organization_id task_id false
  elim task [ none ↦ pure tt | some t ↦ broadcast_to_room t.project_id event_type payload ]

-- The response of both handlers: the author is the caller; the task is given.
abbrev pub comment_response : Uuid → TenantContext → Comment → CommentResponse
comment_response task_id ctx comment = record {
  id = comment.id;
  organization_id = comment.organization_id;
  task_id = task_id;
  author_id = ctx.user.id;
  author_name = ctx.user.full_name;
  author_avatar_url = ctx.user.avatar_url;
  content = comment.content;
  is_edited = comment.is_edited;
  created_at = comment.created_at;
}

unfoldable pub create_comment : Uuid → Text → TenantContext → Action CommentResponse
unfolding tell_room
create_comment task_id content ctx = do
  comment ← add_comment ctx.organization_id task_id ctx.user.id content
  tell_room ctx.organization_id task_id "COMMENT_ADDED" (
      ("task_id", JsonValue.uuid task_id)
      ∷ ("comment_id", JsonValue.uuid comment.id)
      ∷ ("author", JsonValue.text ctx.user.full_name)
      ∷ ("content", JsonValue.text comment.content)
      ∷ [])
  pure (comment_response comment.task_id ctx comment)

unfoldable pub update_comment : Uuid → Uuid → Text → TenantContext → Action CommentResponse
unfolding tell_room
update_comment task_id comment_id content ctx = do
  comment ← update_comment_service ctx.organization_id comment_id ctx.user.id ctx.role content
  tell_room ctx.organization_id task_id "COMMENT_UPDATED" (
      ("task_id", JsonValue.uuid task_id)
      ∷ ("comment_id", JsonValue.uuid comment.id)
      ∷ ("content", JsonValue.text comment.content)
      ∷ [])
  pure (comment_response task_id ctx comment)
