-- ===== src/Comments/Edit.antt =====
-- Who may edit a comment, and what an edit does: `PATCH /tasks/{task_id}/comments/{comment_id}`.
use multi_tenant_saas.Base.{
  ◌≡◌, ◌≢◌, refl, sym, ap, inl, inr, Bool, Bool-cases, Option-cases, true, false, ◌&&◌, ◌||◌,
  Option, none, some, List, [], ◌∷◌, ◌++◌, ◌==◌, arith, if◌then◌else◌, filter, map_where, head?,
}
use multi_tenant_saas.Text.{Text, text_eq, strip}
use multi_tenant_saas.Text.Laws.{text_eq_sound}
use multi_tenant_saas.Models.{
  Uuid, Timestamp, Comment, JsonValue, OrgRole, role_eq, owner, admin, manager, member, viewer,
}
use multi_tenant_saas.Session.{
  entity_not_found, forbidden_operation, database_error, Result, ok, err, Event, World, roll_back,
  broadcast_to_room,
}
use multi_tenant_saas.Repositories.{in_scope}
use multi_tenant_saas.Repositories.Tables.{comment_model, comment_table}
use multi_tenant_saas.Access.{TenantContext}
use multi_tenant_saas.Tasks.Occ.{live_task}
use multi_tenant_saas.Comments.{
  CommentResponse, edited, may_edit, update_comment_service, update_comment, tell_room,
}

-- The comment of the tenant with a key.
abbrev pub own_comment : Uuid → Uuid → List Comment → Option Comment
own_comment o comment_id comments =
    head? (filter (λ c. (c.id == comment_id) && in_scope comment_model o false c) comments)

abbrev pub written_comment : World → Comment → World
written_comment w comment =
    let comments = map_where (λ c. c.id == comment.id) (λ _. comment) w.working.comments in
    record w {
      working = record w.working { comments = comments };
      committed = record w.working { comments = comments };
    }

abbrev pub edit_event : Uuid → Uuid → Comment → Event
edit_event room task_id comment = record {
  room = room;
  event_type = "COMMENT_UPDATED";
  payload =
      ("task_id", JsonValue.uuid task_id)
      ∷ ("comment_id", JsonValue.uuid comment.id)
      ∷ ("content", JsonValue.text comment.content)
      ∷ [];
}

-- The event is published if the task of the path is live and the broker answers.
abbrev pub told : Uuid → Uuid → Comment → World → World
told o task_id comment w = elim (live_task o task_id w.working.tasks) [
  | none ↦ w
  | some t ↦
      if w.pubsub_up
      then record w { published = w.published ++ edit_event t.project_id task_id comment ∷ [] }
      else w
]

-- Who may edit a comment: its author, and the admins and the owner of the organization.
abbrev pub administers : OrgRole → Bool
administers owner = true
administers admin = true
administers manager = false
administers member = false
administers viewer = false

abbrev pub editor : TenantContext → Comment → Bool
editor ctx c = (c.author_id == ctx.user.id) || administers ctx.role

-- The row that the edit should leave: the text without outer spaces, marked as edited. A comment
-- with this text that is marked already keeps its `updated_at`.
abbrev pub rewritten : Text → Timestamp → Comment → Comment
rewritten content now c =
    let text = strip content in
    record {
      id = c.id;
      organization_id = c.organization_id;
      task_id = c.task_id;
      author_id = c.author_id;
      content = text;
      is_edited = true;
      created_at = c.created_at;
      updated_at = if c.is_edited && text_eq c.content text then c.updated_at else now;
    }

abbrev pub edit_answer : Uuid → TenantContext → Comment → CommentResponse
edit_answer task_id ctx c = record {
  id = c.id;
  organization_id = c.organization_id;
  task_id = task_id;
  author_id = ctx.user.id;
  author_name = ctx.user.full_name;
  author_avatar_url = ctx.user.avatar_url;
  content = c.content;
  is_edited = c.is_edited;
  created_at = c.created_at;
}

may_edit-editor :
    (ctx : TenantContext) (c : Comment) → may_edit ctx.user.id ctx.role c ≡ editor ctx c
unfolding may_edit
may_edit-editor ctx c = ap (λ (b : Bool). (c.author_id == ctx.user.id) || b) (by_role ctx.role)
  where
    by_role : (r : OrgRole) → (role_eq r admin || role_eq r owner) ≡ administers r
    by_role owner = refl
    by_role admin = refl
    by_role manager = refl
    by_role member = refl
    by_role viewer = refl

edited-rewritten :
    (content : Text) (now : Timestamp) (c : Comment)
    → edited content now c ≡ rewritten content now c
unfolding edited
edited-rewritten content now c = elim (Bool-cases (text_eq c.content (strip content))) [
  | inr new ↦ rw new (elim (Bool-cases c.is_edited) [ inl e ↦ rw e refl | inr e ↦ rw e refl ])
  | inl old ↦
      let same = text_eq_sound c.content (strip content) old in
      elim (Bool-cases c.is_edited) [
        | inr e ↦ rw (old, e) refl
        | inl e ↦ rw (old, e) (ap (λ (t : Text). record c { content = t; is_edited = true }) same)
      ]
]

-- What the edit should do, in terms of the tenant's comment alone.
abbrev pub edit_change :
    Uuid → Text → TenantContext → World → Option Comment → Result CommentResponse × World
edit_change task_id content ctx w none = (err (entity_not_found "Comment"), roll_back w)
edit_change task_id content ctx w (some c) =
    let comment = rewritten content w.now c in
    if editor ctx c
    then (if comment_table.valid w.working comment
        then (
          ok (edit_answer task_id ctx comment),
          told ctx.organization_id task_id comment (written_comment w comment),
        )
        else (err database_error, roll_back w))
    else (err forbidden_operation, roll_back w)

module _ (task_id comment_id : Uuid) (content : Text) (ctx : TenantContext) (w : World) where
  -- Editing a comment does exactly this: without a comment of the tenant it is a 404, by anyone but
  -- the author, an admin or the owner a 403, on a row that the database refuses an error, all
  -- without a change; otherwise the stripped content is stored in that row, it is committed, and
  -- the room of the task that the path names is told.
  pub update_comment_lem :
      update_comment task_id comment_id content ctx w
      ≡ edit_change task_id content ctx w
          (own_comment ctx.organization_id comment_id w.working.comments)
  unfolding update_comment update_comment_service tell_room broadcast_to_room
  update_comment_lem =
      elim (Option-cases (own_comment ctx.organization_id comment_id w.working.comments)) [
        | inl missing ↦ ground arith
        | inr (c, found) ↦
            let may = may_edit-editor ctx c in
            let row = edited-rewritten content w.now c in ground arith
      ]

  -- The task of the path is not compared with the comment's. Suppose the comment of the tenant
  -- belongs to another task than a live one that the path names, the caller may edit it, the row is
  -- valid and the broker answers. Then the response names the path's task and the caller as the
  -- author, and the event goes to the room of the path's task.
  pub update_comment_path_task :
      (c : Comment) (t : _)
      → own_comment ctx.organization_id comment_id w.working.comments ≡ some c
      → c.task_id ≢ task_id
      → live_task ctx.organization_id task_id w.working.tasks ≡ some t
      → editor ctx c ≡ true
      → comment_table.valid w.working (rewritten content w.now c) ≡ true
      → w.pubsub_up ≡ true
      → let (r, w') = update_comment task_id comment_id content ctx w in
        (answer : CommentResponse) × (r ≡ ok answer)
        × (answer.task_id ≡ task_id)
        × (answer.task_id ≢ c.task_id)
        × (answer.author_id ≡ ctx.user.id)
        × (w'.published
            ≡ w.published ++ edit_event t.project_id task_id (rewritten content w.now c) ∷ [])
  update_comment_path_task c t h other live may valid up =
      rw (update_comment_lem, h, may, valid, told, live, up)
        (
          edit_answer task_id ctx (rewritten content w.now c),
          refl,
          refl,
          λ e. other (sym e),
          refl,
          refl,
        )
