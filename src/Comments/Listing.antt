-- ===== src/Comments/Listing.antt =====
-- `CommentService.list_comments` of app/services/comment.py with `list_comments_cursor` of
-- app/repositories/comment.py. The author of a comment is the user of its foreign key.
use multi_tenant_saas.Base.{ℕ, Bool, ◌&&◌, Option, none, some, [], ◌∷◌, map, ◌==◌, filter, head?}
use multi_tenant_saas.Text.{Text}
use multi_tenant_saas.Models.{Db, Uuid, User, Comment}
use multi_tenant_saas.Session.{Action, query}
use multi_tenant_saas.Pages.{
  CursorCodec, CursorPage, comment_position, later, cursor_page, cursor_data_of,
}
use multi_tenant_saas.Comments.{CommentResponse}

-- The criteria of `list_comments_cursor` without the cursor's.
abbrev pub comment_criteria : Uuid → Uuid → Comment → Bool
comment_criteria organization_id task_id comment =
    (comment.organization_id == organization_id) && (comment.task_id == task_id)

-- `c.author.full_name if c.author else "Unknown"`
abbrev pub author_name_of : Option User → Text
author_name_of none = b'U' ∷ b'n' ∷ b'k' ∷ b'n' ∷ b'o' ∷ b'w' ∷ b'n' ∷ []
author_name_of (some author) = author.full_name

abbrev pub author_avatar_of : Option User → Option Text
author_avatar_of none = none
author_avatar_of (some author) = author.avatar_url

abbrev pub listed_comment : Db → Comment → CommentResponse
listed_comment db c =
    let author = head? (filter (λ u. u.id == c.author_id) db.users) in
    record {
      id = c.id;
      organization_id = c.organization_id;
      task_id = c.task_id;
      author_id = c.author_id;
      author_name = author_name_of author;
      author_avatar_url = author_avatar_of author;
      content = c.content;
      is_edited = c.is_edited;
      created_at = c.created_at;
    }

module _ (codec : CursorCodec) (organization_id : Uuid) where
  open codec use {Cursor}

  unfoldable pub list_comments : Uuid → Option Cursor → ℕ → Action (CursorPage CommentResponse)
  list_comments task_id cursor limit = query (λ db.
      let page =
        cursor_page comment_position later (comment_criteria organization_id task_id)
          (cursor_data_of comment_position later codec cursor) limit db.comments in
      record {
        items = map (listed_comment db) page.items;
        has_more = page.has_more;
        next_position = page.next_position;
      })
