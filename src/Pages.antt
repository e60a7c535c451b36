-- ===== src/Pages.antt =====
-- Keyset pagination: the queries of `list_comments_cursor` (app/repositories/comment.py) and
-- `list_tasks_cursor` (app/repositories/task.py), the pages that app/services/comment.py and
-- `list_tasks_feed` of app/api/v1/endpoints/tasks.py make of them, and the cursors of
-- app/core/pagination.py. Cursor is the codec of that file; the queries take any codec.
pub mod Base64
pub mod Cursor
pub mod Offset
pub mod Sorted
pub mod Walk
mod CursorTests
mod Tests
use multi_tenant_saas.Base.{
  ℕ, zero, suc, ◌+◌, ◌≡◌, Bool, true, false, ◌&&◌, ◌||◌, Option, none, some, List, [], ◌∷◌, ◌++◌,
  ◌==◌, ltb, if◌then◌else◌, filter, take, length, get_last?,
}
use multi_tenant_saas.Models.{Uuid, Timestamp, Comment, Task}

-- The sort key of a row, and what a cursor holds: `created_at` and `id`.
abbrev pub Position : Type 0
Position = Timestamp × Uuid

abbrev pub comment_position : Comment → Position
comment_position comment = (comment.created_at, comment.id)

abbrev pub task_position : Task → Position
task_position task = (task.created_at, task.id)

-- The keyset condition of the comments, and their order: `asc` on both columns.
unfoldable pub later : Position → Position → Bool
later cursor row = ltb cursor.0 row.0 || ((row.0 == cursor.0) && ltb cursor.1 row.1)

-- The keyset condition of the tasks, and their order: `desc` on both columns.
unfoldable pub earlier : Position → Position → Bool
earlier cursor row = ltb row.0 cursor.0 || ((row.0 == cursor.0) && ltb row.1 cursor.1)

-- `encode_cursor` and `decode_cursor`, none for an exception in the latter.
pub record CursorCodec : Type 1 where
  pub Cursor : Type 0
  pub encode_cursor : Position → Cursor
  pub decode_cursor : Cursor → Option Position
  pub decode_cursor-encode_cursor : (p : Position) → decode_cursor (encode_cursor p) ≡ some p

-- `items`, `has_more` and the position of `next_cursor`.
pub record CursorPage (A : Type 0) : Type 0 where
  pub items : List A
  pub has_more : Bool
  pub next_position : Option Position

module _ {A : Type 0} (position : A → Position) (after : Position → Position → Bool) where
  -- A row put before the first one that comes after it.
  abbrev pub insert_row : A → List A → List A
  insert_row x [] = x ∷ []
  insert_row x (y ∷ ys) =
      let rest = insert_row x ys in if after (position y) (position x) then y ∷ rest else x ∷ y ∷ ys

  -- `order_by` on both columns.
  unfoldable pub order_by : List A → List A
  order_by [] = []
  order_by (x ∷ xs) = insert_row x (order_by xs)

  -- The condition that a cursor adds.
  abbrev pub past : Option Position → A → Bool
  past none row = true
  past (some cursor) row = after cursor (position row)

  -- `list_comments_cursor` and `list_tasks_cursor`: one row more than the limit is read.
  unfoldable pub list_cursor : (A → Bool) → Option Position → ℕ → List A → List A × Bool
  list_cursor criteria cursor_data limit rows =
      let records =
        take (limit + 1) (order_by (filter (λ r. criteria r && past cursor_data r) rows)) in
      (take limit records, ltb limit (length records))

  -- `if has_more and items`
  abbrev pub next_of : List A → Bool → Option Position
  next_of items has_more = elim (get_last? items) [
    | none ↦ none
    | some last_item ↦ if has_more then some (position last_item) else none
  ]

  unfoldable pub cursor_page : (A → Bool) → Option Position → ℕ → List A → CursorPage A
  unfolding list_cursor
  cursor_page criteria cursor_data limit rows =
      let (items, has_more) = list_cursor criteria cursor_data limit rows in
      record { items = items; has_more = has_more; next_position = next_of items has_more }

  module _ (codec : CursorCodec) where
    open codec use {Cursor, encode_cursor, decode_cursor}

    -- `decode_cursor(cursor) if cursor else None`
    abbrev pub cursor_data_of : Option Cursor → Option Position
    cursor_data_of none = none
    cursor_data_of (some cursor) = decode_cursor cursor

    -- The items that a client collects which follows `next_cursor`, `n` pages at most.
    unfoldable pub walk : (A → Bool) → ℕ → List A → ℕ → Option Cursor → List A
    unfolding cursor_page
    walk criteria limit rows zero cursor = []
    walk criteria limit rows (suc n) cursor =
        let page = cursor_page criteria (cursor_data_of cursor) limit rows in
        elim page.next_position [
          | none ↦ page.items
          | some p ↦ page.items ++ walk criteria limit rows n (some (encode_cursor p))
        ]
