-- ===== src/Tasks/Listing.antt =====
-- The handlers of app/api/v1/endpoints/tasks.py that read tasks, and the queries of
-- app/repositories/task.py. `ILIKE` with a pattern `%s%` is the database's: a parameter that says
-- whether a text contains `s`. `math.ceil` of a quotient is taken exactly.
use Prim.Native.String.{String}
use text.Mathlib.Text.{◌==◌ as str_eq}
use multi_tenant_saas.Base.{
  ℕ, ◌+◌, ◌-◌, ◌*◌, ◌/◌, Bool, true, false, ◌&&◌, ◌||◌, not, Option, none, some, List, [], ◌∷◌,
  ◌==◌, ltb, if◌then◌else◌, filter, take, drop, length, option_is,
}
use multi_tenant_saas.Text.{Text, strip}
use multi_tenant_saas.Models.{Uuid, Task, TaskStatus, TaskPriority, status_eq, priority_eq}
use multi_tenant_saas.Session.{entity_not_found, Action, pure, raise, query, ◌>>=◌}
use multi_tenant_saas.Repositories.{get_by_id}
use multi_tenant_saas.Repositories.Tables.{task_model}
use multi_tenant_saas.Access.{TenantContext}
use multi_tenant_saas.Pages.{
  Position, CursorPage, CursorCodec, task_position, earlier, later, order_by, cursor_page,
  cursor_data_of,
}

pub record TaskFilterParams : Type 0 where
  pub project_id : Option Uuid
  pub status : Option TaskStatus
  pub priority : Option TaskPriority
  pub assignee_id : Option Uuid
  pub reporter_id : Option Uuid
  pub search : Option Text
  pub sort_by : String

pub record OffsetPage : Type 0 where
  pub items : List Task
  pub total : ℕ
  pub page : ℕ
  pub page_size : ℕ
  pub total_pages : ℕ

-- A criterion that is there only if the filter is given.
abbrev pub given {ℓ} : {A : Type ℓ} → Option A → (A → Bool) → Bool
given none test = true
given (some a) test = test a

module _ (contains : Text → Text → Bool) where
  -- The description is null: `ILIKE` is not true.
  abbrev pub described : Text → Option Text → Bool
  described search none = false
  described search (some description) = contains search description

  -- `if filters.search`: an empty text is no filter.
  abbrev pub matches : Text → Task → Bool
  matches [] task = true
  matches (c ∷ s) task =
      contains (strip (c ∷ s)) task.title || described (strip (c ∷ s)) task.description

  module _ (organization_id : Uuid) where
    -- `TaskRepository._build_filter_criteria`
    unfoldable pub build_filter_criteria : TaskFilterParams → Task → Bool
    build_filter_criteria filters task =
        (task.organization_id == organization_id)
        && not task.is_deleted
        && given filters.project_id (λ p. task.project_id == p)
        && given filters.status (λ s. status_eq task.status s)
        && given filters.priority (λ p. priority_eq task.priority p)
        && given filters.assignee_id (option_is task.assignee_id)
        && given filters.reporter_id (λ r. task.reporter_id == r)
        && given filters.search (λ s. matches s task)

    -- The `order_by` of `list_tasks_offset`.
    abbrev pub sort_order : String → Position → Position → Bool
    sort_order sort_by = if str_eq sort_by "created_at:asc" then later else earlier

    -- `TaskRepository.list_tasks_offset`
    unfoldable pub list_tasks_offset : TaskFilterParams → ℕ → ℕ → List Task → List Task × ℕ
    list_tasks_offset filters offset limit tasks =
        let selected = filter (build_filter_criteria filters) tasks in
        (
          take limit (drop offset (order_by task_position (sort_order filters.sort_by) selected)),
          length selected,
        )

    -- The page that the handler `list_tasks_offset` answers with.
    unfoldable pub offset_page : TaskFilterParams → ℕ → ℕ → List Task → OffsetPage
    unfolding list_tasks_offset
    offset_page filters page page_size tasks =
        let (items, total) = list_tasks_offset filters ((page - 1) * page_size) page_size tasks in
        record {
          items = items;
          total = total;
          page = page;
          page_size = page_size;
          total_pages = if ltb 0 total then (total + (page_size - 1)) / page_size else 0;
        }

  unfoldable pub list_tasks : TaskFilterParams → ℕ → ℕ → TenantContext → Action OffsetPage
  list_tasks filters page page_size ctx =
      query (λ db. offset_page ctx.organization_id filters page page_size db.tasks)

  module _ (codec : CursorCodec) where
    open codec use {Cursor}

    -- The handler `list_tasks_feed`, with the position that its next cursor encodes.
    unfoldable pub list_tasks_feed :
        TaskFilterParams → Option Cursor → ℕ → TenantContext → Action (CursorPage Task)
    list_tasks_feed filters cursor limit ctx = query (λ db.
        cursor_page task_position earlier (build_filter_criteria ctx.organization_id filters)
          (cursor_data_of task_position earlier codec cursor) limit db.tasks)

unfoldable pub get_task : Uuid → TenantContext → Action Task
unfolding get_by_id
get_task task_id ctx = do
  found ← get_by_id task_model ctx.organization_id task_id false
  elim found [ none ↦ raise (entity_not_found "Task") | some task ↦ pure task ]
