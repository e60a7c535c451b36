-- ===== src/Tasks/OffsetPages.antt =====
-- The pages of `GET /tasks` together.
use text.Mathlib.Text.{◌==◌ as str_eq}
use multi_tenant_saas.Base.{
  ℕ, zero, suc, ◌*◌, ◌≤◌, ◌≡◌, refl, sym, ap, ◌∙◌, fun_ext, Bool, true, false, not, ◌&&◌, ◌||◌,
  ◌==◌, Option, none, some, option_is, Option-cases, All, List, [], ◌∷◌, ◌++◌, arith, inl, inr, ltb,
  if◌then◌else◌, filter, take, take_all, length, Unique, filter-Unique, Bool-cases,
}
use multi_tenant_saas.Text.{Text, strip}
use multi_tenant_saas.Models.{Uuid, Task, status_eq, priority_eq}
use multi_tenant_saas.Pages.{task_position, order_by, later, earlier}
use multi_tenant_saas.Pages.Offset.{take-add, page_starts, page_ends, enough_pages}
use multi_tenant_saas.Pages.Sorted.{
  KeysetOrder, later-KeysetOrder, earlier-KeysetOrder, IsSorted, order_by-IsSorted,
  length-filter-order_by,
}
use multi_tenant_saas.Tasks.Listing.{
  TaskFilterParams, given, matches, build_filter_criteria, sort_order, offset_page,
  list_tasks_offset,
}

-- `t` is older than `u`: it was created earlier, or at the same time with the smaller key.
abbrev pub older : Task → Task → Bool
older t u = ltb t.created_at u.created_at || ((t.created_at == u.created_at) && ltb t.id u.id)

-- Each task stands before all that follow it: the oldest first, or the newest first.
abbrev pub InOrder : Bool → List Task → Type 0
InOrder oldest_first [] = Unit
InOrder true (t ∷ tasks) = All (λ u. older t u ≡ true) tasks × InOrder true tasks
InOrder false (t ∷ tasks) = All (λ u. older u t ≡ true) tasks × InOrder false tasks

-- A filter that is not given admits every task; an empty text searches for nothing.
abbrev pub admits {ℓ} : {A : Type ℓ} → (A → A → Bool) → Option A → A → Bool
admits eq none x = true
admits eq (some a) x = eq x a

abbrev pub admits_or_null : Option Uuid → Option Uuid → Bool
admits_or_null none x = true
admits_or_null (some a) none = false
admits_or_null (some a) (some b) = a == b

pub admits-given :
    {A : Type 0} (eq : A → A → Bool) (filter : Option A) (x : A)
    → given filter (λ a. eq x a) ≡ admits eq filter x
admits-given eq none x = refl
admits-given eq (some a) x = refl

pub admits_or_null-given :
    (filter x : Option Uuid) → given filter (option_is x) ≡ admits_or_null filter x
admits_or_null-given none x = refl
admits_or_null-given (some a) none = refl
admits_or_null-given (some a) (some b) = ground arith

module _ (contains : Text → Text → Bool) where
  abbrev pub described : Text → Option Text → Bool
  described text none = false
  described text (some description) = contains text description

  abbrev pub searched : Option Text → Task → Bool
  searched none t = true
  searched (some []) t = true
  searched (some (c ∷ s)) t =
      described (strip (c ∷ s)) t.description || contains (strip (c ∷ s)) t.title

  -- A task that the listing should hold.
  abbrev pub wanted : Uuid → TaskFilterParams → Task → Bool
  wanted organization_id filters t =
      not t.is_deleted
      && (t.organization_id == organization_id)
      && searched filters.search t
      && admits ◌==◌ filters.project_id t.project_id
      && admits status_eq filters.status t.status
      && admits priority_eq filters.priority t.priority
      && admits_or_null filters.assignee_id t.assignee_id
      && admits ◌==◌ filters.reporter_id t.reporter_id

  searched-given :
      (search : Option Text) (t : Task)
      → given search (λ s. matches contains s t) ≡ searched search t
  searched-given none t = refl
  searched-given (some []) t = refl
  searched-given (some (c ∷ s)) t = elim (Option-cases t.description) [
    | inl e ↦ rw e (ground arith)
    | inr (d, e) ↦ rw e (ground arith)
  ]

  wanted-build_filter_criteria :
      (organization_id : Uuid) (filters : TaskFilterParams) (t : Task)
      → build_filter_criteria contains organization_id filters t ≡ wanted organization_id filters t
  unfolding build_filter_criteria
  wanted-build_filter_criteria organization_id filters t =
      rw
        (
          admits-given ◌==◌ filters.project_id t.project_id,
          admits-given status_eq filters.status t.status,
          admits-given priority_eq filters.priority t.priority,
          admits_or_null-given filters.assignee_id t.assignee_id,
          admits-given ◌==◌ filters.reporter_id t.reporter_id,
          searched-given filters.search t,
        )
        (ground arith)

abbrev order_of : (b : Bool) → KeysetOrder (if b then later else earlier)
order_of true = later-KeysetOrder
order_of false = earlier-KeysetOrder

all_older :
    (t : Task) (tasks : List Task)
    → All (λ u. later (task_position t) (task_position u) ≡ true) tasks
    → All (λ u. older t u ≡ true) tasks
unfolding later
all_older t [] h = tt
all_older t (u ∷ tasks) h = (ground (arith, h.0), all_older t tasks h.1)

all_newer :
    (t : Task) (tasks : List Task)
    → All (λ u. earlier (task_position t) (task_position u) ≡ true) tasks
    → All (λ u. older u t ≡ true) tasks
unfolding earlier
all_newer t [] h = tt
all_newer t (u ∷ tasks) h = (ground (arith, h.0), all_newer t tasks h.1)

IsSorted-InOrder :
    (b : Bool) (tasks : List Task)
    → IsSorted task_position (if b then later else earlier) (order_of b) tasks
    → InOrder b tasks
IsSorted-InOrder b [] h = tt
IsSorted-InOrder true (t ∷ tasks) h = (all_older t tasks h.0, IsSorted-InOrder true tasks h.1)
IsSorted-InOrder false (t ∷ tasks) h = (all_newer t tasks h.0, IsSorted-InOrder false tasks h.1)

length-filter-true : {A : Type 0} (xs : List A) → length (filter (λ _. true) xs) ≡ length xs
length-filter-true [] = refl
length-filter-true (x ∷ xs) = ap suc (length-filter-true xs)

module _ (contains : Text → Text → Bool) (organization_id : Uuid) (filters : TaskFilterParams)
    (k : ℕ) (tasks : List Task) where
  -- The items of the pages from the first to the `n`th.
  abbrev pub joined_pages : ℕ → List Task
  joined_pages zero = []
  joined_pages (suc n) =
      joined_pages n ++ (offset_page contains organization_id filters (suc n) (suc k) tasks).items

  abbrev selected : List Task
  selected = filter (build_filter_criteria contains organization_id filters) tasks

  abbrev listing : List Task
  listing = order_by task_position (sort_order contains organization_id filters.sort_by) selected

  joined_pages_lem : (n : ℕ) → joined_pages n ≡ take (n * suc k) listing
  unfolding offset_page list_tasks_offset
  joined_pages_lem zero = ap (λ m. take m listing) {x = 0} (omega arith)
  joined_pages_lem (suc n) =
      rw (page_starts k n, page_ends k n, joined_pages_lem n)
        (sym (take-add (n * suc k) (suc k) listing))

  length-listing : length listing ≡ length selected
  length-listing =
      sym (length-filter-true listing)
      ∙ (length-filter-order_by task_position (sort_order contains organization_id filters.sort_by)
            (order_of (str_eq filters.sort_by "created_at:asc")) (λ _. true) selected
          ∙ length-filter-true selected)

  abbrev pub total_pages : ℕ
  total_pages = (offset_page contains organization_id filters 1 (suc k) tasks).total_pages

  reached : length listing ≤ total_pages * suc k
  unfolding offset_page list_tasks_offset
  reached = elim (Bool-cases (ltb 0 (length selected))) [
    | inl some_rows ↦ rw (length-listing, some_rows) (enough_pages k (length selected))
    | inr no_rows ↦
        let none_left : length selected ≡ 0 = ground arith in
        rw (length-listing, no_rows, none_left) (omega arith)
  ]

  -- If the keys of the tasks are distinct and a page holds one task at least, the pages from the
  -- first to the last that the answer announces hold together exactly the tenant's tasks that are
  -- not deleted and meet each filter that is given, each once. The oldest come first if the payload
  -- asks for "created_at:asc", and the newest first otherwise.
  pub joined_pages_cover :
      Unique (λ (t : Task). t.id) tasks
      → InOrder (str_eq filters.sort_by "created_at:asc") (joined_pages total_pages)
        × ((p : Task → Bool)
            → length (filter p (joined_pages total_pages))
              ≡ length (filter p (filter (wanted contains organization_id filters) tasks)))
  joined_pages_cover u =
      rw (joined_pages_lem total_pages, take_all (total_pages * suc k) listing reached)
        (
          IsSorted-InOrder (str_eq filters.sort_by "created_at:asc") listing (
              order_by-IsSorted task_position (sort_order contains organization_id filters.sort_by)
                (order_of (str_eq filters.sort_by "created_at:asc")) selected
                (filter-Unique (λ (t : Task). t.id)
                  (build_filter_criteria contains organization_id filters) tasks u)),
          λ p.
              length-filter-order_by task_position
                (sort_order contains organization_id filters.sort_by)
                (order_of (str_eq filters.sort_by "created_at:asc")) p selected
              ∙ ap (λ (q : Task → Bool). length (filter p (filter q tasks)))
                  (fun_ext (wanted-build_filter_criteria contains organization_id filters)),
        )
