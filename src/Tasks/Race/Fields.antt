-- ===== src/Tasks/Race/Fields.antt =====
-- Updates without a status under an interleaving: the version test is made in Python on a row read
-- earlier, and the UPDATE statement names the primary key alone, so an update can be lost.
use multi_tenant_saas.Base.{
  ℕ, ◌+◌, ◌≡◌, ◌≢◌, refl, sym, inl, inr, Bool-cases, ap, ◌∙◌, true, false, ◌&&◌, some, List, [],
  ◌∷◌, ◌==◌, arith, map_where, ==_refl, head?-filter-updated, head?-filter_passes,
}
use multi_tenant_saas.Text.{Text, text_eq, strip}
use multi_tenant_saas.Text.Laws.{text_eq_sound}
use multi_tenant_saas.Models.{Db, Uuid, Timestamp, Task}
use multi_tenant_saas.Repositories.{in_scope}
use multi_tenant_saas.Repositories.Tables.{task_model, task_table}
use multi_tenant_saas.Tasks.Occ.{live_task}
use multi_tenant_saas.Tasks.Endpoints.{TaskUpdate, apply_update}
use multi_tenant_saas.Tasks.Race.{Move, read, write, start, flushed_columns, fields_run}

-- Two requests that have both read the task before either writes.
abbrev pub overlapped : List Move
overlapped = read 0 ∷ read 1 ∷ write 0 ∷ write 1 ∷ []

module _ (o task_id : Uuid) (now : Timestamp) where
  flushed-id : (p : TaskUpdate) (l r : Task) → (flushed_columns now p l r).id ≡ r.id
  unfolding flushed_columns
  flushed-id p l r = refl

  flushed-scope :
      (p : TaskUpdate) (l r : Task)
      → in_scope task_model o false (flushed_columns now p l r) ≡ in_scope task_model o false r
  unfolding flushed_columns
  flushed-scope p l r = refl

  flushed_live :
      (p : TaskUpdate) (l t : Task) (tasks : List Task)
      → live_task o task_id tasks ≡ some t
      → live_task o task_id (map_where (λ r. r.id == task_id) (flushed_columns now p l) tasks)
        ≡ some (flushed_columns now p l t)
  flushed_live p l t tasks h =
      head?-filter-updated (λ r. r.id) task_id (in_scope task_model o false)
        (flushed_columns now p l) t (flushed-id p l) (flushed-scope p l) tasks h

  live-id : (t : Task) (tasks : List Task) → live_task o task_id tasks ≡ some t → t.id ≡ task_id
  live-id t tasks h =
      let passes =
        head?-filter_passes (λ r. (r.id == task_id) && in_scope task_model o false r) tasks t h in
      ground arith

  overlapped-run :
      (db : Db) (payloads : ℕ → TaskUpdate) (tasks : List Task) (t : Task)
      → live_task o task_id tasks ≡ some t
      → (t.version_id == (payloads 0).expected_version) ≡ true
      → (t.version_id == (payloads 1).expected_version) ≡ true
      → task_table.valid db (apply_update (payloads 0) now t) ≡ true
      → task_table.valid db (apply_update (payloads 1) now t) ≡ true
      → let end = fields_run o task_id now db payloads overlapped (start tasks) in
        (end.accepted ≡ 2)
        × (end.tasks
            ≡ map_where
                (λ r. r.id == t.id)
                (flushed_columns now (payloads 1) t)
                (map_where (λ r. r.id == t.id) (flushed_columns now (payloads 0) t) tasks))
  unfolding fields_run
  overlapped-run db payloads tasks t h e f v1 v2 = ground arith

  abbrev written_twice : (ℕ → TaskUpdate) → Task → List Task → Uuid → List Task
  written_twice payloads t tasks k =
      map_where (λ r. r.id == k) (flushed_columns now (payloads 1) t)
        (map_where (λ r. r.id == k) (flushed_columns now (payloads 0) t) tasks)

  flushed-version :
      (p : TaskUpdate) (l r : Task) → (flushed_columns now p l r).version_id ≡ l.version_id + 1
  unfolding flushed_columns
  flushed-version p l r = refl

  flushed-title :
      (p : TaskUpdate) (l r : Task) (title : Text)
      → p.title ≡ some title
      → strip title ≢ l.title
      → (flushed_columns now p l r).title ≡ strip title
  unfolding flushed_columns
  flushed-title p l r title h new = elim (Bool-cases (text_eq l.title (strip title))) [
    | inl e ↦ absurd (new (sym (text_eq_sound l.title (strip title) e)))
    | inr e ↦ rw (h, e) refl
  ]

  -- Two updates without a status that both expect the version that the live task has, and whose
  -- values the database accepts: if both read before either writes, both succeed. At the end the
  -- task is live and its version is one higher and not two; and if the second request sets a title
  -- that, without outer spaces, is another than the one that was read, the task has that title,
  -- whatever the first wrote.
  pub lost_update :
      (db : Db) (payloads : ℕ → TaskUpdate) (tasks : List Task) (t : Task) (second : Text)
      → live_task o task_id tasks ≡ some t
      → (payloads 0).expected_version ≡ t.version_id
      → (payloads 1).expected_version ≡ t.version_id
      → task_table.valid db (apply_update (payloads 0) now t) ≡ true
      → task_table.valid db (apply_update (payloads 1) now t) ≡ true
      → (payloads 1).title ≡ some second
      → strip second ≢ t.title
      → let end = fields_run o task_id now db payloads overlapped (start tasks) in
        (end.accepted ≡ 2)
        × (t' : Task) × (live_task o task_id end.tasks ≡ some t')
        × (t'.version_id ≡ t.version_id + 1)
        × (t'.title ≡ strip second)
  lost_update db payloads tasks t second h e f v1 v2 s new =
      let (counted, both) =
        overlapped-run db payloads tasks t h (rw e (==_refl t.version_id))
          (rw f (==_refl t.version_id)) v1 v2 in
      let first = flushed_columns now (payloads 0) t t in
      (
        counted,
        flushed_columns now (payloads 1) t first,
        ap (live_task o task_id) (both ∙ ap (written_twice payloads t tasks) (live-id t tasks h))
            ∙ flushed_live (payloads 1) t first _ (flushed_live (payloads 0) t t tasks h),
        flushed-version (payloads 1) t first,
        flushed-title (payloads 1) t first second s new,
      )
