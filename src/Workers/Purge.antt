-- ===== src/Workers/Purge.antt =====
-- What `cleanup_soft_deleted_tasks_job` of app/workers/tasks.py takes away.
use multi_tenant_saas.Base.{
  ℕ, zero, suc, ◌-◌, ◌*◌, ◌≢◌, ◌↔◌, refl, ap, inl, inr, not, some, List, [], ◌++◌, arith, filter,
  any, length, In, filter-In, In-filter, any-In, any_of_In, Bool-cases, ==_iff,
}
use multi_tenant_saas.Models.{Uuid, Timestamp, Task, Comment, Attachment}
use multi_tenant_saas.Session.{World}
use multi_tenant_saas.Workers.{
  is_expired, has_id, is_subtask, cascade, delete_expired, day, cleanup_soft_deleted_tasks_job,
}
use multi_tenant_saas.Workers.Rounds.{
  Doomed, by_clause, by_parent, IsDivided, expired_parts, expired_of_parts, has_id_complete,
  length-split, nothing-In, Doomed-In, next_round,
}

module _ (cutoff : Timestamp) (tasks : List Task) where
  cascade-IsDivided :
      (rounds : ℕ) (gone removed kept : List Task)
      → IsDivided cutoff tasks rounds gone removed kept
      → let (kept', removed') = cascade rounds gone removed kept in
        (last : List Task) × IsDivided cutoff tasks 0 last removed' kept'
  unfolding cascade
  cascade-IsDivided zero gone removed kept h = (gone, h)
  cascade-IsDivided (suc rounds) gone removed kept h =
      cascade-IsDivided rounds (filter (is_subtask gone) kept)
        (removed ++ filter (is_subtask gone) kept) (filter (λ t. not (is_subtask gone t)) kept)
        (next_round cutoff tasks rounds gone removed kept h)

  module _ (last removed kept : List Task) (h : IsDivided cutoff tasks 0 last removed kept) where
    not-Doomed : (t : Task) → In t kept → ¬ Doomed cutoff tasks t
    not-Doomed t i (by_clause t' d j m e le) =
        let (_, alive) = h.kept_alive t i in let expired = expired_of_parts cutoff d t m e le in cc
    not-Doomed t i (by_parent t' p j e d) = elim (h.covered p (Doomed-In cutoff tasks p d)) [
      | inl there ↦ not-Doomed p there d
      | inr (_, how) ↦ elim how [
        | inl went ↦ elim h.enough [
          | inl nothing ↦ let i' : In p [] = rw nothing at went in i'
          | inr few ↦ nothing-In t kept few i
        ]
        | inr clean ↦ clean t i e
      ]
    ]

    kept_iff : (t : Task) → In t kept ↔ (In t tasks × ¬ Doomed cutoff tasks t)
    kept_iff t = (
      (λ i. ((h.kept_alive t i).0, not-Doomed t i)),
      (λ x. elim (h.covered t x.0) [
        | inl there ↦ there
        | inr (out, _) ↦ absurd (x.1 (h.removed_doomed t out))
      ]),
    )

    removed_iff : (t : Task) → In t removed ↔ Doomed cutoff tasks t
    removed_iff t = (
      h.removed_doomed t,
      (λ d. elim (h.covered t (Doomed-In cutoff tasks t d)) [
        | inl there ↦ absurd (not-Doomed t there d)
        | inr (out, _) ↦ out
      ]),
    )

    -- Rows that name a task by its key.
    hanging_iff :
        {A : Type 0} (task_id : A → Uuid) (x : A) (l : List A)
        → In x (filter (λ y. not (any (has_id (some (task_id y))) removed)) l)
          ↔ (In x l × ((t : Task) → Doomed cutoff tasks t → task_id x ≢ t.id))
    hanging_iff task_id x l = (
      (λ i.
          let (there, free) =
            filter-In (λ y. not (any (has_id (some (task_id y))) removed)) x l i in
          (
            there,
            λ t d e.
                let named =
                  any_of_In (has_id (some (task_id x))) t removed ((removed_iff t).1 d)
                    (has_id_complete (some (task_id x)) t (ap some e)) in
                absurd (ground arith),
          )),
      (λ y.
          In-filter (λ z. not (any (has_id (some (task_id z))) removed)) x l y.0
            (elim (Bool-cases (any (has_id (some (task_id x))) removed)) [
              | inr free ↦ rw free refl
              | inl named ↦
                  let (t, out, e) = any-In (has_id (some (task_id x))) removed named in
                  absurd (y.1 t (h.removed_doomed t out) ((==_iff (task_id x) t.id).0 e))
            ])),
    )

  start-IsDivided :
      IsDivided cutoff tasks
        (length tasks)
        (filter (is_expired cutoff) tasks)
        (filter (is_expired cutoff) tasks)
        (filter (λ t. not (is_expired cutoff t)) tasks)
  start-IsDivided = record {
    gone_removed = λ g i. i;
    removed_doomed = λ g i.
        let (there, e) = filter-In (is_expired cutoff) g tasks i in
        let (marked, (d, at, le)) = expired_parts cutoff g e in by_clause g d there marked at le;
    kept_alive = λ k i.
        let (there, e) = filter-In (λ t. not (is_expired cutoff t)) k tasks i in
        (there, ground arith);
    covered = λ p i. elim (Bool-cases (is_expired cutoff p)) [
      | inl e ↦ let out = In-filter (is_expired cutoff) p tasks i e in inr (out, inl out)
      | inr e ↦ inl (In-filter (λ t. not (is_expired cutoff t)) p tasks i (rw e refl))
    ];
    enough = inr (omega (arith, length-split (is_expired cutoff) tasks));
  }

-- The purge takes away the tasks that were marked as deleted at least so many days ago and, whether
-- they are marked or not, all subtasks of tasks that go; every comment and every attachment of a
-- task that goes goes with it, and nothing else of the three tables goes.
pub cleanup_soft_deleted_tasks_job_lem :
    (days_threshold : ℕ) (w : World)
    → let cutoff = w.now - days_threshold * day in
      let tasks = w.committed.tasks in
      let after = (cleanup_soft_deleted_tasks_job days_threshold w).1.committed in
      ((t : Task) → In t after.tasks ↔ (In t tasks × ¬ Doomed cutoff tasks t))
      × ((c : Comment)
          → In c after.comments
            ↔ (In c w.committed.comments × ((t : Task) → Doomed cutoff tasks t → c.task_id ≢ t.id)))
      × ((a : Attachment)
          → In a after.attachments ↔ (
              In a w.committed.attachments
              × ((t : Task) → Doomed cutoff tasks t → a.task_id ≢ t.id)))
unfolding cleanup_soft_deleted_tasks_job delete_expired
cleanup_soft_deleted_tasks_job_lem days_threshold w =
    let cutoff = w.now - days_threshold * day in
    let tasks = w.committed.tasks in
    let gone = filter (is_expired cutoff) tasks in
    let alive = filter (λ t. not (is_expired cutoff t)) tasks in
    let ends = cascade (length tasks) gone gone alive in
    let (last, divided) =
      cascade-IsDivided cutoff tasks (length tasks) gone gone alive
        (start-IsDivided cutoff tasks) in
    (
      kept_iff cutoff tasks last ends.1 ends.0 divided,
      (λ c.
          hanging_iff cutoff tasks last ends.1 ends.0 divided (λ (x : Comment). x.task_id) c
            w.committed.comments),
      (λ a.
          hanging_iff cutoff tasks last ends.1 ends.0 divided (λ (x : Attachment). x.task_id) a
            w.committed.attachments),
    )
