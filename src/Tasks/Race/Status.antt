-- ===== src/Tasks/Race/Status.antt =====
-- Status updates under every interleaving.
use multi_tenant_saas.Base.{
  ℕ, ◌+◌, ◌≤◌, ◌≡◌, refl, ap, ◌∙◌, inl, inr, ◌⊎◌, true, false, ◌&&◌, Option, none, some, List, [],
  ◌∷◌, ◌++◌, ◌==◌, arith, filter, map_where, head?, ==_refl, Unique, Bool-cases,
  head?-filter-replaced, head?-filter_passes, map_where-Unique,
}
use multi_tenant_saas.Models.{Uuid, Timestamp, Task, TaskStatus}
use multi_tenant_saas.Repositories.{in_scope}
use multi_tenant_saas.Repositories.Tables.{task_model}
use multi_tenant_saas.Tasks.{occ_where, occ_values}
use multi_tenant_saas.Tasks.Occ.{live_task, occ_where_finds, occ_where_replaces}
use multi_tenant_saas.Tasks.Race.{
  Move, read, write, Race, start, write_returned, write_status, status_step, status_run,
}

module _ (o task_id : Uuid) (now : Timestamp) (new_status : ℕ → TaskStatus) (v v₀ : ℕ) where
  -- The live task's version counts the successes, and a success means that the race began at `v`.
  record Counted (s : Race) : Type 0 where
    unique_ids : Unique (λ (r : Task). r.id) s.tasks
    task : Task
    live : live_task o task_id s.tasks ≡ some task
    counts : task.version_id ≡ v₀ + s.accepted
    once : (s.accepted ≡ 0) ⊎ ((s.accepted ≡ 1) × (v ≡ v₀))

  abbrev expected : ℕ → ℕ
  expected _ = v

  occ_values-key :
      (x : Task)
      → occ_where o task_id v x ≡ true
      → (st : TaskStatus) → (occ_values st v now x).id ≡ x.id
  unfolding occ_values
  occ_values-key x h st = refl

  live-id :
      (t : Task) (tasks : List Task) → live_task o task_id tasks ≡ some t → (t.id == task_id) ≡ true
  live-id t tasks h =
      let passes =
        head?-filter_passes (λ r. (r.id == task_id) && in_scope task_model o false r) tasks t h in
      ground arith

  live-scope :
      (t : Task) (tasks : List Task)
      → live_task o task_id tasks ≡ some t
      → in_scope task_model o false t ≡ true
  live-scope t tasks h =
      let passes =
        head?-filter_passes (λ r. (r.id == task_id) && in_scope task_model o false r) tasks t h in
      ground arith

  occ_values-scope :
      (st : TaskStatus) (t : Task)
      → in_scope task_model o false (occ_values st v now t) ≡ in_scope task_model o false t
  unfolding occ_values
  occ_values-scope st t = refl

  occ_values-id : (st : TaskStatus) (t : Task) → (occ_values st v now t).id ≡ t.id
  unfolding occ_values
  occ_values-id st t = refl

  occ_values-version : (st : TaskStatus) (t : Task) → (occ_values st v now t).version_id ≡ v + 1
  unfolding occ_values
  occ_values-version st t = refl

  written_live :
      (st : TaskStatus) (t : Task) (tasks : List Task)
      → Unique (λ (r : Task). r.id) tasks
      → live_task o task_id tasks ≡ some t
      → head? (filter (occ_where o task_id v) tasks) ≡ some t
      → live_task o task_id (map_where (occ_where o task_id v) (occ_values st v now) tasks)
        ≡ some (occ_values st v now t)
  written_live st t tasks u h f =
      ap (live_task o task_id) (occ_where_replaces o task_id v (occ_values st v now) tasks t u f)
      ∙ head?-filter-replaced (λ r. r.id) task_id (in_scope task_model o false) t
          (occ_values st v now t) tasks h (rw (occ_values-id st t) (live-id t tasks h))
          (occ_values-scope st t ∙ live-scope t tasks h)

  accept :
      (st : TaskStatus) (s : Race) (c : Counted s)
      → (c.task.version_id == v) ≡ true
      → Counted (record s {
        tasks = map_where (occ_where o task_id v) (occ_values st v now) s.tasks;
        accepted = s.accepted + 1;
      })
  accept st s c e =
      let found : head? (filter (occ_where o task_id v) s.tasks) ≡ some c.task =
        rw (occ_where_finds o task_id v s.tasks c.task c.unique_ids c.live, e) in
      let counted = c.counts in
      let before = c.once in
      record {
        unique_ids =
            map_where-Unique (λ r. r.id) (occ_where o task_id v) (occ_values st v now)
              (λ x p. occ_values-key x p st) s.tasks c.unique_ids;
        task = occ_values st v now c.task;
        live = written_live st c.task s.tasks c.unique_ids c.live found;
        counts = occ_values-version st c.task ∙ ground arith;
        once = inr (ground arith);
      }

  remembered : (seen : ℕ → Option Task) (s : Race) → Counted s → Counted (record s { seen = seen })
  remembered seen s c = record {
    unique_ids = c.unique_ids;
    task = c.task;
    live = c.live;
    counts = c.counts;
    once = c.once;
  }

  returned-Counted :
      (c : ℕ) (s : Race) (k : Counted s)
      → ((k.task.version_id == v) ≡ true) ⊎ ((k.task.version_id == v) ≡ false)
      → Counted (
          write_returned o task_id now c
            (new_status c)
            v
            s
            (head? (filter (occ_where o task_id v) s.tasks)))
  returned-Counted c s k (inl e) =
      rw (occ_where_finds o task_id v s.tasks k.task k.unique_ids k.live, e)
        (accept (new_status c) s k e)
  returned-Counted c s k (inr e) =
      rw (occ_where_finds o task_id v s.tasks k.task k.unique_ids k.live, e) k

  write-Counted :
      (c : ℕ) (s : Race) (found : Option Task)
      → Counted s
      → Counted (write_status o task_id now c (new_status c) v s found)
  write-Counted c s none k = k
  write-Counted c s (some _) k = returned-Counted c s k (Bool-cases (k.task.version_id == v))

  step-Counted :
      (m : Move) (s : Race)
      → Counted s
      → Counted (status_step o task_id now new_status expected m s)
  unfolding status_step
  step-Counted (read c) s k = remembered _ s k
  step-Counted (write c) s k = write-Counted c s (s.seen c) k

  run-Counted :
      (schedule : List Move) (s : Race)
      → Counted s
      → Counted (status_run o task_id now new_status expected schedule s)
  unfolding status_run
  run-Counted [] s k = k
  run-Counted (m ∷ schedule) s k =
      run-Counted schedule (status_step o task_id now new_status expected m s) (step-Counted m s k)

  run-append :
      (before after : List Move) (s : Race)
      → status_run o task_id now new_status expected (before ++ after) s
        ≡ status_run o task_id now new_status expected after
            (status_run o task_id now new_status expected before s)
  unfolding status_run
  run-append [] after s = refl
  run-append (m ∷ before) after s =
      run-append before after (status_step o task_id now new_status expected m s)

  -- One complete request after any others: one request has succeeded.
  last_request :
      (c : ℕ) (s : Race)
      → Counted s
      → v ≡ v₀
      → (status_run o task_id now new_status expected (read c ∷ write c ∷ []) s).accepted ≡ 1
  unfolding status_run status_step
  last_request c s k e =
      let found = occ_where_finds o task_id v s.tasks k.task k.unique_ids k.live in
      let counts = k.counts in let once = k.once in rw (k.live, ==_refl c, found) (ground arith)

abbrev initial :
    (o task_id : Uuid) (tasks : List Task) (t : Task) (v : ℕ)
    → (now : Timestamp) (new_status : ℕ → TaskStatus) → Unique (λ (r : Task). r.id) tasks
    → live_task o task_id tasks ≡ some t
    → Counted o task_id now new_status v t.version_id (start tasks)
initial o task_id tasks t v now new_status u h = record {
  unique_ids = u;
  task = t;
  live = h;
  counts = omega arith;
  once = inl refl;
}

-- However the reads and writes of any number of status updates of one live task interleave, each
-- with the same expected version: at most one of them succeeds, and at the end the task is live and
-- its version has grown by the number of successes.
pub status_race :
    (o task_id : Uuid) (now : Timestamp) (new_status : ℕ → TaskStatus) (v : ℕ) (tasks : List Task)
    (t : Task) (schedule : List Move)
    → Unique (λ (r : Task). r.id) tasks
    → live_task o task_id tasks ≡ some t
    → let end = status_run o task_id now new_status (λ _. v) schedule (start tasks) in
      (end.accepted ≤ 1)
      × (t' : Task) × (live_task o task_id end.tasks ≡ some t')
      × (t'.version_id ≡ t.version_id + end.accepted)
status_race o task_id now new_status v tasks t schedule u h =
    let k =
      run-Counted o task_id now new_status v t.version_id schedule (start tasks)
        (initial o task_id tasks t v now new_status u h) in
    let once = k.once in (ground arith, k.task, k.live, k.counts)

-- If the expected version is the task's version, then after any interleaving of such requests that
-- ends with one complete request exactly one of them has succeeded.
pub status_race_winner :
    (o task_id : Uuid) (now : Timestamp) (new_status : ℕ → TaskStatus) (tasks : List Task)
    (t : Task) (schedule : List Move) (c : ℕ)
    → Unique (λ (r : Task). r.id) tasks
    → live_task o task_id tasks ≡ some t
    → (status_run o task_id now new_status
        (λ _. t.version_id)
        (schedule ++ read c ∷ write c ∷ [])
        (start tasks)).accepted
      ≡ 1
status_race_winner o task_id now new_status tasks t schedule c u h =
    rw (run-append o task_id now new_status t.version_id t.version_id schedule) (
      last_request o task_id now new_status t.version_id t.version_id c _
        (run-Counted o task_id now new_status t.version_id t.version_id schedule (start tasks)
          (initial o task_id tasks t t.version_id now new_status u h))
        refl)
