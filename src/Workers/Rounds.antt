-- ===== src/Workers/Rounds.antt =====
-- How one round of the cascade divides the tasks between those that go and those that are kept
-- (`ON DELETE CASCADE` of app/models/task.py).
use multi_tenant_saas.Base.{
  ℕ, suc, ◌+◌, ◌≡◌, ◌≢◌, ◌≤◌, refl, ap, inl, inr, ◌⊎◌, Bool, true, false, not, Option, none, some,
  List, [], ◌∷◌, ◌++◌, arith, filter, length, In, In-append_left, In-append_right, In-append,
  filter-In, In-filter, any-In, any_of_In, Bool-cases, ==_iff,
}
use multi_tenant_saas.Models.{Uuid, Timestamp, Task}
use multi_tenant_saas.Workers.{is_expired, no_later, has_id, is_subtask}

-- A task that goes: an expired one, or a subtask of one that goes.
pub data Doomed (cutoff : Timestamp) (tasks : List Task) : Task → Type 0 where
  by_clause :
      (t : Task) (d : Timestamp)
      → In t tasks
      → t.is_deleted ≡ true
      → t.deleted_at ≡ some d
      → d ≤ cutoff
      → Doomed cutoff tasks t
  by_parent :
      (t p : Task)
      → In t tasks
      → t.parent_id ≡ some p.id
      → Doomed cutoff tasks p
      → Doomed cutoff tasks t

pub no_later_sound :
    (o : Option Timestamp) (cutoff : Timestamp)
    → no_later o cutoff ≡ true
    → (d : Timestamp) × (o ≡ some d) × (d ≤ cutoff)
no_later_sound none cutoff h = cc
no_later_sound (some d) cutoff h = (d, refl, ground arith)

pub expired_parts :
    (cutoff : Timestamp) (t : Task)
    → is_expired cutoff t ≡ true
    → (t.is_deleted ≡ true) × ((d : Timestamp) × (t.deleted_at ≡ some d) × (d ≤ cutoff))
expired_parts cutoff t h = (ground arith, no_later_sound t.deleted_at cutoff (ground arith))

pub expired_of_parts :
    (cutoff d : Timestamp) (t : Task)
    → t.is_deleted ≡ true
    → t.deleted_at ≡ some d
    → d ≤ cutoff
    → is_expired cutoff t ≡ true
expired_of_parts cutoff d t m e le = rw (m, e) (ground arith)

pub has_id_sound : (o : Option Uuid) (g : Task) → has_id o g ≡ true → o ≡ some g.id
has_id_sound none g h = cc
has_id_sound (some id) g h = ap some ((==_iff id g.id).0 h)

pub has_id_complete : (o : Option Uuid) (g : Task) → o ≡ some g.id → has_id o g ≡ true
has_id_complete o g e = rw e ((==_iff g.id g.id).1 refl)

subtask_parent :
    (gone : List Task) (t : Task)
    → is_subtask gone t ≡ true
    → (g : Task) × In g gone × (t.parent_id ≡ some g.id)
subtask_parent gone t h =
    let (g, there, mine) = any-In (has_id t.parent_id) gone h in
    (g, there, has_id_sound t.parent_id g mine)

parent_subtask :
    (gone : List Task) (t p : Task) → In p gone → t.parent_id ≡ some p.id → is_subtask gone t ≡ true
parent_subtask gone t p there e =
    any_of_In (has_id t.parent_id) p gone there (has_id_complete t.parent_id p e)

pub length-split :
    (p : Task → Bool) (l : List Task)
    → length (filter p l) + length (filter (λ t. not (p t)) l) ≡ length l
length-split p [] = refl
length-split p (t ∷ l) = ground (arith, length-split p l)

no_subtasks : (l : List Task) → filter (is_subtask []) l ≡ []
no_subtasks [] = refl
no_subtasks (t ∷ l) = no_subtasks l

pub nothing-In : {A : Type 0} (x : A) (l : List A) → length l ≤ 0 → ¬ In x l
nothing-In x [] h i = elim i [ ]
nothing-In x (y ∷ l) h i = absurd (omega arith)

empty_or_not : (l : List Task) → (l ≡ []) ⊎ (1 ≤ length l)
empty_or_not [] = inl refl
empty_or_not (t ∷ l) = inr (omega arith)

module _ (cutoff : Timestamp) (tasks : List Task) where
  pub Doomed-In : (t : Task) → Doomed cutoff tasks t → In t tasks
  Doomed-In t (by_clause t' d i m e le) = i
  Doomed-In t (by_parent t' p i e d) = i

  -- How the tasks are divided between two rounds.
  pub record IsDivided (rounds : ℕ) (gone removed kept : List Task) : Type 0 where
    pub gone_removed : (g : Task) → In g gone → In g removed
    pub removed_doomed : (g : Task) → In g removed → Doomed cutoff tasks g
    pub kept_alive : (k : Task) → In k kept → In k tasks × (is_expired cutoff k ≡ false)
    pub covered :
        (p : Task)
        → In p tasks
        → (In p kept)
          ⊎ (In p removed × (In p gone ⊎ ((k : Task) → In k kept → k.parent_id ≢ some p.id)))
    pub enough : (gone ≡ []) ⊎ (length kept ≤ rounds)

  module _ (rounds : ℕ) (gone removed kept : List Task)
      (h : IsDivided (suc rounds) gone removed kept) where
    abbrev pub children : List Task
    children = filter (is_subtask gone) kept

    abbrev pub rest : List Task
    rest = filter (λ t. not (is_subtask gone t)) kept

    child-Doomed : (g : Task) → In g children → Doomed cutoff tasks g
    child-Doomed g i =
        let (there, child) = filter-In (is_subtask gone) g kept i in
        let (p, went, e) = subtask_parent gone g child in
        by_parent g p (h.kept_alive g there).0 e (h.removed_doomed p (h.gone_removed p went))

    round_covered :
        (p : Task)
        → In p tasks
        → (In p rest)
          ⊎ (In p (removed ++ children)
              × (In p children ⊎ ((k : Task) → In k rest → k.parent_id ≢ some p.id)))
    round_covered p i = elim (h.covered p i) [
      | inl there ↦ elim (Bool-cases (is_subtask gone p)) [
        | inl child ↦
            let c = In-filter (is_subtask gone) p kept there child in
            inr (In-append_right p removed children c, inl c)
        | inr other ↦ inl (In-filter (λ t. not (is_subtask gone t)) p kept there (rw other refl))
      ]
      | inr (out, how) ↦ inr (
        In-append_left p removed children out,
        inr (λ k j e.
            let (there, other) = filter-In (λ t. not (is_subtask gone t)) k kept j in
            elim how [
              | inl went ↦ let child = parent_subtask gone k p went e in absurd (ground arith)
              | inr clean ↦ clean k there e
            ]),
      )
    ]

    round_enough : (children ≡ []) ⊎ (length rest ≤ rounds)
    round_enough = elim h.enough [
      | inl nothing ↦ inl (rw nothing (no_subtasks kept))
      | inr few ↦ elim (empty_or_not children) [
        | inl nobody ↦ inl nobody
        | inr somebody ↦ inr (omega (arith, length-split (is_subtask gone) kept, few, somebody))
      ]
    ]

    pub next_round : IsDivided rounds children (removed ++ children) rest
    next_round = record {
      gone_removed = λ g i. In-append_right g removed children i;
      removed_doomed = λ g i. elim (In-append g removed children i) [
        | inl before ↦ h.removed_doomed g before
        | inr now ↦ child-Doomed g now
      ];
      kept_alive = λ k i. h.kept_alive k (filter-In (λ t. not (is_subtask gone t)) k kept i).0;
      covered = round_covered;
      enough = round_enough;
    }
