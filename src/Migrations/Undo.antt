-- ===== src/Migrations/Undo.antt =====
-- One creation and its inverse on a schema.
use Prim.Native.String.{String}
use mathlib.Core.Path.{subst}
use text.Mathlib.Text.{◌==◌ as str_eq}
use text.Mathlib.TextEquality.{eq_iff}
use multi_tenant_saas.Base.{
  ◌≡◌, refl, ap, sym, ◌∙◌, inl, inr, Bool, true, false, ◌&&◌, not, none, some, List, [], ◌∷◌, ◌++◌,
  arith, if◌then◌else◌, filter, any, In, any-In, Bool-cases,
}
use multi_tenant_saas.Migrations.{
  TableDefinition, ForeignKey, foreign_key, Index, index, Operation, create_table, create_index,
  drop_index, drop_table, Schema, is_table, is_index, index_on, refers_to, enums_of, has_target,
  all_targets, any_known, apply,
}

abbrev pub has_table : List TableDefinition → Index → Bool
has_table tables (index _ t _ _) = any (is_table t) tables

-- Indexes and foreign keys name tables that are there.
pub record IsClosed (s : Schema) : Type 0 where
  pub indexed : (i : Index) → In i s.indexes → has_table s.tables i ≡ true
  pub targets :
      (t : TableDefinition)
      → In t s.tables
      → (k : ForeignKey) → In k t.foreign_keys
      → has_target s.tables k ≡ true

abbrev pub inverse : Operation → Operation
inverse (create_table t) = drop_table t.name
inverse (create_index (index n t _ _)) = drop_index n t
inverse (drop_index n t) = drop_index n t
inverse (drop_table n) = drop_table n

abbrev pub inverses : List Operation → List Operation
inverses [] = []
inverses (o ∷ operations) = inverses operations ++ inverse o ∷ []

abbrev pub Creations : List Operation → Type 0
Creations [] = Unit
Creations (create_table _ ∷ operations) = Creations operations
Creations (create_index _ ∷ operations) = Creations operations
Creations (drop_index _ _ ∷ operations) = ⊥
Creations (drop_table _ ∷ operations) = ⊥

abbrev pub with_enums : List String → Schema → Schema
with_enums e s = record s { enums = e }

str_eq_refl : (n : String) → str_eq n n ≡ true
str_eq_refl n = (eq_iff n n).1 refl

if_some : (c : Bool) (x y : Schema) → (if c then some x else none) ≡ some y → (c ≡ true) × (x ≡ y)
if_some true x y e = (refl, cc)
if_some false x y e = cc

keep_all :
    {A : Type 0} (p : A → Bool) (l : List A) → any p l ≡ false → filter (λ x. not (p x)) l ≡ l
keep_all p [] h = refl
keep_all p (x ∷ l) h = elim (Bool-cases (p x)) [
  | inl e ↦ absurd (ground arith)
  | inr e ↦ rw e (ap (λ r. x ∷ r) (keep_all p l (ground arith)))
]

refers_target :
    (n : String) (tables : List TableDefinition) (k : ForeignKey)
    → refers_to n k ≡ true
    → has_target tables k ≡ any (is_table n) tables
refers_target n tables (foreign_key _ t _) h = ap (λ m. any (is_table m) tables) ((eq_iff t n).0 h)

index_target :
    (n : String) (tables : List TableDefinition) (i : Index)
    → index_on n i ≡ true
    → has_table tables i ≡ any (is_table n) tables
index_target n tables (index _ t _ _) h = ap (λ m. any (is_table m) tables) ((eq_iff t n).0 h)

module _ (s : Schema) (closed : IsClosed s) (n : String)
    (fresh : any (is_table n) s.tables ≡ false) where
  no_references : any (λ t. any (refers_to n) t.foreign_keys) s.tables ≡ false
  no_references = elim (Bool-cases (any (λ t. any (refers_to n) t.foreign_keys) s.tables)) [
    | inr e ↦ e
    | inl e ↦
        let (t, there, refers) = any-In (λ t. any (refers_to n) t.foreign_keys) s.tables e in
        let (k, own, named) = any-In (refers_to n) t.foreign_keys refers in
        let found = sym (refers_target n s.tables k named) ∙ closed.targets t there k own in cc
  ]

  no_index : any (index_on n) s.indexes ≡ false
  no_index = elim (Bool-cases (any (index_on n) s.indexes)) [
    | inr e ↦ e
    | inl e ↦
        let (i, there, on) = any-In (index_on n) s.indexes e in
        let found = sym (index_target n s.tables i on) ∙ closed.indexed i there in cc
  ]

  drop_table_lem :
      (t : TableDefinition) (e : List String)
      → t.name ≡ n
      → apply (drop_table n) (record s { tables = t ∷ s.tables; enums = e }) ≡ some (with_enums e s)
  unfolding apply
  drop_table_lem t e same =
      let named : is_table n t ≡ true = ap (λ m. str_eq m n) same ∙ str_eq_refl n in
      rw
        (
          named,
          keep_all (is_table n) s.tables fresh,
          no_references,
          keep_all (index_on n) s.indexes no_index,
        )
        refl

has_table_more :
    (t : TableDefinition) (tables : List TableDefinition) (i : Index)
    → has_table tables i ≡ true
    → has_table (t ∷ tables) i ≡ true
has_table_more t tables (index _ m _ _) h = ground arith

has_target_more :
    (t : TableDefinition) (tables : List TableDefinition) (k : ForeignKey)
    → has_target tables k ≡ true
    → has_target (t ∷ tables) k ≡ true
has_target_more t tables (foreign_key _ m _) h = ground arith

all_targets-In :
    (tables : List TableDefinition) (keys : List ForeignKey) (k : ForeignKey)
    → all_targets tables keys ≡ true
    → In k keys
    → has_target tables k ≡ true
all_targets-In tables [] k h i = elim i [ ]
all_targets-In tables (x ∷ keys) k h (inl same) = ap (has_target tables) same ∙ ground arith
all_targets-In tables (x ∷ keys) k h (inr later) = all_targets-In tables keys k (ground arith) later

-- One creation keeps the schema closed, and its inverse takes it back, whatever types there are by
-- then.
abbrev pub Undone : Operation → Schema → Schema → Type 0
Undone o s s' =
    IsClosed s' × ((e : List String) → apply (inverse o) (with_enums e s') ≡ some (with_enums e s))

table-Undone :
    (t : TableDefinition) (s : Schema)
    → IsClosed s
    → any (is_table t.name) s.tables ≡ false
    → all_targets (t ∷ s.tables) t.foreign_keys ≡ true
    → Undone
        (create_table t)
        s
        (record s { tables = t ∷ s.tables; enums = enums_of t.columns ++ s.enums })
table-Undone t s closed fresh targets = (
  record {
    indexed = λ i j. has_table_more t s.tables i (closed.indexed i j);
    targets = λ u j k own. elim j [
      | inl same ↦
          all_targets-In (t ∷ s.tables) t.foreign_keys k targets
            (subst (λ (v : TableDefinition). In k v.foreign_keys) same own)
      | inr before ↦ has_target_more t s.tables k (closed.targets u before k own)
    ];
  },
  λ e. drop_table_lem s closed t.name fresh t e refl,
)

pub undo_table :
    (t : TableDefinition) (s s' : Schema)
    → IsClosed s
    → apply (create_table t) s ≡ some s'
    → Undone (create_table t) s s'
unfolding apply
undo_table t s s' closed ran =
    let after : Schema = record s {
      tables = t ∷ s.tables;
      enums = enums_of t.columns ++ s.enums;
    } in
    let (allowed, same) =
      if_some
        (not (any (is_table t.name) s.tables)
          && all_targets (t ∷ s.tables) t.foreign_keys
          && not (any_known (enums_of t.columns) s.enums))
        after s' ran in
    subst (λ x. Undone (create_table t) s x) same
      (table-Undone t s closed (ground arith) (ground arith))

index-Undone :
    (n t : String) (columns : List String) (unique : Bool) (s : Schema)
    → IsClosed s
    → any (is_index n) s.indexes ≡ false
    → any (is_table t) s.tables ≡ true
    → Undone
        (create_index (index n t columns unique))
        s
        (record s { indexes = index n t columns unique ∷ s.indexes })
unfolding apply
index-Undone n t columns unique s closed fresh there = (
  record {
    indexed = λ i j. elim j [
      | inl same ↦ ap (has_table s.tables) same ∙ there
      | inr before ↦ closed.indexed i before
    ];
    targets = closed.targets;
  },
  λ e. rw (str_eq_refl n, keep_all (is_index n) s.indexes fresh) refl,
)

pub undo_index :
    (i : Index) (s s' : Schema)
    → IsClosed s
    → apply (create_index i) s ≡ some s'
    → Undone (create_index i) s s'
unfolding apply
undo_index (index n t columns unique) s s' closed ran =
    let after : Schema = record s { indexes = index n t columns unique ∷ s.indexes } in
    let (allowed, same) =
      if_some (not (any (is_index n) s.indexes) && any (is_table t) s.tables) after s' ran in
    subst (λ x. Undone (create_index (index n t columns unique)) s x) same
      (index-Undone n t columns unique s closed (ground arith) (ground arith))
