-- ===== src/Repositories.antt =====
-- app/repositories/base.py: `BaseRepository` and `TenantScopedRepository`, over any table.
-- A `where` clause is a Boolean test on a row, `select` filters by it, `update` rewrites the rows
-- that pass it. Rows come in the order of insertion where the statement has no `order_by`.
-- `scalar_one_or_none` is applied to queries by a primary or a unique key only, where there is at
-- most one row.
pub mod Tables
use multi_tenant_saas.Base.{
  ℕ, min, ◌+◌, Bool, true, false, ◌&&◌, ◌||◌, not, Option, none, some, List, [], ◌∷◌, ◌++◌, ◌==◌,
  if◌then◌else◌, filter, map_where, take, drop, length, head?, is_some,
}
use multi_tenant_saas.Models.{Db, Uuid, Timestamp}
use multi_tenant_saas.Session.{
  Error, Action, pure, raise, query, execute, uuid4, utc_now, ◌>>=◌, ◌>>◌, raise_if, database_error,
  type_error,
}

-- A mapped class: its table, its key, and the constraints that the database checks: foreign keys
-- and column lengths on every row that is written, unique columns on a row that is inserted.
pub record Model (Row : Type 0) : Type 0 where
  pub table : Db → List Row
  pub with_table : List Row → Db → Db
  pub row_id : Row → Uuid
  pub valid : Db → Row → Bool
  pub is_unique : Db → Row → Bool

-- A class with `TenantScopedMixin`. `deletion` is there if the class has `is_deleted`: the column,
-- and the row that `.values(is_deleted=True, deleted_at=func.now())` makes.
pub record Deletion (Row : Type 0) : Type 0 where
  pub is_deleted : Row → Bool
  pub mark_deleted : Timestamp → Row → Row

pub record TenantModel (Row : Type 0) : Type 0 where
  pub base : Model Row
  pub row_organization : Row → Uuid
  pub deletion : Option (Deletion Row)

module _ {Row : Type 0} (m : Model Row) where
  -- `session.add(instance)` and `session.flush()`
  unfoldable pub add_row : Row → Action (Unit {0})
  add_row row = do
    accepted ← query (λ db. m.valid db row && m.is_unique db row)
    raise_if (not accepted) database_error
    execute (λ db. m.with_table (m.table db ++ row ∷ []) db)

  -- `BaseRepository.get_by_id`
  unfoldable pub get : Uuid → Action (Option Row)
  get entity_id = query (λ db. head? (filter (λ row. m.row_id row == entity_id) (m.table db)))

  -- `BaseRepository.create`: the class fills in the key and the timestamps.
  unfoldable pub create : (Uuid → Timestamp → Row) → Action Row
  unfolding add_row
  create attributes = do
    entity_id ← uuid4
    now ← utc_now
    let instance_row = attributes entity_id now
    add_row instance_row
    pure instance_row

  -- The flush of a loaded object whose attributes were assigned, in the form of the row it becomes.
  unfoldable pub flush_row : Row → Action (Unit {0})
  flush_row row = do
    valid ← query (λ db. m.valid db row)
    raise_if (not valid) database_error
    execute (λ db.
        m.with_table (map_where (λ r. m.row_id r == m.row_id row) (λ _. row) (m.table db)) db)

module _ {Row : Type 0} (m : TenantModel Row) (organization_id : Uuid) where
  -- `hasattr(self.model, "is_deleted")` and the column is true.
  abbrev pub row_deleted : Row → Bool
  row_deleted row = elim m.deletion [ none ↦ false | some d ↦ d.is_deleted row ]

  -- The tenant's rows, without the deleted ones unless they are asked for.
  abbrev pub in_scope : Bool → Row → Bool
  in_scope include_deleted row =
      (m.row_organization row == organization_id) && (include_deleted || not (row_deleted row))

  -- `TenantScopedRepository.get_by_id`
  unfoldable pub get_by_id : Uuid → Bool → Action (Option Row)
  get_by_id entity_id include_deleted = query (λ db. head? (
      filter (λ row. (m.base.row_id row == entity_id) && in_scope include_deleted row)
        (m.base.table db)))

  unfoldable pub list_paginated : ℕ → ℕ → Bool → Action (List Row)
  list_paginated offset limit include_deleted = query (λ db.
      take (min limit 100) (drop offset (filter (in_scope include_deleted) (m.base.table db))))

  unfoldable pub count : Bool → Action ℕ
  count include_deleted = query (λ db. length (filter (in_scope include_deleted) (m.base.table db)))

  -- `create` puts the tenant into the attributes.
  unfoldable pub create_scoped : (Uuid → Uuid → Timestamp → Row) → Action Row
  unfolding create
  create_scoped attributes = create m.base (attributes organization_id)

  unfoldable pub soft_delete : Uuid → Action Bool
  soft_delete entity_id = elim m.deletion [
    | none ↦ raise type_error
    | some d ↦ do
      now ← utc_now
      let where_clause = λ (row : Row).
          (m.base.row_id row == entity_id)
          && (m.row_organization row == organization_id)
          && not (d.is_deleted row)
      returned ← query (λ db. head? (filter where_clause (m.base.table db)))
      execute (λ db.
          m.base.with_table (map_where where_clause (d.mark_deleted now) (m.base.table db)) db)
      pure (is_some returned)
  ]
