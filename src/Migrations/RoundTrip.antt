-- ===== src/Migrations/RoundTrip.antt =====
-- An upgrade followed by the downgrade
-- (alembic/versions/745e36ac4031_create_core_domain_tables.py).
use Prim.Native.String.{String}
use multi_tenant_saas.Base.{
  ◌≡◌, refl, ap, sym, ◌∙◌, inl, inr, Option, none, some, List, [], ◌∷◌, ◌++◌, Option-cases,
}
use multi_tenant_saas.Migrations.{
  Operation, create_table, create_index, drop_index, drop_table, Schema, apply, and_then, run,
}
use multi_tenant_saas.Migrations.Core.{upgrade, downgrade}
use multi_tenant_saas.Migrations.Undo.{
  IsClosed, inverse, inverses, Creations, with_enums, Undone, undo_table, undo_index,
}

run-append :
    (a b : List Operation) (s : Schema) → run (a ++ b) s ≡ and_then (run a s) (λ s'. run b s')
unfolding run
run-append [] b s = refl
run-append (o ∷ a) b s = elim (Option-cases (apply o s)) [
  | inl failed ↦ rw failed refl
  | inr (s', ran) ↦ rw ran (run-append a b s')
]

creation_step :
    (o : Operation) (operations : List Operation)
    → Creations (o ∷ operations)
    → ((s s' : Schema) → IsClosed s → apply o s ≡ some s' → Undone o s s') × Creations operations
creation_step (create_table t) operations c = (undo_table t, c)
creation_step (create_index i) operations c = (undo_index i, c)
creation_step (drop_index n t) operations c = elim c [ ]
creation_step (drop_table n) operations c = elim c [ ]

-- Creations that succeed are undone by their inverses in the opposite order.
run-inverses :
    (operations : List Operation) (s s' : Schema)
    → Creations operations
    → IsClosed s
    → run operations s ≡ some s'
    → (e : List String) → run (inverses operations) (with_enums e s') ≡ some (with_enums e s)
unfolding run
run-inverses [] s s' c closed ran e =
    ap (λ (o : Option Schema). elim o [ none ↦ none | some x ↦ some (with_enums e x) ]) (sym ran)
run-inverses (o ∷ operations) s s' c closed ran e =
    let (undo, later) = creation_step o operations c in
    elim (Option-cases (apply o s)) [
      | inl failed ↦
          let stopped = ap (λ r. and_then r (λ x. run operations x)) (sym failed) ∙ ran in cc
      | inr (s1, done) ↦
          let rest = ap (λ r. and_then r (λ x. run operations x)) (sym done) ∙ ran in
          let (closed1, back) = undo s s1 closed done in
          run-append (inverses operations) (inverse o ∷ []) (with_enums e s')
          ∙ (ap (λ r. and_then r (λ x. run (inverse o ∷ []) x))
                (run-inverses operations s1 s' later closed1 rest e)
              ∙ ap (λ r. and_then r (λ x. run [] x)) (back e))
    ]

inverses_lem : inverses upgrade ≡ downgrade
inverses_lem = refl

-- On a schema whose indexes and foreign keys name tables that are there, an upgrade that succeeds
-- is undone by the downgrade: tables and indexes are what they were, and only the enum types of the
-- upgrade stay.
pub upgrade-downgrade :
    (s s' : Schema)
    → IsClosed s
    → run upgrade s ≡ some s'
    → run downgrade s' ≡ some (record s { enums = s'.enums })
upgrade-downgrade s s' closed ran =
    ap (λ operations. run operations s') (sym inverses_lem)
    ∙ run-inverses upgrade s s' tt closed ran s'.enums
