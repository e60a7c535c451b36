-- ===== src/Tenancy.antt =====
-- What one tenant can see of the database: the rows of its organization in every tenant table, its
-- own organization row, and the users, who belong to no tenant.
use multi_tenant_saas.Base.{
  ℕ, ◌≡◌, ap, ◌∙◌, sym, Bool, true, false, ◌&&◌, List, [], ◌∷◌, ◌++◌, some, ◌==◌, arith, filter,
  map_where, head?, Unique, map_where-key, filter-map_where_other,
}
use multi_tenant_saas.Models.{Db, Uuid}

abbrev pub tenant_view : Uuid → Db → Db
tenant_view o db = record {
  users = db.users;
  organizations = filter (λ r. r.id == o) db.organizations;
  members = filter (λ r. r.organization_id == o) db.members;
  teams = filter (λ r. r.organization_id == o) db.teams;
  team_members = filter (λ r. r.organization_id == o) db.team_members;
  projects = filter (λ r. r.organization_id == o) db.projects;
  tasks = filter (λ r. r.organization_id == o) db.tasks;
  comments = filter (λ r. r.organization_id == o) db.comments;
  attachments = filter (λ r. r.organization_id == o) db.attachments;
  audit_logs = filter (λ r. r.organization_id == o) db.audit_logs;
}

module _ {A : Type 0} (key tenant : A → ℕ) (other : ℕ) where
  -- A new row of another tenant is not seen.
  pub view-append :
      (xs : List A) (x : A)
      → (tenant x == other) ≡ false
      → filter (λ r. tenant r == other) (xs ++ x ∷ []) ≡ filter (λ r. tenant r == other) xs
  view-append [] x h = rw h
  view-append (y ∷ xs) x h = ground (arith, view-append xs x h)

  -- A row of another tenant that is replaced by one of another tenant is not seen.
  pub view-replaced :
      (k : ℕ) (q : A → Bool) (x x' : A) (xs : List A)
      → Unique key xs
      → head? (filter (λ y. (key y == k) && q y) xs) ≡ some x
      → ((y : A) → q y ≡ true → (tenant y == other) ≡ false)
      → (tenant x' == other) ≡ false
      → filter (λ r. tenant r == other) (map_where (λ y. key y == k) (λ _. x') xs)
        ≡ filter (λ r. tenant r == other) xs
  view-replaced k q x x' xs u h foreign foreign' =
      ap (filter (λ r. tenant r == other)) (sym (map_where-key key k q (λ _. x') xs x u h))
      ∙ filter-map_where_other (λ y. (key y == k) && q y) (λ r. tenant r == other) (λ _. x')
          (λ y p. foreign y (ground arith)) (λ y p. foreign') xs
