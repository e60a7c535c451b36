-- ===== src/Access/Roles.antt =====
-- Who may call what: the role check and the token check, on every branch.
use multi_tenant_saas.Base.{
  ℕ, ◌+◌, ◌≤◌, ◌≡◌, ◌↔◌, ap, refl, ◌&&◌, ◌==◌, none, some, Option, arith, ltb, filter, head?,
  if◌then◌else◌, Bool-cases, inl, inr, ◌⊎◌,
}
use multi_tenant_saas.Models.{
  Uuid, User, OrganizationMember, OrgRole, role_index, owner, admin, manager, member, viewer,
}
use multi_tenant_saas.Session.{http_exception, Result, ok, err, World}
use multi_tenant_saas.Access.{TenantContext, role_level, require_role}

-- The membership row of a user in an organization.
abbrev pub membership_of : Uuid → Uuid → World → Option OrganizationMember
membership_of o u w =
    head? (filter (λ m. (m.organization_id == o) && (m.user_id == u)) w.working.members)

abbrev pub role_decision : OrgRole → User → Uuid → Option OrganizationMember → Result TenantContext
role_decision min_role user o none = err (http_exception 403)
role_decision min_role user o (some m) =
    if ltb (role_level m.role) (role_level min_role)
    then err (http_exception 403)
    else ok (record { user = user; organization_id = o; role = m.role })

-- The levels of `ROLE_HIERARCHY` run against the order in which the enum declares the roles.
level_index : (r : OrgRole) → role_level r + role_index r ≡ 5
unfolding role_level
level_index owner = refl
level_index admin = refl
level_index manager = refl
level_index member = refl
level_index viewer = refl

abbrev index_of : Option OrganizationMember → ℕ
index_of none = 0
index_of (some m) = role_index m.role

module _ (min_role : OrgRole) (user : User) (o : Uuid) (w : World) where
  require_role_decides :
      require_role min_role user o w
      ≡ (role_decision min_role user o (membership_of o user.id w), w)
  unfolding require_role
  require_role_decides = ground arith

  granted : OrganizationMember → TenantContext
  granted m = record { user = user; organization_id = o; role = m.role }

  decided :
      (found : Option OrganizationMember) (ctx : TenantContext)
      → (role_decision min_role user o found ≡ ok ctx) ↔ (
          (m : OrganizationMember) × (found ≡ some m)
          × (role_index m.role ≤ role_index min_role)
          × (ctx ≡ granted m))
  unfolding granted
  decided none ctx = (λ h. cc, λ (m, h, _, _). cc)
  decided (some m) ctx = elim (Bool-cases (ltb (role_level m.role) (role_level min_role))) [
    | inl low ↦ (
      λ h. cc (rw low at h),
      λ (m', same, high, _).
          let e : role_index m.role ≡ role_index m'.role =
            ap (λ (x : Option OrganizationMember). index_of x) same in
          absurd (ground (arith, level_index m.role, level_index min_role)),
    )
    | inr high ↦ (
      λ h. (m, refl, ground (arith, level_index m.role, level_index min_role), ground arith),
      λ (m', same, _, e). rw high (ground arith),
    )
  ]

  refused_or_granted :
      (found : Option OrganizationMember)
      → (role_decision min_role user o found ≡ err (http_exception 403))
        ⊎ ((c : TenantContext) × (role_decision min_role user o found ≡ ok c))
  refused_or_granted none = inl refl
  refused_or_granted (some m) = elim (Bool-cases (ltb (role_level m.role) (role_level min_role))) [
    | inl low ↦ rw low (inl refl)
    | inr high ↦ rw high (inr (record { user = user; organization_id = o; role = m.role }, refl))
  ]

  -- Access to an organization is granted exactly to a member of it whose role stands no later in
  -- the order owner, admin, manager, member, viewer than the required role; the context then holds
  -- the caller, that organization and the member's own role. Anyone else gets a 403. The check
  -- changes nothing.
  pub require_role_iff :
      (ctx : TenantContext)
      → ((require_role min_role user o w).0 ≡ ok ctx ↔ (
          (m : OrganizationMember) × (membership_of o user.id w ≡ some m)
          × (role_index m.role ≤ role_index min_role)
          × (ctx ≡ record { user = user; organization_id = o; role = m.role })))
        × (((require_role min_role user o w).0 ≡ err (http_exception 403))
            ⊎ ((c : TenantContext) × ((require_role min_role user o w).0 ≡ ok c)))
        × ((require_role min_role user o w).1 ≡ w)
  unfolding granted
  require_role_iff ctx = rw require_role_decides (
    decided (membership_of o user.id w) ctx,
    refused_or_granted (membership_of o user.id w),
    refl,
  )
