-- ===== src/Teams/Members.antt =====
-- What `create_team` and `add_member` of app/services/team.py do.
use multi_tenant_saas.Base.{
  ◌+◌, ◌≡◌, Bool, true, false, ◌&&◌, not, Option, none, some, List, [], ◌∷◌, ◌++◌, ◌==◌, arith, inl,
  inr, if◌then◌else◌, any, filter, head?, Option-cases, any_of_head?,
}
use multi_tenant_saas.Text.{strip, lower, text_eq}
use multi_tenant_saas.Models.{Db, Uuid, Team, TeamMember, User}
use multi_tenant_saas.Session.{entity_not_found, database_error, Result, ok, err, World, roll_back}
use multi_tenant_saas.Repositories.{in_scope}
use multi_tenant_saas.Repositories.Tables.{team_model, team_table, has_user, has_organization}
use multi_tenant_saas.Teams.{TeamCreate, create_team, add_member}

-- The team of the tenant with a key.
abbrev pub own_team : Uuid → Uuid → List Team → Option Team
own_team o team_id teams =
    head? (filter (λ r. (r.id == team_id) && in_scope team_model o false r) teams)

-- The user is in the team.
abbrev pub in_team : Uuid → Uuid → Db → Bool
in_team team_id user_id db =
    any (λ r. (r.team_id == team_id) && (r.user_id == user_id)) db.team_members

abbrev pub joined : Uuid → Uuid → Uuid → World → World
joined o team_id user_id w =
    let membership : TeamMember = record {
      id = w.next_uuid;
      organization_id = o;
      team_id = team_id;
      user_id = user_id;
      created_at = w.now;
      updated_at = w.now;
    } in
    let db = record w.working { team_members = w.working.team_members ++ membership ∷ [] } in
    record w { working = db; committed = db; next_uuid = w.next_uuid + 1 }

-- What the addition should do, in terms of the tenant's team and the user alone.
abbrev pub addition : Uuid → Uuid → Uuid → World → Option Team → Result (Unit {0}) × World
addition o team_id user_id w none = (err (entity_not_found "Team"), roll_back w)
addition o team_id user_id w (some team) =
    if has_user w.working user_id
    then (if in_team team_id user_id w.working
        then (err database_error, roll_back (record w { next_uuid = w.next_uuid + 1 }))
        else (ok tt, joined o team_id user_id w))
    else (err (entity_not_found "User"), roll_back w)

module _ (o team_id user_id : Uuid) (w : World) where
  user_found :
      (head? (filter (λ (u : User). u.id == user_id) w.working.users) ≡ none
        → has_user w.working user_id ≡ false)
      × ((u : User)
          → head? (filter (λ (u : User). u.id == user_id) w.working.users) ≡ some u
          → has_user w.working user_id ≡ true)
  user_found = (go w.working.users, any_of_head? (λ (u : User). u.id == user_id) w.working.users)
    where
      go :
          (us : List User)
          → head? (filter (λ (u : User). u.id == user_id) us) ≡ none
          → any (λ (u : User). u.id == user_id) us ≡ false
      go [] h = ground arith
      go (u ∷ us) h = ground (arith, go us)

  -- If the organization exists, adding a user to a team does exactly this: without a team of the
  -- tenant or without the user it is a 404, and for a user who is in the team already an error of
  -- the database, without a change of what is committed; otherwise the row is committed. The user
  -- need not be a member of the organization.
  pub add_member_lem :
      has_organization w.working o ≡ true
      → add_member o team_id user_id w
        ≡ addition o team_id user_id w (own_team o team_id w.working.teams)
  unfolding add_member
  add_member_lem ho = elim (Option-cases (own_team o team_id w.working.teams)) [
    | inl missing ↦ ground arith
    | inr (team, found) ↦
        let there =
          any_of_head? (λ (r : Team). (r.id == team_id) && in_scope team_model o false r)
            w.working.teams team found in
        let known : any (λ (r : Team). r.id == team_id) w.working.teams ≡ true =
          any_weaker w.working.teams there in
        elim (Option-cases (head? (filter (λ (u : User). u.id == user_id) w.working.users))) [
          | inl no_user ↦ let unknown = user_found.0 no_user in ground arith
          | inr (user, who) ↦ let is_user = user_found.1 user who in ground arith
        ]
  ]
    where
      any_weaker :
          (ts : List Team)
          → any (λ (r : Team). (r.id == team_id) && in_scope team_model o false r) ts ≡ true
          → any (λ (r : Team). r.id == team_id) ts ≡ true
      any_weaker [] h = cc
      any_weaker (t ∷ ts) h = ground (arith, any_weaker ts)

-- The row that `create_team` stores.
abbrev pub new_team : Uuid → TeamCreate → World → Team
new_team o payload w = record {
  id = w.next_uuid;
  organization_id = o;
  name = strip payload.name;
  slug = strip (lower payload.slug);
  description = payload.description;
  created_at = w.now;
  updated_at = w.now;
}

-- Creating a team succeeds exactly if the organization exists, name and slug fit, and no team of
-- the organization has the slug in its lower-case, stripped form; otherwise nothing is committed.
pub create_team_lem :
    (o : Uuid) (payload : TeamCreate) (w : World)
    → create_team o payload w ≡ (
        if team_table.valid w.working (new_team o payload w)
          && not (
              any
                (λ r. (r.organization_id == o) && text_eq r.slug (strip (lower payload.slug)))
                w.working.teams)
        then (
          ok (new_team o payload w),
          (record w {
            working = record w.working { teams = w.working.teams ++ new_team o payload w ∷ [] };
            committed = record w.working { teams = w.working.teams ++ new_team o payload w ∷ [] };
            next_uuid = w.next_uuid + 1;
          }),
        )
        else (err database_error, roll_back (record w { next_uuid = w.next_uuid + 1 })))
unfolding create_team
create_team_lem o payload w = ground arith
