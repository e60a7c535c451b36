-- ===== src/Hub/Stream.antt =====
-- Who may open a stream: app/api/v1/endpoints/ws.py up to `connect`. Every refusal closes the
-- socket with the same code. The session is a new one, so it reads what is committed.
use text.Mathlib.Text.{◌==◌ as str_eq}
use multi_tenant_saas.Base.{
  ◌≡◌, refl, ap, ◌∙◌, sym, fun_ext, Bool, true, false, ◌&&◌, Option, none, some, ◌==◌, arith,
  filter, head?, is_some, is_some-head?, any, ◌↔◌, Option-cases, inl, inr,
}
use multi_tenant_saas.Models.{Db, Uuid, Timestamp, Project, OrganizationMember, User}
use multi_tenant_saas.Session.{World, err, http_exception}
use multi_tenant_saas.Access.{Claims, get_current_user}

abbrev pub project_of : Db → Uuid → Option Project
project_of db project_id = head? (filter (λ r. r.id == project_id) db.projects)

abbrev pub project_membership : Db → Uuid → Uuid → Option OrganizationMember
project_membership db organization_id user_id =
    head?
      (filter (λ m. (m.organization_id == organization_id) && (m.user_id == user_id)) db.members)

abbrev pub project_stream : Db → Uuid → Option Project → Bool
project_stream db user_id none = false
project_stream db user_id (some project) =
    is_some (project_membership db project.organization_id user_id)

abbrev pub subject_stream : Db → Uuid → Option Uuid → Bool
subject_stream db project_id none = false
subject_stream db project_id (some user_id) = project_stream db user_id (project_of db project_id)

abbrev pub claims_stream : Db → Uuid → Option Claims → Bool
claims_stream db project_id none = false
claims_stream db project_id (some claims) =
    str_eq claims.token_type "access" && subject_stream db project_id claims.sub

stream_bearer :
    (decoded : Option Claims) (db : Db) (project_id : Uuid)
    → claims_stream db project_id decoded ≡ true
    → (c : Claims) × (u : Uuid) × (project : Project) × (m : OrganizationMember) × (decoded
        ≡ some c)
      × (str_eq c.token_type "access" ≡ true)
      × (c.sub ≡ some u)
      × (project_of db project_id ≡ some project)
      × (project_membership db project.organization_id u ≡ some m)
stream_bearer none db project_id h = absurd (ground arith)
stream_bearer (some c) db project_id h = elim (Option-cases c.sub) [
  | inl nobody ↦ absurd (ground arith)
  | inr (u, k) ↦ elim (Option-cases (project_of db project_id)) [
    | inl missing ↦ absurd (ground arith)
    | inr (project, p) ↦ elim (Option-cases (project_membership db project.organization_id u)) [
      | inl stranger ↦ absurd (ground arith)
      | inr (m, q) ↦
          let access : str_eq c.token_type "access" ≡ true = ground arith in
          (c, u, project, m, refl, access, k, p, q)
    ]
  ]
]

membership-any :
    (db : Db) (project : Project) (u : Uuid)
    → is_some (project_membership db project.organization_id u)
      ≡ any (λ m. (m.user_id == u) && (m.organization_id == project.organization_id)) db.members
membership-any db project u =
    is_some-head?
      (λ (m : OrganizationMember).
        (m.organization_id == project.organization_id) && (m.user_id == u))
      db.members
    ∙ ap (λ (p : OrganizationMember → Bool). any p db.members) (fun_ext (λ m. ground arith))

module _ {Token : Type 0} (decode_jwt_token : Token → Timestamp → Option Claims) where
  -- `project_realtime_stream`: whether it reaches `ws_hub.connect`.
  unfoldable pub open_stream : Token → Uuid → World → Bool
  open_stream token project_id w =
      claims_stream w.committed project_id (decode_jwt_token token w.now)

  -- A stream is opened exactly to the holder of an access token that decodes now, names a user
  -- by its subject, and this user is a member of the organization of the project, which exists.
  pub open_stream_iff :
      (token : Token) (project_id : Uuid) (w : World)
      → (open_stream token project_id w ≡ true) ↔ (
          (c : Claims) × (u : Uuid) × (project : Project) × (decode_jwt_token token w.now ≡ some c)
          × (str_eq c.token_type "access" ≡ true)
          × (c.sub ≡ some u)
          × (head? (filter (λ r. r.id == project_id) w.committed.projects) ≡ some project)
          × (any
                (λ m. (m.user_id == u) && (m.organization_id == project.organization_id))
                w.committed.members
              ≡ true))
  unfolding open_stream
  open_stream_iff token project_id w = (
    λ h.
        let (c, u, project, m, d, t, k, p, q) =
          stream_bearer (decode_jwt_token token w.now) w.committed project_id h in
        (c, u, project, d, t, k, p, sym (membership-any w.committed project u) ∙ (rw q)),
    λ (c, u, project, d, t, k, p, q).
        let found = membership-any w.committed project u ∙ q in ground (arith, found),
  )

  -- A stream is open to a user whose account is deactivated: suppose a token decodes to an access
  -- token of a user who is inactive, and who is a member of the organization of the project. Then
  -- the stream is opened, although every handler that asks for the current user answers the same
  -- token with a 401.
  pub open_stream_inactive :
      (token : Token) (project_id : Uuid) (w : World) (c : Claims) (u : Uuid) (user : User)
      (project : Project) (m : OrganizationMember)
      → decode_jwt_token token w.now ≡ some c
      → str_eq c.token_type "access" ≡ true
      → c.sub ≡ some u
      → head? (filter (λ r. r.id == u) w.working.users) ≡ some user
      → user.is_active ≡ false
      → project_of w.committed project_id ≡ some project
      → project_membership w.committed project.organization_id u ≡ some m
      → (open_stream token project_id w ≡ true)
        × (get_current_user decode_jwt_token token w ≡ (err (http_exception 401), w))
  unfolding open_stream get_current_user
  open_stream_inactive token project_id w c u user project m d t k f i p q =
      (ground arith, ground arith)
