-- ===== src/Auth/Register.antt =====
-- What `register` of app/services/auth.py does.
use multi_tenant_saas.Base.{
  ◌+◌, ◌*◌, ◌/◌, ◌≡◌, refl, Bool, true, false, ◌&&◌, Option, none, some, [], ◌∷◌, ◌++◌, ◌==◌, arith,
  ==_refl, if◌then◌else◌, any, is_some, head?, filter, is_some-head?, any-append_last,
}
use multi_tenant_saas.Text.{Text, IsAscii, IsAsciiOrNull, text_eq, strip, clean_email, slugify}
use multi_tenant_saas.Models.{Db, Uuid, User, Organization, OrganizationMember, owner}
use multi_tenant_saas.Session.{entity_conflict, database_error, Result, ok, err, World, roll_back}
use multi_tenant_saas.Repositories.Tables.{user_table, organization_table}
use multi_tenant_saas.Auth.{
  Jwt, Passwords, UserRegisterRequest, TokenResponse, workspace_name, second, register,
  generate_token_pair, create_jwt_token,
}

abbrev own_workspace : Text
own_workspace =
    b'\'' ∷ b's' ∷ b' ' ∷ b'W' ∷ b'o' ∷ b'r' ∷ b'k' ∷ b's' ∷ b'p' ∷ b'a' ∷ b'c' ∷ b'e' ∷ []

-- A user has the address.
abbrev pub email_taken : Text → Db → Bool
email_taken email db = any (λ u. text_eq u.email email) db.users

module _ (jwt : Jwt) (passwords : Passwords) (hex6 : Uuid → Text) where
  open jwt use {encode}
  open passwords use {hash_password}

  abbrev pub new_user : UserRegisterRequest → World → User
  new_user payload w = record {
    id = w.next_uuid;
    email = clean_email payload.email;
    hashed_password = hash_password payload.password;
    full_name = strip payload.full_name;
    avatar_url = none;
    is_active = true;
    is_verified = false;
    created_at = w.now;
    updated_at = w.now;
  }

  -- The name of the first organization: the given one, unless it is empty or missing.
  abbrev pub first_name : Text → Option Text → Text
  first_name full_name (some (c ∷ s)) = c ∷ s
  first_name full_name (some []) = full_name ++ own_workspace
  first_name full_name none = full_name ++ own_workspace

  abbrev pub new_organization : UserRegisterRequest → World → Organization
  new_organization payload w =
      let name = first_name (strip payload.full_name) payload.organization_name in
      record {
        id = w.next_uuid + 1 + 1;
        name = name;
        slug = slugify name ++ b'-' ∷ hex6 (w.next_uuid + 1);
        logo_url = none;
        is_active = true;
        created_at = w.now;
        updated_at = w.now;
      }

  abbrev pub new_owner : World → OrganizationMember
  new_owner w = record {
    id = w.next_uuid + 1 + 1 + 1;
    organization_id = w.next_uuid + 1 + 1;
    user_id = w.next_uuid;
    role = owner;
    created_at = w.now;
    updated_at = w.now;
  }

  abbrev pub first_tokens : World → TokenResponse jwt
  first_tokens w = record {
    access_token = encode (record {
      sub = some w.next_uuid;
      jti = w.next_uuid + 1 + 1 + 1 + 1;
      token_type = "access";
      exp = (w.now + 15 * 60 * second) / second;
    });
    refresh_token = encode (record {
      sub = some w.next_uuid;
      jti = w.next_uuid + 1 + 1 + 1 + 1 + 1;
      token_type = "refresh";
      exp = (w.now + 7 * 24 * 60 * 60 * second) / second;
    });
    expires_in = 15 * 60;
  }

  abbrev pub registered : UserRegisterRequest → World → World
  registered payload w =
      let db = record w.working {
        users = w.working.users ++ new_user payload w ∷ [];
        organizations = w.working.organizations ++ new_organization payload w ∷ [];
        members = w.working.members ++ new_owner w ∷ [];
      } in
      record w { working = db; committed = db; next_uuid = w.next_uuid + 1 + 1 + 1 + 1 + 1 + 1 }

  -- The row of the organization is accepted: name and slug fit, and the slug is new.
  abbrev pub organization_accepted : UserRegisterRequest → World → Bool
  organization_accepted payload w =
      let org = new_organization payload w in
      organization_table.valid w.working org && organization_table.is_unique w.working org

  -- What the registration should do.
  abbrev pub registration : UserRegisterRequest → World → Result (User × TokenResponse jwt) × World
  registration payload w =
      if email_taken (clean_email payload.email) w.working
      then (err entity_conflict, roll_back w)
      else (if user_table.valid w.working (new_user payload w)
          then (if organization_accepted payload w
              then (ok (new_user payload w, first_tokens w), registered payload w)
              else (
                err database_error,
                roll_back (record w { next_uuid = w.next_uuid + 1 + 1 + 1 }),
              ))
          else (err database_error, roll_back (record w { next_uuid = w.next_uuid + 1 })))

  module _ (payload : UserRegisterRequest) (w : World) where
    workspace_name-first_name :
        (full_name : Text) (given : Option Text)
        → workspace_name given full_name ≡ first_name full_name given
    workspace_name-first_name full_name none = refl
    workspace_name-first_name full_name (some []) = refl
    workspace_name-first_name full_name (some (c ∷ s)) = refl

    found_is_taken :
        is_some (head? (filter (λ u. text_eq u.email (clean_email payload.email)) w.working.users))
        ≡ email_taken (clean_email payload.email) w.working
    found_is_taken =
        is_some-head? (λ (u : User). text_eq u.email (clean_email payload.email)) w.working.users

    user_there : any (λ u. u.id == w.next_uuid) (w.working.users ++ new_user payload w ∷ []) ≡ true
    user_there =
        any-append_last (λ (u : User). u.id == w.next_uuid) w.working.users (new_user payload w)
          (==_refl w.next_uuid)

    organization_there :
        any
          (λ o. o.id == w.next_uuid + 1 + 1)
          (w.working.organizations ++ new_organization payload w ∷ [])
        ≡ true
    organization_there =
        any-append_last (λ (o : Organization). o.id == w.next_uuid + 1 + 1) w.working.organizations
          (new_organization payload w) (==_refl (w.next_uuid + 1 + 1))

    -- If the texts of the request are ASCII and no membership has the keys that are drawn for the
    -- new rows, a registration does exactly this: an address that a user has in its lower-case,
    -- stripped form is a conflict; a user or an organization that the database refuses (too long a
    -- text, or a slug in use) is an error; in these cases nothing of it is committed. Otherwise the
    -- user, the organization, which has the given name or else the user's followed by `'s
    -- Workspace`, and the membership as its owner are committed together, and the tokens name the
    -- user.
    pub register_lem :
        IsAscii payload.email
        → IsAscii payload.full_name
        → IsAsciiOrNull payload.organization_name
        → any
            (λ m. (m.organization_id == w.next_uuid + 1 + 1) && (m.user_id == w.next_uuid))
            w.working.members
          ≡ false
        → register jwt passwords hex6 payload w ≡ registration payload w
    unfolding register generate_token_pair create_jwt_token
    register_lem _ _ _ fresh =
        let named = workspace_name-first_name (strip payload.full_name) payload.organization_name in
        ground (arith, found_is_taken, user_there, organization_there)
