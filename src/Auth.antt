-- ===== src/Auth.antt =====
-- app/services/auth.py, with the token functions of app/core/security.py and the blacklist of
-- app/core/redis.py. The password hasher, the JWT codec and Redis are outside the repository: they
-- are parameters. `hex6` stands for `uuid.uuid4().hex[:6]`.
pub mod Endpoints
pub mod Rotation
pub mod Register
pub mod Login
mod Tests
use Prim.Native.String.{String}
use text.Mathlib.Text.{◌==◌ as str_eq}
use multi_tenant_saas.Base.{
  ℕ, ◌+◌, ◌-◌, ◌*◌, ◌/◌, ◌≤◌, ◌≡◌, Bool, true, false, ◌&&◌, not, Option, none, some, List, [], ◌∷◌,
  ◌++◌, ◌==◌, ltb, leb, if◌then◌else◌, filter, head?, is_some,
}
use multi_tenant_saas.Text.{Text, text_eq, strip, clean_email, slugify}
use multi_tenant_saas.Models.{Db, Uuid, Timestamp, User, Organization, OrganizationMember, owner}
use multi_tenant_saas.Session.{
  Error, entity_conflict, forbidden_operation, app_exception, value_error, Result, ok, err, World,
  Action, pure, raise, query, uuid4, utc_now, ◌>>=◌, ◌>>◌, raise_if, transaction,
}
use multi_tenant_saas.Repositories.{get, create}
use multi_tenant_saas.Repositories.Tables.{user_table, organization_table, member_table}
use multi_tenant_saas.Access.{Claims}

abbrev pub second : ℕ
second = 1000000

-- Keys with a time to live. `set_ex now key ttl` is `SET key "revoked" EX ttl` sent at `now`.
pub record KeyValue : Type 1 where
  pub State : Type 0
  pub set_ex : Timestamp → ℕ → ℕ → State → State
  pub has_key : Timestamp → ℕ → State → Bool
  pub has_key-set_ex :
      (now t key other ttl : ℕ) (s : State)
      → now ≤ t
      → has_key t other (set_ex now key ttl s)
        ≡ (if other == key then ltb t (now + ttl * second) else has_key t other s)

-- The JWT codec: `decode` checks the signature, the required claims and the expiry.
pub record Jwt : Type 1 where
  pub Token : Type 0
  pub encode : Claims → Token
  pub decode : Token → Timestamp → Option Claims
  pub decode-encode :
      (c : Claims) (t : Timestamp)
      → decode (encode c) t ≡ (if ltb t (c.exp * second) then some c else none)

pub record Passwords : Type 0 where
  pub hash_password : Text → Text
  pub verify_password : Text → Text → Bool

abbrev pub access_token_expire_minutes : ℕ
access_token_expire_minutes = 15

abbrev pub refresh_token_expire_days : ℕ
refresh_token_expire_days = 7

-- `UserRepository.get_by_email`
unfoldable pub get_by_email : Text → Action (Option User)
get_by_email email =
    query (λ db. head? (filter (λ u. text_eq u.email (clean_email email)) db.users))

module _ (jwt : Jwt) where
  open jwt use {Token, encode, decode}

  pub record TokenResponse : Type 0 where
    pub access_token : Token
    pub refresh_token : Token
    pub expires_in : ℕ

  -- `create_jwt_token` without extra claims; `exp` loses the microseconds when it is encoded.
  unfoldable pub create_jwt_token : Uuid → String → ℕ → Action Token
  create_jwt_token subject token_type seconds = do
    jti ← uuid4
    now ← utc_now
    pure (
        encode (record {
          sub = some subject;
          jti = jti;
          token_type = token_type;
          exp = (now + seconds * second) / second;
        }))

  -- `AuthService._generate_token_pair`
  unfoldable pub generate_token_pair : Uuid → Action TokenResponse
  unfolding create_jwt_token
  generate_token_pair user_id = do
    access ← create_jwt_token user_id "access" (access_token_expire_minutes * 60)
    refresh ← create_jwt_token user_id "refresh" (refresh_token_expire_days * 24 * 60 * 60)
    pure (record {
      access_token = access;
      refresh_token = refresh;
      expires_in = access_token_expire_minutes * 60;
    })

-- `UserRegisterRequest` and what `register` reads of it.
pub record UserRegisterRequest : Type 0 where
  pub email : Text
  pub password : Text
  pub full_name : Text
  pub organization_name : Option Text

-- `f"{user.full_name}'s Workspace"`
abbrev pub default_name : Text → Text
default_name full_name =
    full_name
    ++ b'\'' ∷ b's' ∷ b' ' ∷ b'W' ∷ b'o' ∷ b'r' ∷ b'k' ∷ b's' ∷ b'p' ∷ b'a' ∷ b'c' ∷ b'e' ∷ []

-- `payload.organization_name or` the default
abbrev pub workspace_name : Option Text → Text → Text
workspace_name none full_name = default_name full_name
workspace_name (some []) full_name = default_name full_name
workspace_name (some (c ∷ s)) _ = c ∷ s

module _ (jwt : Jwt) (passwords : Passwords) (hex6 : Uuid → Text) where
  open passwords use {hash_password, verify_password}

  -- `AuthService.register`
  unfoldable pub register : UserRegisterRequest → Action (User × TokenResponse jwt)
  unfolding get_by_email create generate_token_pair transaction
  register payload = transaction (do
    existing_user ← get_by_email payload.email
    raise_if (is_some existing_user) entity_conflict
    user ← create user_table (λ user_id now. record {
      id = user_id;
      email = clean_email payload.email;
      hashed_password = hash_password payload.password;
      full_name = strip payload.full_name;
      avatar_url = none;
      is_active = true;
      is_verified = false;
      created_at = now;
      updated_at = now;
    })
    let org_name = workspace_name payload.organization_name user.full_name
    drawn ← uuid4
    org ← create organization_table (λ organization_id now. record {
      id = organization_id;
      name = org_name;
      slug = slugify org_name ++ b'-' ∷ hex6 drawn;
      logo_url = none;
      is_active = true;
      created_at = now;
      updated_at = now;
    })
    create member_table (λ member_id now. record {
      id = member_id;
      organization_id = org.id;
      user_id = user.id;
      role = owner;
      created_at = now;
      updated_at = now;
    })
    token_pair ← generate_token_pair jwt user.id
    pure (user, token_pair))

  -- `not user or not verify_password(password, user.hashed_password)`
  abbrev pub credentials_fail : Text → Option User → Bool
  credentials_fail password none = true
  credentials_fail password (some user) = not (verify_password password user.hashed_password)

  -- `AuthService.authenticate`
  unfoldable pub authenticate : Text → Text → Action (User × TokenResponse jwt)
  unfolding get_by_email generate_token_pair
  authenticate email password = do
    found ← get_by_email email
    raise_if (credentials_fail password found) (app_exception 401)
    elim found [
      | none ↦ raise (app_exception 401)
      | some user ↦ do
        raise_if (not user.is_active) forbidden_operation
        token_pair ← generate_token_pair jwt user.id
        pure (user, token_pair)
    ]

module _ (jwt : Jwt) (redis : KeyValue) where
  open jwt use {Token, decode}
  open redis use {State, set_ex, has_key}

  -- `TokenBlacklistService.revoke_token`: `int` cuts the seconds left to a whole number.
  unfoldable pub revoke_token : ℕ → ℕ → Timestamp → State → State
  revoke_token jti exp now s =
      let ttl = (exp * second - now) / second in if ltb 0 ttl then set_ex now jti ttl s else s

  -- `if not user or not user.is_active`, else the token is revoked and a pair is made.
  abbrev pub rotate :
      Claims → Option User → World × State → Result (TokenResponse jwt) × World × State
  rotate claims none (w, s) = (err (app_exception 401), w, s)
  rotate claims (some user) (w, s) =
      let (r, w') = generate_token_pair jwt user.id w in
      if user.is_active
      then (r, w', revoke_token claims.jti claims.exp w.now s)
      else (err (app_exception 401), w, s)

  -- `uuid.UUID(payload["sub"])` and the query for the user.
  abbrev pub rotate_subject :
      Claims → Option Uuid → World × State → Result (TokenResponse jwt) × World × State
  rotate_subject claims none (w, s) = (err value_error, w, s)
  rotate_subject claims (some user_id) (w, s) =
      rotate claims (head? (filter (λ u. u.id == user_id) w.working.users)) (w, s)

  abbrev pub refresh_claims :
      Option Claims → World × State → Result (TokenResponse jwt) × World × State
  refresh_claims none (w, s) = (err (app_exception 401), w, s)
  refresh_claims (some claims) (w, s) =
      let rotated = rotate_subject claims claims.sub (w, s) in
      if not (str_eq claims.token_type "refresh")
      then (err (app_exception 401), w, s)
      else (if has_key w.now claims.jti s then (err (app_exception 401), w, s) else rotated)

  -- `AuthService.refresh_tokens`
  unfoldable pub refresh_tokens : Token → World × State → Result (TokenResponse jwt) × World × State
  unfolding revoke_token generate_token_pair
  refresh_tokens refresh_token (w, s) = refresh_claims (decode refresh_token w.now) (w, s)

  abbrev pub logout_claims : Option Claims → World × State → World × State
  logout_claims none (w, s) = (w, s)
  logout_claims (some claims) (w, s) = (
    w,
    if str_eq claims.token_type "refresh" then revoke_token claims.jti claims.exp w.now s else s,
  )

  -- `AuthService.logout`
  unfoldable pub logout : Token → World × State → World × State
  unfolding revoke_token
  logout refresh_token (w, s) = logout_claims (decode refresh_token w.now) (w, s)
