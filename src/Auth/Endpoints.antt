-- ===== src/Auth/Endpoints.antt =====
-- The handlers of app/api/v1/endpoints/auth.py, with the rate limiters in front of two of them, and
-- `get_user_profile` of app/services/auth.py. A refused request does not reach the service. The
-- memberships are read in the order of insertion, where the database promises none.
use multi_tenant_saas.Base.{Bool, Option, none, some, List, [], ◌∷◌, ◌==◌, filter, head?}
use multi_tenant_saas.Text.{Text}
use multi_tenant_saas.Models.{Db, Uuid, Timestamp, User, Organization, OrganizationMember, OrgRole}
use multi_tenant_saas.Session.{
  app_exception, http_exception, attribute_error, Result, ok, err, World, Action,
}
use multi_tenant_saas.RateLimit.{
  SortedSets, RateLimiter, Call, Verdict, admitted, too_many_requests, call,
}
use multi_tenant_saas.Auth.{
  Jwt, Passwords, KeyValue, TokenResponse, UserRegisterRequest, register, authenticate,
  refresh_tokens, logout,
}

pub record OrgMembershipOut : Type 0 where
  pub organization_id : Uuid
  pub organization_name : Text
  pub organization_slug : Text
  pub role : OrgRole

pub record UserResponse : Type 0 where
  pub id : Uuid
  pub email : Text
  pub full_name : Text
  pub avatar_url : Option Text
  pub is_active : Bool
  pub is_verified : Bool
  pub created_at : Timestamp
  pub memberships : List OrgMembershipOut

pub record UserLoginRequest : Type 0 where
  pub email : Text
  pub password : Text

abbrev pub login_rate_limiter : RateLimiter
login_rate_limiter = record { limit = 5; window_seconds = 60 }

abbrev pub register_rate_limiter : RateLimiter
register_rate_limiter = record { limit = 3; window_seconds = 60 }

-- `_, tokens = ...`
abbrev pub tokens_of : {T : Type 0} → Result (User × T) × World → Result T × World
tokens_of (err e, w) = (err e, w)
tokens_of (ok (user, tokens), w) = (ok tokens, w)

-- The dependency is called before the handler, which a refusal keeps from running.
abbrev pub after_limiter : {T : Type 0} → Verdict → Action T → Action T
after_limiter (admitted headers) handler w = handler w
after_limiter (too_many_requests retry_after headers) handler w = (err (http_exception 429), w)

module _ (jwt : Jwt) (passwords : Passwords) (hex6 : Uuid → Text) (sets : SortedSets) where
  open sets use {SortedSet}

  -- The handlers `register` and `login`, on the sorted set of the caller's address and path.
  unfoldable pub register_route :
      UserRegisterRequest
      → Call
      → World × SortedSet
      → (Result (TokenResponse jwt) × World) × SortedSet
  unfolding register call
  register_route payload c (w, z) =
      let (verdict, z') = call sets register_rate_limiter c z in
      (after_limiter verdict (λ v. tokens_of (register jwt passwords hex6 payload v)) w, z')

  unfoldable pub login_route :
      UserLoginRequest → Call → World × SortedSet → (Result (TokenResponse jwt) × World) × SortedSet
  unfolding authenticate call
  login_route payload c (w, z) =
      let (verdict, z') = call sets login_rate_limiter c z in
      (
        after_limiter verdict
            (λ v. tokens_of (authenticate jwt passwords hex6 payload.email payload.password v)) w,
        z',
      )

module _ (jwt : Jwt) (redis : KeyValue) where
  unfoldable pub refresh_route :
      jwt.Token → World × redis.State → Result (TokenResponse jwt) × World × redis.State
  unfolding refresh_tokens
  refresh_route refresh_token ws = refresh_tokens jwt redis refresh_token ws

  unfoldable pub logout_route : jwt.Token → World × redis.State → World × redis.State
  unfolding logout
  logout_route refresh_token ws = logout jwt redis refresh_token ws

abbrev pub membership_out : OrganizationMember → Organization → OrgMembershipOut
membership_out m org = record {
  organization_id = m.organization_id;
  organization_name = org.name;
  organization_slug = org.slug;
  role = m.role;
}

abbrev pub membership_before :
    OrganizationMember
    → Option Organization
    → Result (List OrgMembershipOut)
    → Result (List OrgMembershipOut)
membership_before m none rest = err attribute_error
membership_before m (some org) (err e) = err e
membership_before m (some org) (ok memberships) = ok (membership_out m org ∷ memberships)

abbrev pub memberships_out :
    List Organization → List OrganizationMember → Result (List OrgMembershipOut)
memberships_out organizations [] = ok []
memberships_out organizations (m ∷ members) =
    membership_before m (head? (filter (λ o. o.id == m.organization_id) organizations))
      (memberships_out organizations members)

abbrev pub user_response : User → Result (List OrgMembershipOut) → Result UserResponse
user_response user (err e) = err e
user_response user (ok memberships) = ok (record {
  id = user.id;
  email = user.email;
  full_name = user.full_name;
  avatar_url = user.avatar_url;
  is_active = user.is_active;
  is_verified = user.is_verified;
  created_at = user.created_at;
  memberships = memberships;
})

abbrev pub profile_of : Db → Option User → Result UserResponse
profile_of db none = err (app_exception 404)
profile_of db (some user) =
    user_response user
      (memberships_out db.organizations (filter (λ m. m.user_id == user.id) db.members))

-- `AuthService.get_user_profile`
unfoldable pub get_user_profile : Uuid → Action UserResponse
get_user_profile user_id w =
    (profile_of w.working (head? (filter (λ u. u.id == user_id) w.working.users)), w)

-- The handler `get_me`.
unfoldable pub get_me : User → Action UserResponse
unfolding get_user_profile
get_me current_user = get_user_profile current_user.id
