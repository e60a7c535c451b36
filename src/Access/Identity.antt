-- ===== src/Access/Identity.antt =====
-- The token check of `get_current_user`, on every branch.
use text.Mathlib.Text.{◌==◌ as str_eq}
use text.Mathlib.TextEquality.{eq_iff}
use multi_tenant_saas.Base.{
  ◌≡◌, ◌↔◌, refl, true, ◌==◌, none, some, Option, arith, filter, head?, if◌then◌else◌, Bool-cases,
  inl, inr, ◌⊎◌,
}
use multi_tenant_saas.Models.{Uuid, Timestamp, User}
use multi_tenant_saas.Session.{http_exception, Result, ok, err, World}
use multi_tenant_saas.Access.{Claims, get_current_user}

abbrev pub user_with_id : Uuid → World → Option User
user_with_id u w = head? (filter (λ r. r.id == u) w.working.users)

abbrev pub active_decision : Option User → Result User
active_decision none = err (http_exception 401)
active_decision (some user) = if user.is_active then ok user else err (http_exception 401)

abbrev pub claims_decision : World → Option Claims → Result User
claims_decision w none = err (http_exception 401)
claims_decision w (some claims) =
    if str_eq claims.token_type "access"
    then (elim claims.sub [
      | none ↦ err (http_exception 401)
      | some u ↦ active_decision (user_with_id u w)
    ])
    else err (http_exception 401)

-- What a token must show for a user to be taken as its bearer.
pub record Bears (w : World) (user : User) (decoded : Option Claims) : Type 0 where
  pub claims : Claims
  pub user_id : Uuid
  pub decodes : decoded ≡ some claims
  pub is_access : claims.token_type ≡ "access"
  pub subject : claims.sub ≡ some user_id
  pub is_known : user_with_id user_id w ≡ some user
  pub is_active : user.is_active ≡ true

module _ (w : World) (user : User) where
  active_sound :
      (found : Option User)
      → active_decision found ≡ ok user
      → (found ≡ some user) × (user.is_active ≡ true)
  active_sound none h = cc
  active_sound (some u) h = ground arith

  sub_sound :
      (claims : Claims) (sub : Option Uuid)
      → claims.sub ≡ sub
      → claims.token_type ≡ "access"
      → elim sub [ none ↦ err (http_exception 401) | some u ↦ active_decision (user_with_id u w) ]
        ≡ ok user
      → Bears w user (some claims)
  sub_sound claims none e t h = cc
  sub_sound claims (some u) e t h =
      let (found, active) = active_sound (user_with_id u w) h in
      record {
        claims = claims;
        user_id = u;
        decodes = refl;
        is_access = t;
        subject = e;
        is_known = found;
        is_active = active;
      }

  sound : (decoded : Option Claims) → claims_decision w decoded ≡ ok user → Bears w user decoded
  sound none h = cc
  sound (some claims) h = elim (Bool-cases (str_eq claims.token_type "access")) [
    | inl access ↦
        sub_sound claims claims.sub refl ((eq_iff claims.token_type "access").0 access)
          (rw access at h)
    | inr other ↦ cc (rw other at h)
  ]

  complete : (decoded : Option Claims) → Bears w user decoded → claims_decision w decoded ≡ ok user
  complete decoded b =
      let access = (eq_iff b.claims.token_type "access").1 b.is_access in
      rw (b.decodes, access, b.subject, b.is_known, b.is_active)

abbrev RefusedOrKnown : Result User → Type 0
RefusedOrKnown r = (r ≡ err (http_exception 401)) ⊎ ((u : User) × (r ≡ ok u))

active_refused : (found : Option User) → RefusedOrKnown (active_decision found)
active_refused none = inl refl
active_refused (some u) = elim (Bool-cases u.is_active) [
  | inl active ↦ inr (u, ground arith)
  | inr inactive ↦ rw inactive (inl refl)
]

sub_refused :
    (w : World) (sub : Option Uuid)
    → RefusedOrKnown
        (elim sub [ none ↦ err (http_exception 401) | some u ↦ active_decision (user_with_id u w) ])
sub_refused w none = inl refl
sub_refused w (some u) = active_refused (user_with_id u w)

claims_refused : (w : World) (decoded : Option Claims) → RefusedOrKnown (claims_decision w decoded)
claims_refused w none = inl refl
claims_refused w (some claims) = elim (Bool-cases (str_eq claims.token_type "access")) [
  | inl access ↦ rw access (sub_refused w claims.sub)
  | inr other ↦ rw other (inl refl)
]

module _ {Token : Type 0} (decode_jwt_token : Token → Timestamp → Option Claims) (token : Token)
    (w : World) where
  current_user_decides :
      get_current_user decode_jwt_token token w
      ≡ (claims_decision w (decode_jwt_token token w.now), w)
  unfolding get_current_user
  current_user_decides = ground arith

  -- Whatever decodes the tokens: a user is taken as the caller exactly if the token decodes now, is
  -- an access token, and names by its subject that user, who exists and is active. Any other token
  -- is answered with a 401. The check changes nothing.
  pub get_current_user_iff :
      (user : User)
      → ((get_current_user decode_jwt_token token w).0 ≡ ok user
          ↔ Bears w user (decode_jwt_token token w.now))
        × (((get_current_user decode_jwt_token token w).0 ≡ err (http_exception 401))
            ⊎ ((u : User) × ((get_current_user decode_jwt_token token w).0 ≡ ok u)))
        × ((get_current_user decode_jwt_token token w).1 ≡ w)
  get_current_user_iff user =
      let decoded = decode_jwt_token token w.now in
      rw current_user_decides
        ((sound w user decoded, complete w user decoded), claims_refused w decoded, refl)
