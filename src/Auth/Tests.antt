-- ===== src/Auth/Tests.antt =====
-- The theorems on authentication at the sample database, with a list of keys for Redis, tokens that
-- are their claims, and passwords that are stored as they are.
use multi_tenant_saas.Base.{
  ℕ, ◌+◌, ◌*◌, ◌≡◌, refl, arith, Bool, false, none, some, [], ◌∷◌, ◌==◌, ltb, if◌then◌else◌,
}
use multi_tenant_saas.Text.{Text, text_eq}
use multi_tenant_saas.Models.{Uuid}
use multi_tenant_saas.Session.{app_exception, ok, err, World}
use multi_tenant_saas.Access.{Claims}
use multi_tenant_saas.Samples.{sample_world, ann}
use multi_tenant_saas.Auth.{
  Jwt, KeyValue, Passwords, TokenResponse, UserRegisterRequest, second, register, refresh_tokens,
  revoke_token, generate_token_pair, create_jwt_token,
}
use multi_tenant_saas.Auth.Register.{registration, register_lem}
use multi_tenant_saas.Auth.Rotation.{refresh_tokens_once, refresh_tokens_twice}

-- A key is there until the time that was set last.
abbrev timed_keys : KeyValue
timed_keys = record {
  State = ℕ → ℕ → Bool;
  set_ex = λ now key ttl s t other. if other == key then ltb t (now + ttl * second) else s t other;
  has_key = λ t other s. s t other;
  has_key-set_ex = λ now t key other ttl s h. refl;
}

abbrev open_tokens : Jwt
open_tokens = record {
  Token = Claims;
  encode = λ c. c;
  decode = λ c t. if ltb t (c.exp * second) then some c else none;
  decode-encode = λ c t. refl;
}

abbrev bare_passwords : Passwords
bare_passwords = record { hash_password = λ p. p; verify_password = λ p h. text_eq p h }

abbrev six : Uuid → Text
six _ = b'a' ∷ b'b' ∷ b'c' ∷ b'1' ∷ b'2' ∷ b'3' ∷ []

abbrev request : UserRegisterRequest
request = record {
  email = b'C' ∷ b'@' ∷ b'x' ∷ [];
  password = b's' ∷ [];
  full_name = b'C' ∷ [];
  organization_name = none;
}

register_lem_example :
    register open_tokens bare_passwords six request sample_world
    ≡ registration open_tokens bare_passwords six request sample_world
register_lem_example =
    register_lem open_tokens bare_passwords six request sample_world (ground arith) (ground arith)
      tt refl

-- Ann's refresh token with two seconds and a half left at the time of the sample.
abbrev ann_token : Claims
ann_token = record { sub = some 1; jti = 7; token_type = "refresh"; exp = 3 }

abbrev at : ℕ → World
at t = record sample_world { now = t }

refresh_tokens_once_example :
    (refresh_tokens open_tokens timed_keys ann_token
      (at 1000000, (refresh_tokens open_tokens timed_keys ann_token (at 500000, λ _ _. false)).2)).0
    ≡ err (app_exception 401)
unfolding refresh_tokens revoke_token generate_token_pair create_jwt_token
refresh_tokens_once_example =
    refresh_tokens_once open_tokens timed_keys ann_token (at 500000) (at 1000000) (λ _ _. false) _
      refl (omega arith) (omega arith)

refresh_tokens_twice_example :
    (again : TokenResponse open_tokens) × ((refresh_tokens open_tokens timed_keys ann_token (
      at 2700000,
      (refresh_tokens open_tokens timed_keys ann_token (at 500000, λ _ _. false)).2,
    )).0
      ≡ ok again)
unfolding refresh_tokens revoke_token generate_token_pair create_jwt_token
refresh_tokens_twice_example =
    refresh_tokens_twice open_tokens timed_keys ann_token (at 500000) (at 2700000) (λ _ _. false) _
      ann 1 refl (omega arith) (omega arith) (omega arith) refl refl refl refl refl
