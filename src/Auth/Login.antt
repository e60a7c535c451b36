-- ===== src/Auth/Login.antt =====
-- What `authenticate` of app/services/auth.py does.
use multi_tenant_saas.Base.{◌+◌, ◌*◌, ◌/◌, Option, none, some, if◌then◌else◌, head?, filter}
use multi_tenant_saas.Text.{Text, text_eq, clean_email}
use multi_tenant_saas.Models.{Db, Uuid, User}
use multi_tenant_saas.Session.{app_exception, forbidden_operation, Result, ok, err, World}
use multi_tenant_saas.Auth.{Jwt, Passwords, TokenResponse, second}

-- The user with an address in its lower-case, stripped form.
abbrev pub user_of : Text → Db → Option User
user_of email db = head? (filter (λ u. text_eq u.email (clean_email email)) db.users)

module _ (jwt : Jwt) (passwords : Passwords) (hex6 : Uuid → Text) where
  open jwt use {encode}
  open passwords use {verify_password}

  abbrev pub tokens_for : Uuid → World → TokenResponse jwt
  tokens_for user_id w = record {
    access_token = encode (record {
      sub = some user_id;
      jti = w.next_uuid;
      token_type = "access";
      exp = (w.now + 15 * 60 * second) / second;
    });
    refresh_token = encode (record {
      sub = some user_id;
      jti = w.next_uuid + 1;
      token_type = "refresh";
      exp = (w.now + 7 * 24 * 60 * 60 * second) / second;
    });
    expires_in = 15 * 60;
  }

  -- What the login should do, in terms of the user with the address alone.
  abbrev pub login : Text → World → Option User → Result (User × TokenResponse jwt) × World
  login password w none = (err (app_exception 401), w)
  login password w (some user) =
      if verify_password password user.hashed_password
      then (if user.is_active
          then (ok (user, tokens_for user.id w), record w { next_uuid = w.next_uuid + 1 + 1 })
          else (err forbidden_operation, w))
      else (err (app_exception 401), w)
