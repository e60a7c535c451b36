-- ===== src/Auth/Rotation.antt =====
-- What a refresh token is worth: `refresh_tokens` and `logout` of app/services/auth.py with the
-- blacklist of app/core/redis.py.
use text.Mathlib.Text.{◌==◌ as str_eq}
use multi_tenant_saas.Base.{
  ℕ, ◌+◌, ◌-◌, ◌*◌, ◌/◌, ◌≤◌, ◌<◌, ◌≡◌, true, false, some, ◌==◌, ltb, ==_refl, arith, inl, inr,
  head?, filter, refl, Bool-cases,
}
use multi_tenant_saas.Models.{User}
use multi_tenant_saas.Session.{app_exception, ok, err, World}
use multi_tenant_saas.Access.{Claims}
use multi_tenant_saas.Auth.{
  Jwt, KeyValue, TokenResponse, second, refresh_tokens, revoke_token, generate_token_pair,
  create_jwt_token,
}

module _ (jwt : Jwt) (redis : KeyValue) where
  open jwt use {Token, encode, decode, decode-encode}
  open redis use {State, has_key, set_ex, has_key-set_ex}

  -- The whole seconds that a token has left.
  abbrev pub seconds_left : Claims → ℕ → ℕ
  seconds_left c now = (c.exp * second - now) / second

  -- The token is on the list until those seconds have passed.
  revoked :
      (c : Claims) (now t : ℕ) (s : State)
      → now ≤ t
      → t < now + seconds_left c now * second
      → has_key t c.jti (revoke_token jwt redis c.jti c.exp now s) ≡ true
  unfolding revoke_token
  revoked c now t s h k =
      let some_left : ltb 0 (seconds_left c now) ≡ true = ground arith in
      let in_time : ltb t (now + seconds_left c now * second) ≡ true = ground arith in
      rw
        (
          some_left,
          has_key-set_ex now t c.jti c.jti (seconds_left c now) s h,
          ==_refl c.jti,
          in_time,
        )
        refl

  success_revokes :
      (token : Token) (c : Claims) (w : World) (s : State) (pair : TokenResponse jwt)
      → decode token w.now ≡ some c
      → (refresh_tokens jwt redis token (w, s)).0 ≡ ok pair
      → (refresh_tokens jwt redis token (w, s)).2 ≡ revoke_token jwt redis c.jti c.exp w.now s
  unfolding refresh_tokens
  success_revokes token c w s pair d h = ground arith

  listed_refused :
      (token : Token) (c : Claims) (w : World) (s : State)
      → decode token w.now ≡ some c
      → has_key w.now c.jti s ≡ true
      → (refresh_tokens jwt redis token (w, s)).0 ≡ err (app_exception 401)
  unfolding refresh_tokens
  listed_refused token c w s d h = ground arith

  in_seconds :
      (c : Claims) (now t : ℕ)
      → now ≤ t
      → t < now + seconds_left c now * second
      → t < c.exp * second
  in_seconds c now t h k = omega arith

  -- A refresh token is good for one refresh: after a refresh with it has succeeded, using it again
  -- at any time before the whole seconds that it had left have passed is answered with a 401, if
  -- the list of revoked tokens is then as the first refresh left it, whatever else has changed.
  pub refresh_tokens_once :
      (c : Claims) (w v : World) (s : State) (pair : TokenResponse jwt)
      → (refresh_tokens jwt redis (encode c) (w, s)).0 ≡ ok pair
      → w.now ≤ v.now
      → v.now < w.now + seconds_left c w.now * second
      → (refresh_tokens jwt redis (encode c) (v, (refresh_tokens jwt redis (encode c) (w, s)).2)).0
        ≡ err (app_exception 401)
  refresh_tokens_once c w v s pair h later soon =
      let before_end = in_seconds c w.now v.now later soon in
      let live : ltb w.now (c.exp * second) ≡ true = ground arith in
      let live_now : ltb v.now (c.exp * second) ≡ true = ground arith in
      let decoded : decode (encode c) w.now ≡ some c = rw (decode-encode c w.now, live) refl in
      let decoded_now : decode (encode c) v.now ≡ some c =
        rw (decode-encode c v.now, live_now) refl in
      rw (success_revokes (encode c) c w s pair decoded h) (
        listed_refused (encode c) c v (revoke_token jwt redis c.jti c.exp w.now s) decoded_now
          (revoked c w.now v.now s later soon))

  unlisted_accepted :
      (token : Token) (c : Claims) (w : World) (s : State) (user : User) (u : ℕ)
      → decode token w.now ≡ some c
      → str_eq c.token_type "refresh" ≡ true
      → has_key w.now c.jti s ≡ false
      → c.sub ≡ some u
      → head? (filter (λ r. r.id == u) w.working.users) ≡ some user
      → user.is_active ≡ true
      → (pair : TokenResponse jwt) × ((refresh_tokens jwt redis token (w, s)).0 ≡ ok pair)
  unfolding refresh_tokens generate_token_pair create_jwt_token
  unlisted_accepted token c w s user u d t k h found active =
      rw (d, t, k, h, found, active) (_, refl)

  unlisted :
      (c : Claims) (now t : ℕ) (s : State)
      → now + seconds_left c now * second ≤ t
      → has_key t c.jti s ≡ false
      → has_key t c.jti (revoke_token jwt redis c.jti c.exp now s) ≡ false
  unfolding revoke_token
  unlisted c now t s h absent = elim (Bool-cases (ltb 0 (seconds_left c now))) [
    | inl positive ↦
        let passed : ltb t (now + seconds_left c now * second) ≡ false = ground arith in
        rw
          (
            positive,
            has_key-set_ex now t c.jti c.jti (seconds_left c now) s (omega arith),
            ==_refl c.jti,
            passed,
          )
          refl
    | inr none_left ↦ rw none_left absent
  ]

  -- In the last fraction of a second before it expires, a refresh token that has been used is
  -- accepted again: the time to live is cut to whole seconds. This holds for a token of an active
  -- user that is on the list for no other reason.
  pub refresh_tokens_twice :
      (c : Claims) (w v : World) (s : State) (pair : TokenResponse jwt) (user : User) (u : ℕ)
      → (refresh_tokens jwt redis (encode c) (w, s)).0 ≡ ok pair
      → w.now ≤ v.now
      → w.now + seconds_left c w.now * second ≤ v.now
      → v.now < c.exp * second
      → str_eq c.token_type "refresh" ≡ true
      → has_key v.now c.jti s ≡ false
      → c.sub ≡ some u
      → head? (filter (λ r. r.id == u) v.working.users) ≡ some user
      → user.is_active ≡ true
      → (again : TokenResponse jwt) × ((refresh_tokens jwt redis
            (encode c)
            (v, (refresh_tokens jwt redis (encode c) (w, s)).2)).0
          ≡ ok again)
  refresh_tokens_twice c w v s pair user u h later passed unexpired t absent k found active =
      let live : ltb w.now (c.exp * second) ≡ true = ground arith in
      let live_now : ltb v.now (c.exp * second) ≡ true = ground arith in
      let decoded : decode (encode c) w.now ≡ some c = rw (decode-encode c w.now, live) refl in
      let decoded_now : decode (encode c) v.now ≡ some c =
        rw (decode-encode c v.now, live_now) refl in
      rw (success_revokes (encode c) c w s pair decoded h) (
        unlisted_accepted (encode c) c v (revoke_token jwt redis c.jti c.exp w.now s) user u
          decoded_now t (unlisted c w.now v.now s passed absent) k found active)
