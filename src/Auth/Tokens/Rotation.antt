-- ===== src/Auth/Tokens/Rotation.antt =====
-- Revocation, over requests of any clients that run one after the other.
use cerniq_app_v.Prelude.{
  ℕ, List, [], ◌∷◌, true, Option, none, some, String, ◌≡◌, inl, inr, arith, Bool-cases,
  Option-cases,
}
use cerniq_app_v.Auth.Tokens.{
  Token, Redis, User, family_revoked, store_refresh_token, del_token, consume_refresh_token,
  revoke_refresh_family, is_revoked, issued, refresh_verified, refresh, logout, revoke_some,
  consume_some,
}

-- A refresh token of a family.
abbrev pub token_of : String → ℕ → ℕ → ℕ → Token
token_of email jti family text = record {
  text = text;
  verified =
      some (record { email = email; is_refresh = true; jti = some jti; family_id = some family });
}

pub data Request : Type 0 where
  login : (user : User) → (family jti text : ℕ) → Request
  refreshing : (users : String → Option User) → (jti text : ℕ) → (token : Option Token) → Request
  logging_out : (token : Option Token) → Request

revoke-revoked :
    (family k : ℕ) (redis : Redis)
    → is_revoked k redis.revoked ≡ true
    → is_revoked k (revoke_refresh_family family redis).revoked ≡ true
unfolding revoke_refresh_family is_revoked
revoke-revoked family k redis h = ground arith

consume-revoked :
    (jti : ℕ) (redis : Redis) → (consume_refresh_token jti redis).0.revoked ≡ redis.revoked
unfolding consume_refresh_token del_token
consume-revoked jti redis = ground arith

revoke_some-revoked :
    (family : Option ℕ) (k : ℕ) (redis : Redis)
    → is_revoked k redis.revoked ≡ true
    → is_revoked k (revoke_some family redis).revoked ≡ true
revoke_some-revoked none k redis h = h
revoke_some-revoked (some family) k redis h = revoke-revoked family k redis h

consume_some-revoked :
    (jti : Option ℕ) (k : ℕ) (redis : Redis)
    → is_revoked k redis.revoked ≡ true
    → is_revoked k (consume_some jti redis).revoked ≡ true
consume_some-revoked none k redis h = h
consume_some-revoked (some jti) k redis h = ground (arith, h, consume-revoked jti redis)

logout-revoked :
    (token : Option Token) (k : ℕ) (redis : Redis)
    → is_revoked k redis.revoked ≡ true
    → is_revoked k (logout token redis).revoked ≡ true
unfolding logout
logout-revoked none k redis h = h
logout-revoked (some token) k redis h = elim (Option-cases token.verified) [
  | inl bad ↦ rw bad h
  | inr (p, is) ↦ rw is (
      consume_some-revoked p.jti k (revoke_some p.family_id redis)
        (revoke_some-revoked p.family_id k redis h))
]

module _ (hash : ℕ → ℕ) where
  abbrev pub perform : Request → Redis → Redis
  perform (login user family jti text) redis =
      store_refresh_token (issued hash user family jti text) redis
  perform (refreshing users jti text token) redis = (refresh hash users jti text token redis).0
  perform (logging_out token) redis = logout token redis

  -- Requests, one after the other.
  unfoldable pub run_requests : List Request → Redis → Redis
  run_requests [] redis = redis
  run_requests (r ∷ rs) redis = run_requests rs (perform r redis)

  verified-revoked :
      (users : String → Option User) (new_jti new_text : ℕ) (email : String) (jti family text k : ℕ)
      (redis : Redis)
      → is_revoked k redis.revoked ≡ true
      → is_revoked k
          (refresh_verified hash users new_jti new_text email jti family text redis).0.revoked
        ≡ true
  unfolding refresh_verified store_refresh_token
  verified-revoked users new_jti new_text email jti family text k redis h =
      ground (arith, revoke-revoked family k redis, consume-revoked jti redis)

  refresh-revoked :
      (users : String → Option User) (new_jti new_text : ℕ) (token : Option Token) (k : ℕ)
      (redis : Redis)
      → is_revoked k redis.revoked ≡ true
      → is_revoked k (refresh hash users new_jti new_text token redis).0.revoked ≡ true
  unfolding refresh
  refresh-revoked users new_jti new_text none k redis h = h
  refresh-revoked users new_jti new_text (some token) k redis h =
      elim (Option-cases token.verified) [
        | inl bad ↦ rw bad h
        | inr (p, is) ↦ elim (Option-cases p.jti) [
          | inl no_jti ↦ rw (is, no_jti) h
          | inr (jti, is_jti) ↦ elim (Option-cases p.family_id) [
            | inl no_family ↦ rw (is, is_jti, no_family) h
            | inr (family, is_family) ↦ elim (Bool-cases p.is_refresh) [
              | inl good ↦
                  rw (is, is_jti, is_family, good)
                    (verified-revoked users new_jti new_text p.email jti family token.text k redis
                      h)
              | inr access ↦ rw (is, is_jti, is_family, access) h
            ]
          ]
        ]
      ]

  perform-revoked :
      (r : Request) (k : ℕ) (redis : Redis)
      → is_revoked k redis.revoked ≡ true
      → is_revoked k (perform r redis).revoked ≡ true
  unfolding store_refresh_token
  perform-revoked (login user family jti text) k redis h = h
  perform-revoked (refreshing users jti text token) k redis h =
      refresh-revoked users jti text token k redis h
  perform-revoked (logging_out token) k redis h = logout-revoked token k redis h

  run-revoked :
      (rs : List Request) (k : ℕ) (redis : Redis)
      → is_revoked k redis.revoked ≡ true
      → is_revoked k (run_requests rs redis).revoked ≡ true
  unfolding run_requests
  run-revoked [] k redis h = h
  run-revoked (r ∷ rs) k redis h = run-revoked rs k (perform r redis) (perform-revoked r k redis h)

  refresh-family_revoked :
      (users : String → Option User) (new_jti new_text : ℕ) (email : String) (jti family text : ℕ)
      (redis : Redis)
      → is_revoked family redis.revoked ≡ true
      → refresh hash users new_jti new_text (some (token_of email jti family text)) redis
        ≡ (redis, family_revoked)
  unfolding refresh refresh_verified
  refresh-family_revoked users new_jti new_text email jti family text redis h = ground (arith, h)

  -- Once a family is revoked, by a logout or by a reuse that was seen, no later request, whatever
  -- requests come in between, gets a token for a token of the family, and it changes nothing.
  pub revoked_forever :
      (rs : List Request) (users : String → Option User) (new_jti new_text : ℕ) (email : String)
      (jti family text : ℕ) (redis : Redis)
      → is_revoked family redis.revoked ≡ true
      → refresh hash users new_jti new_text
          (some (token_of email jti family text))
          (run_requests rs redis)
        ≡ (run_requests rs redis, family_revoked)
  revoked_forever rs users new_jti new_text email jti family text redis h =
      refresh-family_revoked users new_jti new_text email jti family text (run_requests rs redis)
        (run-revoked rs family redis h)
