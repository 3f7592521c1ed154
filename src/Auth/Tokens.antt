-- ===== src/Auth/Tokens.antt =====
-- apps/api/src/lib/refresh-token-store.ts and the handlers /refresh and /logout of
-- apps/api/src/routes/auth.ts.
-- A token is what its signature protects: the payload that `app.jwt.verify` gives for it, or none
-- if the signature, the issuer or the audience is wrong. `hash` is sha256, a parameter. The users
-- and the ids that uuid gives are parameters of a request. Redis holds the tokens by their jti and
-- the revoked families; expiry, cookies and the access token are left out.
pub mod Rotation
pub mod Reuse
pub mod Race
use cerniq_app_v.Prelude.{
  ℕ, List, [], ◌∷◌, Bool, true, false, not, ◌&&◌, ◌||◌, Option, none, some, String, ◌==◌, str_eq,
  if◌then◌else◌, find_by, filter_by,
}

pub record Payload : Type 0 where
  pub email : String
  pub is_refresh : Bool
  pub jti : Option ℕ
  pub family_id : Option ℕ

-- A refresh token: its text as a number, and what its verification gives.
pub record Token : Type 0 where
  pub text : ℕ
  pub verified : Option Payload

-- The value under `…:auth:refresh:{jti}`.
pub record Stored : Type 0 where
  pub jti : ℕ
  pub family_id : ℕ
  pub user_id : ℕ
  pub tenant_id : ℕ
  pub token_hash : ℕ

pub record Redis : Type 0 where
  pub tokens : List Stored
  -- the keys `…:auth:refresh:family:revoked:{familyId}` that hold "1"
  pub revoked : List ℕ

-- `storeRefreshToken`: a SET in place of an older value of the key.
unfoldable pub store_refresh_token : Stored → Redis → Redis
store_refresh_token s redis = record redis {
  tokens = s ∷ filter_by (λ t. not (t.jti == s.jti)) redis.tokens;
}

abbrev pub get_token : ℕ → Redis → Option Stored
get_token jti redis = find_by (λ t. t.jti == jti) redis.tokens

unfoldable pub del_token : ℕ → Redis → Redis
del_token jti redis = record redis { tokens = filter_by (λ t. not (t.jti == jti)) redis.tokens }

-- `consumeRefreshToken`: a GET, then a DEL.
unfoldable pub consume_refresh_token : ℕ → Redis → Redis × Option Stored
unfolding del_token
consume_refresh_token jti redis = elim (get_token jti redis) [
  | none ↦ (redis, none)
  | some s ↦ (del_token jti redis, some s)
]

unfoldable pub revoke_refresh_family : ℕ → Redis → Redis
revoke_refresh_family family redis = record redis { revoked = family ∷ redis.revoked }

-- `isRefreshFamilyRevoked`
unfoldable pub is_revoked : ℕ → List ℕ → Bool
is_revoked family [] = false
is_revoked family (f ∷ fs) = f == family || is_revoked family fs

-- A user as `get_user_by_email` gives it.
pub record User : Type 0 where
  pub id : ℕ
  pub tenant_id : ℕ
  pub status : String

pub data Reply : Type 0 where
  refresh_missing refresh_invalid family_revoked refresh_invalidated refresh_reused : Reply
  user_invalid : Reply
  refreshed : (jti family : ℕ) → (token : ℕ) → Reply

module _ (hash : ℕ → ℕ) where
  -- `verifyRefreshTokenHash`
  unfoldable pub verify_refresh_token_hash : ℕ → ℕ → Redis → Bool
  verify_refresh_token_hash jti text redis = elim (get_token jti redis) [
    | none ↦ false
    | some s ↦ s.token_hash == hash text
  ]

  -- The tokens issued for a user in a family: `issueAuthTokens`, with the jti and the text of the
  -- token that uuid and the signature give.
  abbrev pub issued : User → ℕ → ℕ → ℕ → Stored
  issued user family jti text = record {
    jti = jti;
    family_id = family;
    user_id = user.id;
    tenant_id = user.tenant_id;
    token_hash = hash text;
  }

  -- The handler of /refresh once the payload's jti and family are known.
  unfoldable pub refresh_verified :
      (String → Option User) → ℕ → ℕ → String → ℕ → ℕ → ℕ → Redis → Redis × Reply
  unfolding is_revoked verify_refresh_token_hash consume_refresh_token revoke_refresh_family
      store_refresh_token
  refresh_verified users new_jti new_text email jti family text redis =
      if is_revoked family redis.revoked
      then (redis, family_revoked)
      else if not (verify_refresh_token_hash jti text redis)
      then (revoke_refresh_family family redis, refresh_invalidated)
      else elim (consume_refresh_token jti redis).1 [
        | none ↦ (revoke_refresh_family family redis, refresh_reused)
        | some s ↦ elim (users email) [
          | none ↦ ((consume_refresh_token jti redis).0, user_invalid)
          | some user ↦
              if str_eq user.status "active"
              then (
                store_refresh_token (issued user family new_jti new_text)
                    (consume_refresh_token jti redis).0,
                refreshed new_jti family new_text,
              )
              else ((consume_refresh_token jti redis).0, user_invalid)
        ]
      ]

  -- The handler of /refresh.
  unfoldable pub refresh : (String → Option User) → ℕ → ℕ → Option Token → Redis → Redis × Reply
  unfolding refresh_verified
  refresh users new_jti new_text none redis = (redis, refresh_missing)
  refresh users new_jti new_text (some token) redis = elim token.verified [
    | none ↦ (redis, refresh_invalid)
    | some payload ↦ elim payload.jti [
      | none ↦ (redis, refresh_invalid)
      | some jti ↦ elim payload.family_id [
        | none ↦ (redis, refresh_invalid)
        | some family ↦
            if not payload.is_refresh
            then (redis, refresh_invalid)
            else refresh_verified users new_jti new_text payload.email jti family token.text redis
      ]
    ]
  ]

-- The handler of /logout.
abbrev pub revoke_some : Option ℕ → Redis → Redis
revoke_some none redis = redis
revoke_some (some family) redis = revoke_refresh_family family redis

abbrev pub consume_some : Option ℕ → Redis → Redis
consume_some none redis = redis
consume_some (some jti) redis = (consume_refresh_token jti redis).0

unfoldable pub logout : Option Token → Redis → Redis
unfolding revoke_refresh_family consume_refresh_token
logout none redis = redis
logout (some token) redis = elim token.verified [
  | none ↦ redis
  | some payload ↦ consume_some payload.jti (revoke_some payload.family_id redis)
]
