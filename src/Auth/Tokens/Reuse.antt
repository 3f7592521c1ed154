-- ===== src/Auth/Tokens/Reuse.antt =====
-- Rotation: what a successful refresh leaves, and what happens to the token that was used.
use cerniq_app_v.Prelude.{
  ℕ, List, [], ◌∷◌, true, false, not, Option, none, some, String, ◌==◌, str_eq, find_by, filter_by,
  ◌≡◌, ◌≢◌, refl, inl, inr, arith, Option-cases,
}
use cerniq_app_v.Auth.Tokens.{
  Stored, Redis, User, refreshed, refresh_invalidated, store_refresh_token, get_token, del_token,
  consume_refresh_token, revoke_refresh_family, is_revoked, verify_refresh_token_hash, issued,
  refresh_verified, refresh,
}
use cerniq_app_v.Auth.Tokens.Rotation.{token_of}

get-deleted :
    (jti : ℕ) (ts : List Stored)
    → find_by (λ t. t.jti == jti) (filter_by (λ t. not (t.jti == jti)) ts) ≡ none
get-deleted jti [] = refl
get-deleted jti (t ∷ ts) = ground (arith, get-deleted jti ts)

get-other :
    (jti other : ℕ) (ts : List Stored)
    → jti ≢ other
    → find_by (λ t. t.jti == jti) (filter_by (λ t. not (t.jti == other)) ts)
      ≡ find_by (λ t. t.jti == jti) ts
get-other jti other [] apart = refl
get-other jti other (t ∷ ts) apart = ground (arith, get-other jti other ts)

module _ (hash : ℕ → ℕ) where
  -- The store after a rotation.
  abbrev pub rotated : User → ℕ → ℕ → ℕ → ℕ → Redis → Redis
  rotated user jti family new_jti new_text redis =
      store_refresh_token (issued hash user family new_jti new_text) (del_token jti redis)

  verified-parts :
      (users : String → Option User) (new_jti new_text : ℕ) (email : String)
      (jti family text j f x : ℕ) (redis : Redis)
      → (refresh_verified hash users new_jti new_text email jti family text redis).1
        ≡ refreshed j f x
      → (user : User) × (users email ≡ some user)
        × (str_eq user.status "active" ≡ true)
        × (is_revoked family redis.revoked ≡ false)
        × ((refresh_verified hash users new_jti new_text email jti family text redis).0
            ≡ rotated user jti family new_jti new_text redis)
  unfolding refresh_verified consume_refresh_token
  verified-parts users new_jti new_text email jti family text j f x redis h =
      elim (Option-cases (users email)) [
        | inl no_user ↦ absurd (ground arith)
        | inr (user, is) ↦ (user, is, ground arith, ground arith, ground arith)
      ]

  rotated-get-old :
      (user : User) (jti family new_jti new_text : ℕ) (redis : Redis)
      → jti ≢ new_jti
      → get_token jti (rotated user jti family new_jti new_text redis) ≡ none
  unfolding store_refresh_token del_token
  rotated-get-old user jti family new_jti new_text redis apart = ground (
    arith,
    get-deleted jti redis.tokens,
    get-other jti new_jti (filter_by (λ t. not (t.jti == jti)) redis.tokens) apart,
  )

  rotated-get-new :
      (user : User) (jti family new_jti new_text : ℕ) (redis : Redis)
      → get_token new_jti (rotated user jti family new_jti new_text redis)
        ≡ some (issued hash user family new_jti new_text)
  unfolding store_refresh_token
  rotated-get-new user jti family new_jti new_text redis = ground arith

  rotated-not-revoked :
      (user : User) (jti family new_jti new_text : ℕ) (redis : Redis)
      → is_revoked family redis.revoked ≡ false
      → is_revoked family (rotated user jti family new_jti new_text redis).revoked ≡ false
  unfolding store_refresh_token del_token
  rotated-not-revoked user jti family new_jti new_text redis h = h

  -- A refresh of a token that is no longer stored is seen as a reuse.
  unstored-refresh :
      (users : String → Option User) (new_jti new_text : ℕ) (email : String) (jti family text : ℕ)
      (redis : Redis)
      → is_revoked family redis.revoked ≡ false
      → get_token jti redis ≡ none
      → refresh hash users new_jti new_text (some (token_of email jti family text)) redis
        ≡ (revoke_refresh_family family redis, refresh_invalidated)
  unfolding refresh refresh_verified verify_refresh_token_hash
  unstored-refresh users new_jti new_text email jti family text redis good gone =
      ground (arith, good, gone)

  stored-refresh :
      (users : String → Option User) (new_jti new_text : ℕ) (email : String) (jti family text : ℕ)
      (redis : Redis) (s : Stored) (user : User)
      → is_revoked family redis.revoked ≡ false
      → get_token jti redis ≡ some s
      → s.token_hash ≡ hash text
      → users email ≡ some user
      → str_eq user.status "active" ≡ true
      → (refresh hash users new_jti new_text (some (token_of email jti family text)) redis).1
        ≡ refreshed new_jti family new_text
  unfolding refresh refresh_verified verify_refresh_token_hash consume_refresh_token
  stored-refresh users new_jti new_text email jti family text redis s user good is same found
        active =
      ground (arith, good, is, same, found, active)

  revoke-is_revoked :
      (family : ℕ) (redis : Redis)
      → is_revoked family (revoke_refresh_family family redis).revoked ≡ true
  unfolding is_revoked revoke_refresh_family
  revoke-is_revoked family redis = ground arith

  refresh-parts :
      (users : String → Option User) (new_jti new_text : ℕ) (email : String)
      (jti family text j f x : ℕ) (redis : Redis)
      → (refresh hash users new_jti new_text (some (token_of email jti family text)) redis).1
        ≡ refreshed j f x
      → (user : User) × (users email ≡ some user)
        × (str_eq user.status "active" ≡ true)
        × (is_revoked family redis.revoked ≡ false)
        × ((refresh hash users new_jti new_text (some (token_of email jti family text)) redis).0
            ≡ rotated user jti family new_jti new_text redis)
  unfolding refresh
  refresh-parts users new_jti new_text email jti family text j f x redis h =
      verified-parts users new_jti new_text email jti family text j f x redis h

  -- A token with which a refresh has succeeded is good once: if the new token was given another jti,
  -- the next refresh with the old one is refused as invalidated and revokes its family.
  pub refresh-replay :
      (users : String → Option User) (new_jti new_text : ℕ) (email : String)
      (jti family text j f x : ℕ) (redis : Redis) (users_after : String → Option User)
      (jti_after text_after : ℕ)
      → jti ≢ new_jti
      → (refresh hash users new_jti new_text (some (token_of email jti family text)) redis).1
        ≡ refreshed j f x
      → let after =
          (refresh hash users new_jti new_text (some (token_of email jti family text)) redis).0 in
        let replay =
          refresh hash users_after jti_after text_after
            (some (token_of email jti family text))
            after in
        (replay.1 ≡ refresh_invalidated) × (is_revoked family replay.0.revoked ≡ true)
  refresh-replay users new_jti new_text email jti family text j f x redis users_after jti_after
        text_after apart h =
      let (user, found, active, good, is) =
        refresh-parts users new_jti new_text email jti family text j f x redis h in
      let refused =
        unstored-refresh users_after jti_after text_after email jti family text
          (rotated user jti family new_jti new_text redis)
          (rotated-not-revoked user jti family new_jti new_text redis good)
          (rotated-get-old user jti family new_jti new_text redis apart) in
      rw (is, refused)
        (refl, revoke-is_revoked family (rotated user jti family new_jti new_text redis))

  -- A successful refresh keeps the session alive: the token that it returns is of the same family,
  -- and a refresh with it, for the same users, succeeds too.
  pub refresh-rotated :
      (users : String → Option User) (new_jti new_text : ℕ) (email : String)
      (jti family text j f x : ℕ) (redis : Redis) (jti_after text_after : ℕ)
      → (refresh hash users new_jti new_text (some (token_of email jti family text)) redis).1
        ≡ refreshed j f x
      → let after =
          (refresh hash users new_jti new_text (some (token_of email jti family text)) redis).0 in
        (refresh hash users jti_after text_after
          (some (token_of email new_jti family new_text))
          after).1
        ≡ refreshed jti_after family text_after
  refresh-rotated users new_jti new_text email jti family text j f x redis jti_after text_after h =
      let (user, found, active, good, is) =
        refresh-parts users new_jti new_text email jti family text j f x redis h in
      let again =
        stored-refresh users jti_after text_after email new_jti family new_text
          (rotated user jti family new_jti new_text redis)
          (issued hash user family new_jti new_text) user
          (rotated-not-revoked user jti family new_jti new_text redis good)
          (rotated-get-new user jti family new_jti new_text redis) refl found active in
      rw is again
