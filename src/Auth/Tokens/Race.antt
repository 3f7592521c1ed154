-- ===== src/Auth/Tokens/Race.antt =====
-- Two refreshes at once: the commands of a request reach Redis one by one, and those of another
-- come in between. The hash of a token is checked, then its value is read, then it is deleted, and
-- then the new token is stored.
use cerniq_app_v.Prelude.{
  ℕ, List, [], ◌∷◌, Bool, true, false, Option, none, some, String, str_eq, if◌then◌else◌, ◌≡◌, ◌≢◌,
  arith, eq_iff, refl, ap, ◌∙◌,
}
use cerniq_app_v.Auth.Tokens.{
  Stored, Redis, User, issued, get_token, del_token, store_refresh_token, revoke_refresh_family,
  is_revoked, verify_refresh_token_hash,
}

-- Where a request stands in the handler of /refresh.
pub data Phase : Type 0 where
  started not_revoked hash_valid : Phase
  got : Stored → Phase
  consumed : Stored → Phase
  -- the jti of the new token, which is in the reply
  replied : ℕ → Phase
  refused : Phase

-- Of two tokens with different jtis, stored one after the other, both are there.
stored_twice :
    (a b : Stored) (redis : Redis)
    → a.jti ≢ b.jti
    → (get_token a.jti (store_refresh_token b (store_refresh_token a redis)) ≡ some a)
      × (get_token b.jti (store_refresh_token b (store_refresh_token a redis)) ≡ some b)
unfolding store_refresh_token
stored_twice a b redis apart = (ground (arith, apart), ground arith)

module _ (hash : ℕ → ℕ) (users : String → Option User) (email : String) (jti family text : ℕ) where
  -- The next command of a request, with the jti and the text of the token that it issues.
  unfoldable pub step : ℕ × ℕ → Redis → Phase → Redis × Phase
  unfolding is_revoked verify_refresh_token_hash revoke_refresh_family del_token store_refresh_token
  step new redis started = (redis, if is_revoked family redis.revoked then refused else not_revoked)
  step new redis not_revoked =
      if verify_refresh_token_hash hash jti text redis
      then (redis, hash_valid)
      else (revoke_refresh_family family redis, refused)
  step new redis hash_valid = elim (get_token jti redis) [
    | none ↦ (revoke_refresh_family family redis, refused)
    | some s ↦ (redis, got s)
  ]
  step new redis (got s) = (del_token jti redis, consumed s)
  step new redis (consumed s) = elim (users email) [
    | none ↦ (redis, refused)
    | some user ↦
        if str_eq user.status "active"
        then (store_refresh_token (issued hash user family new.0 new.1) redis, replied new.0)
        else (redis, refused)
  ]
  step new redis (replied new_jti) = (redis, replied new_jti)
  step new redis refused = (redis, refused)

  -- Two requests with the same token, and what each issues; true where the first moves.
  unfoldable pub interleave :
      ℕ × ℕ → ℕ × ℕ → List Bool → Redis → Phase → Phase → Redis × (Phase × Phase)
  unfolding step
  interleave one two [] redis a b = (redis, (a, b))
  interleave one two (true ∷ turns) redis a b =
      interleave one two turns (step one redis a).0 (step one redis a).1 b
  interleave one two (false ∷ turns) redis a b =
      interleave one two turns (step two redis b).0 a (step two redis b).1

  -- Each request checks the family, checks the hash and reads the value, one request after the
  -- other; then each deletes the value, and then each stores its new token.
  abbrev pub both_read : List Bool
  both_read = true ∷ true ∷ true ∷ false ∷ false ∷ false ∷ true ∷ false ∷ true ∷ false ∷ []

  starts :
      (new : ℕ × ℕ) (redis : Redis)
      → is_revoked family redis.revoked ≡ false
      → step new redis started ≡ (redis, not_revoked)
  unfolding step
  starts new redis good = rw good refl

  checks :
      (new : ℕ × ℕ) (redis : Redis) (s : Stored)
      → get_token jti redis ≡ some s
      → s.token_hash ≡ hash text
      → step new redis not_revoked ≡ (redis, hash_valid)
  unfolding step verify_refresh_token_hash
  checks new redis s is same = ground (arith, is, same)

  reads :
      (new : ℕ × ℕ) (redis : Redis) (s : Stored)
      → get_token jti redis ≡ some s
      → step new redis hash_valid ≡ (redis, got s)
  unfolding step
  reads new redis s is = ground (arith, is)

  deletes :
      (new : ℕ × ℕ) (redis : Redis) (s : Stored)
      → step new redis (got s) ≡ (del_token jti redis, consumed s)
  unfolding step
  deletes new redis s = refl

  issues :
      (new : ℕ × ℕ) (redis : Redis) (s : Stored) (user : User)
      → users email ≡ some user
      → user.status ≡ "active"
      → step new redis (consumed s)
        ≡ (store_refresh_token (issued hash user family new.0 new.1) redis, replied new.0)
  unfolding step
  issues new redis s user known active = ground (arith, known, eq_iff user.status "active", active)

  module _ (one two : ℕ × ℕ) where
    move_one :
        (turns : List Bool) (redis after : Redis) (a b next : Phase)
        → step one redis a ≡ (after, next)
        → interleave one two (true ∷ turns) redis a b ≡ interleave one two turns after next b
    unfolding interleave
    move_one turns redis after a b next e = ap (λ r. interleave one two turns r.0 r.1 b) e

    move_two :
        (turns : List Bool) (redis after : Redis) (a b next : Phase)
        → step two redis b ≡ (after, next)
        → interleave one two (false ∷ turns) redis a b ≡ interleave one two turns after a next
    unfolding interleave
    move_two turns redis after a b next e = ap (λ r. interleave one two turns r.0 a r.1) e

  -- The ten commands, one by one.
  both_run :
      (redis : Redis) (s : Stored) (user : User) (one two : ℕ × ℕ)
      → is_revoked family redis.revoked ≡ false
      → get_token jti redis ≡ some s
      → s.token_hash ≡ hash text
      → users email ≡ some user
      → user.status ≡ "active"
      → interleave one two both_read redis started started ≡ (
        store_refresh_token (issued hash user family two.0 two.1) (
            store_refresh_token
              (issued hash user family one.0 one.1)
              (del_token jti (del_token jti redis))),
        (replied one.0, replied two.0),
      )
  unfolding interleave
  both_run redis s user one two good is same known active =
      let gone = del_token jti redis in
      let twice = del_token jti gone in
      let issued_one = store_refresh_token (issued hash user family one.0 one.1) twice in
      let issued_two = store_refresh_token (issued hash user family two.0 two.1) issued_one in
      move_one one two (true ∷ true ∷ false ∷ false ∷ false ∷ true ∷ false ∷ true ∷ false ∷ [])
        redis redis started started not_revoked (starts one redis good)
      ∙ (move_one one two (true ∷ false ∷ false ∷ false ∷ true ∷ false ∷ true ∷ false ∷ []) redis
            redis not_revoked started hash_valid (checks one redis s is same)
          ∙ (move_one one two (false ∷ false ∷ false ∷ true ∷ false ∷ true ∷ false ∷ []) redis redis
                hash_valid started (got s) (reads one redis s is)
              ∙ (move_two one two (false ∷ false ∷ true ∷ false ∷ true ∷ false ∷ []) redis redis
                    (got s) started not_revoked (starts two redis good)
                  ∙ (move_two one two (false ∷ true ∷ false ∷ true ∷ false ∷ []) redis redis (got s)
                        not_revoked hash_valid (checks two redis s is same)
                      ∙ (move_two one two (true ∷ false ∷ true ∷ false ∷ []) redis redis (got s)
                            hash_valid (got s) (reads two redis s is)
                          ∙ (move_one one two (false ∷ true ∷ false ∷ []) redis gone (got s) (got s)
                                (consumed s) (deletes one redis s)
                              ∙ (move_two one two (true ∷ false ∷ []) gone twice (consumed s)
                                    (got s) (consumed s) (deletes two gone s)
                                  ∙ (move_one one two (false ∷ []) twice issued_one (consumed s)
                                        (consumed s) (replied one.0)
                                        (issues one twice s user known active)
                                      ∙ move_two one two [] issued_one issued_two (replied one.0)
                                          (consumed s) (replied two.0)
                                          (issues two issued_one s user known active)))))))))

  -- For an active user and a token whose family is not revoked and whose value is stored with its
  -- hash: if two requests with it, which issue tokens with different jtis, both read the value
  -- before one of them deletes it, the first just before the second, and then both delete it and
  -- both issue, both reply with a new token. Afterwards the two new tokens are stored in the family
  -- with their hashes, and the family is not revoked.
  pub both_consume :
      (redis : Redis) (s : Stored) (user : User) (one two : ℕ × ℕ)
      → is_revoked family redis.revoked ≡ false
      → get_token jti redis ≡ some s
      → s.token_hash ≡ hash text
      → users email ≡ some user
      → user.status ≡ "active"
      → one.0 ≢ two.0
      → let (after, phases) = interleave one two both_read redis started started in
        (phases ≡ (replied one.0, replied two.0))
        × (get_token one.0 after ≡ some (issued hash user family one.0 one.1))
        × (get_token two.0 after ≡ some (issued hash user family two.0 two.1))
        × (is_revoked family after.revoked ≡ false)
  both_consume redis s user one two good is same known active apart =
      let run = both_run redis s user one two good is same known active in
      let left = del_token jti (del_token jti redis) in
      let kept =
        stored_twice (issued hash user family one.0 one.1) (issued hash user family two.0 two.1)
          left apart in
      rw run (refl, kept.0, kept.1, unfold del_token store_refresh_token in good)
