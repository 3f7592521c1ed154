-- ===== src/Auth/Tests.antt =====
-- The refresh tokens at concrete inputs.
use cerniq_app_v.Prelude.{
  ℕ, ◌+◌, ◌≡◌, ◌≢◌, ◌≢◌, refl, List, [], ◌∷◌, true, false, Option, some, String, arith,
}
use cerniq_app_v.Auth.Tokens.{
  Stored, Redis, User, refreshed, refresh_invalidated, family_revoked, refresh, refresh_verified,
  consume_refresh_token, verify_refresh_token_hash, is_revoked, logout, revoke_refresh_family,
  get_token, issued,
}
use cerniq_app_v.Auth.Tokens.Rotation.{
  token_of, Request, login, refreshing, run_requests, revoked_forever,
}
use cerniq_app_v.Auth.Tokens.Reuse.{refresh-replay, refresh-rotated}
use cerniq_app_v.Auth.Tokens.Race.{interleave, both_read, started, replied, both_consume}

abbrev hash : ℕ → ℕ
hash text = text + 1000

abbrev users : String → Option User
users email = some (record { id = 4; tenant_id = 1; status = "active" })

abbrev first : Stored
first = record { jti = 10; family_id = 70; user_id = 4; tenant_id = 1; token_hash = 1500 }

abbrev session : Redis
session = record { tokens = first ∷ []; revoked = [] }

refreshed-is :
    (refresh hash users 11 501 (some (token_of "a@b.ro" 10 70 500)) session).1 ≡ refreshed 11 70 501
unfolding refresh refresh_verified is_revoked verify_refresh_token_hash consume_refresh_token
refreshed-is = refl

abbrev old_jti : ℕ
old_jti = 10

new-jti : old_jti ≢ 11
new-jti h = absurd (omega arith)

refresh-replay_example :
    let after = (refresh hash users 11 501 (some (token_of "a@b.ro" 10 70 500)) session).0 in
    let replay = refresh hash users 12 502 (some (token_of "a@b.ro" 10 70 500)) after in
    (replay.1 ≡ refresh_invalidated) × (is_revoked 70 replay.0.revoked ≡ true)
refresh-replay_example =
    refresh-replay hash users 11 501 "a@b.ro" 10 70 500 11 70 501 session users 12 502 new-jti
      refreshed-is

refresh-rotated_example :
    let after = (refresh hash users 11 501 (some (token_of "a@b.ro" 10 70 500)) session).0 in
    (refresh hash users 12 502 (some (token_of "a@b.ro" 11 70 501)) after).1 ≡ refreshed 12 70 502
refresh-rotated_example =
    refresh-rotated hash users 11 501 "a@b.ro" 10 70 500 11 70 501 session 12 502 refreshed-is

abbrev logged_out : Redis
logged_out = logout (some (token_of "a@b.ro" 10 70 500)) session

is-revoked : is_revoked 70 logged_out.revoked ≡ true
unfolding logout is_revoked consume_refresh_token revoke_refresh_family
is-revoked = refl

abbrev requests : List Request
requests =
    login (record { id = 4; tenant_id = 1; status = "active" }) 71 20 600
    ∷ refreshing users 21 601 (some (token_of "a@b.ro" 20 71 600))
    ∷ []

revoked_forever_example :
    refresh hash users 30 700
      (some (token_of "a@b.ro" 10 70 500))
      (run_requests hash requests logged_out)
    ≡ (run_requests hash requests logged_out, family_revoked)
revoked_forever_example =
    revoked_forever hash requests users 30 700 "a@b.ro" 10 70 500 logged_out is-revoked

not-revoked : is_revoked 70 session.revoked ≡ false
unfolding is_revoked
not-revoked = refl

abbrev active_user : User
active_user = record { id = 4; tenant_id = 1; status = "active" }

abbrev eleven : ℕ
eleven = 11

eleven-twelve : eleven ≢ 12
eleven-twelve h = omega arith

both_consume_example :
    let (after, phases) =
      interleave hash users "a@b.ro" 10 70 500
        (11, 501)
        (12, 502)
        (both_read hash users "a@b.ro" 10 70 500)
        session
        started
        started in
    (phases ≡ (replied 11, replied 12))
    × (get_token 11 after ≡ some (issued hash active_user 70 11 501))
    × (get_token 12 after ≡ some (issued hash active_user 70 12 502))
    × (is_revoked 70 after.revoked ≡ false)
both_consume_example =
    both_consume hash users "a@b.ro" 10 70 500 session first active_user (11, 501) (12, 502)
      not-revoked refl refl refl refl eleven-twelve
