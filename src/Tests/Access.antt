-- ===== src/Tests/Access.antt =====
-- The theorems on tokens and on the rate limiter, at small inputs.
use superion.Prelude.{◌≤◌, String, ◌≡◌, refl, Bool, true, false, [], ◌∷◌, arith, string_eq, ◌==◌}
use superion.Effect.{◌>>=◌}
use superion.Dict.{get, put}
use superion.Domain.User.{Role}
use superion.World.{World, uuid4, now}
use superion.Audit
use superion.Audit.{make_entry}
use superion.Audit.Log.{log_entry}
use superion.Security.Blacklist.{
  register_refresh, revoke, revoke_all_for_user, is_revoked, is_registered,
}
use superion.Security.Tokens.{JwtTokenService, Claims, Decoded, create_token, check_decoded}
use superion.Security.Auth.{
  LoginOutput, user_output, issue, refresh, logout, require_claims, require_user, audit_logout,
  get_current_user,
}
use superion.Security.Auth.Refusals.{Call, answer_all, IsRefused, refresh_once, logout_ends_session}
use superion.Security.RateLimiter.Window.{count_in, passed, requests_within_limit}
use superion.Tests.Fixtures.{technician, plant}

abbrev claims : String → Claims
claims type = record {
  sub = "tech-1";
  email = "juan@planta.com";
  role = Role.technician;
  plant_id = "plant-1";
  token_type = type;
  iat = 0;
  exp = 100;
  jti = type;
}

-- A library that signs every token as "t", and reads "r" and "a"
abbrev read_token : String → Decoded
read_token s = elim (s == "r") [
  | true ↦ Decoded.valid (claims "refresh")
  | false ↦ elim (s == "a") [ true ↦ Decoded.valid (claims "access") | false ↦ Decoded.invalid ]
]

abbrev library : JwtTokenService
library = record {
  jwt_encode = λ c. "t";
  jwt_decode = read_token;
  access_ttl_seconds = 10;
  refresh_ttl_seconds = 50;
}

abbrev verify : String → String → Bool
verify password hash = true

abbrev fresh_tokens : LoginOutput
fresh_tokens = record {
  access_token = "t";
  refresh_token = "t";
  expires_in = 10;
  user = user_output technician;
}

refresh_once_example :
    IsRefused library verify 10
      (refresh library verify 10 "r" (
        answer_all library verify 10
          (Call.login_with "juan@planta.com" "test1234" ∷ [])
          (refresh library verify 10 "r" plant).1)).0
unfolding refresh check_decoded require_claims is_revoked get require_user revoke issue create_token
    uuid4 now register_refresh put ◌>>=◌
refresh_once_example =
    refresh_once library verify 10 "r" plant fresh_tokens refl
      (Call.login_with "juan@planta.com" "test1234" ∷ [])

-- The plant after a login with the refresh token "refresh"
abbrev logged_in : World
logged_in = record plant {
  blacklist = record { revoked = []; refresh_by_user = ("tech-1", "refresh" ∷ []) ∷ [] };
}

logout_ends_session_example :
    let v = answer_all library verify 10 [] (logout library verify 10 "a" logged_in).1 in
    IsRefused library verify 10 (get_current_user library verify 10 "a" v).0
    × ((other : String) (k : Claims)
        → read_token other ≡ Decoded.valid k
        → is_registered logged_in.blacklist "tech-1" k.jti ≡ true
        → IsRefused library verify 10 (refresh library verify 10 other v).0)
unfolding logout check_decoded require_claims revoke revoke_all_for_user audit_logout log_entry
    make_entry uuid4 now Audit.append Audit.get_by_id get put ◌>>=◌
logout_ends_session_example =
    logout_ends_session library verify 10 "a" (claims "access") logged_in refl refl []

requests_within_limit_example :
    count_in 0 60 (
      passed 2 60 "tech-1"
        (("tech-1", 1) ∷ ("tech-2", 2) ∷ ("tech-1", 3) ∷ ("tech-1", 4) ∷ [])
        []
        [])
    ≤ 2
requests_within_limit_example =
    requests_within_limit 2 60 "tech-1"
      (("tech-1", 1) ∷ ("tech-2", 2) ∷ ("tech-1", 3) ∷ ("tech-1", 4) ∷ []) 0
      (omega arith, (omega arith, (omega arith, (omega arith, tt))))
