-- ===== src/Security/Tokens.antt =====
-- backend/src/domain/services/token_service.py. The JWT library signs and reads tokens; a time is a
-- number of seconds.
use superion.Prelude.{ℕ, ◌+◌, String, string_eq, ◌==◌, leb, if◌then◌else◌}
use superion.Effect.{Exec, pure, ◌>>=◌}
use superion.Domain.User.{User, Role}
use superion.World.{World, uuid4, now}

pub record Claims : Type 0 where
  pub sub : String
  pub email : String
  pub role : Role
  pub plant_id : String
  pub token_type : String
  pub iat : ℕ
  pub exp : ℕ
  pub jti : String

-- A payload, or `TokenExpiredError`, or `InvalidTokenError`
pub data Decoded : Type 0 where
  valid : Claims → Decoded
  expired invalid : Decoded

-- `jwt.encode` and `jwt.decode` with the secret, the algorithm and the options of the service
pub record JwtTokenService : Type 0 where
  pub jwt_encode : Claims → String
  pub jwt_decode : String → Decoded
  pub access_ttl_seconds : ℕ
  pub refresh_ttl_seconds : ℕ

pub record Token : Type 0 where
  pub value : String
  pub exp : ℕ
  pub jti : String

module _ (tokens : JwtTokenService) where
  -- `_create_token`
  unfoldable pub create_token : User → String → ℕ → Exec World Token
  create_token user token_type ttl_seconds = do
    issued_at ← now
    jti ← uuid4
    pure (record {
      value = tokens.jwt_encode (record {
        sub = user.id;
        email = user.email;
        role = user.role;
        plant_id = user.plant_id;
        token_type = token_type;
        iat = issued_at;
        exp = issued_at + ttl_seconds;
        jti = jti;
      });
      exp = issued_at + ttl_seconds;
      jti = jti;
    })

  abbrev pub create_access_token : User → Exec World Token
  create_access_token user = create_token user "access" tokens.access_ttl_seconds

  abbrev pub create_refresh_token : User → Exec World Token
  create_refresh_token user = create_token user "refresh" tokens.refresh_ttl_seconds

  -- The checks of `_decode` behind `jwt.decode`; the clock is read only for a token of the right type.
  unfoldable pub check_decoded : String → Decoded → Exec World Decoded
  check_decoded expected_type Decoded.expired = pure Decoded.expired
  check_decoded expected_type Decoded.invalid = pure Decoded.invalid
  check_decoded expected_type (Decoded.valid claims) =
      if claims.token_type == expected_type
      then (now >>= λ now_ts.
          pure (if leb claims.exp now_ts then Decoded.expired else Decoded.valid claims))
      else pure Decoded.invalid

  abbrev pub decode_access_token : String → Exec World Decoded
  decode_access_token token = check_decoded "access" (tokens.jwt_decode token)

  abbrev pub decode_refresh_token : String → Exec World Decoded
  decode_refresh_token token = check_decoded "refresh" (tokens.jwt_decode token)
