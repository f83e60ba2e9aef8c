-- ===== src/Security/Auth.antt =====
-- backend/src/application/use_cases/auth: login, refresh, logout and me; and `get_current_user` of
-- backend/src/interface/http/deps/auth.py behind the reading of the header.
pub mod Revocation
pub mod Refusals
use superion.Prelude.{
  ℕ, String, Bool, true, false, not, ◌||◌, Option, none, some, List, [], ◌∷◌, string_eq,
  if◌then◌else◌,
}
use superion.Effect.{
  unauthorized, not_found, Error, domain_error, Exec, pure, raise, lift, gets, or_raise, raise_if,
  modify, ◌>>=◌, ◌>>◌,
}
use superion.Dict.{get}
use superion.Value.{Value}
use superion.Domain.User.{User, Role}
use superion.World.{World}
use superion.Audit.{AuditAction}
use superion.Audit.Log.{audited, log_entry}
use superion.Security.Blacklist.{
  Blacklist, is_revoked, revoke, revoke_all_for_user, register_refresh,
}
use superion.Security.Tokens.{
  JwtTokenService, Claims, Decoded, Token, create_access_token, create_refresh_token,
  decode_access_token, decode_refresh_token,
}

pub record UserOutput : Type 0 where
  pub id : String
  pub email : String
  pub full_name : String
  pub role : Role
  pub plant_id : String

pub record LoginOutput : Type 0 where
  pub access_token : String
  pub refresh_token : String
  pub expires_in : ℕ
  pub user : UserOutput

abbrev pub user_output : User → UserOutput
user_output user = record {
  id = user.id;
  email = user.email;
  full_name = user.full_name;
  role = user.role;
  plant_id = user.plant_id;
}

abbrev pub invalid_credentials : Error
invalid_credentials = domain_error unauthorized "INVALID_CREDENTIALS"

abbrev pub token_expired : Error
token_expired = domain_error unauthorized "TOKEN_EXPIRED"

abbrev pub not_authorized : Error
not_authorized = domain_error unauthorized "UNAUTHORIZED"

-- `except TokenExpiredError` and `except InvalidTokenError`
unfoldable pub require_claims : Decoded → Exec World Claims
require_claims (Decoded.valid claims) = pure claims
require_claims Decoded.expired = raise token_expired
require_claims Decoded.invalid = raise not_authorized

-- `if user is None or user.is_blocked: raise`
unfoldable pub require_user : Error → Option User → Exec World User
require_user e none = raise e
require_user e (some user) = if user.is_blocked then raise e else pure user

abbrev pub change_blacklist : (Blacklist → Blacklist) → Exec World (Unit {0})
change_blacklist f = modify (λ w. record w { blacklist = f w.blacklist })

-- `verify` is the password hasher's, `expires_in` the configured lifetime of access tokens.
module _ (tokens : JwtTokenService) (verify : String → String → Bool) (expires_in : ℕ) where
  -- Both tokens, with the refresh token registered
  unfoldable pub issue : User → Exec World LoginOutput
  issue user = do
    access ← create_access_token tokens user
    refresh ← create_refresh_token tokens user
    change_blacklist (λ b. register_refresh b user.id refresh.jti)
    pure (record {
      access_token = access.value;
      refresh_token = refresh.value;
      expires_in = expires_in;
      user = user_output user;
    })

  -- `LoginUseCase.execute`
  unfoldable pub login : String → String → Exec World LoginOutput
  login email password =
      audited AuditAction.login "user" (λ out. out.user.id) (λ out. out.user.id)
        (λ out. ("email", Value.text out.user.email) ∷ [])
        (do
          found ← gets (λ w. get w.users_by_email email)
          user ← require_user invalid_credentials found
          raise_if (not (verify password user.password_hash)) invalid_credentials
          issue user)

  -- `RefreshUseCase.execute`
  unfoldable pub refresh : String → Exec World LoginOutput
  refresh refresh_token = do
    decoded ← decode_refresh_token tokens refresh_token
    claims ← require_claims decoded
    revoked ← gets (λ w. is_revoked w.blacklist claims.jti)
    raise_if revoked not_authorized
    found ← gets (λ w. get w.users claims.sub)
    user ← require_user not_authorized found
    change_blacklist (λ b. revoke b claims.jti)
    issue user

  -- The audit entry of a logout: the decorator decodes the token again.
  unfoldable pub audit_logout : Decoded → Exec World (Unit {0})
  audit_logout (Decoded.valid claims) =
      log_entry claims.sub AuditAction.logout "user" claims.sub [] >>= λ _. pure tt
  audit_logout Decoded.expired = pure tt
  audit_logout Decoded.invalid = pure tt

  -- `LogoutUseCase.execute`
  unfoldable pub logout : String → Exec World (Unit {0})
  logout access_token = do
    decoded ← decode_access_token tokens access_token
    claims ← require_claims decoded
    change_blacklist (λ b. revoke b claims.jti)
    change_blacklist (λ b. revoke_all_for_user b claims.sub)
    again ← decode_access_token tokens access_token
    audit_logout again

  -- `get_current_user`, for the token of the header
  unfoldable pub get_current_user : String → Exec World User
  get_current_user token = do
    decoded ← decode_access_token tokens token
    claims ← require_claims decoded
    revoked ← gets (λ w. is_revoked w.blacklist claims.jti)
    raise_if revoked not_authorized
    found ← gets (λ w. get w.users claims.sub)
    require_user not_authorized found

-- `GetMeUseCase.execute`
unfoldable pub get_me : String → Exec World UserOutput
get_me user_id = do
  found ← gets (λ w. get w.users user_id)
  user ← or_raise found (domain_error not_found "NOT_FOUND")
  pure (user_output user)
