-- ===== src/Security/Auth/Revocation.antt =====
-- A token that was used up or logged out is refused from then on, whatever else happens.
use superion.Prelude.{
  ℕ, String, ◌≡◌, ap, ◌∙◌, Bool, true, not, Option, none, some, [], arith, string_eq, ◌==◌,
}
use superion.Effect.{Error, Exec, ◌>>=◌}
use superion.Effect.Rules.{
  Ensures, Ensures-bind, Ensures-pure, Ensures-raise, Ensures-gets, Ensures-if, Ensures-raise_if,
  Outcome-of_state,
}
use superion.Value.{Payload}
use superion.Domain.User.{User}
use superion.World.{World, uuid4, now}
use superion.Audit.{AuditAction, make_entry}
use superion.Audit.Log.{audited, log_entry}
use superion.Security.Blacklist.{
  Blacklist, is_revoked, is_revoked-revoke, is_revoked-register_refresh, is_revoked-revoke_all,
}
use superion.Security.Tokens.{JwtTokenService, Decoded, create_token, check_decoded}
use superion.Security.Auth.{
  change_blacklist, require_claims, require_user, issue, login, refresh, logout, audit_logout,
  not_authorized, invalid_credentials,
}

abbrev pub IsRevoked : String → World → Type 0
IsRevoked jti w = is_revoked w.blacklist jti ≡ true

-- A revoked token stays revoked, whether the action returns or raises.
abbrev pub KeepsRevoked : String → {A : Type 0} → Exec World A → Type 0
KeepsRevoked jti m = Ensures (IsRevoked jti) m (λ _. IsRevoked jti) (IsRevoked jti)

module _ (jti : String) where
  bind-Keeps :
      {A B : Type 0} (m : Exec World A) (f : A → Exec World B)
      → KeepsRevoked jti m
      → ((a : A) → KeepsRevoked jti (f a))
      → KeepsRevoked jti (m >>= f)
  bind-Keeps m f = Ensures-bind (λ _. IsRevoked jti) m f

  create_token-Keeps :
      (tokens : JwtTokenService) (user : User) (type : String) (ttl : ℕ)
      → KeepsRevoked jti (create_token tokens user type ttl)
  unfolding create_token now uuid4 ◌>>=◌
  create_token-Keeps tokens user type ttl = record { at = λ w h. h }

  pub check_decoded-Keeps :
      (tokens : JwtTokenService) (type : String) (d : Decoded)
      → KeepsRevoked jti (check_decoded tokens type d)
  unfolding check_decoded now ◌>>=◌
  check_decoded-Keeps tokens type Decoded.expired = record { at = λ w h. h }
  check_decoded-Keeps tokens type Decoded.invalid = record { at = λ w h. h }
  check_decoded-Keeps tokens type (Decoded.valid claims) =
      Ensures-if (claims.token_type == type) _ _ (λ _. record { at = λ w h. h })
        (λ _. record { at = λ w h. h })

  require_claims-Keeps : (d : Decoded) → KeepsRevoked jti (require_claims d)
  unfolding require_claims ◌>>=◌
  require_claims-Keeps Decoded.expired = record { at = λ w h. h }
  require_claims-Keeps Decoded.invalid = record { at = λ w h. h }
  require_claims-Keeps (Decoded.valid claims) = record { at = λ w h. h }

  require_user-Keeps : (e : Error) (o : Option User) → KeepsRevoked jti (require_user e o)
  unfolding require_user
  require_user-Keeps e none = Ensures-raise e (λ w h. h)
  require_user-Keeps e (some user) =
      Ensures-if user.is_blocked _ _ (λ _. Ensures-raise e (λ w h. h))
        (λ _. Ensures-pure user (λ w h. h))

  change-Keeps :
      (f : Blacklist → Blacklist)
      → ((b : Blacklist) → is_revoked b jti ≡ true → is_revoked (f b) jti ≡ true)
      → KeepsRevoked jti (change_blacklist f)
  unfolding ◌>>=◌
  change-Keeps f k = record { at = λ w h. k w.blacklist h }

  log_entry-blacklist :
      (actor : String) (action : AuditAction) (type target : String) (payload : Payload) (w : World)
      → (log_entry actor action type target payload w).1.blacklist ≡ w.blacklist
  unfolding log_entry uuid4 now make_entry ◌>>=◌
  log_entry-blacklist actor action type target payload w = ground arith

  log_entry-Keeps :
      (actor : String) (action : AuditAction) (type target : String) (payload : Payload)
      → KeepsRevoked jti (log_entry actor action type target payload)
  log_entry-Keeps actor action type target payload = record {
    at = λ w h.
        Outcome-of_state (IsRevoked jti) (log_entry actor action type target payload w).0 _
          (ap (λ b. is_revoked b jti) (log_entry-blacklist actor action type target payload w) ∙ h);
  }

  module _ (tokens : JwtTokenService) (verify : String → String → Bool) (expires_in : ℕ) where
    pub issue-Keeps : (user : User) → KeepsRevoked jti (issue tokens verify expires_in user)
    unfolding issue
    issue-Keeps user = bind-Keeps _ _ (create_token-Keeps tokens user "access" _) λ access.
        bind-Keeps _ _ (create_token-Keeps tokens user "refresh" _) λ refreshed.
          bind-Keeps _ _
            (change-Keeps _ (λ b. is_revoked-register_refresh b jti user.id refreshed.jti))
            λ _. Ensures-pure _ (λ w h. h)

    pub login-Keeps :
        (email password : String) → KeepsRevoked jti (login tokens verify expires_in email password)
    unfolding login audited
    login-Keeps email password =
        bind-Keeps _ _
          (bind-Keeps _ _ (Ensures-gets _ (λ w h. h)) λ found.
            bind-Keeps _ _ (require_user-Keeps invalid_credentials found) λ user.
              bind-Keeps _ _
                (Ensures-raise_if (not (verify password user.password_hash)) invalid_credentials
                  (λ w e h. h) (λ w h. h))
                λ _. issue-Keeps user)
          λ out.
            bind-Keeps _ _ (log_entry-Keeps out.user.id AuditAction.login "user" out.user.id _)
              λ _. Ensures-pure out (λ w h. h)

    pub refresh-Keeps : (token : String) → KeepsRevoked jti (refresh tokens verify expires_in token)
    unfolding refresh
    refresh-Keeps token =
        bind-Keeps _ _ (check_decoded-Keeps tokens "refresh" (tokens.jwt_decode token)) λ d.
          bind-Keeps _ _ (require_claims-Keeps d) λ claims.
            bind-Keeps _ _ (Ensures-gets _ (λ w h. h)) λ revoked.
              bind-Keeps _ _ (Ensures-raise_if revoked not_authorized (λ w e h. h) (λ w h. h)) λ _.
                bind-Keeps _ _ (Ensures-gets _ (λ w h. h)) λ found.
                  bind-Keeps _ _ (require_user-Keeps not_authorized found) λ user.
                    bind-Keeps _ _ (change-Keeps _ (λ b. is_revoked-revoke b jti claims.jti))
                      λ _. issue-Keeps user

    pub audit_logout-Keeps :
        (d : Decoded) → KeepsRevoked jti (audit_logout tokens verify expires_in d)
    unfolding audit_logout
    audit_logout-Keeps Decoded.expired = Ensures-pure tt (λ w h. h)
    audit_logout-Keeps Decoded.invalid = Ensures-pure tt (λ w h. h)
    audit_logout-Keeps (Decoded.valid claims) =
        bind-Keeps _ _ (log_entry-Keeps claims.sub AuditAction.logout "user" claims.sub [])
          λ _. Ensures-pure tt (λ w h. h)

    pub logout-Keeps : (token : String) → KeepsRevoked jti (logout tokens verify expires_in token)
    unfolding logout
    logout-Keeps token =
        bind-Keeps _ _ (check_decoded-Keeps tokens "access" (tokens.jwt_decode token)) λ d.
          bind-Keeps _ _ (require_claims-Keeps d) λ claims.
            bind-Keeps _ _ (change-Keeps _ (λ b. is_revoked-revoke b jti claims.jti)) λ _.
              bind-Keeps _ _ (change-Keeps _ (λ b. is_revoked-revoke_all b jti claims.sub)) λ _.
                bind-Keeps _ _ (check_decoded-Keeps tokens "access" (tokens.jwt_decode token))
                  audit_logout-Keeps
