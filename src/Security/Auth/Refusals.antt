-- ===== src/Security/Auth/Refusals.antt =====
-- What a used refresh token and a logged-out access token are still good for: nothing.
use mathlib.Core.Path.{subst}
use superion.Prelude.{
  ℕ, ◌+◌, String, ◌≡◌, ◌∙◌, sym, refl, Bool, true, Option, none, some, List, [], ◌∷◌, arith,
  string_eq, ◌==◌, leb, Bool-cases, inl, inr, ◌⊎◌,
}
use superion.Effect.{unauthorized, Error, domain_error, Result, ok, err, ◌>>=◌}
use superion.Effect.Rules.{
  Ensures, Ensures-bind, Ensures-pure, Ensures-raise, Ensures-gets, Ensures-if, Ensures-raise_if,
  Ensures-weaken, Ensures-given, state_of_outcome, ok_of_outcome,
}
use superion.Domain.User.{User}
use superion.World.{World, now}
use superion.Security.Blacklist.{
  Blacklist, is_revoked, revoke, revoke_all_for_user, is_registered, is_revoked-revoke_self,
  is_revoked-revoke_all, is_revoked-revoke_all_self,
}
use superion.Security.Tokens.{JwtTokenService, Claims, Decoded, check_decoded}
use superion.Security.Auth.{
  LoginOutput, change_blacklist, require_claims, require_user, login, refresh, logout,
  get_current_user, not_authorized,
}
use superion.Security.Auth.Revocation.{
  IsRevoked, issue-Keeps, audit_logout-Keeps, check_decoded-Keeps, login-Keeps, refresh-Keeps,
  logout-Keeps,
}

-- A request to the authentication API
pub data Call : Type 0 where
  login_with : String → String → Call
  refresh_with logout_with : String → Call

module _ (tokens : JwtTokenService) (verify : String → String → Bool) (expires_in : ℕ) where
  -- The world behind one request, whether it succeeds or raises, and behind several
  abbrev pub answer : Call → World → World
  answer (Call.login_with email password) w = (login tokens verify expires_in email password w).1
  answer (Call.refresh_with token) w = (refresh tokens verify expires_in token w).1
  answer (Call.logout_with token) w = (logout tokens verify expires_in token w).1

  abbrev pub answer_all : List Call → World → World
  answer_all [] w = w
  answer_all (call ∷ calls) w = answer_all calls (answer call w)

  answer-IsRevoked :
      (jti : String) (call : Call) (w : World) → IsRevoked jti w → IsRevoked jti (answer call w)
  answer-IsRevoked jti (Call.login_with email password) w h =
      state_of_outcome (IsRevoked jti) (login tokens verify expires_in email password w).0 _
        ((login-Keeps jti tokens verify expires_in email password).at w h)
  answer-IsRevoked jti (Call.refresh_with token) w h =
      state_of_outcome (IsRevoked jti) (refresh tokens verify expires_in token w).0 _
        ((refresh-Keeps jti tokens verify expires_in token).at w h)
  answer-IsRevoked jti (Call.logout_with token) w h =
      state_of_outcome (IsRevoked jti) (logout tokens verify expires_in token w).0 _
        ((logout-Keeps jti tokens verify expires_in token).at w h)

  answer_all-IsRevoked :
      (jti : String) (calls : List Call) (w : World)
      → IsRevoked jti w
      → IsRevoked jti (answer_all calls w)
  answer_all-IsRevoked jti [] w h = h
  answer_all-IsRevoked jti (call ∷ calls) w h =
      answer_all-IsRevoked jti calls (answer call w) (answer-IsRevoked jti call w h)

  -- The call answers 401.
  abbrev pub IsRefused : {A : Type 0} → Result A → Type 0
  IsRefused r = (code : String) × (r ≡ err (domain_error unauthorized code))

  refresh-IsRefused :
      (token : String) (c : Claims) (w : World)
      → tokens.jwt_decode token ≡ Decoded.valid c
      → IsRevoked c.jti w
      → IsRefused (refresh tokens verify expires_in token w).0
  unfolding refresh check_decoded require_claims now ◌>>=◌
  refresh-IsRefused token c w d h = elim (Bool-cases (c.token_type == "refresh")) [
    | inr wrong ↦ ("UNAUTHORIZED", rw (d, wrong) refl)
    | inl right ↦ elim (Bool-cases (leb c.exp (w.clock w.ticks))) [
      | inl late ↦ ("TOKEN_EXPIRED", rw (d, right, late) refl)
      | inr early ↦ ("UNAUTHORIZED", rw (d, right, early, h) refl)
    ]
  ]

  access-IsRefused :
      (token : String) (c : Claims) (w : World)
      → tokens.jwt_decode token ≡ Decoded.valid c
      → IsRevoked c.jti w
      → IsRefused (get_current_user tokens verify expires_in token w).0
  unfolding get_current_user check_decoded require_claims now ◌>>=◌
  access-IsRefused token c w d h = elim (Bool-cases (c.token_type == "access")) [
    | inr wrong ↦ ("UNAUTHORIZED", rw (d, wrong) refl)
    | inl right ↦ elim (Bool-cases (leb c.exp (w.clock w.ticks))) [
      | inl late ↦ ("TOKEN_EXPIRED", rw (d, right, late) refl)
      | inr early ↦ ("UNAUTHORIZED", rw (d, right, early, h) refl)
    ]
  ]

  -- The payload that passed the checks, if there is one, is `d`.
  abbrev Checked : (World → Type 0) → Decoded → Decoded → World → Type 0
  Checked P d r w = P w × ((c : Claims) → r ≡ Decoded.valid c → d ≡ Decoded.valid c)

  module _ (P E : World → Type 0) where
    check_decoded-Checked :
        (type : String) (d : Decoded)
        → ((w : World) (ticks : ℕ) → P w → P (record w { ticks = ticks }))
        → Ensures P (check_decoded tokens type d) (Checked P d) E
    unfolding check_decoded now ◌>>=◌
    check_decoded-Checked type Decoded.expired k = record { at = λ w p. (p, λ c e. e) }
    check_decoded-Checked type Decoded.invalid k = record { at = λ w p. (p, λ c e. e) }
    check_decoded-Checked type (Decoded.valid claims) k =
        Ensures-if (claims.token_type == type) _ _
          (λ _. record { at = λ w p. (k w (w.ticks + 1) p, λ c e. ground arith) })
          (λ _. record { at = λ w p. (p, λ c e. cc) })

    require_claims-Checked :
        (d r : Decoded)
        → ((w : World) → P w → E w)
        → Ensures (Checked P d r) (require_claims r) (λ c w. P w × (d ≡ Decoded.valid c)) E
    unfolding require_claims
    require_claims-Checked d Decoded.expired e = Ensures-raise _ (λ w p. e w p.0)
    require_claims-Checked d Decoded.invalid e = Ensures-raise _ (λ w p. e w p.0)
    require_claims-Checked d (Decoded.valid c) e = Ensures-pure c (λ w p. (p.0, p.1 c refl))

  abbrev Any : World → Type 0
  Any w = Unit

  require_user-Any : (e : Error) (o : Option User) → Ensures Any (require_user e o) (λ _. Any) Any
  unfolding require_user
  require_user-Any e none = Ensures-raise e (λ w p. p)
  require_user-Any e (some user) =
      Ensures-if user.is_blocked _ _ (λ _. Ensures-raise e (λ w p. p))
        (λ _. Ensures-pure user (λ w p. p))

  change_at :
      (f : Blacklist → Blacklist) (P Q : World → Type 0)
      → ((w : World) → P w → Q (record w { blacklist = f w.blacklist }))
      → Ensures P (change_blacklist f) (λ _. Q) Any
  unfolding ◌>>=◌
  change_at f P Q h = record { at = h }

  refresh-IsUsed :
      (token : String)
      → Ensures Any
          (refresh tokens verify expires_in token)
          (λ _ v. (c : Claims) × (tokens.jwt_decode token ≡ Decoded.valid c) × IsRevoked c.jti v)
          Any
  unfolding refresh
  refresh-IsUsed token =
      Ensures-bind (Checked Any (tokens.jwt_decode token)) _ _
        (check_decoded-Checked Any Any "refresh" (tokens.jwt_decode token) (λ w ticks p. p))
        λ r.
          Ensures-bind (λ c w. Any w × (tokens.jwt_decode token ≡ Decoded.valid c)) _ _
            (require_claims-Checked Any Any (tokens.jwt_decode token) r (λ w p. p))
            λ c. Ensures-given λ decoded.
              Ensures-bind (λ _. Any) _ _ (Ensures-gets _ (λ w p. p))
                λ revoked.
                  Ensures-bind (λ _. Any) _ _
                    (Ensures-raise_if revoked not_authorized (λ w e p. p) (λ w p. p))
                    λ _.
                      Ensures-bind (λ _. Any) _ _ (Ensures-gets _ (λ w p. p))
                        λ found.
                          Ensures-bind (λ _. Any) _ _ (require_user-Any not_authorized found)
                            λ user.
                              Ensures-bind (λ _. IsRevoked c.jti) _ _
                                (change_at _ Any (IsRevoked c.jti)
                                  (λ w p. is_revoked-revoke_self w.blacklist c.jti))
                                λ _.
                                  Ensures-weaken (λ _ w p. (c, decoded, p)) (λ w p. tt)
                                    (issue-Keeps c.jti tokens verify expires_in user)

  -- The token id is that of the payload, or registered for its user.
  abbrev Affects : Claims → String → World → Type 0
  Affects c jti w = (c.jti ≡ jti) ⊎ (is_registered w.blacklist c.sub jti ≡ true)

  -- In the middle of a logout
  abbrev Half : Claims → String → World → Type 0
  Half c jti w = IsRevoked jti w ⊎ (is_registered w.blacklist c.sub jti ≡ true)

  half :
      (c : Claims) (jti : String)
      → Ensures (Affects c jti) (change_blacklist (λ b. revoke b c.jti)) (λ _. Half c jti) Any
  unfolding revoke
  half c jti = change_at _ _ _ (λ w. elim [
    | inl same ↦ inl (
        subst (λ k. is_revoked (revoke w.blacklist c.jti) k ≡ true) same
          (is_revoked-revoke_self w.blacklist c.jti))
    | inr there ↦ inr there
  ])

  whole :
      (c : Claims) (jti : String)
      → Ensures
          (Half c jti)
          (change_blacklist (λ b. revoke_all_for_user b c.sub))
          (λ _. IsRevoked jti)
          Any
  whole c jti = change_at _ _ _ (λ w. elim [
    | inl done ↦ is_revoked-revoke_all w.blacklist jti c.sub done
    | inr there ↦ is_revoked-revoke_all_self w.blacklist jti c.sub there
  ])

  logout-IsRevoked :
      (token : String) (c : Claims) (jti : String)
      → tokens.jwt_decode token ≡ Decoded.valid c
      → Ensures (Affects c jti) (logout tokens verify expires_in token) (λ _. IsRevoked jti) Any
  unfolding logout
  logout-IsRevoked token c jti d =
      Ensures-bind (Checked (Affects c jti) (tokens.jwt_decode token)) _ _
        (check_decoded-Checked (Affects c jti) Any "access" (tokens.jwt_decode token)
          (λ w ticks p. p))
        λ r.
          Ensures-bind (λ k w. Affects c jti w × (tokens.jwt_decode token ≡ Decoded.valid k)) _ _
            (require_claims-Checked (Affects c jti) Any (tokens.jwt_decode token) r (λ w p. tt))
            λ k. Ensures-given λ decoded.
              Ensures-bind (λ _. Half c jti) _ _
                (subst
                  (λ (x : Claims).
                    Ensures (Affects c jti) (change_blacklist (λ b. revoke b x.jti))
                      (λ _. Half c jti) Any)
                  (same_claims c k (sym d ∙ decoded)) (half c jti))
                λ _.
                  Ensures-bind (λ _. IsRevoked jti) _ _
                    (subst
                      (λ (x : Claims).
                        Ensures (Half c jti) (change_blacklist (λ b. revoke_all_for_user b x.sub))
                          (λ _. IsRevoked jti) Any)
                      (same_claims c k (sym d ∙ decoded)) (whole c jti))
                    λ _.
                      Ensures-weaken (λ _ w p. p) (λ w p. tt)
                        (Ensures-bind (λ _. IsRevoked jti) _ _
                          (check_decoded-Keeps jti tokens "access" (tokens.jwt_decode token))
                          (audit_logout-Keeps jti tokens verify expires_in))
    where
      same_claims : (x y : Claims) → Decoded.valid x ≡ Decoded.valid y → x ≡ y
      same_claims x y e = cc

  -- A refresh token works once: when a refresh with it has succeeded, every later one with it
  -- answers 401, whatever logins, refreshes and logouts come between.
  pub refresh_once :
      (token : String) (w : World) (out : LoginOutput)
      → (refresh tokens verify expires_in token w).0 ≡ ok out
      → (calls : List Call)
      → IsRefused
          (refresh tokens verify expires_in token
            (answer_all calls (refresh tokens verify expires_in token w).1)).0
  refresh_once token w out h calls =
      let v = (refresh tokens verify expires_in token w).1 in
      let (c, d, r) =
        ok_of_outcome
          (λ _ u. (c : Claims) × (tokens.jwt_decode token ≡ Decoded.valid c) × IsRevoked c.jti u)
          Any out (refresh tokens verify expires_in token w).0 v ((refresh-IsUsed token).at w tt)
          h in
      refresh-IsRefused token c (answer_all calls v) d (answer_all-IsRevoked c.jti calls v r)

  -- When a logout has succeeded, and whatever requests come behind it: its access token is refused,
  -- and so is every refresh token that was registered for the user when the user logged out.
  pub logout_ends_session :
      (token : String) (c : Claims) (w : World)
      → tokens.jwt_decode token ≡ Decoded.valid c
      → (logout tokens verify expires_in token w).0 ≡ ok tt
      → (calls : List Call)
      → let v = answer_all calls (logout tokens verify expires_in token w).1 in
        IsRefused (get_current_user tokens verify expires_in token v).0
        × ((other : String) (k : Claims)
            → tokens.jwt_decode other ≡ Decoded.valid k
            → is_registered w.blacklist c.sub k.jti ≡ true
            → IsRefused (refresh tokens verify expires_in other v).0)
  logout_ends_session token c w d h calls = (
    access-IsRefused token c _ d (revoked c.jti (inl refl)),
    λ other k e r. refresh-IsRefused other k _ e (revoked k.jti (inr r)),
  )
    where
      revoked :
          (jti : String)
          → Affects c jti w
          → IsRevoked jti (answer_all calls (logout tokens verify expires_in token w).1)
      revoked jti a = answer_all-IsRevoked jti calls _ (
          ok_of_outcome (λ _. IsRevoked jti) Any tt (logout tokens verify expires_in token w).0
            (logout tokens verify expires_in token w).1 ((logout-IsRevoked token c jti d).at w a) h)
