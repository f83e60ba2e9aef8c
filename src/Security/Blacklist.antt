-- ===== src/Security/Blacklist.antt =====
-- backend/src/infrastructure/persistence/in_memory/token_blacklist.py. A set of token ids is a list,
-- in which an id may stand more than once.
use superion.Prelude.{
  String, ◌≡◌, refl, Bool, true, ◌||◌, List, [], ◌∷◌, ◌++◌, arith, string_eq, ◌==◌, any, beq_refl,
}
use superion.Dict.{Dict, get_or, put, pop, get-put_self}

pub record Blacklist : Type 0 where
  pub revoked : List String
  pub refresh_by_user : Dict String (List String)

abbrev pub empty : Blacklist
empty = record { revoked = []; refresh_by_user = [] }

-- `jti in self._revoked`
unfoldable pub is_revoked : Blacklist → String → Bool
is_revoked b jti = any (λ x. x == jti) b.revoked

-- The refresh tokens that are registered for a user
abbrev pub registered : Blacklist → String → List String
registered b user_id = get_or b.refresh_by_user user_id []

unfoldable pub register_refresh : Blacklist → String → String → Blacklist
register_refresh b user_id jti = record b {
  refresh_by_user = put b.refresh_by_user user_id (jti ∷ registered b user_id);
}

unfoldable pub revoke : Blacklist → String → Blacklist
revoke b jti = record b { revoked = jti ∷ b.revoked }

unfoldable pub revoke_all_for_user : Blacklist → String → Blacklist
revoke_all_for_user b user_id = record {
  revoked = registered b user_id ++ b.revoked;
  refresh_by_user = pop b.refresh_by_user user_id;
}

any-append : (f : String → Bool) (xs ys : List String) → any f (xs ++ ys) ≡ (any f xs || any f ys)
any-append f [] ys = refl
any-append f (x ∷ xs) ys = ground (arith, any-append f xs ys)

-- The id is among those registered for the user.
abbrev pub is_registered : Blacklist → String → String → Bool
is_registered b user_id jti = any (λ x. x == jti) (registered b user_id)

module _ (b : Blacklist) (jti : String) where
  pub is_revoked-revoke :
      (k : String) → is_revoked b jti ≡ true → is_revoked (revoke b k) jti ≡ true
  unfolding is_revoked revoke
  is_revoked-revoke k h = ground arith

  pub is_revoked-revoke_self : is_revoked (revoke b jti) jti ≡ true
  unfolding is_revoked revoke
  is_revoked-revoke_self = ground (arith, beq_refl jti)

  pub is_revoked-register_refresh :
      (user_id k : String)
      → is_revoked b jti ≡ true
      → is_revoked (register_refresh b user_id k) jti ≡ true
  unfolding is_revoked register_refresh
  is_revoked-register_refresh user_id k h = h

  pub is_revoked-revoke_all :
      (user_id : String)
      → is_revoked b jti ≡ true
      → is_revoked (revoke_all_for_user b user_id) jti ≡ true
  unfolding is_revoked revoke_all_for_user
  is_revoked-revoke_all user_id h =
      ground (arith, any-append (λ x. x == jti) (registered b user_id) b.revoked)

  pub is_revoked-revoke_all_self :
      (user_id : String)
      → is_registered b user_id jti ≡ true
      → is_revoked (revoke_all_for_user b user_id) jti ≡ true
  unfolding is_revoked revoke_all_for_user
  is_revoked-revoke_all_self user_id h =
      ground (arith, any-append (λ x. x == jti) (registered b user_id) b.revoked)

  pub is_registered-register_refresh :
      (user_id : String) → is_registered (register_refresh b user_id jti) user_id jti ≡ true
  unfolding register_refresh
  is_registered-register_refresh user_id =
      ground
        (arith, get-put_self b.refresh_by_user user_id (jti ∷ registered b user_id), beq_refl jti)
