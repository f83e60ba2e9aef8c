-- ===== src/Security/RateLimiter.antt =====
-- backend/src/infrastructure/security/rate_limiter.py. A time is a number of seconds; `window_start`
-- may be negative, so `t < now - window` is written `t + window < now`.
pub mod Window
use superion.Prelude.{
  ℕ, ◌+◌, String, Bool, Option, none, some, List, [], ◌∷◌, ◌++◌, string_eq, leb, ltb, length,
  if◌then◌else◌,
}
use superion.Effect.{rate_limited, Error, domain_error, Result, ok, err, Exec}
use superion.Dict.{Dict, get_or, get, put}

-- `self._requests`
abbrev pub Requests : Type 0
Requests = Dict String (List ℕ)

abbrev pub limit_exceeded : Error
limit_exceeded = domain_error rate_limited "RATE_LIMITED"

-- `while timestamps and timestamps[0] < window_start: timestamps.popleft()`
pub drop_expired : ℕ → ℕ → List ℕ → List ℕ
drop_expired window now [] = []
drop_expired window now (t ∷ timestamps) =
    let rest = drop_expired window now timestamps in
    if ltb (t + window) now then rest else t ∷ timestamps

-- `check`, at the time `now`. The deque is pruned in place, also when the call raises.
unfoldable pub check : ℕ → ℕ → String → ℕ → Exec Requests (Unit {0})
unfolding drop_expired
check limit window user_id now requests =
    let timestamps = drop_expired window now (get_or requests user_id []) in
    if leb limit (length timestamps)
    then (err limit_exceeded, put requests user_id timestamps)
    else (ok tt, put requests user_id (timestamps ++ now ∷ []))
