-- ===== src/Resilience/Limiter.antt =====
-- resilience/resilience.go, AdaptiveLimiter. `Middleware` adds one to the shared count, compares what
-- the atomic addition returned, and takes the one off again on return, whichever way it went.
mod Tests
use goplusplus.Prelude.{
  ℕ, suc, ◌+◌, ◌-◌, ◌≤◌, ◌<◌, ◌≡◌, refl, Bool, true, false, arith, if◌then◌else◌, ltb,
}
use goplusplus.Prelude.Int.{ℤ, positive_or}

pub record AdaptiveLimiter : Type 0 where
  pub active_requests : ℕ
  pub max_limit : ℕ

unfoldable pub new_adaptive_limiter : ℤ → AdaptiveLimiter
new_adaptive_limiter max_limit = record {
  active_requests = 0;
  max_limit = positive_or max_limit 1000;
}

-- current := atomic.AddInt64(&al.activeRequests, 1), and whether the handler is called.
unfoldable pub begin_request : AdaptiveLimiter → AdaptiveLimiter × Bool
begin_request al =
    let current = al.active_requests + 1 in
    (record al { active_requests = current }, if ltb al.max_limit current then false else true)

-- The deferred atomic.AddInt64(&al.activeRequests, -1).
unfoldable pub end_request : AdaptiveLimiter → AdaptiveLimiter
end_request al = record al { active_requests = al.active_requests - 1 }

-- The limiter with its callers: those inside the handler, and those turned away that have not yet
-- taken their one off.
pub record System : Type 0 where
  pub limiter : AdaptiveLimiter
  pub running : ℕ
  pub refused : ℕ

pub data Move : System → System → Type 0 where
  start :
      (s : System)
      → (begin_request s.limiter).1 ≡ true
      → Move s (record s { limiter = (begin_request s.limiter).0; running = s.running + 1 })
  refuse :
      (s : System)
      → (begin_request s.limiter).1 ≡ false
      → Move s (record s { limiter = (begin_request s.limiter).0; refused = s.refused + 1 })
  finish :
      (s : System)
      → 0 < s.running
      → Move s (record s { limiter = end_request s.limiter; running = s.running - 1 })
  give_up :
      (s : System)
      → 0 < s.refused
      → Move s (record s { limiter = end_request s.limiter; refused = s.refused - 1 })

pub data Reach (s : System) : System → Type 0 where
  here : Reach s s
  after : {t u : System} → Reach s t → Move t u → Reach s u

pub record IsBounded (most : ℕ) (s : System) : Type 0 where
  pub limit : s.limiter.max_limit ≡ most
  pub counted : s.limiter.active_requests ≡ s.running + s.refused
  pub within : s.running ≤ most

Move-IsBounded : (most : ℕ) {s t : System} → Move s t → IsBounded most s → IsBounded most t
unfolding begin_request end_request
Move-IsBounded most (start s h) v = ground arith
Move-IsBounded most (refuse s h) v = ground arith
Move-IsBounded most (finish s h) v = ground arith
Move-IsBounded most (give_up s h) v = ground arith

Reach-from : (most : ℕ) {s t : System} → IsBounded most s → Reach s t → IsBounded most t
Reach-from most v here = v
Reach-from most v (after r m) = Move-IsBounded most m (Reach-from most v r)

-- However requests interleave, at most `max_limit` of them are in the handler at a time, 1000 if
-- the limit given is not positive, and the count is exactly that of the requests that have begun
-- and not ended, so that it is zero again when none is left.
pub Reach-IsBounded :
    (max_limit : ℤ) (s : System)
    → Reach (record { limiter = new_adaptive_limiter max_limit; running = 0; refused = 0 }) s
    → IsBounded (positive_or max_limit 1000) s
unfolding new_adaptive_limiter
Reach-IsBounded max_limit s r =
    Reach-from (positive_or max_limit 1000)
      (record { limit = refl; counted = omega arith; within = omega arith }) r
