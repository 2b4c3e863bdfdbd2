-- ===== src/RateLimit/Bound.antt =====
-- How many buckets the table keeps.
use goplusplus.Prelude.{◌≡◌, ◌≤◌, ◌<◌, String, true, length}
use goplusplus.Prelude.Map.{Map, lookup}
use goplusplus.Prelude.Ordered.{is_some}
use goplusplus.RateLimit.{ClientBucket, RateLimiter}

module _ {Amount : Type 0} where
  pub record IsBounded (r : RateLimiter Amount) : Type 0 where
    pub within : length r.buckets ≤ r.max_clients
    pub positive : 0 < r.max_clients

  abbrev Holds : Map (ClientBucket Amount) → String → Type 0
  Holds m ip = is_some (lookup m ip) ≡ true
