-- ===== src/RateLimit.antt =====
-- middleware/ratelimit.go: the table of token buckets. The amounts of tokens are floating-point numbers;
-- their arithmetic is a parameter. A request is given by its client and the clock's reading; the
-- response written on refusal and the parsing of the address are left out.
pub mod Bound
mod Tests
use goplusplus.Prelude.{
  ℕ, String, Bool, true, false, ◌||◌, List, [], ◌∷◌, Option, none, some, if◌then◌else◌, leb, length,
  str_eq,
}
use goplusplus.Prelude.Int.{ℤ, pos, ◌-ℤ◌, ltb_ℤ, leb_ℤ, positive_or}
use goplusplus.Prelude.Map.{Map, lookup, assign, delete}

-- `refilled elapsed tokens` is tokens + elapsed.Seconds() * Rate.
pub record Tokens (Amount : Type 0) : Type 0 where
  pub capacity : Amount
  pub refilled : ℤ → Amount → Amount
  pub exceeds : Amount → Amount → Bool
  pub has_one : Amount → Bool
  pub minus_one : Amount → Amount

pub record ClientBucket (Amount : Type 0) : Type 0 where
  pub tokens : Amount
  pub last_update : ℤ

-- The variables that the middleware closes over.
pub record RateLimiter (Amount : Type 0) : Type 0 where
  pub buckets : Map (ClientBucket Amount)
  pub last_cleanup : ℤ
  pub cleanup_interval : ℕ
  pub max_clients : ℕ

module _ {Amount : Type 0} where
  unfoldable pub new_rate_limiter : ℤ → ℤ → ℤ → RateLimiter Amount
  new_rate_limiter cleanup_interval max_clients now = record {
    buckets = [];
    last_cleanup = now;
    cleanup_interval = positive_or cleanup_interval 300_000_000_000;
    max_clients = positive_or max_clients 100000;
  }

  -- The loop of removeInactiveBuckets over the entries of the map, in the order of the list.
  unfoldable pub remove_inactive_from :
      List (String × ClientBucket Amount)
      → Map (ClientBucket Amount)
      → ℤ
      → ℕ
      → Map (ClientBucket Amount)
  remove_inactive_from [] m now interval = m
  remove_inactive_from ((client_ip, bucket) ∷ entries) m now interval =
      remove_inactive_from entries
        (if ltb_ℤ (pos interval) (now -ℤ bucket.last_update) then delete m client_ip else m) now
        interval

  unfoldable pub remove_inactive_buckets :
      Map (ClientBucket Amount) → ℤ → ℕ → Map (ClientBucket Amount)
  remove_inactive_buckets m now interval = remove_inactive_from m m now interval

  -- The loop of removeOldestBucket, with the oldest client so far.
  unfoldable pub oldest_from : List (String × ClientBucket Amount) → String → ℤ → String
  oldest_from [] oldest_ip oldest_update = oldest_ip
  oldest_from ((client_ip, bucket) ∷ entries) oldest_ip oldest_update =
      let older = str_eq oldest_ip "" || ltb_ℤ bucket.last_update oldest_update in
      oldest_from entries (if older then client_ip else oldest_ip)
        (if older then bucket.last_update else oldest_update)

  unfoldable pub remove_oldest_bucket : Map (ClientBucket Amount) → Map (ClientBucket Amount)
  remove_oldest_bucket m = delete m (oldest_from m "" (pos 0))

  -- The clean-up at the start of the handler.
  unfoldable pub clean : RateLimiter Amount → ℤ → RateLimiter Amount
  clean r now =
      if leb_ℤ (pos r.cleanup_interval) (now -ℤ r.last_cleanup)
      then record r {
        buckets = remove_inactive_buckets r.buckets now r.cleanup_interval;
        last_cleanup = now;
      }
      else r

module _ {Amount : Type 0} (arithmetic : Tokens Amount) where
  abbrev pub new_bucket : ℤ → ClientBucket Amount
  new_bucket now = record { tokens = arithmetic.minus_one arithmetic.capacity; last_update = now }

  -- A client's first request.
  unfoldable pub admit_new : RateLimiter Amount → String → ℤ → RateLimiter Amount × Bool
  admit_new r client_ip now =
      let room =
        if leb r.max_clients (length r.buckets)
        then remove_oldest_bucket r.buckets
        else r.buckets in
      (record r { buckets = assign room client_ip (new_bucket now) }, true)

  -- A request of a client with a bucket.
  unfoldable pub take_token :
      RateLimiter Amount → String → ClientBucket Amount → ℤ → RateLimiter Amount × Bool
  take_token r client_ip bucket now =
      let refilled = arithmetic.refilled (now -ℤ bucket.last_update) bucket.tokens in
      let tokens =
        if arithmetic.exceeds refilled arithmetic.capacity then arithmetic.capacity else refilled in
      let admitted = arithmetic.has_one tokens in
      let bucket' : ClientBucket Amount = record {
        tokens = if admitted then arithmetic.minus_one tokens else tokens;
        last_update = now;
      } in
      (record r { buckets = assign r.buckets client_ip bucket' }, admitted)

  -- The critical section of the handler, and whether the request goes on.
  unfoldable pub handle : RateLimiter Amount → String → ℤ → RateLimiter Amount × Bool
  handle r client_ip now =
      let cleaned = clean r now in
      elim (lookup cleaned.buckets client_ip) [
        | none ↦ admit_new cleaned client_ip now
        | some bucket ↦ take_token cleaned client_ip bucket now
      ]

  unfoldable pub handle_all : RateLimiter Amount → List (String × ℤ) → RateLimiter Amount
  handle_all r [] = r
  handle_all r ((client_ip, now) ∷ requests) = handle_all (handle r client_ip now).0 requests
