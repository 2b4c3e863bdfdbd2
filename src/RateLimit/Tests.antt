-- ===== src/RateLimit/Tests.antt =====
-- A table of two clients with two tokens each, in thousandths of a token and milliseconds.
use goplusplus.Prelude.{
  ℕ, ◌≡◌, refl, ◌+◌, ◌-◌, String, true, false, List, [], ◌∷◌, leb, ltb, length,
}
use goplusplus.Prelude.Int.{ℤ, pos, negsuc, ◌-ℤ◌, positive_or}
use goplusplus.Prelude.Map.{lookup, assign, delete}
use goplusplus.RateLimit.{
  Tokens, RateLimiter, new_rate_limiter, remove_inactive_from, remove_inactive_buckets, oldest_from,
  remove_oldest_bucket, admit_new, take_token, clean, handle, handle_all,
}

program : Unit {0}
unfolding positive_or ◌-ℤ◌ lookup assign delete new_rate_limiter remove_inactive_from
    remove_inactive_buckets oldest_from remove_oldest_bucket admit_new take_token clean handle
    handle_all
program = tt

abbrev add_elapsed : ℤ → ℕ → ℕ
add_elapsed (pos n) tokens = tokens + n
add_elapsed (negsuc n) tokens = tokens

abbrev thousandths : Tokens ℕ
thousandths = record {
  capacity = 2000;
  refilled = add_elapsed;
  exceeds = λ a b. ltb b a;
  has_one = λ a. leb 1000 a;
  minus_one = λ a. a - 1000;
}

abbrev table : RateLimiter ℕ
table = new_rate_limiter (pos 60000) (pos 2) (pos 0)

abbrev burst : List (String × ℤ)
burst = ("a", pos 1) ∷ ("a", pos 2) ∷ ("b", pos 3) ∷ []

-- The third request of "a" is refused until the bucket has refilled.
refills :
    ((handle thousandths (handle_all thousandths table burst) "a" (pos 4)).1 ≡ false)
    × ((handle thousandths (handle_all thousandths table burst) "a" (pos 1004)).1 ≡ true)
unfolding program
refills = (refl, refl)

-- A third client takes the place of the one that has been quiet for longest.
replaces :
    length (handle thousandths (handle_all thousandths table burst) "c" (pos 4)).0.buckets ≡ 2
unfolding program
replaces = refl
