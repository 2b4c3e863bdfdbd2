-- ===== src/Resilience/Limiter/Tests.antt =====
-- A limiter of one request.
use goplusplus.Prelude.{◌≡◌, refl, false}
use goplusplus.Prelude.Int.{pos, positive_or}
use goplusplus.Resilience.Limiter.{
  new_adaptive_limiter, begin_request, end_request, System, Reach, here, after, start, refuse,
  IsBounded, Reach-IsBounded,
}

program : Unit {0}
unfolding positive_or new_adaptive_limiter begin_request end_request
program = tt

abbrev idle : System
idle = record { limiter = new_adaptive_limiter (pos 1); running = 0; refused = 0 }

abbrev busy : System
busy = record { limiter = (begin_request idle.limiter).0; running = 1; refused = 0 }

abbrev over : System
over = record busy { limiter = (begin_request busy.limiter).0; refused = 1 }

second_refused : (begin_request busy.limiter).1 ≡ false
unfolding program
second_refused = refl

Reach-over : Reach idle over
unfolding program
Reach-over = after (after here (start idle refl)) (refuse busy refl)

Reach-IsBounded_example : IsBounded (positive_or (pos 1) 1000) over
Reach-IsBounded_example = Reach-IsBounded (pos 1) over Reach-over
