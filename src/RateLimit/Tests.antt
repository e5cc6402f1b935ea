-- ===== src/RateLimit/Tests.antt =====
-- The limiter with two attempts in a window of ten.
use wgpilot.Base.{◌<◌, ◌≤◌, ◌≡◌, ◌↔◌, arith, true, List, [], ◌∷◌, Str, bytes, keep, length}
use wgpilot.RateLimit.{after_cutoff, allow}
use wgpilot.RateLimit.Window.{Event, attempt, tick, accepted, observe_all}
use wgpilot.RateLimit.Bound.{in_window, fresh, accepted_bound, allow-accepted_iff}

abbrev host : Str
host = bytes "10.0.0.7"

abbrev burst : List Event
burst = attempt host 1 ∷ attempt host 3 ∷ attempt host 4 ∷ tick 12 ∷ []

accepted_bound_example :
    length (keep (in_window 10 5) (accepted host (observe_all burst (fresh 2 10)).log)) ≤ 2
accepted_bound_example = accepted_bound 2 10 0 5 burst host (omega arith)

allow-accepted_iff_example :
    ((allow host 14 (observe_all burst (fresh 2 10)).limiter).0 ≡ true)
    ↔ (length (keep (after_cutoff 10 14) (accepted host (observe_all burst (fresh 2 10)).log)) < 2)
allow-accepted_iff_example = allow-accepted_iff 2 10 0 14 burst host (omega arith) (omega arith)
