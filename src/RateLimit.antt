-- ===== src/RateLimit.antt =====
-- internal/auth/rate_limit.go: the sliding-window limiter of login attempts. Instants are numbers
-- of nanoseconds, passed to each call in place of time.Now(). `Allow` and each round of `cleanup`
-- hold the mutex, so each is one step. The limit is not negative.
pub mod Store
pub mod Window
pub mod Bound
mod Tests
use wgpilot.Base.{
  ℕ, ◌+◌, Bool, true, false, Option, none, some, List, [], ◌∷◌, ◌++◌, Str, if◌then◌else◌, ltb, leb,
  keep, length,
}
use wgpilot.Base.Dict.{Dict, lookup, insert}

pub record LoginRateLimiter : Type 0 where
  pub attempts : Dict (List ℕ)
  pub limit : ℕ
  pub window : ℕ

-- `attempts[ip]`, nil for a missing key.
pub timestamps : Str → Dict (List ℕ) → List ℕ
timestamps ip m = elim (lookup ip m) [ none ↦ [] | some ts ↦ ts ]

-- `ts.After(now.Add(-window))`, with the window on the other side so that nothing is negative.
abbrev pub after_cutoff : ℕ → ℕ → ℕ → Bool
after_cutoff window now ts = ltb now (ts + window)

pub new_login_rate_limiter : ℕ → ℕ → LoginRateLimiter
new_login_rate_limiter limit window = record { attempts = []; limit = limit; window = window }

pub allow : Str → ℕ → LoginRateLimiter → Bool × LoginRateLimiter
allow ip now l =
    let valid = keep (after_cutoff l.window now) (timestamps ip l.attempts) in
    if leb l.limit (length valid)
    then (false, record l { attempts = insert ip valid l.attempts })
    else (true, record l { attempts = insert ip (valid ++ now ∷ []) l.attempts })

-- The loop of one round of `cleanup`: expired instants go, and a key with none left goes too.
pub sweep : ℕ → ℕ → Dict (List ℕ) → Dict (List ℕ)
sweep window now [] = []
sweep window now ((ip, ts) ∷ m) = elim (keep (after_cutoff window now) ts) [
  | [] ↦ sweep window now m
  | t ∷ valid ↦ (ip, t ∷ valid) ∷ sweep window now m
]

pub cleanup : ℕ → LoginRateLimiter → LoginRateLimiter
cleanup now l = record l { attempts = sweep l.window now l.attempts }
