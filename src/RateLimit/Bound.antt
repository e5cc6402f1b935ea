-- ===== src/RateLimit/Bound.antt =====
-- The promise of the limiter of internal/auth/rate_limit.go over a history of attempts and
-- cleanups.
use wgpilot.Base.{
  ℕ, ◌+◌, ◌≤◌, ◌<◌, ◌≡◌, refl, ◌∙◌, ◌↔◌, arith, Bool, true, ◌&&◌, List, [], ◌∷◌, Str, ltb, leb,
  keep, length,
}
use mathlib.Core.Path.{subst₂}
use native.Mathlib.Decide.{dec_le}
use wgpilot.Base.Dict.{lookup}
use wgpilot.RateLimit.{timestamps, after_cutoff, new_login_rate_limiter, allow}
use wgpilot.RateLimit.Window.{
  Observed, Event, accepted, observe, observe_all, instant, Ordered, Paced, Local, Inv, observe-Inv,
  observe-settings,
}

-- The instants of a window that ends at `T`.
abbrev pub in_window : ℕ → ℕ → ℕ → Bool
in_window w T t = ltb T (t + w) && leb t T

in_window-le :
    (w T t : ℕ) (ts : List ℕ)
    → t ≤ T
    → length (keep (in_window w T) ts) ≤ length (keep (after_cutoff w t) ts)
in_window-le w T t [] h = omega arith
in_window-le w T t (s ∷ ts) h = ground (arith, in_window-le w T t ts h)

Paced-window :
    (limit w T : ℕ) (ts : List ℕ) → Paced limit w ts → length (keep (in_window w T) ts) ≤ limit
Paced-window limit w T [] h = omega arith
Paced-window limit w T (t ∷ ts) (bound, _, h) = elim (dec_le t T) [
  | yes le ↦ omega (arith, in_window-le w T t (t ∷ ts) le)
  | no gt ↦ ground (arith, Paced-window limit w T ts h)
]

-- The last instant of a history that begins after `n`.
abbrev pub last_instant : ℕ → List Event → ℕ
last_instant n [] = n
last_instant n (e ∷ es) = last_instant (instant e) es

observe_all-Inv :
    (es : List Event) (n : ℕ) (o : Observed)
    → Ordered n es
    → Inv n o
    → Inv (last_instant n es) (observe_all es o)
unfolding observe_all
observe_all-Inv [] n o h v = v
observe_all-Inv (e ∷ es) n o (h, hs) v =
    observe_all-Inv es (instant e) (observe e o) hs (observe-Inv e n o h v)

observe_all-settings :
    (es : List Event) (o : Observed)
    → ((observe_all es o).limiter.limit ≡ o.limiter.limit)
      × ((observe_all es o).limiter.window ≡ o.limiter.window)
unfolding observe_all
observe_all-settings [] o = (refl, refl)
observe_all-settings (e ∷ es) o =
    let (a, b) = observe_all-settings es (observe e o) in
    let (c, d) = observe-settings e o in (a ∙ c, b ∙ d)

abbrev pub fresh : ℕ → ℕ → Observed
fresh limit w = record { limiter = new_login_rate_limiter limit w; log = [] }

fresh-Inv : (limit w n : ℕ) → Inv n (fresh limit w)
unfolding new_login_rate_limiter
fresh-Inv limit w n = record {
  distinct = tt;
  each = λ j. record { knows = λ t _. unfold timestamps lookup in refl; past = tt; paced = tt };
}

module _ (limit w n : ℕ) (es : List Event) (ordered : Ordered n es) where
  after : Observed
  after = observe_all es (fresh limit w)

  after-Inv : Inv (last_instant n es) after
  unfolding after
  after-Inv = observe_all-Inv es n (fresh limit w) ordered (fresh-Inv limit w n)

  after-settings : (after.limiter.limit ≡ limit) × (after.limiter.window ≡ w)
  unfolding after
  after-settings = unfold new_login_rate_limiter in observe_all-settings es (fresh limit w)

-- Over any history of attempts and cleanups on a clock that does not run backwards, every window
-- of the configured length holds at most `limit` attempts of an address that were let through.
pub accepted_bound :
    (limit w n T : ℕ) (es : List Event) (ip : Str)
    → Ordered n es
    → length (keep (in_window w T) (accepted ip (observe_all es (fresh limit w)).log)) ≤ limit
unfolding after
accepted_bound limit w n T es ip h =
    let (a, b) = after-settings limit w n es h in
    Paced-window limit w T _ (
      subst₂ (λ l v. Paced l v (accepted ip (observe_all es (fresh limit w)).log)) a b
        (Local.paced (Inv.each (after-Inv limit w n es h) ip)))

-- After such a history an attempt is let through exactly when fewer than `limit` attempts of the
-- same address were let through in the window that ends with it: attempts of other addresses,
-- refused attempts and cleanups do not count.
pub allow-accepted_iff :
    (limit w n now : ℕ) (es : List Event) (ip : Str)
    → Ordered n es
    → last_instant n es ≤ now
    → ((allow ip now (observe_all es (fresh limit w)).limiter).0 ≡ true) ↔ (
        length (keep (after_cutoff w now) (accepted ip (observe_all es (fresh limit w)).log))
        < limit)
unfolding allow after
allow-accepted_iff limit w n now es ip h k =
    let (a, b) = after-settings limit w n es h in
    let known = Local.knows (Inv.each (after-Inv limit w n es h) ip) now k in
    (λ e. ground (arith, a, b, known), λ e. ground (arith, a, b, known))
