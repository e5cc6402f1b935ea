-- ===== src/RateLimit/Window.antt =====
-- Histories of the limiter of internal/auth/rate_limit.go, and what it knows at each instant of
-- the attempts that it let through.
use wgpilot.Base.{
  ℕ, ◌≤◌, ◌<◌, ◌≡◌, refl, subst, arith, List, [], ◌∷◌, ◌++◌, Str, str_eq, str_eq_iff, if◌then◌else◌,
  leb, keep, length, length-append, All, Bool-cases, inl, inr,
}
use wgpilot.Base.Dict.{insert, Distinct, insert-Distinct}
use wgpilot.RateLimit.Store.{
  keep-append, keep-keep, timestamps-insert, sweep-Distinct, timestamps-sweep,
}
use wgpilot.RateLimit.{LoginRateLimiter, timestamps, after_cutoff, allow, cleanup}

-- The attempts that were let through, newest first.
pub record Observed : Type 0 where
  pub limiter : LoginRateLimiter
  pub log : List (Str × ℕ)

pub data Event : Type 0 where
  attempt : Str → ℕ → Event
  tick : ℕ → Event

abbrev pub accepted : Str → List (Str × ℕ) → List ℕ
accepted ip [] = []
accepted ip ((j, t) ∷ log) = if str_eq j ip then t ∷ accepted ip log else accepted ip log

unfoldable pub observe : Event → Observed → Observed
observe (attempt ip now) o =
    let (let_in, l) = allow ip now o.limiter in
    record { limiter = l; log = if let_in then (ip, now) ∷ o.log else o.log }
observe (tick now) o = record o { limiter = cleanup now o.limiter }

unfoldable pub observe_all : List Event → Observed → Observed
unfolding observe
observe_all [] o = o
observe_all (e ∷ es) o = observe_all es (observe e o)

abbrev pub instant : Event → ℕ
instant (attempt ip now) = now
instant (tick now) = now

-- The clock does not run backwards.
abbrev pub Ordered : ℕ → List Event → Type 0
Ordered n [] = Unit
Ordered n (e ∷ es) = (n ≤ instant e) × Ordered (instant e) es

-- Each instant is one of at most `limit` in the window that ends with it.
abbrev pub Paced : ℕ → ℕ → List ℕ → Type 0
Paced limit w [] = Unit
Paced limit w (t ∷ ts) =
    (length (keep (after_cutoff w t) (t ∷ ts)) ≤ limit) × All (λ s. s ≤ t) ts × Paced limit w ts

-- What the limiter knows of one address at an instant: as many recent attempts as were accepted.
abbrev pub Knows : ℕ → ℕ → List ℕ → List ℕ → Type 0
Knows w n ts log =
    (t : ℕ) → n ≤ t → length (keep (after_cutoff w t) ts) ≡ length (keep (after_cutoff w t) log)

-- The state of one address at an instant, in the limiter and in the log.
pub record Local (limit w n : ℕ) (ts log : List ℕ) : Type 0 where
  pub knows : Knows w n ts log
  pub past : All (λ s. s ≤ n) log
  pub paced : Paced limit w log

pub record Inv (n : ℕ) (o : Observed) : Type 0 where
  pub distinct : Distinct o.limiter.attempts
  pub each :
      (ip : Str)
      → Local o.limiter.limit o.limiter.window n
          (timestamps ip o.limiter.attempts)
          (accepted ip o.log)

All-mono : (n m : ℕ) (xs : List ℕ) → n ≤ m → All (λ s. s ≤ n) xs → All (λ s. s ≤ m) xs
All-mono n m [] h a = tt
All-mono n m (x ∷ xs) h a = (omega arith, All-mono n m xs h a.1)

module _ (limit w n now : ℕ) (later : n ≤ now) (ts log : List ℕ) (v : Local limit w n ts log) where
  valid : List ℕ
  valid = keep (after_cutoff w now) ts

  wait-Local : Local limit w now ts log
  wait-Local = record {
    knows = λ t h. v.knows t (omega arith);
    past = All-mono n now log later v.past;
    paced = v.paced;
  }

  refuse-Local : Local limit w now valid log
  unfolding valid
  refuse-Local = record {
    knows = λ t h. rw (keep-keep w now t ts h) (v.knows t (omega arith));
    past = All-mono n now log later v.past;
    paced = v.paced;
  }

  accept-Local : length valid < limit → Local limit w now (valid ++ now ∷ []) (now ∷ log)
  accept-Local room = record {
    knows = λ t h. ground (
      arith,
      keep-append (after_cutoff w t) valid (now ∷ []),
      length-append (keep (after_cutoff w t) valid) (now ∷ []),
      length-append (keep (after_cutoff w t) valid) [],
      refuse-Local.knows t h,
    );
    past = (omega arith, All-mono n now log later v.past);
    paced =
        unfold valid in
        (ground (arith, v.knows now later), All-mono n now log later v.past, v.paced);
  }

-- One attempt, as each address sees it.
module _ (n now : ℕ) (later : n ≤ now) (ip j : Str) (o : Observed) (v : Inv n o) where
  abbrev allowed : ℕ
  allowed = o.limiter.limit

  abbrev span : ℕ
  span = o.limiter.window

  abbrev kept : List ℕ
  kept = keep (after_cutoff span now) (timestamps ip o.limiter.attempts)

  refused-Local :
      Local allowed span now (timestamps j (insert ip kept o.limiter.attempts)) (accepted j o.log)
  refused-Local =
      rw (timestamps-insert ip j kept o.limiter.attempts) (elim (Bool-cases (str_eq ip j)) [
        | inl same ↦ rw same (
            subst (λ k. Local allowed span now kept (accepted k o.log)) ((str_eq_iff ip j).0 same)
              (unfold valid in refuse-Local allowed span n now later _ _ (v.each ip)))
        | inr other ↦ rw other (wait-Local allowed span n now later _ _ (v.each j))
      ])

  accepted-Local :
      length kept < allowed
      → Local allowed span now
          (timestamps j (insert ip (kept ++ now ∷ []) o.limiter.attempts))
          (accepted j ((ip, now) ∷ o.log))
  accepted-Local room =
      rw (timestamps-insert ip j (kept ++ now ∷ []) o.limiter.attempts)
        (elim (Bool-cases (str_eq ip j)) [
          | inl same ↦ rw same (
              subst (λ k. Local allowed span now (kept ++ now ∷ []) (now ∷ accepted k o.log))
                ((str_eq_iff ip j).0 same)
                (unfold valid in accept-Local allowed span n now later _ _ (v.each ip) room))
          | inr other ↦ rw other (wait-Local allowed span n now later _ _ (v.each j))
        ])

pub observe-Inv :
    (e : Event) (n : ℕ) (o : Observed) → n ≤ instant e → Inv n o → Inv (instant e) (observe e o)
unfolding observe allow cleanup
observe-Inv (attempt ip now) n o later v =
    elim (Bool-cases (
      leb o.limiter.limit
        (length (keep (after_cutoff o.limiter.window now) (timestamps ip o.limiter.attempts))))) [
          | inl full ↦ rw full (record {
            distinct = insert-Distinct ip _ o.limiter.attempts v.distinct;
            each = λ j. refused-Local n now later ip j o v;
          })
          | inr room ↦ rw room (record {
            distinct = insert-Distinct ip _ o.limiter.attempts v.distinct;
            each = λ j. accepted-Local n now later ip j o v (ground arith);
          })
        ]
observe-Inv (tick now) n o later v = record {
  distinct = sweep-Distinct o.limiter.window now o.limiter.attempts v.distinct;
  each = λ j.
      rw (timestamps-sweep o.limiter.window now j o.limiter.attempts v.distinct)
        (unfold valid in refuse-Local _ _ n now later _ _ (v.each j));
}

pub observe-settings :
    (e : Event) (o : Observed)
    → ((observe e o).limiter.limit ≡ o.limiter.limit)
      × ((observe e o).limiter.window ≡ o.limiter.window)
unfolding observe allow cleanup
observe-settings (attempt ip now) o = ground arith
observe-settings (tick now) o = (refl, refl)
