-- ===== src/RateLimit/Store.antt =====
-- What the loops of internal/auth/rate_limit.go keep of the instants of an address.
use wgpilot.Base.{
  ℕ, ◌≤◌, ◌≡◌, refl, arith, Bool, none, List, [], ◌∷◌, ◌++◌, Str, str_eq, str_eq_iff, if◌then◌else◌,
  keep,
}
use wgpilot.Base.Dict.{Dict, lookup, insert, lookup-insert, Distinct}
use wgpilot.RateLimit.{timestamps, after_cutoff, sweep}

pub keep-append : (p : ℕ → Bool) (xs ys : List ℕ) → keep p (xs ++ ys) ≡ keep p xs ++ keep p ys
keep-append p [] ys = refl
keep-append p (x ∷ xs) ys = ground (arith, keep-append p xs ys)

-- What is expired now stays expired.
pub keep-keep :
    (w now t : ℕ) (xs : List ℕ)
    → now ≤ t
    → keep (after_cutoff w t) (keep (after_cutoff w now) xs) ≡ keep (after_cutoff w t) xs
keep-keep w now t [] h = refl
keep-keep w now t (x ∷ xs) h = ground (arith, keep-keep w now t xs h)

pub timestamps-insert :
    (ip j : Str) (ts : List ℕ) (m : Dict (List ℕ))
    → timestamps j (insert ip ts m) ≡ (if str_eq ip j then ts else timestamps j m)
unfolding timestamps
timestamps-insert ip j ts m = ground (arith, lookup-insert ip j ts m)

lookup-sweep :
    (w now : ℕ) (j : Str) (m : Dict (List ℕ)) → lookup j m ≡ none → lookup j (sweep w now m) ≡ none
unfolding sweep lookup
lookup-sweep w now j [] h = refl
lookup-sweep w now j ((ip, ts) ∷ m) h = ground (arith, lookup-sweep w now j m)

pub sweep-Distinct : (w now : ℕ) (m : Dict (List ℕ)) → Distinct m → Distinct (sweep w now m)
unfolding sweep
sweep-Distinct w now [] d = tt
sweep-Distinct w now ((ip, ts) ∷ m) d =
    ground (arith, sweep-Distinct w now m d.1, lookup-sweep w now ip m d.0)

pub timestamps-sweep :
    (w now : ℕ) (j : Str) (m : Dict (List ℕ))
    → Distinct m
    → timestamps j (sweep w now m) ≡ keep (after_cutoff w now) (timestamps j m)
unfolding timestamps sweep lookup
timestamps-sweep w now j [] d = refl
timestamps-sweep w now j ((ip, ts) ∷ m) d =
    ground (arith, timestamps-sweep w now j m d.1, lookup-sweep w now ip m d.0, str_eq_iff ip j)
