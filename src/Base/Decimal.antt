-- ===== src/Base/Decimal.antt =====
-- `%d` of a number that is not negative, and that it loses nothing.
use Prim.Native.Nat.{ℕ, zero, suc, ◌+◌, ◌-◌, ◌*◌, ◌/◌, ◌%◌, ◌≤◌, ◌<◌}
use mathlib.Core.Path.{◌≡◌, refl, sym, ap, ◌∙◌}
use mathlib.Core.Logic.{◌≢◌, inl, inr}
use mathlib.Core.List.{[], ◌∷◌, ◌++◌}
use native.Mathlib.Omega.{arith}
use wgpilot.Base.Tests.{ltb, if◌then◌else◌, Bool-cases}
use wgpilot.Base.Lists.{All, All-append}
use wgpilot.Base.Text.{Str}

unfoldable pub digits_from : ℕ → ℕ → Str
digits_from zero n = []
digits_from (suc fuel) n =
    let front = digits_from fuel (n / 10) in
    if ltb n 10 then (b'0' + n) ∷ [] else front ++ (b'0' + n % 10) ∷ []

-- A number has fewer digits than its successor counts, so the fuel is enough.
unfoldable pub decimal : ℕ → Str
unfolding digits_from
decimal n = digits_from (suc n) n

-- The number that a text of digits stands for.
unfoldable pub read : ℕ → Str → ℕ
read acc [] = acc
read acc (c ∷ s) = read (acc * 10 + (c - b'0')) s

read-append : (acc : ℕ) (s t : Str) → read acc (s ++ t) ≡ read (read acc s) t
unfolding read
read-append acc [] t = refl
read-append acc (c ∷ s) t = read-append (acc * 10 + (c - b'0')) s t

read-digits_from : (fuel n : ℕ) → n < fuel → read 0 (digits_from fuel n) ≡ n
unfolding digits_from read
read-digits_from zero n h = absurd (omega arith)
read-digits_from (suc fuel) n h = elim (Bool-cases (ltb n 10)) [
  | inl small ↦ rw small (omega arith)
  | inr large ↦ rw large (
      ground (
        arith,
        read-append 0 (digits_from fuel (n / 10)) ((b'0' + n % 10) ∷ []),
        read-digits_from fuel (n / 10),
      ))
]

pub decimal_injective : (a b : ℕ) → decimal a ≡ decimal b → a ≡ b
unfolding decimal
decimal_injective a b e =
    sym (read-digits_from (suc a) a (omega arith))
    ∙ ap (read 0) e
    ∙ read-digits_from (suc b) b (omega arith)

-- Every character is a digit.
abbrev pub IsDigit : ℕ → Type 0
IsDigit c = (b'0' ≤ c) × (c ≤ b'9')

digits_from-IsDigit : (fuel n : ℕ) → All IsDigit (digits_from fuel n)
unfolding digits_from
digits_from-IsDigit zero n = tt
digits_from-IsDigit (suc fuel) n = elim (Bool-cases (ltb n 10)) [
  | inl small ↦ rw small ((omega arith, ground arith), tt)
  | inr large ↦ rw large (
      All-append IsDigit (digits_from fuel (n / 10)) _ (digits_from-IsDigit fuel (n / 10))
        ((omega arith, omega arith), tt))
]

pub decimal-IsDigit : (n : ℕ) → All IsDigit (decimal n)
unfolding decimal
decimal-IsDigit n = digits_from-IsDigit (suc n) n

pub read-decimal : (n : ℕ) → read 0 (decimal n) ≡ n
unfolding decimal
read-decimal n = read-digits_from (suc n) n (omega arith)

append_last-ne_nil : (s : Str) (c : ℕ) → s ++ c ∷ [] ≢ []
append_last-ne_nil [] c e = cc
append_last-ne_nil (d ∷ s) c e = cc

digits_from-ne_nil : (fuel n : ℕ) → n < fuel → digits_from fuel n ≢ []
unfolding digits_from
digits_from-ne_nil zero n h = absurd (omega arith)
digits_from-ne_nil (suc fuel) n h = elim (Bool-cases (ltb n 10)) [
  | inl small ↦ rw small (append_last-ne_nil [] (b'0' + n))
  | inr large ↦ rw large (append_last-ne_nil (digits_from fuel (n / 10)) (b'0' + n % 10))
]

pub decimal-ne_nil : (n : ℕ) → decimal n ≢ []
unfolding decimal
decimal-ne_nil n = digits_from-ne_nil (suc n) n (omega arith)
