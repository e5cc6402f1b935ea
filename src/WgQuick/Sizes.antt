-- ===== src/WgQuick/Sizes.antt =====
-- Texts that fit in one line, and the lines of the templates, which the scanner takes whole.
use wgpilot.Base.{
  ℕ, zero, suc, ◌+◌, ◌*◌, ◌≤◌, ◌<◌, Bool, true, not, ◌&&◌, [], ◌∷◌, ◌++◌, Str, ◌==◌, ltb, lt→ltb,
  ◌/◌, ◌%◌, Bool-cases, inl, inr, length, ◌≡◌, ◌≢◌, arith, All-append, Without, length-append,
}
use wgpilot.Base.Space.{IsTrimmed, is_space, Nonspace}
use wgpilot.Base.Decimal.{decimal, digits_from}
use wgpilot.Base.Int.{ℤ, pos, negsuc, IsInt, max_int, print_int, print_int-Nonspace}
use wgpilot.WgQuick.Import.{max_token}

-- A text without a newline, of at most so many bytes.
pub record Fits (n : ℕ) (s : Str) : Type 0 where
  pub one_line : Without b'\n' s
  pub bound : length s ≤ n

-- The longest value that the theorems allow: less than half a line, for the rules of NAT hold a
-- name twice.
abbrev pub max_value : ℕ
max_value = 30000

-- A value that a line can carry.
abbrev pub IsValue : Str → Type 0
IsValue v = IsTrimmed v × Fits max_value v

pub record IsLine (l : Str) : Type 0 where
  pub whole : Without b'\n' l
  pub short : length l < max_token

pub Fits-append : {m n : ℕ} (a b : Str) → Fits m a → Fits n b → Fits (m + n) (a ++ b)
Fits-append a b h k = record {
  one_line = All-append (λ c. c ≢ b'\n') a b h.one_line k.one_line;
  bound = omega (arith, length-append a b, h.bound, k.bound);
}

unfoldable pub no_newline : Str → Bool
no_newline [] = true
no_newline (c ∷ s) = not (c == b'\n') && no_newline s

Without-no_newline : (s : Str) → no_newline s ≡ true → Without b'\n' s
unfolding no_newline
Without-no_newline [] h = tt
Without-no_newline (c ∷ s) h = ground (arith, Without-no_newline s)

-- For the texts of the templates.
pub Fits-text : (n : ℕ) (s : Str) → no_newline s ≡ true → length s ≤ n → Fits n s
Fits-text n s h k = record { one_line = Without-no_newline s h; bound = k }

Nonspace-Without : (s : Str) → Nonspace s → Without b'\n' s
unfolding is_space
Nonspace-Without [] h = tt
Nonspace-Without (c ∷ s) h = ground (arith, Nonspace-Without s)

-- Powers of ten by recursion, for the number of digits.
tens : ℕ → ℕ
tens zero = 1
tens (suc k) = 10 * tens k

length-digits_from : (fuel k n : ℕ) → n < tens (suc k) → length (digits_from fuel n) ≤ suc k
unfolding digits_from tens
length-digits_from zero k n h = omega arith
length-digits_from (suc fuel) zero n h = rw (lt→ltb n 10 (omega arith)) (omega arith)
length-digits_from (suc fuel) (suc k) n h = elim (Bool-cases (ltb n 10)) [
  | inl small ↦ rw small (omega arith)
  | inr large ↦ rw large (
      omega (
        arith,
        length-append (digits_from fuel (n / 10)) ((b'0' + n % 10) ∷ []),
        length-digits_from fuel k (n / 10) (omega arith),
      ))
]

length-decimal : (n : ℕ) → n ≤ max_int + 1 → length (decimal n) ≤ 20
unfolding decimal
length-decimal n h = length-digits_from (suc n) 19 n (unfold tens in omega arith)

length-print_int : (i : ℤ) → IsInt i → length (print_int i) ≤ max_value
unfolding print_int
length-print_int (pos n) h = omega (arith, length-decimal n (omega arith))
length-print_int (negsuc n) h = omega (arith, length-decimal (suc n) (omega arith))

pub Fits-print_int : (i : ℤ) → IsInt i → Fits max_value (print_int i)
Fits-print_int i h = record {
  one_line = Nonspace-Without (print_int i) (print_int-Nonspace i);
  bound = length-print_int i h;
}

-- Short texts are values.
pub value : (v : Str) → no_newline v ≡ true → IsTrimmed v → length v ≤ 100 → IsValue v
value v h t b = (t, Fits-text max_value v h (omega (arith, b)))
