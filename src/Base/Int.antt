-- ===== src/Base/Int.antt =====
-- Go's `int`, its decimal text, and `strconv.Atoi`.
use Prim.Native.Nat.{ℕ, zero, suc, ◌-◌, ◌^◌, ◌≤◌}
use mathlib.Core.Path.{◌≡◌, refl, ap, ◌∙◌}
use mathlib.Core.Bool.{Bool, true, false, ◌&&◌}
use mathlib.Core.Option.{Option, none, some}
use mathlib.Core.List.{[], ◌∷◌}
use native.Mathlib.Omega.{arith}
use wgpilot.Base.Tests.{◌==◌, leb, if◌then◌else◌, le→leb, Bool-cases}
use wgpilot.Base.Lists.{All}
use mathlib.Core.Logic.{◌≢◌, inl, inr}
use wgpilot.Base.Text.{Str}
use wgpilot.Base.Space.{is_space, Nonspace}
use wgpilot.Base.Decimal.{decimal, read, IsDigit, decimal-IsDigit, decimal-ne_nil, read-decimal}

-- `negsuc n` is -(n + 1).
pub data ℤ : Type 0 where
  pos : ℕ → ℤ
  negsuc : ℕ → ℤ

abbrev pub max_int : ℕ
max_int = 2 ^ 63 - 1

-- The values of a 64-bit `int`.
abbrev pub IsInt : ℤ → Type 0
IsInt (pos n) = n ≤ max_int
IsInt (negsuc n) = n ≤ max_int

-- `%d`, and what a template prints for an `int`.
unfoldable pub print_int : ℤ → Str
print_int (pos n) = decimal n
print_int (negsuc n) = b'-' ∷ decimal (suc n)

unfoldable pub all_digits : Str → Bool
all_digits [] = true
all_digits (c ∷ s) = (leb b'0' c && leb c b'9') && all_digits s

-- The number of a text of digits, at least one.
unfoldable pub read_digits : Str → Option ℕ
read_digits [] = none
read_digits (c ∷ s) = if all_digits (c ∷ s) then some (read 0 (c ∷ s)) else none

unfoldable pub signed : Bool → ℕ → Option ℤ
signed false n = if leb n max_int then some (pos n) else none
signed true zero = some (pos zero)
signed true (suc n) = if leb n max_int then some (negsuc n) else none

unfoldable pub with_sign : Bool → Option ℕ → Option ℤ
with_sign negative none = none
with_sign negative (some n) = signed negative n

-- `strconv.Atoi`, `none` for its error.
unfoldable pub atoi : Str → Option ℤ
atoi [] = none
atoi (c ∷ s) =
    if c == b'-'
    then with_sign true (read_digits s)
    else if c == b'+'
    then with_sign false (read_digits s)
    else with_sign false (read_digits (c ∷ s))

pub all_digits-IsDigit : (s : Str) → All IsDigit s → all_digits s ≡ true
unfolding all_digits
all_digits-IsDigit [] h = refl
all_digits-IsDigit (c ∷ s) h = ground (arith, all_digits-IsDigit s h.1)

read_digits-text : (s : Str) → s ≢ [] → All IsDigit s → read_digits s ≡ some (read 0 s)
unfolding read_digits
read_digits-text [] h d = absurd (h refl)
read_digits-text (c ∷ s) h d = rw (all_digits-IsDigit (c ∷ s) d) refl

read_digits-decimal : (n : ℕ) → read_digits (decimal n) ≡ some n
read_digits-decimal n =
    read_digits-text (decimal n) (decimal-ne_nil n) (decimal-IsDigit n) ∙ ap some (read-decimal n)

-- A text of digits has no sign.
atoi-unsigned : (s : Str) → All IsDigit s → atoi s ≡ with_sign false (read_digits s)
unfolding atoi
atoi-unsigned [] h = unfold read_digits in unfold with_sign in refl
atoi-unsigned (c ∷ s) h = ground arith

pub atoi-print_int : (i : ℤ) → IsInt i → atoi (print_int i) ≡ some i
unfolding print_int
atoi-print_int (pos n) h =
    atoi-unsigned (decimal n) (decimal-IsDigit n)
    ∙ ap (with_sign false) (read_digits-decimal n)
    ∙ unfold with_sign in unfold signed in rw (le→leb n max_int h) refl
atoi-print_int (negsuc n) h =
    unfold atoi in
    ap (with_sign true) (read_digits-decimal (suc n))
    ∙ unfold with_sign in unfold signed in rw (le→leb n max_int h) refl

IsDigit-nonspace : (c : ℕ) → IsDigit c → is_space c ≡ false
unfolding is_space
IsDigit-nonspace c h = ground arith

All-Nonspace : (s : Str) → All IsDigit s → Nonspace s
All-Nonspace [] h = tt
All-Nonspace (c ∷ s) h = (IsDigit-nonspace c h.0, All-Nonspace s h.1)

pub print_int-Nonspace : (i : ℤ) → Nonspace (print_int i)
unfolding print_int
print_int-Nonspace (pos n) = All-Nonspace (decimal n) (decimal-IsDigit n)
print_int-Nonspace (negsuc n) =
    (unfold is_space in refl, All-Nonspace (decimal (suc n)) (decimal-IsDigit (suc n)))

abbrev pub IsIntOption : Option ℤ → Type 0
IsIntOption none = Unit
IsIntOption (some i) = IsInt i

signed-IsInt : (b : Bool) (n : ℕ) → IsIntOption (signed b n)
unfolding signed
signed-IsInt false n = ground arith
signed-IsInt true zero = omega arith
signed-IsInt true (suc n) = ground arith

with_sign-IsInt : (b : Bool) (o : Option ℕ) → IsIntOption (with_sign b o)
unfolding with_sign
with_sign-IsInt b none = tt
with_sign-IsInt b (some n) = signed-IsInt b n

-- What `strconv.Atoi` gives is an `int`.
pub atoi-IsIntOption : (s : Str) → IsIntOption (atoi s)
unfolding atoi
atoi-IsIntOption [] = tt
atoi-IsIntOption (c ∷ s) = elim (Bool-cases (c == b'-')) [
  | inl e ↦ rw e (with_sign-IsInt true (read_digits s))
  | inr e ↦ elim (Bool-cases (c == b'+')) [
    | inl f ↦ rw (e, f) (with_sign-IsInt false (read_digits s))
    | inr f ↦ rw (e, f) (with_sign-IsInt false (read_digits (c ∷ s)))
  ]
]
