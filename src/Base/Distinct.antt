-- ===== src/Base/Distinct.antt =====
-- Lists of texts without repetition, and how many texts fit in a list.
use Prim.Native.Nat.{◌+◌, ◌≤◌}
use mathlib.Core.Path.{◌≡◌, refl, sym, ◌∙◌}
use mathlib.Core.Logic.{◌≢◌, inl, inr}
use mathlib.Core.List.{List, [], ◌∷◌}
use native.Mathlib.Omega.{arith}
use wgpilot.Base.Tests.{if◌then◌else◌, Bool-cases}
use wgpilot.Base.Lists.{length, All, Member}
use wgpilot.Base.Text.{Str, str_eq, str_eq_iff}

-- Removes the first entry that is `a`.
erase : Str → List Str → List Str
erase a [] = []
erase a (x ∷ xs) = if str_eq x a then xs else x ∷ erase a xs

length-erase : (a : Str) (xs : List Str) → Member a xs → length (erase a xs) + 1 ≡ length xs
unfolding erase
length-erase a [] m = absurd m
length-erase a (x ∷ xs) (inl e) = ground (arith, str_eq_iff x a)
length-erase a (x ∷ xs) (inr m) = ground (arith, length-erase a xs m)

Member-erase : (a b : Str) (xs : List Str) → a ≢ b → Member b xs → Member b (erase a xs)
unfolding erase
Member-erase a b [] h m = m
Member-erase a b (x ∷ xs) h (inl e) = elim (Bool-cases (str_eq x a)) [
  | inl same ↦ absurd (h (sym ((str_eq_iff x a).0 same) ∙ e))
  | inr other ↦ rw other (inl e)
]
Member-erase a b (x ∷ xs) h (inr m) = elim (Bool-cases (str_eq x a)) [
  | inl same ↦ rw same m
  | inr other ↦ rw other (inr (Member-erase a b xs h m))
]

-- No text occurs twice.
abbrev pub NoRepeat : List Str → Type 0
NoRepeat [] = Unit
NoRepeat (x ∷ xs) = All (λ y. x ≢ y) xs × NoRepeat xs

All-ne-Member : (a b : Str) (xs : List Str) → All (λ y. a ≢ y) xs → Member b xs → a ≢ b
All-ne-Member a b [] h m e = m
All-ne-Member a b (x ∷ xs) h (inl p) e = h.0 (e ∙ sym p)
All-ne-Member a b (x ∷ xs) h (inr m) e = All-ne-Member a b xs h.1 m e

-- Distinct texts that all occur in a list that is no longer are all the texts of that list.
pub pigeonhole :
    (xs ys : List Str)
    → NoRepeat xs
    → ((a : Str) → Member a xs → Member a ys)
    → length ys ≤ length xs
    → (b : Str) → Member b ys
    → Member b xs
pigeonhole [] [] n sub len b m = m
pigeonhole [] (y ∷ ys) n sub len b m = absurd (omega arith)
pigeonhole (x ∷ xs) ys (fresh, n) sub len b m = elim (Bool-cases (str_eq x b)) [
  | inl same ↦ inl ((str_eq_iff x b).0 same)
  | inr other ↦
      let differ : x ≢ b = λ e. cc ((str_eq_iff x b).1 e, other) in
      inr (
        pigeonhole xs (erase x ys) n
          (λ a i. Member-erase x a ys (All-ne-Member x a xs fresh i) (sub a (inr i)))
          (omega (arith, length-erase x ys (sub x (inl refl)))) b (Member-erase x b ys differ m))
]

-- Distinct texts that all occur in a list are no more than that list has.
pub length-NoRepeat :
    (xs ys : List Str)
    → NoRepeat xs
    → ((a : Str) → Member a xs → Member a ys)
    → length xs ≤ length ys
length-NoRepeat [] ys n sub = omega arith
length-NoRepeat (x ∷ xs) ys (fresh, n) sub =
    let rest =
      length-NoRepeat xs (erase x ys) n
        (λ a i. Member-erase x a ys (All-ne-Member x a xs fresh i) (sub a (inr i))) in
    omega (arith, length-erase x ys (sub x (inl refl)))
