-- ===== src/Base/Space.antt =====
-- `strings.TrimSpace` on ASCII texts, and what it leaves alone.
use Prim.Native.Nat.{ℕ}
use mathlib.Core.Path.{◌≡◌, refl, sym, ap, ◌∙◌}
use mathlib.Core.Bool.{Bool, true, false, ◌&&◌, ◌||◌}
use mathlib.Core.List.{[], ◌∷◌, ◌++◌}
use mathlib.Core.Logic.{◌≢◌, inl, inr}
use native.Mathlib.Omega.{arith}
use wgpilot.Base.Tests.{◌==◌, leb, if◌then◌else◌, Bool-cases}
use wgpilot.Base.Lists.{All}
use wgpilot.Base.Text.{Str}

abbrev pub between : ℕ → ℕ → ℕ → Bool
between lo hi c = leb lo c && leb c hi

-- The spaces of `strings.TrimSpace`, in ASCII.
unfoldable pub is_space : ℕ → Bool
is_space c = (c == b' ') || between 9 13 c

unfoldable pub trim_start : Str → Str
trim_start [] = []
trim_start (c ∷ s) = if is_space c then trim_start s else c ∷ s

-- A character in front of a text that is trimmed at the end.
unfoldable pub trim_before : ℕ → Str → Str
trim_before c [] = if is_space c then [] else c ∷ []
trim_before c (d ∷ t) = c ∷ d ∷ t

unfoldable pub trim_end : Str → Str
trim_end [] = []
trim_end (c ∷ s) = trim_before c (trim_end s)

unfoldable pub trim_space : Str → Str
trim_space s = trim_end (trim_start s)

-- A text that starts and ends with no space.
abbrev pub IsTrimmed : Str → Type 0
IsTrimmed s = (trim_start s ≡ s) × (trim_end s ≡ s)

pub cons-ne_nil : {c : ℕ} {s : Str} → c ∷ s ≢ []
cons-ne_nil h = cc

trim_end-trim_before :
    (c : ℕ) (s : Str) → trim_end s ≡ s → trim_end (trim_before c s) ≡ trim_before c s
unfolding trim_end trim_before
trim_end-trim_before c [] h = elim (Bool-cases (is_space c)) [
  | inl e ↦ rw e refl
  | inr e ↦ rw (e, e) refl
]
trim_end-trim_before c (d ∷ t) h = rw h refl

trim_end-trim_end : (s : Str) → trim_end (trim_end s) ≡ trim_end s
unfolding trim_end
trim_end-trim_end [] = refl
trim_end-trim_end (c ∷ s) = trim_end-trim_before c (trim_end s) (trim_end-trim_end s)

trim_before-append : (c : ℕ) (p s : Str) → s ≢ [] → trim_before c (p ++ s) ≡ c ∷ p ++ s
unfolding trim_before
trim_before-append c [] [] h = absurd (h refl)
trim_before-append c [] (d ∷ t) h = refl
trim_before-append c (d ∷ p) s h = refl

-- What is in front of a text that is not only spaces is not cut.
pub trim_end-append : (p s : Str) → trim_end s ≢ [] → trim_end (p ++ s) ≡ p ++ trim_end s
unfolding trim_end
trim_end-append [] s h = refl
trim_end-append (c ∷ p) s h =
    ap (trim_before c) (trim_end-append p s h) ∙ trim_before-append c p (trim_end s) h

trim_before-nonspace : (c : ℕ) (t : Str) → is_space c ≡ false → trim_before c t ≡ c ∷ t
unfolding trim_before
trim_before-nonspace c [] h = rw h refl
trim_before-nonspace c (d ∷ t) h = refl

pub trim_end-cons : (c : ℕ) (s : Str) → is_space c ≡ false → trim_end (c ∷ s) ≡ c ∷ trim_end s
unfolding trim_end trim_before
trim_end-cons c s h = trim_before-nonspace c (trim_end s) h

trim_space-trim_before :
    (c : ℕ) (s t : Str)
    → t ≡ trim_end s
    → trim_end t ≡ t
    → trim_space t ≡ trim_space s
    → trim_space (trim_before c t) ≡ trim_space (c ∷ s)
unfolding trim_space trim_start trim_end trim_before
trim_space-trim_before c s [] e f h = elim (Bool-cases (is_space c)) [
  | inl space ↦ rw space h
  | inr other ↦ rw (other, other, ← e, other) refl
]
trim_space-trim_before c s (d ∷ t) e f h = elim (Bool-cases (is_space c)) [
  | inl space ↦ rw space h
  | inr other ↦ rw other (ap (trim_before c) (f ∙ e))
]

-- Spaces that are cut at the end first change nothing.
pub trim_space-trim_end : (s : Str) → trim_space (trim_end s) ≡ trim_space s
unfolding trim_end
trim_space-trim_end [] = refl
trim_space-trim_end (c ∷ s) =
    trim_space-trim_before c s (trim_end s) refl (trim_end-trim_end s) (trim_space-trim_end s)

trim_start-trim_end :
    (c : ℕ) (s : Str) → is_space c ≡ false → trim_start (trim_end (c ∷ s)) ≡ trim_end (c ∷ s)
trim_start-trim_end c s h = rw (trim_end-cons c s h) (unfold trim_start in rw h refl)

trim_space-start : (s : Str) → trim_start (trim_end (trim_start s)) ≡ trim_end (trim_start s)
unfolding trim_start
trim_space-start [] = unfold trim_end in refl
trim_space-start (c ∷ s) = elim (Bool-cases (is_space c)) [
  | inl space ↦ rw space (trim_space-start s)
  | inr other ↦ rw other (trim_start-trim_end c s other)
]

pub trim_space-IsTrimmed : (s : Str) → IsTrimmed (trim_space s)
unfolding trim_space
trim_space-IsTrimmed s = (trim_space-start s, trim_end-trim_end (trim_start s))

-- A space in front of a trimmed text is cut.
pub trim_space-cons : (c : ℕ) (s : Str) → is_space c ≡ true → IsTrimmed s → trim_space (c ∷ s) ≡ s
unfolding trim_space trim_start
trim_space-cons c s h t = rw (h, t.0) t.1

-- The end of a line that `bufio.ScanLines` drops.
unfoldable pub drop_cr : Str → Str
drop_cr [] = []
drop_cr (c ∷ []) = if c == 13 then [] else c ∷ []
drop_cr (c ∷ d ∷ s) = c ∷ drop_cr (d ∷ s)

trim_end-drop_cr : (s : Str) → trim_end (drop_cr s) ≡ trim_end s
unfolding trim_end drop_cr
trim_end-drop_cr [] = refl
trim_end-drop_cr (c ∷ []) = unfold is_space in unfold trim_before in ground arith
trim_end-drop_cr (c ∷ d ∷ s) = ap (trim_before c) (trim_end-drop_cr (d ∷ s))

pub trim_space-drop_cr : (s : Str) → trim_space (drop_cr s) ≡ trim_space s
trim_space-drop_cr s =
    sym (trim_space-trim_end (drop_cr s))
    ∙ ap trim_space (trim_end-drop_cr s)
    ∙ trim_space-trim_end s

abbrev pub Nonspace : Str → Type 0
Nonspace s = All (λ c. is_space c ≡ false) s

trim_end-Nonspace : (s : Str) → Nonspace s → trim_end s ≡ s
unfolding trim_end
trim_end-Nonspace [] h = refl
trim_end-Nonspace (c ∷ s) h = rw (trim_end-Nonspace s h.1) (trim_before-nonspace c s h.0)

pub Nonspace-IsTrimmed : (s : Str) → Nonspace s → IsTrimmed s
Nonspace-IsTrimmed [] h = unfold trim_start in unfold trim_end in (refl, refl)
Nonspace-IsTrimmed (c ∷ s) h = (unfold trim_start in rw h.0 refl, trim_end-Nonspace (c ∷ s) h)
