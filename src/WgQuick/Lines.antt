-- ===== src/WgQuick/Lines.antt =====
-- What `take_line` does with the lines that the templates write, and a scan as a run over lines.
use wgpilot.Base.{
  ℕ, ◌<◌, Bool, true, false, List, [], ◌∷◌, ◌++◌, map, Str, bytes, str_eq, ◌==◌, not, ◌&&◌, length,
  some, ◌≡◌, refl, sym, ap, ◌∙◌, ◌≢◌, arith, All, All-append, Without, append_assoc,
}
use wgpilot.Base.Space.{
  is_space, trim_start, trim_end, trim_space, drop_cr, IsTrimmed, trim_end-append, trim_end-cons,
  trim_space-trim_end, trim_space-cons, trim_space-drop_cr, cons-ne_nil,
}
use wgpilot.WgQuick.Export.{pair, optional}
use wgpilot.WgQuick.Import.{
  Parser, lower, cut, set_field, is_skipped, take_pair, take_line, scan, max_token,
}

abbrev pub step : Parser → Str → Parser
step p l = take_line p (trim_space (drop_cr l))

unfoldable pub run : Parser → List Str → Parser
run p [] = p
run p (l ∷ ls) = run (step p l) ls

abbrev pub IsShort : Str → Type 0
IsShort l = length l < max_token

pub run-append : (p : Parser) (xs ys : List Str) → run p (xs ++ ys) ≡ run (run p xs) ys
unfolding run
run-append p [] ys = refl
run-append p (x ∷ xs) ys = run-append (step p x) xs ys

-- Where no line fills the buffer, the scanner reads them all.
pub scan-run : (p : Parser) (ls : List Str) → All IsShort ls → scan p ls ≡ (run p ls, true)
unfolding scan run
scan-run p [] h = refl
scan-run p (l ∷ ls) h = ground (arith, scan-run (step p l) ls h.1)

trim_space-nonspace : (c : ℕ) (s : Str) → is_space c ≡ false → trim_space (c ∷ s) ≡ c ∷ trim_end s
trim_space-nonspace c s h = unfold trim_space in unfold trim_start in rw h (trim_end-cons c s h)

pub step_empty : (p : Parser) → step p [] ≡ p
step_empty p =
    unfold take_line in
    unfold trim_space in
    unfold drop_cr in unfold trim_start in unfold trim_end in unfold is_skipped in refl

pub step_comment : (p : Parser) (s : Str) → step p (b'#' ∷ s) ≡ p
step_comment p s =
    ap (take_line p)
      (trim_space-drop_cr (b'#' ∷ s) ∙ trim_space-nonspace b'#' s (unfold is_space in refl))
    ∙ unfold take_line in unfold is_skipped in refl

cut-append : (k v : Str) → Without b'=' k → cut (k ++ b'=' ∷ v) ≡ some (k, v)
unfolding cut
cut-append [] v h = refl
cut-append (c ∷ k) v h = ground (arith, cut-append k v h.1)

-- A key that is neither a comment nor a section.
abbrev pub StartsKey : ℕ → Type 0
StartsKey c = (is_space c ≡ false) × ((c ≢ b'#') × ((c ≢ b';') × (c ≢ b'[')))

is_skipped-key : (c : ℕ) (s : Str) → StartsKey c → is_skipped (c ∷ s) ≡ false
unfolding is_skipped
is_skipped-key c s h = ground arith

lower-key : (c : ℕ) → StartsKey c → lower c ≢ b'['
unfolding lower
lower-key c h = ground arith

str_eq-other : (c : ℕ) (s t : Str) → c ≢ b'[' → str_eq (c ∷ s) (b'[' ∷ t) ≡ false
unfolding str_eq
str_eq-other c s t h = ground arith

take_line-pair :
    (p : Parser) (c : ℕ) (k v : Str)
    → StartsKey c
    → Without b'=' (c ∷ k)
    → take_line p (c ∷ k ++ b'=' ∷ v)
      ≡ set_field p.section (trim_space (map lower (c ∷ k))) (trim_space v) p
unfolding take_line take_pair
take_line-pair p c k v h w =
    rw
      (
        is_skipped-key c (k ++ b'=' ∷ v) h,
        str_eq-other (lower c) (map lower (k ++ b'=' ∷ v)) (bytes "interface]") (lower-key c h),
        str_eq-other (lower c) (map lower (k ++ b'=' ∷ v)) (bytes "peer]") (lower-key c h),
        cut-append (c ∷ k) v w,
      )
      refl

trim_end-equals : (k v : Str) → trim_end (k ++ b'=' ∷ v) ≡ k ++ b'=' ∷ trim_end v
trim_end-equals k v =
    let e = trim_end-cons b'=' v (unfold is_space in refl) in
    trim_end-append k (b'=' ∷ v) (λ n. cons-ne_nil (sym e ∙ n)) ∙ ap (k ++◌) e

trim_pair :
    (c : ℕ) (k v : Str)
    → is_space c ≡ false
    → trim_space (pair (c ∷ k) v) ≡ c ∷ (k ++ b' ' ∷ []) ++ b'=' ∷ trim_end (b' ' ∷ v)
trim_pair c k v h =
    trim_space-nonspace c (k ++ b' ' ∷ b'=' ∷ b' ' ∷ v) h
    ∙ ap (λ s. c ∷ trim_end s) (sym (append_assoc k (b' ' ∷ []) (b'=' ∷ b' ' ∷ v)))
    ∙ ap (c ∷◌) (trim_end-equals (k ++ b' ' ∷ []) (b' ' ∷ v))

pub step-pair :
    (p : Parser) (c : ℕ) (k v : Str)
    → StartsKey c
    → Without b'=' (c ∷ k)
    → step p (pair (c ∷ k) v)
      ≡ set_field p.section (trim_space (map lower (c ∷ k ++ b' ' ∷ []))) (trim_space (b' ' ∷ v)) p
step-pair p c k v h w =
    ap (take_line p) (trim_space-drop_cr (pair (c ∷ k) v) ∙ trim_pair c k v h.0)
    ∙ take_line-pair p c (k ++ b' ' ∷ []) (trim_end (b' ' ∷ v)) h
        (w.0, All-append (λ d. d ≢ b'=') k _ w.1 ((λ e. omega arith), tt))
    ∙ ap (λ u. set_field p.section (trim_space (map lower (c ∷ k ++ b' ' ∷ []))) u p)
        (trim_space-trim_end (b' ' ∷ v))

no_equals : Str → Bool
no_equals [] = true
no_equals (c ∷ s) = not (c == b'=') && no_equals s

-- The test on a key that a line of the templates passes.
unfoldable pub is_key : Str → Bool
unfolding no_equals
is_key [] = false
is_key (c ∷ k) =
    not (is_space c) && (not (is_skipped (c ∷ [])) && (not (c == b'[') && no_equals (c ∷ k)))

Without-no_equals : (s : Str) → no_equals s ≡ true → Without b'=' s
unfolding no_equals
Without-no_equals [] h = tt
Without-no_equals (c ∷ s) h = ground (arith, Without-no_equals s)

-- A key of a template and the name under which the parser knows it.
abbrev pub Reads : Str → Str → Type 0
Reads key name = (is_key key ≡ true) × (trim_space (map lower (key ++ b' ' ∷ [])) ≡ name)

-- A line of a key and any value is read as the value without its spaces.
pub step_key_trim :
    (p : Parser) (key name v : Str)
    → Reads key name
    → step p (pair key v) ≡ set_field p.section name (trim_space (b' ' ∷ v)) p
unfolding is_key
step_key_trim p [] name v h = absurd (ground arith)
step_key_trim p (c ∷ k) name v h =
    step-pair p c k v (unfold is_skipped in ground arith) (Without-no_equals (c ∷ k) (ground arith))
    ∙ ap (λ n. set_field p.section n (trim_space (b' ' ∷ v)) p) h.1

pub step_key :
    (p : Parser) (key name v : Str)
    → Reads key name
    → IsTrimmed v
    → step p (pair key v) ≡ set_field p.section name v p
step_key p key name v h t =
    step_key_trim p key name v h
    ∙ ap (λ u. set_field p.section name u p) (trim_space-cons b' ' v (unfold is_space in refl) t)

-- An optional line is read like one that always stands, if the field is empty before.
pub run-optional :
    (p : Parser) (key name v : Str)
    → Reads key name
    → IsTrimmed v
    → set_field p.section name [] p ≡ p
    → run p (optional key v) ≡ set_field p.section name v p
unfolding run optional
run-optional p key name [] h t same = sym same
run-optional p key name (c ∷ s) h t same = step_key p key name (c ∷ s) h t
