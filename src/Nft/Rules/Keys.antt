-- ===== src/Nft/Rules/Keys.antt =====
-- When two keys of internal/nft/rules.go are equal.
use wgpilot.Base.{Without, append-sep_injective}
use wgpilot.Base.{
  ℕ, ◌≡◌, refl, ◌⊎◌, inl, inr, Bool, true, false, arith, Str, str_eq, str_eq_iff, str_ltb_total,
  str_ltb_asymm, if◌then◌else◌, ◌==◌,
}
use wgpilot.Base.Decimal.{decimal, decimal_injective}
use wgpilot.Nft.Rules.{sorted_pair, nat_key, forward_key, bridge_key, udp_key}

pub nat_key_eq : (i j : Str) → str_eq (nat_key i) (nat_key j) ≡ str_eq i j
unfolding str_eq
nat_key_eq i j = refl

pub forward_key_eq : (i j : Str) → str_eq (forward_key i) (forward_key j) ≡ str_eq i j
unfolding str_eq
forward_key_eq i j = refl

pub udp_key_eq : (p q : ℕ) → str_eq (udp_key p) (udp_key q) ≡ (p == q)
unfolding str_eq
udp_key_eq p q = ground (arith, str_eq_iff (decimal p) (decimal q), decimal_injective p q)

pub bridge_key_eq :
    (a b c d : Str)
    → str_eq (bridge_key a b) (bridge_key c d) ≡ str_eq (sorted_pair a b) (sorted_pair c d)
unfolding str_eq
bridge_key_eq a b c d = refl

pub sorted_pair_comm : (a b : Str) → sorted_pair a b ≡ sorted_pair b a
unfolding sorted_pair
sorted_pair_comm a b = ground (arith, str_ltb_total a b, str_ltb_asymm a b, str_ltb_asymm b a)

-- An interface name with no colon, such as the wgN names that the server gives out.
abbrev pub NoColon : Str → Type 0
NoColon = Without b':'

abbrev pub SamePair : Str → Str → Str → Str → Type 0
SamePair a b c d = ((a ≡ c) × (b ≡ d)) ⊎ ((a ≡ d) × (b ≡ c))

-- Without colons in the names, a pair's key stands for the unordered pair and for no other.
pub sorted_pair_injective :
    (a b c d : Str)
    → NoColon a
    → NoColon b
    → NoColon c
    → NoColon d
    → sorted_pair a b ≡ sorted_pair c d
    → SamePair a b c d
unfolding sorted_pair
sorted_pair_injective a b c d ha hb hc hd e = ground (
  arith,
  append-sep_injective b':' a c {b = b} {d = d} ha hc,
  append-sep_injective b':' a d {b = b} {d = c} ha hd,
  append-sep_injective b':' b c {b = a} {d = d} hb hc,
  append-sep_injective b':' b d {b = a} {d = c} hb hd,
)

SamePair-sorted_pair : (a b c d : Str) → SamePair a b c d → sorted_pair a b ≡ sorted_pair c d
SamePair-sorted_pair a b c d (inl e) = cc
SamePair-sorted_pair a b c d (inr e) = cc (sorted_pair_comm c d)

-- The Boolean test of `SamePair`.
abbrev pub same_pair : Str → Str → Str → Str → Bool
same_pair a b c d =
    if str_eq a c
    then (if str_eq b d then true else if str_eq a d then str_eq b c else false)
    else if str_eq a d
    then str_eq b c
    else false

pub bridge_key-same_pair :
    (a b c d : Str)
    → NoColon a
    → NoColon b
    → NoColon c
    → NoColon d
    → str_eq (bridge_key a b) (bridge_key c d) ≡ same_pair a b c d
bridge_key-same_pair a b c d ha hb hc hd = rw (bridge_key_eq a b c d) (
    ground (
      arith,
      str_eq_iff (sorted_pair a b) (sorted_pair c d),
      sorted_pair_injective a b c d ha hb hc hd,
      SamePair-sorted_pair a b c d,
      str_eq_iff a c,
      str_eq_iff b d,
      str_eq_iff a d,
      str_eq_iff b c,
    ))
