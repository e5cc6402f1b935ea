-- ===== src/Server/Names.antt =====
-- nextInterfaceName of internal/server/routes_networks.go: the first wgN that no network has.
mod Tests
use wgpilot.Base.{
  ℕ, zero, suc, ◌+◌, ◌≤◌, ◌<◌, ◌≡◌, refl, sym, ap, ◌∙◌, ◌≢◌, Bool, true, false, not, Option, none,
  some, List, [], ◌∷◌, ◌++◌, map, Str, bytes, str_eq, str_eq_iff, if◌then◌else◌, arith, length,
  Member, All, Bool-cases, inl, inr, append_cancel, subst, ltb, ltb→lt,
}
use native.Mathlib.Decide.{dec_lt}
use wgpilot.Base.Dict.{Dict, lookup, insert, lookup-insert}
use wgpilot.Base.Decimal.{decimal, decimal_injective}
use wgpilot.Base.Distinct.{NoRepeat, length-NoRepeat}
use wgpilot.Server.Types.{Network}

abbrev pub interface_name : ℕ → Str
interface_name i = bytes "wg" ++ decimal i

-- The map `used`.
used_names : List Network → Dict Bool → Dict Bool
used_names [] m = m
used_names (n ∷ ns) m = used_names ns (insert n.interface true m)

is_taken : Dict Bool → Str → Bool
is_taken m name = elim (lookup name m) [ none ↦ false | some b ↦ b ]

-- The loop, for the rounds that are left; it has one more round than there are networks.
first_free : ℕ → ℕ → Dict Bool → Str
unfolding is_taken
first_free zero i used = interface_name i
first_free (suc fuel) i used =
    let rest = first_free fuel (i + 1) used in
    if not (is_taken used (interface_name i)) then interface_name i else rest

pub next_interface_name : List Network → Str
unfolding first_free used_names
next_interface_name ns = first_free (length ns + 1) 0 (used_names ns [])

-- Does a network of the list have that interface?
unfoldable pub has_interface : Str → List Network → Bool
has_interface name [] = false
has_interface name (n ∷ ns) = if str_eq n.interface name then true else has_interface name ns

is_taken-used_names :
    (name : Str) (ns : List Network) (m : Dict Bool)
    → is_taken (used_names ns m) name ≡ (if has_interface name ns then true else is_taken m name)
unfolding is_taken used_names has_interface
is_taken-used_names name [] m = refl
is_taken-used_names name (n ∷ ns) m = ground (
  arith,
  is_taken-used_names name ns (insert n.interface true m),
  lookup-insert n.interface name true m,
)

names_from : ℕ → ℕ → List Str
names_from zero i = []
names_from (suc n) i = interface_name i ∷ names_from n (i + 1)

-- The least index from `i` on whose name no network has, with the name that the loop finds.
record Found (used : Dict Bool) (i : ℕ) (name : Str) : Type 0 where
  index : ℕ
  named : name ≡ interface_name index
  start : i ≤ index
  free : is_taken used name ≡ false
  first : (j : ℕ) → i ≤ j → j < index → is_taken used (interface_name j) ≡ true

all_taken : ℕ → ℕ → Dict Bool → Bool
all_taken zero i used = true
all_taken (suc n) i used =
    if is_taken used (interface_name i) then all_taken n (i + 1) used else false

first_free-Found :
    (fuel i : ℕ) (used : Dict Bool)
    → all_taken fuel i used ≡ false
    → Found used i (first_free fuel i used)
unfolding first_free all_taken
first_free-Found zero i used h = cc
first_free-Found (suc fuel) i used h = elim (Bool-cases (is_taken used (interface_name i))) [
  | inr free ↦ rw free (record {
    index = i;
    named = refl;
    start = omega arith;
    free = free;
    first = λ j low high. absurd (omega arith);
  })
  | inl taken ↦
      let rest = first_free-Found fuel (i + 1) used (ground arith) in
      rw taken (record {
        index = rest.index;
        named = rest.named;
        start = omega (arith, rest.start);
        free = rest.free;
        first = λ j low high. elim (dec_lt i j) [
          | yes lt ↦ rest.first j (omega arith) high
          | no ge ↦ let same : i ≡ j = omega arith in rw (← same) taken
        ];
      })
]

interface_name_ne : (i j : ℕ) → i < j → interface_name i ≢ interface_name j
interface_name_ne i j h e =
    absurd
      (omega (arith, decimal_injective i j (append_cancel (bytes "wg") (decimal i) (decimal j) e)))

names_from_fresh : (n i k : ℕ) → i < k → All (λ y. interface_name i ≢ y) (names_from n k)
unfolding names_from
names_from_fresh zero i k h = tt
names_from_fresh (suc n) i k h =
    (interface_name_ne i k h, names_from_fresh n i (k + 1) (omega arith))

names_from-NoRepeat : (n i : ℕ) → NoRepeat (names_from n i)
unfolding names_from
names_from-NoRepeat zero i = tt
names_from-NoRepeat (suc n) i =
    (names_from_fresh n i (i + 1) (omega arith), names_from-NoRepeat n (i + 1))

length-names_from : (n i : ℕ) → length (names_from n i) ≡ n
unfolding names_from
length-names_from zero i = refl
length-names_from (suc n) i = ap suc (length-names_from n (i + 1))

abbrev interfaces : List Network → List Str
interfaces = map (λ (n : Network). n.interface)

length-interfaces : (ns : List Network) → length (interfaces ns) ≡ length ns
length-interfaces [] = refl
length-interfaces (n ∷ ns) = ap suc (length-interfaces ns)

has_interface-Member :
    (name : Str) (ns : List Network) → has_interface name ns ≡ true → Member name (interfaces ns)
unfolding has_interface
has_interface-Member name [] h = cc
has_interface-Member name (n ∷ ns) h = elim (Bool-cases (str_eq n.interface name)) [
  | inl e ↦ inl ((str_eq_iff n.interface name).0 e)
  | inr e ↦ inr (has_interface-Member name ns (ground arith))
]

-- The names that the map has are those of the networks.
is_taken_eq :
    (name : Str) (ns : List Network) → is_taken (used_names ns []) name ≡ has_interface name ns
is_taken_eq name ns =
    is_taken-used_names name ns []
    ∙ (let empty : is_taken [] name ≡ false = unfold is_taken in unfold lookup in refl in
        ground arith)

all_taken-Member :
    (n i : ℕ) (ns : List Network)
    → all_taken n i (used_names ns []) ≡ true
    → (name : Str) → Member name (names_from n i)
    → Member name (interfaces ns)
unfolding all_taken names_from
all_taken-Member zero i ns h name m = absurd m
all_taken-Member (suc n) i ns h name (inl e) =
    subst (λ s. Member s (interfaces ns)) e
      (has_interface-Member (interface_name i) ns
        (ground (arith, is_taken_eq (interface_name i) ns)))
all_taken-Member (suc n) i ns h name (inr m) = all_taken-Member n (i + 1) ns (ground arith) name m

-- Not every round can find its name taken: there are more rounds than networks.
some_free : (ns : List Network) → all_taken (length ns + 1) 0 (used_names ns []) ≡ false
some_free ns = elim (Bool-cases (all_taken (length ns + 1) 0 (used_names ns []))) [
  | inr e ↦ e
  | inl e ↦
      let n = length ns + 1 in
      absurd (
        omega (
          arith,
          length-names_from n 0,
          length-interfaces ns,
          length-NoRepeat (names_from n 0) (interfaces ns) (names_from-NoRepeat n 0)
              (all_taken-Member n 0 ns e),
        ))
]

-- The loop ends, although it has no bound of its own: it finds a name wgN that no network has, and
-- each name before it is taken.
pub next_interface_name-least :
    (ns : List Network) (j : ℕ)
    → (i : ℕ) × (next_interface_name ns ≡ interface_name i)
      × (has_interface (interface_name i) ns ≡ false)
      × ((if ltb j i then has_interface (interface_name j) ns else true) ≡ true)
unfolding next_interface_name
next_interface_name-least ns j =
    let used = used_names ns [] in
    let f = first_free-Found (length ns + 1) 0 used (some_free ns) in
    let free = is_taken_eq (interface_name f.index) ns in
    (
      f.index,
      f.named,
      sym free ∙ ap (is_taken used) (sym f.named) ∙ f.free,
      elim (Bool-cases (ltb j f.index)) [
        | inl e ↦
            rw e (
              sym (is_taken_eq (interface_name j) ns)
              ∙ f.first j (omega arith) (ltb→lt j f.index e))
        | inr e ↦ rw e refl
      ],
    )

-- The name is one that no network has.
pub next_interface_name_fresh :
    (ns : List Network) → has_interface (next_interface_name ns) ns ≡ false
next_interface_name_fresh ns =
    let (i, named, free, _) = next_interface_name-least ns 0 in
    ap (λ s. has_interface s ns) named ∙ free
