-- ===== src/Wg/Nets/Matching.antt =====
-- What a match of allowedIPsMatch of internal/wg/reconcile.go means.
use wgpilot.Base.{
  suc, ◌≡◌, refl, ap, inl, inr, ◌↔◌, subst, arith, true, some, List, [], ◌∷◌, map, Str, str_eq,
  str_eq_iff, Member, length, Bool-cases,
}
use wgpilot.Base.Dict.{lookup, lookup-insert}
use wgpilot.Wg.Nets.{
  Net, NetText, net_string, string_set, in_set, all_in, nets_match, parse_allowed_ips,
  allowed_ips_match,
}
use wgpilot.Base.Distinct.{NoRepeat, pigeonhole}

module _ (T : NetText) where
  abbrev pub texts : List Net → List Str
  texts = map (net_string T)

  length-texts : (ns : List Net) → length (texts ns) ≡ length ns
  length-texts [] = refl
  length-texts (n ∷ ns) = ap suc (length-texts ns)

  in_set_sound :
      (ns : List Net) (n : Net)
      → in_set T (string_set T ns) n ≡ true
      → Member (net_string T n) (texts ns)
  unfolding in_set string_set
  in_set_sound [] n h = unfold lookup in cc
  in_set_sound (k ∷ ns) n h = elim (Bool-cases (str_eq (net_string T k) (net_string T n))) [
    | inl same ↦ inl ((str_eq_iff _ _).0 same)
    | inr other ↦ inr (
        in_set_sound ns n
          (ground (arith, lookup-insert (net_string T k) (net_string T n) true (string_set T ns))))
  ]

  in_set_complete :
      (ns : List Net) (n : Net)
      → Member (net_string T n) (texts ns)
      → in_set T (string_set T ns) n ≡ true
  unfolding in_set string_set
  in_set_complete [] n m = absurd m
  in_set_complete (k ∷ ns) n (inl e) = ground (
    arith,
    str_eq_iff (net_string T k) (net_string T n),
    lookup-insert (net_string T k) (net_string T n) true (string_set T ns),
  )
  in_set_complete (k ∷ ns) n (inr m) = ground (
    arith,
    in_set_complete ns n m,
    lookup-insert (net_string T k) (net_string T n) true (string_set T ns),
  )

  all_in_sound :
      (db kernel : List Net)
      → all_in T db (string_set T kernel) ≡ true
      → (a : Str) → Member a (texts db)
      → Member a (texts kernel)
  unfolding all_in
  all_in_sound [] kernel h a m = absurd m
  all_in_sound (n ∷ db) kernel h a (inl e) =
      subst (λ s. Member s (texts kernel)) e (in_set_sound kernel n (ground arith))
  all_in_sound (n ∷ db) kernel h a (inr m) = all_in_sound db kernel (ground arith) a m

  all_in_complete :
      (db kernel : List Net)
      → ((a : Str) → Member a (texts db) → Member a (texts kernel))
      → all_in T db (string_set T kernel) ≡ true
  unfolding all_in
  all_in_complete [] kernel h = refl
  all_in_complete (n ∷ db) kernel h = ground (
    arith,
    in_set_complete kernel n (h (net_string T n) (inl refl)),
    all_in_complete db kernel (λ a m. h a (inr m)),
  )

-- If the list of the database repeats no network, a match means that the two lists have the same
-- networks and as many, and only such lists match.
pub match_iff :
    (T : NetText) (s : Str) (db kernel : List Net)
    → parse_allowed_ips T s ≡ some db
    → NoRepeat (texts T db)
    → (allowed_ips_match T s kernel ≡ true) ↔ (
        (length db ≡ length kernel)
        × ((a : Str) → Member a (texts T db) ↔ Member a (texts T kernel)))
unfolding allowed_ips_match nets_match
match_iff T s db kernel read n = (to, from)
  where
    to :
        allowed_ips_match T s kernel ≡ true
        → (length db ≡ length kernel)
          × ((a : Str) → Member a (texts T db) ↔ Member a (texts T kernel))
    to h =
        let same : length db ≡ length kernel = ground arith in
        let sub = all_in_sound T db kernel (ground arith) in
        (
          same,
          λ a. (
            sub a,
            pigeonhole (texts T db) (texts T kernel) n sub
                (omega (arith, length-texts T db, length-texts T kernel)) a,
          ),
        )

    from :
        (length db ≡ length kernel)
          × ((a : Str) → Member a (texts T db) ↔ Member a (texts T kernel))
        → allowed_ips_match T s kernel ≡ true
    from (same, h) = ground (arith, all_in_complete T db kernel (λ a m. (h a).0 m))

-- A list of the database that names one network twice matches a kernel list that has it beside
-- any other network.
pub match_repeated :
    (T : NetText) (s : Str) (a b : Net)
    → parse_allowed_ips T s ≡ some (a ∷ a ∷ [])
    → allowed_ips_match T s (a ∷ b ∷ []) ≡ true
unfolding allowed_ips_match nets_match all_in
match_repeated T s a b read = ground (arith, in_set_complete T (a ∷ b ∷ []) a (inl refl))

-- The parsed list matches the text that it was parsed from.
pub allowed_ips_match_self :
    (T : NetText) (s : Str) (db : List Net)
    → parse_allowed_ips T s ≡ some db
    → allowed_ips_match T s db ≡ true
unfolding allowed_ips_match nets_match
allowed_ips_match_self T s db read = ground (arith, all_in_complete T db db (λ a m. m))
