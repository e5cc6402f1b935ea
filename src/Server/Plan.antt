-- ===== src/Server/Plan.antt =====
-- What the networks of the database claim: an identifier, an interface, a port and a subnet each.
-- The handlers of internal/server/routes_networks.go keep these claims apart.
pub mod Rows
pub mod Safe
pub mod Histories
mod Tests
use wgpilot.Base.{
  ℕ, ◌≤◌, ◌≡◌, refl, sym, ap, ◌∙◌, ◌≢◌, Bool, true, false, Option, none, some, List, [], ◌∷◌, ◌++◌,
  map, Str, str_eq, str_eq_iff, if◌then◌else◌, arith, All, Member, inl, inr, Bool-cases, ◌==◌,
  ==_iff,
}
use wgpilot.IpAlloc.{Subnet, contains}
use wgpilot.Wg.Nets.{Net, v4}
use wgpilot.Server.Types.{Network, Ip, ip4, Parsers}
use wgpilot.Server.Stored.{replace_row, remove_row}
use wgpilot.Server.Validate.{is_valid_private_cidr}
use wgpilot.Server.Validate.Private.{accepted_cidr}
use wgpilot.Server.Subnets.{overlaps, overlaps_iff}
use wgpilot.Server.Names.{has_interface}
use wgpilot.Server.Networks.{has_conflict, conflicts, port_taken}

pub record Claim : Type 0 where
  pub id : ℕ
  pub interface : Str
  pub listen_port : ℕ
  pub subnet : Str

abbrev pub claim : Network → Claim
claim n = record {
  id = n.id;
  interface = n.interface;
  listen_port = n.listen_port;
  subnet = n.subnet;
}

abbrev pub claims : List Network → List Claim
claims = map claim

module _ (P : Parsers) where
  -- No address is in both of the networks that the texts name.
  abbrev pub Disjoint : Str → Str → Type 0
  Disjoint s t =
      (u v : Ip) (a b : Subnet) (x : ℕ)
      → P.parse_cidr s ≡ some (u, v4 a)
      → P.parse_cidr t ≡ some (v, v4 b)
      → contains a x ≡ true
      → contains b x ≡ false

  pub record Apart (c d : Claim) : Type 0 where
    pub ids : c.id ≢ d.id
    pub interfaces : c.interface ≢ d.interface
    pub ports : c.listen_port ≢ d.listen_port
    pub subnets : Disjoint c.subnet d.subnet

  pub record Fits (c : Claim) : Type 0 where
    pub private : is_valid_private_cidr P c.subnet ≡ true
    pub low : 1024 ≤ c.listen_port
    pub high : c.listen_port ≤ 65535

  -- Each claim fits, and any two are apart.
  abbrev pub Planned : List Claim → Type 0
  Planned [] = Unit
  Planned (c ∷ cs) = Fits c × All (Apart c) cs × Planned cs

  pub Planned-append :
      (cs : List Claim) (d : Claim)
      → Planned cs
      → All (λ c. Apart c d) cs
      → Fits d
      → Planned (cs ++ d ∷ [])
  Planned-append [] d p h f = (f, tt, tt)
  Planned-append (c ∷ cs) d (fc, ac, pc) (h, hs) f = (fc, extend cs ac, Planned-append cs d pc hs f)
    where
      extend : (l : List Claim) → All (Apart c) l → All (Apart c) (l ++ d ∷ [])
      extend [] a = (h, tt)
      extend (e ∷ l) (a, later) = (a, extend l later)

module _ (P : Parsers) where
  remove_row-Apart :
      (c : Claim) (i : ℕ) (rs : List Network)
      → All (Apart P c) (claims rs)
      → All (Apart P c) (claims (remove_row i rs))
  remove_row-Apart c i [] a = tt
  remove_row-Apart c i (r ∷ rs) (a, later) = elim (Bool-cases (r.id == i)) [
    | inl e ↦ rw e (remove_row-Apart c i rs later)
    | inr e ↦ rw e (a, remove_row-Apart c i rs later)
  ]

  pub remove_row-Planned :
      (i : ℕ) (rs : List Network) → Planned P (claims rs) → Planned P (claims (remove_row i rs))
  remove_row-Planned i [] p = tt
  remove_row-Planned i (r ∷ rs) (f, a, p) = elim (Bool-cases (r.id == i)) [
    | inl e ↦ rw e (remove_row-Planned i rs p)
    | inr e ↦ rw e (f, remove_row-Apart (claim r) i rs a, remove_row-Planned i rs p)
  ]

  All-Apart-ids :
      (c : Claim) (rs : List Network) (n : Network)
      → All (Apart P c) (claims rs)
      → Member n rs
      → c.id ≢ n.id
  All-Apart-ids c [] n a m h = absurd m
  All-Apart-ids c (r ∷ rs) n (a, later) (inl e) h = a.ids (h ∙ ap (λ (v : Network). v.id) (sym e))
  All-Apart-ids c (r ∷ rs) n (a, later) (inr m) h = All-Apart-ids c rs n later m h

  replace_absent :
      (m : Network) (c : Claim) (rs : List Network)
      → c.id ≡ m.id
      → All (Apart P c) (claims rs)
      → claims (replace_row m rs) ≡ claims rs
  replace_absent m c [] e a = refl
  replace_absent m c (r ∷ rs) e (a, later) = elim (Bool-cases (r.id == m.id)) [
    | inl same ↦ absurd (a.ids (e ∙ sym ((==_iff r.id m.id).0 same)))
    | inr other ↦ rw other (ap (λ l. claim r ∷ l) (replace_absent m c rs e later))
  ]

  -- A row that claims the same as one that is there replaces that one.
  pub claims-replace_row :
      (m n : Network) (rs : List Network)
      → Planned P (claims rs)
      → Member n rs
      → claim m ≡ claim n
      → claims (replace_row m rs) ≡ claims rs
  claims-replace_row m n [] p h e = refl
  claims-replace_row m n (r ∷ rs) (f, a, p) (inl same) e =
      let alike : claim m ≡ claim r = e ∙ ap claim (sym same) in
      ap2 (ground arith) (replace_absent m (claim r) rs (ap (λ (c : Claim). c.id) (sym alike)) a)
    where
      ap2 : {c d : Claim} {k l : List Claim} → c ≡ d → k ≡ l → (c ∷ k) ≡ (d ∷ l)
      ap2 p q = cc
  claims-replace_row m n (r ∷ rs) (f, a, p) (inr h) e =
      let differ = All-Apart-ids (claim r) rs n a h in
      let other : (r.id == m.id) ≡ false = elim (Bool-cases (r.id == m.id)) [
        | inl s ↦ absurd (differ ((==_iff r.id m.id).0 s ∙ ap (λ (c : Claim). c.id) e))
        | inr o ↦ o
      ] in
      rw other (ap (λ l. claim r ∷ l) (claims-replace_row m n rs p h e))

  conflict_later :
      (a : Net) (n : Network) (ns : List Network)
      → has_conflict P a (n ∷ ns) ≡ false
      → has_conflict P a ns ≡ false
  unfolding has_conflict
  conflict_later a n ns h = after (P.parse_cidr n.subnet) h
    where
      after :
          (r : Option (Ip × Net))
          → (elim r [
            | none ↦ has_conflict P a ns
            | some v ↦ if overlaps a v.1 then true else has_conflict P a ns
          ])
            ≡ false
          → has_conflict P a ns ≡ false
      after none e = e
      after (some (ip, net)) e = ground arith

  conflict_first :
      (s : Str) (w : Ip) (c : Subnet) (n : Network) (ns : List Network)
      → P.parse_cidr s ≡ some (w, v4 c)
      → has_conflict P (v4 c) (n ∷ ns) ≡ false
      → Disjoint P n.subnet s
  unfolding has_conflict
  conflict_first s w c n ns e h u v a b x pn ps inside = elim (Bool-cases (contains b x)) [
    | inr out ↦ out
    | inl both ↦
        let same : c ≡ b = ground arith in
        let meets : overlaps (v4 b) (v4 a) ≡ true = (overlaps_iff b a).1 (x, both, inside) in
        ground arith
  ]

  -- A subnet without a conflict shares no address with a subnet of the list.
  pub no_conflict :
      (s : Str) (w : Ip) (c : Subnet) (ns : List Network)
      → P.parse_cidr s ≡ some (w, v4 c)
      → has_conflict P (v4 c) ns ≡ false
      → All (λ (d : Claim). Disjoint P d.subnet s) (claims ns)
  no_conflict s w c [] e h = tt
  no_conflict s w c (n ∷ ns) e h =
      (conflict_first s w c n ns e h, no_conflict s w c ns e (conflict_later (v4 c) n ns h))

  abbrev pub FreeOf : (c : Claim) → List Network → Type 0
  FreeOf c ns =
      All (λ (d : Claim). Disjoint P d.subnet c.subnet) (claims ns)
      × (has_interface c.interface ns ≡ false)
      × (port_taken c.listen_port ns ≡ false)
      × All (λ (n : Network). n.id ≢ c.id) ns

  pub FreeOf-Apart :
      (c : Claim) (ns : List Network) → FreeOf c ns → All (λ d. Apart P d c) (claims ns)
  unfolding has_interface port_taken
  FreeOf-Apart c [] h = tt
  FreeOf-Apart c (n ∷ ns) ((d, ds), i, p, (k, ks)) = (
    record {
      ids = k;
      interfaces = λ e. ground (arith, str_eq_iff n.interface c.interface);
      ports = λ e. ground (arith, ==_iff n.listen_port c.listen_port);
      subnets = d;
    },
    FreeOf-Apart c ns (ds, ground arith, ground arith, ks),
  )
