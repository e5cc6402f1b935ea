-- ===== src/Server/Peers/Leased.antt =====
-- Rows of peers of which no two of a network lease the same address, and what changes of rows keep
-- so.
use wgpilot.Base.{
  ℕ, ◌≡◌, ◌≢◌, refl, sym, ap, subst, ◌∙◌, false, Option, some, List, [], ◌∷◌, ◌++◌, All, All-append,
  Member, inl, inr, arith, Bool-cases, ◌==◌, map, ==_iff,
}
use wgpilot.Server.Types.{Parsers, Peer}
use wgpilot.Server.Stored.{peers_of, replace_peer_row, remove_peer_row, remove_peers_of}
use wgpilot.IpAlloc.Fresh.{elem}
use wgpilot.Server.Peers.Lease.{used_ips}
use wgpilot.Server.Peers.Address.{leased_address, elem-used_ips}

-- The identifier of a peer, its network and the address that it leases.
abbrev pub Key : Type 0
Key = ℕ × (ℕ × Option ℕ)

-- The identifiers differ, and within a network the addresses.
abbrev pub Differs : Key → Key → Type 0
Differs k l = (k.0 ≢ l.0) × ((a : ℕ) → k.1.0 ≡ l.1.0 → k.1.1 ≡ some a → l.1.1 ≢ some a)

abbrev pub Leased : List Key → Type 0
Leased [] = Unit
Leased (k ∷ ks) = All (Differs k) ks × Leased ks

Leased-append_last :
    (ks : List Key) (l : Key) → Leased ks → All (λ k. Differs k l) ks → Leased (ks ++ (l ∷ []))
Leased-append_last [] l h d = (tt, tt)
Leased-append_last (k ∷ ks) l h d =
    (All-append (Differs k) ks (l ∷ []) h.0 (d.0, tt), Leased-append_last ks l h.1 d.1)

All_by_Member :
    {A : Type 0} {Q : A → Type 0} (xs : List A) → ((a : A) → Member a xs → Q a) → All Q xs
All_by_Member [] h = tt
All_by_Member (x ∷ xs) h = (h x (inl refl), All_by_Member xs (λ a m. h a (inr m)))

module _ (P : Parsers) where
  abbrev pub key : Peer → Key
  key p = (p.id, (p.network_id, leased_address P p.allowed_ips))

  abbrev pub keys : List Peer → List Key
  keys ps = map key ps

  pub keys-append_last :
      (ps : List Peer) (p : Peer) → keys (ps ++ (p ∷ [])) ≡ keys ps ++ (key p ∷ [])
  keys-append_last [] p = refl
  keys-append_last (q ∷ qs) p = ap (key q ∷◌) (keys-append_last qs p)

  -- A row that is replaced keeps its key.
  keys-replace_peer_row :
      (p : Peer) (rows : List Peer)
      → All
          (λ (r : Peer).
            r.id ≡ p.id → leased_address P r.allowed_ips ≡ leased_address P p.allowed_ips)
          rows
      → keys (replace_peer_row p rows) ≡ keys rows
  keys-replace_peer_row p [] h = refl
  keys-replace_peer_row p (r ∷ rs) h = elim (Bool-cases (r.id == p.id)) [
    | inl e ↦ rw e (
        (let same = (==_iff r.id p.id).0 e in
          ap
            (λ i.
              (i, (r.network_id, leased_address P p.allowed_ips)) ∷ keys (replace_peer_row p rs))
            (sym same)
          ∙ ap (λ o. (r.id, (r.network_id, o)) ∷ keys (replace_peer_row p rs)) (sym (h.0 same)))
        ∙ ap (key r ∷◌) (keys-replace_peer_row p rs h.1))
    | inr e ↦ rw e (ap (key r ∷◌) (keys-replace_peer_row p rs h.1))
  ]

  Differs-remove_peer_row :
      (k : Key) (i : ℕ) (rows : List Peer)
      → All (Differs k) (keys rows)
      → All (Differs k) (keys (remove_peer_row i rows))
  Differs-remove_peer_row k i [] h = tt
  Differs-remove_peer_row k i (r ∷ rs) h = elim (Bool-cases (r.id == i)) [
    | inl e ↦ rw e (Differs-remove_peer_row k i rs h.1)
    | inr e ↦ rw e (h.0, Differs-remove_peer_row k i rs h.1)
  ]

  pub Leased-remove_peer_row :
      (i : ℕ) (rows : List Peer) → Leased (keys rows) → Leased (keys (remove_peer_row i rows))
  Leased-remove_peer_row i [] h = tt
  Leased-remove_peer_row i (r ∷ rs) h = elim (Bool-cases (r.id == i)) [
    | inl e ↦ rw e (Leased-remove_peer_row i rs h.1)
    | inr e ↦ rw e (Differs-remove_peer_row (key r) i rs h.0, Leased-remove_peer_row i rs h.1)
  ]

  Member-peers_of :
      (i : ℕ) (rows : List Peer) (r : Peer)
      → Member r rows
      → r.network_id ≡ i
      → Member r (peers_of i rows)
  Member-peers_of i [] r m e = m
  Member-peers_of i (q ∷ qs) r (inl m) e =
      rw ((==_iff q.network_id i).1 (ap (λ (t : Peer). t.network_id) m ∙ e)) (inl m)
  Member-peers_of i (q ∷ qs) r (inr m) e = elim (Bool-cases (q.network_id == i)) [
    | inl b ↦ rw b (inr (Member-peers_of i qs r m e))
    | inr b ↦ rw b (Member-peers_of i qs r m e)
  ]

  Differs-listed :
      (i id ip : ℕ) (rows ps : List Peer)
      → ((r : Peer) → Member r rows → r.network_id ≡ i → Member r ps)
      → All (λ (r : Peer). r.id ≢ id) rows
      → elem ip (used_ips P ps) ≡ false
      → All (λ k. Differs k (id, (i, some ip))) (keys rows)
  Differs-listed i id ip [] ps m new h = tt
  Differs-listed i id ip (r ∷ rs) ps m new h = (
    (new.0, λ a e f g. ground (arith, elem-used_ips P ps r a (m r (inl refl) e) f, h, g)),
    Differs-listed i id ip rs ps (λ q n. m q (inr n)) new.1 h,
  )

  -- An address that no listed peer uses is no row's of the network.
  pub Leased-new :
      (i id ip : ℕ) (rows : List Peer)
      → All (λ (r : Peer). r.id ≢ id) rows
      → elem ip (used_ips P (peers_of i rows)) ≡ false
      → Leased (keys rows)
      → Leased (keys rows ++ ((id, (i, some ip)) ∷ []))
  Leased-new i id ip rows new h l =
      Leased-append_last (keys rows) _ l (
        Differs-listed i id ip rows (peers_of i rows) (λ r m e. Member-peers_of i rows r m e) new h)

  ids_differ :
      (r : Peer) (rows : List Peer) (q : Peer)
      → All (Differs (key r)) (keys rows)
      → Member q rows
      → r.id ≢ q.id
  ids_differ r [] q h m e = m
  ids_differ r (t ∷ ts) q h (inl m) e = h.0.0 (e ∙ ap (λ (u : Peer). u.id) (sym m))
  ids_differ r (t ∷ ts) q h (inr m) e = ids_differ r ts q h.1 m e

  -- Rows with one identifier are one row.
  row_determined :
      (rows : List Peer) (p q : Peer)
      → Leased (keys rows)
      → Member p rows
      → Member q rows
      → p.id ≡ q.id
      → p ≡ q
  row_determined [] p q l m n e = absurd m
  row_determined (r ∷ rs) p q l (inl m) (inl n) e = sym m ∙ n
  row_determined (r ∷ rs) p q l (inl m) (inr n) e =
      absurd (ids_differ r rs q l.0 n (ap (λ (u : Peer). u.id) m ∙ e))
  row_determined (r ∷ rs) p q l (inr m) (inl n) e =
      absurd (ids_differ r rs p l.0 m (ap (λ (u : Peer). u.id) n ∙ sym e))
  row_determined (r ∷ rs) p q l (inr m) (inr n) e = row_determined rs p q l.1 m n e

  pub Leased-replace_peer_row :
      (rows : List Peer) (p q : Peer)
      → Member p rows
      → q.id ≡ p.id
      → q.allowed_ips ≡ p.allowed_ips
      → Leased (keys rows)
      → Leased (keys (replace_peer_row q rows))
  Leased-replace_peer_row rows p q m e f l =
      subst Leased
        (sym (
          keys-replace_peer_row q rows (
            All_by_Member rows (λ r n g.
              ap (λ (u : Peer). leased_address P u.allowed_ips)
                (row_determined rows r p l n m (g ∙ e))
              ∙ ap (leased_address P) (sym f)))))
        l

  Differs-remove_peers_of :
      (k : Key) (i : ℕ) (rows : List Peer)
      → All (Differs k) (keys rows)
      → All (Differs k) (keys (remove_peers_of i rows))
  Differs-remove_peers_of k i [] h = tt
  Differs-remove_peers_of k i (r ∷ rs) h = elim (Bool-cases (r.network_id == i)) [
    | inl e ↦ rw e (Differs-remove_peers_of k i rs h.1)
    | inr e ↦ rw e (h.0, Differs-remove_peers_of k i rs h.1)
  ]

  pub Leased-remove_peers_of :
      (i : ℕ) (rows : List Peer) → Leased (keys rows) → Leased (keys (remove_peers_of i rows))
  Leased-remove_peers_of i [] h = tt
  Leased-remove_peers_of i (r ∷ rs) h = elim (Bool-cases (r.network_id == i)) [
    | inl e ↦ rw e (Leased-remove_peers_of i rs h.1)
    | inr e ↦ rw e (Differs-remove_peers_of (key r) i rs h.0, Leased-remove_peers_of i rs h.1)
  ]
