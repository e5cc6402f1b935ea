-- ===== src/Wg/Reconcile/Turns.antt =====
-- The turns that syncPeers (internal/wg/reconcile.go) gives to the peers of the database.
use wgpilot.Base.{
  ◌≡◌, refl, sym, ap, subst, ◌∙◌, Bool, true, false, Option, none, some, List, [], ◌∷◌, Str, str_eq,
  str_eq_iff, Member, Bool-cases, inl, inr, ◌≢◌,
}
use wgpilot.Base.Dict.{Dict, lookup}
use wgpilot.Base.Distinct.{NoRepeat}
use wgpilot.Wg.Types.{WgPeerConfig, WgPeerInfo, PeerConfig, Host}
use wgpilot.Wg.Nets.{Net, parse_allowed_ips, allowed_ips_match}
use wgpilot.Wg.Nets.Matching.{texts, match_iff}
use wgpilot.Wg.Manager.{remove_config}
use wgpilot.Wg.Manager.Peers.{
  add_config, Apart, Shows, Loses, sent, Peered, Accepts, configured_ips,
}
use wgpilot.Wg.Reconcile.{update_config, sync_peer, sync_each}
use wgpilot.Wg.Reconcile.Sent.{
  act, send, Sendable, removal, addition, change, sync_peer-act, sync_peer_cases, Sendable-key,
  Sendable-Apart,
}
use wgpilot.Wg.Reconcile.Keys.{DistinctKeys, snapshot}

module _ (H : Host) where
  -- What the database asks of the allowed IPs of a peer: no peer if it is disabled, else a list
  -- that matches the text of the database.
  abbrev pub Wants : Bool → Str → Option (List Net) → Type 0
  Wants false s v = v ≡ none
  Wants true s v = (nets : List Net) × (v ≡ some nets) × (allowed_ips_match H.text s nets ≡ true)

  -- A peer is still there, or still away, and an enabled one that had no other networks than the
  -- database's has them all.
  abbrev pub Follows : Bool → List Net → Option (List Net) → Option (List Net) → Type 0
  Follows b nets none v = v ≡ none
  Follows b nets (some ips) v =
      (left : List Net) × (v ≡ some left)
      × (b ≡ true
          → ((a : Str) → Member a (texts H.text ips) → Member a (texts H.text nets))
          → left ≡ ips)

  Follows-Loses :
      (b : Bool) (nets taken : List Net) (old v v' : Option (List Net))
      → (b ≡ true → Apart H.text taken nets)
      → Loses H.text taken v v'
      → Follows b nets old v
      → Follows b nets old v'
  Follows-Loses b nets taken none v v' apart l f = l.0 f
  Follows-Loses b nets taken (some ips) v v' apart l (left, e, same) =
      let (rest, r) = l.1 left e in
      (
        rest,
        r,
        λ on within.
            let eq : left ≡ ips = same on within in
            let kept : v' ≡ some left =
              l.2 left e (λ a m k.
                apart on a m (within a (subst (λ ns. Member a (texts H.text ns)) eq k))) in
            cc (r, kept, eq),
      )

  pub Wants-Loses :
      (b : Bool) (s : Str) (nets taken : List Net) (v v' : Option (List Net))
      → parse_allowed_ips H.text s ≡ some nets
      → NoRepeat (texts H.text nets)
      → (b ≡ true → Apart H.text taken nets)
      → Loses H.text taken v v'
      → Wants b s v
      → Wants b s v'
  Wants-Loses false s nets taken v v' e n apart l h = l.0 h
  Wants-Loses true s nets taken v v' e n apart l (ips, r, same) =
      let within = ((match_iff H.text s nets ips e n).0 same).1 in
      (ips, l.2 ips r (λ a m k. apart refl a m ((within a).1 k)), same)

module _ (H : Host) (P : Peered H) (i : Str) where
  -- The turn of a peer gives it what the database wants.
  own-Wants :
      (p : PeerConfig) (nets : List Net) (w : H.World)
      → parse_allowed_ips H.text p.allowed_ips ≡ some nets
      → NoRepeat (texts H.text nets)
      → P.ready i w
      → ((c : WgPeerConfig) → Sendable H p nets c → Accepts H P i c)
      → (b : Bool) → p.enabled ≡ b
      → (found : Option WgPeerInfo)
      → Follows H b nets
          (elim found [ none ↦ none | some q ↦ some q.allowed_ips ])
          (P.peer i p.public_key w)
      → Wants H b p.allowed_ips (P.peer i p.public_key (send H i (act H b p nets found) w))
  unfolding act
  own-Wants p nets w e n here ok false h none f = f
  own-Wants p nets w e n here ok false h (some q) f =
      P.named i (remove_config p.public_key) w refl tt (ok _ removal w here)
  own-Wants p nets w e n here ok true h none f =
      let (ips, r, same) = P.named i (add_config p nets) w refl n (ok _ (addition h) w here) in
      (ips, r, (match_iff H.text p.allowed_ips nets ips e n).1 same)
  own-Wants p nets w e n here ok true h (some q) (left, r, kept) =
      elim (Bool-cases (allowed_ips_match H.text p.allowed_ips q.allowed_ips)) [
        | inl same ↦
            let within = ((match_iff H.text p.allowed_ips nets q.allowed_ips e n).0 same).1 in
            rw same (q.allowed_ips, r ∙ ap (λ l. some l) (kept refl (λ a m. (within a).1 m)), same)
        | inr other ↦
            let shown : Shows H.text (some nets)
                (P.peer i p.public_key (sent H i (update_config p nets) w)) =
              subst
                (λ o.
                  Shows H.text (configured_ips (update_config p nets) o)
                    (P.peer i p.public_key (sent H i (update_config p nets) w)))
                r (P.named i (update_config p nets) w refl n (ok _ (change h) w here)) in
            let (ips, t, same) = shown in
            rw other (ips, t, (match_iff H.text p.allowed_ips nets ips e n).1 same)
      ]

  -- The turn of another peer.
  turn_of_another :
      (Q : Option (List Net) → Type 0) (known : Dict WgPeerInfo) (p : PeerConfig) (nets : List Net)
      (k : Str) (w : H.World)
      → parse_allowed_ips H.text p.allowed_ips ≡ some nets
      → str_eq p.public_key k ≡ false
      → P.ready i w
      → ((c : WgPeerConfig) → Sendable H p nets c → Accepts H P i c)
      → ((c : WgPeerConfig) (v v' : Option (List Net))
          → Sendable H p nets c
          → Loses H.text c.allowed_ips v v'
          → Q v
          → Q v')
      → Q (P.peer i k w)
      → Q (P.peer i k (sync_peer H i known p w))
  turn_of_another Q known p nets k w e other here ok stable q =
      sync_peer_cases H (λ w'. Q (P.peer i k w')) i known p w nets e q
        λ c s.
          stable c _ _ s
            (P.others i k c w (ap (λ j. str_eq j k) (Sendable-key H p nets c s) ∙ other)
              (ok c s w here))
            q

  turn-ready :
      (known : Dict WgPeerInfo) (p : PeerConfig) (nets : List Net) (w : H.World)
      → parse_allowed_ips H.text p.allowed_ips ≡ some nets
      → P.ready i w
      → P.ready i (sync_peer H i known p w)
  turn-ready known p nets w e here =
      sync_peer_cases H (P.ready i) i known p w nets e here λ c s. P.stays i c w here

  -- The text of each peer's allowed IPs can be parsed, and names no network twice.
  abbrev pub Parsed : List PeerConfig → Type 0
  Parsed ps =
      (p : PeerConfig)
      → Member p ps
      → (nets : List Net) × (parse_allowed_ips H.text p.allowed_ips ≡ some nets)
        × NoRepeat (texts H.text nets)

  -- No two enabled peers have a network in common.
  abbrev pub Unshared : List PeerConfig → Type 0
  Unshared ps =
      (p q : PeerConfig) (np nq : List Net)
      → Member p ps
      → Member q ps
      → p.public_key ≢ q.public_key
      → parse_allowed_ips H.text p.allowed_ips ≡ some np
      → parse_allowed_ips H.text q.allowed_ips ≡ some nq
      → p.enabled ≡ true
      → q.enabled ≡ true
      → Apart H.text np nq

  -- The kernel accepts what may be sent for the peers of the database.
  abbrev pub Acceptable : List PeerConfig → Type 0
  Acceptable ps =
      (p : PeerConfig) (nets : List Net) (c : WgPeerConfig)
      → Member p ps
      → parse_allowed_ips H.text p.allowed_ips ≡ some nets
      → Sendable H p nets c
      → Accepts H P i c

  -- The turns of peers with other keys.
  pub turns_of_others :
      (Q : Option (List Net) → Type 0) (known : Dict WgPeerInfo) (ps : List PeerConfig) (k : Str)
      (w : H.World)
      → Parsed ps
      → Acceptable ps
      → P.ready i w
      → ((p : PeerConfig) → Member p ps → str_eq p.public_key k ≡ false)
      → ((p : PeerConfig) (nets : List Net) (c : WgPeerConfig) (v v' : Option (List Net))
          → Member p ps
          → parse_allowed_ips H.text p.allowed_ips ≡ some nets
          → Sendable H p nets c
          → Loses H.text c.allowed_ips v v'
          → Q v
          → Q v')
      → Q (P.peer i k w)
      → Q (P.peer i k (sync_each H i known ps w))
  unfolding sync_each
  turns_of_others Q known [] k w parsed ok here others stable q = q
  turns_of_others Q known (p ∷ ps) k w parsed ok here others stable q =
      let (nets, e, n) = parsed p (inl refl) in
      turns_of_others Q known ps k (sync_peer H i known p w) (λ r m. parsed r (inr m))
        (λ r ns c m. ok r ns c (inr m)) (turn-ready known p nets w e here) (λ r m. others r (inr m))
        (λ r ns c v v' m. stable r ns c v v' (inr m))
        (turn_of_another Q known p nets k w e (others p (inl refl)) here
          (λ c. ok p nets c (inl refl) e) (λ c v v' s. stable p nets c v v' (inl refl) e s) q)

  pub sync_each-ready :
      (known : Dict WgPeerInfo) (ps : List PeerConfig) (w : H.World)
      → Parsed ps
      → P.ready i w
      → P.ready i (sync_each H i known ps w)
  unfolding sync_each
  sync_each-ready known [] w parsed here = here
  sync_each-ready known (p ∷ ps) w parsed here =
      let (nets, e, n) = parsed p (inl refl) in
      sync_each-ready known ps (sync_peer H i known p w) (λ r m. parsed r (inr m))
        (turn-ready known p nets w e here)

  -- Every peer whose turn is to come follows what the device showed of it.
  abbrev pub Waiting : Dict WgPeerInfo → List PeerConfig → H.World → Type 0
  Waiting known ps w =
      (p : PeerConfig) (nets : List Net)
      → Member p ps
      → parse_allowed_ips H.text p.allowed_ips ≡ some nets
      → Follows H p.enabled nets (snapshot p.public_key known) (P.peer i p.public_key w)

  differs :
      (p q : PeerConfig) → p.public_key ≢ q.public_key → str_eq p.public_key q.public_key ≡ false
  differs p q ne = elim (Bool-cases (str_eq p.public_key q.public_key)) [
    | inl same ↦ absurd (ne ((str_eq_iff p.public_key q.public_key).0 same))
    | inr other ↦ other
  ]

  pub sync_each-Wants :
      (known : Dict WgPeerInfo) (ps : List PeerConfig) (w : H.World) (q : PeerConfig)
      → DistinctKeys ps
      → Parsed ps
      → Unshared ps
      → Acceptable ps
      → P.ready i w
      → Waiting known ps w
      → Member q ps
      → Wants H q.enabled q.allowed_ips (P.peer i q.public_key (sync_each H i known ps w))
  unfolding sync_each
  sync_each-Wants known [] w q d parsed apart ok here wait m = absurd m
  sync_each-Wants known (p ∷ ps) w q (fresh, d) parsed apart ok here wait (inl same) =
      let (nets, e, n) = parsed p (inl refl) in
      let w' = sync_peer H i known p w in
      let own : Wants H p.enabled p.allowed_ips (P.peer i p.public_key w') =
        subst (λ v. Wants H p.enabled p.allowed_ips (P.peer i p.public_key v))
          (sym (sync_peer-act H i known p w nets e))
          (own-Wants p nets w e n here (λ c. ok p nets c (inl refl) e) p.enabled refl
            (lookup p.public_key known) (wait p nets (inl refl) e)) in
      subst
        (λ (r : PeerConfig).
          Wants H r.enabled r.allowed_ips (P.peer i r.public_key (sync_each H i known ps w')))
        same
        (turns_of_others (Wants H p.enabled p.allowed_ips) known ps p.public_key w'
          (λ r m. parsed r (inr m)) (λ r ns c m. ok r ns c (inr m))
          (turn-ready known p nets w e here) (λ r m. differs r p (λ eq. fresh r m (sym eq)))
          (λ r ns c v v' m re s l.
            Wants-Loses H p.enabled p.allowed_ips nets c.allowed_ips v v' e n
              (λ on. Sendable-Apart H r ns nets c s (λ ron.
                apart r p ns nets (inr m) (inl refl) (λ eq. fresh r m (sym eq)) re e ron on))
              l)
          own)
  sync_each-Wants known (p ∷ ps) w q (fresh, d) parsed apart ok here wait (inr m) =
      let (nets, e, n) = parsed p (inl refl) in
      sync_each-Wants known ps (sync_peer H i known p w) q d (λ r j. parsed r (inr j))
        (λ r t nr nt j k. apart r t nr nt (inr j) (inr k)) (λ r ns c j. ok r ns c (inr j))
        (turn-ready known p nets w e here)
        (λ r nr j re.
          turn_of_another (Follows H r.enabled nr (snapshot r.public_key known)) known p nets
            r.public_key w e (differs p r (fresh r j)) here (λ c. ok p nets c (inl refl) e)
            (λ c v v' s l.
              Follows-Loses H r.enabled nr c.allowed_ips (snapshot r.public_key known) v v'
                (λ ron.
                  Sendable-Apart H p nets nr c s
                    (λ on. apart p r nets nr (inl refl) (inr j) (fresh r j) e re on ron))
                l)
            (wait r nr (inr j) re))
        m
