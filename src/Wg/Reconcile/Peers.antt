-- ===== src/Wg/Reconcile/Peers.antt =====
-- The peers of an interface after syncPeers (internal/wg/reconcile.go).
use wgpilot.Base.{
  ◌≡◌, refl, sym, ap, subst, ◌∙◌, Bool, true, false, Option, none, some, List, [], ◌∷◌, Str, str_eq,
  str_eq_iff, arith, Member, Bool-cases, Option-cases, inl, inr, ◌⊎◌,
}
use wgpilot.Base.Dict.{Dict, lookup}
use wgpilot.Wg.Types.{WgPeerInfo, DeviceInfo, PeerConfig, Host}
use wgpilot.Wg.Nets.{Net}
use wgpilot.Wg.Manager.{remove_config}
use wgpilot.Wg.Manager.Peers.{Loses, sent, Peered, Accepts}
use wgpilot.Wg.Reconcile.{
  sync_each, remove_orphan, remove_orphans, sync_peers, kernel_peers, db_peer_keys,
}
use wgpilot.Wg.Reconcile.Sent.{remove-sent}
use wgpilot.Wg.Reconcile.Keys.{
  db_peer, DistinctKeys, has_key, snapshot, lookup-db_peer_keys, lookup-kernel_peers,
  db_peer-Member, db_peer-other,
}
use wgpilot.Wg.Reconcile.Turns.{
  Wants, Follows, Wants-Loses, Parsed, Unshared, Acceptable, turns_of_others, sync_each-ready,
  sync_each-Wants,
}

module _ (H : Host) (P : Peered H) (i : Str) where
  orphan_removed :
      (keys : Dict Bool) (q : WgPeerInfo) (w : H.World)
      → lookup q.public_key keys ≡ none
      → remove_orphan H i keys q w ≡ sent H i (remove_config q.public_key) w
  unfolding remove_orphan
  orphan_removed keys q w e = rw (e, remove_orphan) (remove-sent H i q.public_key w)

  orphan_passed :
      (keys : Dict Bool) (q : WgPeerInfo) (w : H.World) (b : Bool)
      → lookup q.public_key keys ≡ some b
      → remove_orphan H i keys q w ≡ w
  unfolding remove_orphan
  orphan_passed keys q w b e = rw (e, remove_orphan) refl

  -- The kernel accepts the removal of the peers that the device showed.
  abbrev pub Removable : List WgPeerInfo → Type 0
  Removable qs = (q : WgPeerInfo) → Member q qs → Accepts H P i (remove_config q.public_key)

  orphan-ready :
      (keys : Dict Bool) (q : WgPeerInfo) (w : H.World)
      → P.ready i w
      → P.ready i (remove_orphan H i keys q w)
  orphan-ready keys q w here = elim (Option-cases (lookup q.public_key keys)) [
    | inl e ↦ subst (P.ready i) (sym (orphan_removed keys q w e)) (P.stays i _ w here)
    | inr (b, e) ↦ subst (P.ready i) (sym (orphan_passed keys q w b e)) here
  ]

  -- One orphan, for a key that is not its own.
  orphan_other :
      (Q : Option (List Net) → Type 0) (keys : Dict Bool) (q : WgPeerInfo) (k : Str) (w : H.World)
      → str_eq q.public_key k ≡ false
      → P.ready i w
      → Accepts H P i (remove_config q.public_key)
      → ((v v' : Option (List Net)) → Loses H.text [] v v' → Q v → Q v')
      → Q (P.peer i k w)
      → Q (P.peer i k (remove_orphan H i keys q w))
  orphan_other Q keys q k w other here ok stable h =
      elim (Option-cases (lookup q.public_key keys)) [
        | inl e ↦
            subst (λ v. Q (P.peer i k v)) (sym (orphan_removed keys q w e))
              (stable _ _ (P.others i k (remove_config q.public_key) w other (ok w here)) h)
        | inr (b, e) ↦ subst (λ v. Q (P.peer i k v)) (sym (orphan_passed keys q w b e)) h
      ]

  -- The orphans leave a peer of the database alone.
  remove_orphans-keep :
      (Q : Option (List Net) → Type 0) (keys : Dict Bool) (qs : List WgPeerInfo) (k : Str)
      (b : Bool) (w : H.World)
      → lookup k keys ≡ some b
      → P.ready i w
      → Removable qs
      → ((v v' : Option (List Net)) → Loses H.text [] v v' → Q v → Q v')
      → Q (P.peer i k w)
      → Q (P.peer i k (remove_orphans H i keys qs w))
  unfolding remove_orphans
  remove_orphans-keep Q keys [] k b w e here ok stable h = h
  remove_orphans-keep Q keys (q ∷ qs) k b w e here ok stable h =
      remove_orphans-keep Q keys qs k b (remove_orphan H i keys q w) e (orphan-ready keys q w here)
        (λ r m. ok r (inr m)) stable
        (elim (Bool-cases (str_eq q.public_key k)) [
          | inl same ↦
              subst (λ v. Q (P.peer i k v))
                (sym (
                  orphan_passed keys q w b
                    (ap (λ j. lookup j keys) ((str_eq_iff q.public_key k).0 same) ∙ e)))
                h
          | inr other ↦ orphan_other Q keys q k w other here (ok q (inl refl)) stable h
        ])

  -- A key that the database does not have is gone, if the device showed it or it was away.
  remove_orphans-gone :
      (keys : Dict Bool) (qs : List WgPeerInfo) (k : Str) (w : H.World)
      → lookup k keys ≡ none
      → P.ready i w
      → Removable qs
      → (has_key k qs ≡ true) ⊎ (P.peer i k w ≡ none)
      → P.peer i k (remove_orphans H i keys qs w) ≡ none
  unfolding remove_orphans has_key
  remove_orphans-gone keys [] k w e here ok (inl h) = absurd (ground arith)
  remove_orphans-gone keys [] k w e here ok (inr h) = h
  remove_orphans-gone keys (q ∷ qs) k w e here ok o =
      let w' = remove_orphan H i keys q w in
      remove_orphans-gone keys qs k w' e (orphan-ready keys q w here) (λ r m. ok r (inr m))
        (elim (Bool-cases (str_eq q.public_key k)) [
          | inl same ↦
              let key = (str_eq_iff q.public_key k).0 same in
              inr (
                subst (λ j. P.peer i j w' ≡ none) key
                  (ap (P.peer i q.public_key)
                      (orphan_removed keys q w (ap (λ j. lookup j keys) key ∙ e))
                    ∙ P.named i (remove_config q.public_key) w refl tt (ok q (inl refl) w here)))
          | inr other ↦ elim o [
            | inl h ↦ inl (ground arith)
            | inr h ↦ inr (
                orphan_other (λ v. v ≡ none) keys q k w other here (ok q (inl refl)) (λ v v' l. l.0)
                  h)
          ]
        ])

  -- The device that was read before shows the peers of the interface; without one, it has none.
  abbrev pub Shown : Option DeviceInfo → H.World → Type 0
  Shown none w = (k : Str) → P.peer i k w ≡ none
  Shown (some d) w = (k : Str) → P.peer i k w ≡ snapshot k (kernel_peers d.peers [])

  abbrev pub shown_peers : Option DeviceInfo → List WgPeerInfo
  shown_peers none = []
  shown_peers (some d) = d.peers

  -- A peer of the database is as the database wants it, and any other key has no peer.
  abbrev pub Synced : Option PeerConfig → Option (List Net) → Type 0
  Synced none v = v ≡ none
  Synced (some p) v = Wants H p.enabled p.allowed_ips v

  Follows-same :
      (b : Bool) (nets : List Net) (old v : Option (List Net)) → v ≡ old → Follows H b nets old v
  Follows-same b nets none v e = e
  Follows-same b nets (some ips) v e = (ips, e, λ on within. refl)

  -- The keys that the database does not have stay away during the turns.
  away :
      (known : Dict WgPeerInfo) (ps : List PeerConfig) (k : Str) (w : H.World)
      → Parsed H P i ps
      → Acceptable H P i ps
      → P.ready i w
      → db_peer k ps ≡ none
      → P.peer i k w ≡ none
      → P.peer i k (sync_each H i known ps w) ≡ none
  away known ps k w parsed ok here e h =
      turns_of_others H P i (λ v. v ≡ none) known ps k w parsed ok here
        (λ p m. db_peer-other k ps p e m) (λ p ns c v v' m re s l. l.0) h

  orphan_gone :
      (v : DeviceInfo) (ps : List PeerConfig) (w : H.World) (k : Str)
      → Parsed H P i ps
      → Acceptable H P i ps
      → Removable v.peers
      → P.ready i w
      → db_peer k ps ≡ none
      → Shown (some v) w
      → P.peer i k (
          remove_orphans H i
            (db_peer_keys ps [])
            v.peers
            (sync_each H i (kernel_peers v.peers []) ps w))
        ≡ none
  orphan_gone v ps w k parsed ok out here e shown =
      let known = kernel_peers v.peers [] in
      let unmarked : lookup {V = Bool} k [] ≡ none = unfold lookup in refl in
      let empty : lookup {V = WgPeerInfo} k [] ≡ none = unfold lookup in refl in
      remove_orphans-gone (db_peer_keys ps []) v.peers k (sync_each H i known ps w)
        (ground (arith, lookup-db_peer_keys k ps [])) (sync_each-ready H P i known ps w parsed here)
        out
        (elim (Bool-cases (has_key k v.peers)) [
          | inl there ↦ inl there
          | inr absent ↦ inr (
              away known ps k w parsed ok here e
                (ground (arith, shown k, lookup-kernel_peers k v.peers [] absent, empty)))
        ])

  wanted :
      (known : Dict WgPeerInfo) (ps : List PeerConfig) (w : H.World) (k : Str) (p : PeerConfig)
      → DistinctKeys ps
      → Parsed H P i ps
      → Unshared H P i ps
      → Acceptable H P i ps
      → P.ready i w
      → ((j : Str) → P.peer i j w ≡ snapshot j known)
      → db_peer k ps ≡ some p
      → Wants H p.enabled p.allowed_ips (P.peer i k (sync_each H i known ps w))
  wanted known ps w k p d parsed apart ok here shown e =
      let (m, key) = db_peer-Member k ps p e in
      subst (λ j. Wants H p.enabled p.allowed_ips (P.peer i j (sync_each H i known ps w))) key
        (sync_each-Wants H P i known ps w p d parsed apart ok here
          (λ q nets n re. Follows-same q.enabled nets _ _ (shown q.public_key)) m)

  -- If the kernel accepts what may be sent for the peers of the database and the removal of the
  -- peers on the device, the device read before shows the peers of the interface, and the database
  -- has distinct keys and allowed IPs that can be parsed, repeat no network, and are not shared by
  -- two enabled peers: then after syncPeers the interface has exactly the enabled peers of the
  -- database, each with allowed IPs that match the database's, and no peer under any other key.
  pub sync_peers-Synced :
      (dev : Option DeviceInfo) (ps : List PeerConfig) (w : H.World) (k : Str)
      → DistinctKeys ps
      → Parsed H P i ps
      → Unshared H P i ps
      → Acceptable H P i ps
      → Removable (shown_peers dev)
      → P.ready i w
      → Shown dev w
      → Synced (db_peer k ps) (P.peer i k (sync_peers H i dev ps w))
  unfolding sync_peers
  sync_peers-Synced none ps w k d parsed apart ok out here shown =
      elim (Option-cases (db_peer k ps)) [
        | inl e ↦ rw e (away [] ps k w parsed ok here e (shown k))
        | inr (p, e) ↦
            rw e (wanted [] ps w k p d parsed apart ok here (λ j. unfold lookup in shown j) e)
      ]
  sync_peers-Synced (some v) ps w k d parsed apart ok out here shown =
      let known = kernel_peers v.peers [] in
      elim (Option-cases (db_peer k ps)) [
        | inl e ↦ rw e (orphan_gone v ps w k parsed ok out here e shown)
        | inr (p, e) ↦
            let (m, key) = db_peer-Member k ps p e in
            let (nets, re, n) = parsed p m in
            rw e (
              remove_orphans-keep (Wants H p.enabled p.allowed_ips) (db_peer_keys ps []) v.peers k
                true (sync_each H i known ps w) (ground (arith, lookup-db_peer_keys k ps []))
                (sync_each-ready H P i known ps w parsed here) out
                (λ v v' l.
                  Wants-Loses H p.enabled p.allowed_ips nets [] v v' re n (λ _ a j. absurd j) l)
                (wanted known ps w k p d parsed apart ok here shown e))
      ]
