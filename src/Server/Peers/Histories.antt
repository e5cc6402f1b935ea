-- ===== src/Server/Peers/Histories.antt =====
-- No two peers of a network lease the same address, whatever requests come.
use wgpilot.Base.{
  ℕ, ◌≡◌, ◌≢◌, refl, sym, subst, false, Option, none, some, List, [], ◌∷◌, ◌++◌, Str, All, Member,
}
use wgpilot.Base.Int.{ℤ}
use wgpilot.IpAlloc.Fresh.{elem}
use wgpilot.Wg.Types.{Outcome, ok, err}
use wgpilot.Server.Types.{Network, Bridge, Peer, Database, Env, Server}
use wgpilot.Server.Handlers.{answer}
use wgpilot.Server.Stored.{peers_of, replace_peer_row, remove_peer_row, remove_peers_of}
use wgpilot.Server.Requests.{Request, to_networks, to_bridges, to_peers, handler, serve}
use wgpilot.Server.Keeps.{Safe, answer_Safe}
use wgpilot.Server.Frames.{network_handler-Safe}
use wgpilot.Server.Bridges.Frames.{bridge_handler-Safe}
use wgpilot.Server.Peers.Validate.{CreatePeerRequest}
use wgpilot.Server.Peers.Lease.{lease, used_ips}
use wgpilot.Server.Peers.Handlers.{new_peer}
use wgpilot.Server.Peers.Frames.{peer_handler-Safe}
use wgpilot.Server.Peers.Free.{ReadsAddresses, lease_free}
use wgpilot.Server.Peers.Address.{leased_address-server_allowed_ips}
use wgpilot.Server.Peers.Leased.{
  Leased, keys, keys-append_last, Leased-new, Leased-replace_peer_row, Leased-remove_peer_row,
  Leased-remove_peers_of,
}

-- What the handlers rely on: the database has a list of peers. The queries answer from the list. An
-- insertion adds the row with a new identifier, an update and a deletion change the rows with the
-- identifier, and a change that fails changes nothing. The peers of a network are deleted with it,
-- and no other change of networks and bridges reaches them.
pub record StoredPeers (D : Database) : Type 0 where
  pub peers : D.Db → List Peer
  pub listed :
      (i : ℕ) (d : D.Db) (ps : List Peer)
      → D.list_peers_by_network_id i d ≡ ok ps
      → ps ≡ peers_of i (peers d)
  pub got : (i : ℕ) (d : D.Db) (p : Peer) → D.get_peer_by_id i d ≡ ok (some p) → Member p (peers d)
  pub inserted :
      (p : Peer) (d : D.Db) (i : ℕ)
      → (D.create_peer p d).0 ≡ ok i
      → (peers (D.create_peer p d).1 ≡ peers d ++ (record p { id = i } ∷ []))
        × All (λ (q : Peer). q.id ≢ i) (peers d)
  pub refused :
      (p : Peer) (d : D.Db) (e : Str)
      → (D.create_peer p d).0 ≡ err e
      → peers (D.create_peer p d).1 ≡ peers d
  pub updated :
      (p : Peer) (d : D.Db)
      → peers (D.update_peer p d).1
        ≡ elim (D.update_peer p d).0 [ none ↦ replace_peer_row p (peers d) | some e ↦ peers d ]
  pub deleted :
      (i : ℕ) (d : D.Db)
      → peers (D.delete_peer i d).1
        ≡ elim (D.delete_peer i d).0 [ none ↦ remove_peer_row i (peers d) | some e ↦ peers d ]
  pub cascaded :
      (i : ℕ) (d : D.Db)
      → peers (D.delete_network i d).1
        ≡ elim (D.delete_network i d).0 [ none ↦ remove_peers_of i (peers d) | some e ↦ peers d ]
  pub network_created : (n : Network) (d : D.Db) → peers (D.create_network n d).1 ≡ peers d
  pub network_updated : (n : Network) (d : D.Db) → peers (D.update_network n d).1 ≡ peers d
  pub linked : (b : Bridge) (d : D.Db) → peers (D.create_bridge b d).1 ≡ peers d
  pub relinked : (b : Bridge) (d : D.Db) → peers (D.update_bridge b d).1 ≡ peers d
  pub unlinked : (i : ℕ) (d : D.Db) → peers (D.delete_bridge i d).1 ≡ peers d

module _ (E : Env) (S : StoredPeers E.database) (R : ReadsAddresses E.parsers) where
  InLeases : E.database.Db → Type 0
  InLeases d = Leased (keys E.parsers (S.peers d))

  same : (d d' : E.database.Db) → S.peers d' ≡ S.peers d → InLeases d → InLeases d'
  unfolding InLeases
  same d d' e l = subst (λ ps. Leased (keys E.parsers ps)) (sym e) l

  -- A change of the peers whose result hangs on how it ended.
  kept :
      {X : Type 0} (d d' : E.database.Db) (e : Option X) (after : List Peer)
      → S.peers d' ≡ elim e [ none ↦ after | some x ↦ S.peers d ]
      → (Leased (keys E.parsers (S.peers d)) → Leased (keys E.parsers after))
      → InLeases d
      → InLeases d'
  unfolding InLeases
  kept d d' none after e h l = subst (λ ps. Leased (keys E.parsers ps)) (sym e) (h l)
  kept d d' (some x) after e h l = subst (λ ps. Leased (keys E.parsers ps)) (sym e) l

  stored :
      (n : Network) (req : CreatePeerRequest) (i ip : ℕ) (ps : List Peer) (pair : Str × Str)
      (shared : Str) (t : Option ℤ) (d : E.database.Db) (r : Outcome Str ℕ)
      → (E.database.create_peer (new_peer i req ip pair shared t) d).0 ≡ r
      → E.database.list_peers_by_network_id i d ≡ ok ps
      → lease E.parsers n ps ≡ ok ip
      → InLeases d
      → InLeases (E.database.create_peer (new_peer i req ip pair shared t) d).1
  unfolding InLeases
  stored n req i ip ps pair shared t d (err x) e list l h =
      subst (λ qs. Leased (keys E.parsers qs)) (sym (S.refused _ d x e)) h
  stored n req i ip ps pair shared t d (ok id) e list l h =
      let free = lease_free E.parsers R n ps ip l in
      let row = S.inserted _ d id e in
      let key = leased_address-server_allowed_ips E.parsers R ip req free.1 in
      subst (λ qs. Leased (keys E.parsers qs)) (sym row.0)
        (subst Leased (sym (keys-append_last E.parsers (S.peers d) _)) (
          subst (λ o. Leased (keys E.parsers (S.peers d) ++ ((id, (i, o)) ∷ []))) (sym key)
            (Leased-new E.parsers i id ip (S.peers d) row.1
              (subst (λ qs. elem ip (used_ips E.parsers qs) ≡ false) (S.listed i d ps list) free.0)
              h)))

  handler-Safe : (r : Request) → Safe E InLeases (handler E r)
  unfolding handler
  handler-Safe (to_networks r) =
      network_handler-Safe E InLeases
        (record {
          created = λ n d. same d _ (S.network_created n d);
          updated = λ n d. same d _ (S.network_updated n d);
          deleted =
              λ i d. kept d _ _ _ (S.cascaded i d) (Leased-remove_peers_of E.parsers i (S.peers d));
        })
        r
  handler-Safe (to_bridges r) =
      bridge_handler-Safe E InLeases
        (record {
          created = λ b d differ free. same d _ (S.linked b d);
          updated = λ b d. same d _ (S.relinked b d);
          deleted = λ i d. same d _ (S.unlinked i d);
        })
        r
  handler-Safe (to_peers r) =
      peer_handler-Safe E InLeases
        (record {
          created = λ n req i ip ps pair shared t d list l.
              stored n req i ip ps pair shared t d _ refl list l;
          updated = λ i p q d g e f.
              kept d _ _ _ (S.updated q d)
                (Leased-replace_peer_row E.parsers (S.peers d) p q (S.got i d p g) e f);
          deleted =
              λ i d. kept d _ _ _ (S.deleted i d) (Leased-remove_peer_row E.parsers i (S.peers d));
        })
        r

-- Over a database that stores peers as `StoredPeers` says and a ParseCIDR that reads IPv4
-- addresses, whatever requests for networks, bridges and peers come, and whatever calls of the
-- database, of the firewall or of WireGuard fail: if the peers of the database have distinct
-- identifiers, and no two of one network lease the same address, then so it is after the requests.
-- A peer leases the address of the first part of its allowed IPs.
pub serve-Leased :
    (E : Env) (S : StoredPeers E.database)
    → ReadsAddresses E.parsers
    → (rs : List Request) (s : Server E) → Leased (keys E.parsers (S.peers s.db))
    → Leased (keys E.parsers (S.peers (serve E rs s).db))
unfolding serve InLeases
serve-Leased E S R [] s l = l
serve-Leased E S R (r ∷ rs) s l =
    serve-Leased E S R rs (answer (handler E r) s).1
      (answer_Safe E (InLeases E S R) (handler E r) s (handler-Safe E S R r) l)
