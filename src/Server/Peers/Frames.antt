-- ===== src/Server/Peers/Frames.antt =====
-- The peer handlers keep an invariant of the database that their changes, made after the checks of
-- the handlers, do not break.
use wgpilot.Base.{
  ℕ, ◌≡◌, refl, sym, subst, Option, none, some, List, Str, if◌then◌else◌, ◌==◌, Bool-cases, inl,
  inr,
}
use wgpilot.Base.Int.{ℤ}
use wgpilot.Wg.Types.{Outcome, ok, err}
use wgpilot.Wg.Manager.{remove_peer}
use wgpilot.Server.Types.{Network, Peer, peer_not_found, Reply, failed, Env, Server}
use wgpilot.Server.Handlers.{internal_error, wireguard, decoded}
use wgpilot.Server.Peers.Validate.{CreatePeerRequest, UpdatePeerRequest}
use wgpilot.Server.Peers.Lease.{lease}
use wgpilot.Server.Peers.Handlers.{
  new_peer, changed_peer, find_peer, store_peer, build_peer, write_peer, switch_on, switch_off,
  handle_create_peer, handle_update_peer, handle_delete_peer, handle_enable_peer,
  handle_disable_peer,
}
use wgpilot.Server.Requests.{
  PeerRequest, add, change_peer, remove, enable_peer, disable_peer, peer_handler,
}
use wgpilot.Server.Steps.{
  decoded-Quiet, done-Quiet, when-Quiet, reject_invalid-Quiet, wireguard_quiet,
}
use wgpilot.Server.Keeps.{
  Holds, Keeps, Safe, change-Keeps, change-Safe, bind-Keeps, pass_then, pass_end, either_Keeps,
  query-Keeps,
}
use wgpilot.Server.Quiet.{wire, wire_quietly, find_network-Quiet, draw_keys-Quiet}
use wgpilot.Server.Peers.Quiet.{
  network_of-Quiet, fetch_peer-Quiet, fetch_peer_or-Quiet, draw_preshared_key-Quiet, read_now-Quiet,
}

module _ (E : Env) (I : E.database.Db → Type 0) where
  -- No change of the peers breaks the invariant, if a new one has a leased address, and if an
  -- update leaves a peer its identifier and its allowed IPs.
  pub record KeptByPeers : Type 0 where
    pub created :
        (n : Network) (req : CreatePeerRequest) (i ip : ℕ) (ps : List Peer) (keys : Str × Str)
        (shared : Str) (t : Option ℤ) (d : E.database.Db)
        → E.database.list_peers_by_network_id i d ≡ ok ps
        → lease E.parsers n ps ≡ ok ip
        → I d
        → I (E.database.create_peer (new_peer i req ip keys shared t) d).1
    pub updated :
        (i : ℕ) (p q : Peer) (d : E.database.Db)
        → E.database.get_peer_by_id i d ≡ ok (some p)
        → q.id ≡ p.id
        → q.allowed_ips ≡ p.allowed_ips
        → I d
        → I (E.database.update_peer q d).1
    pub deleted : (i : ℕ) (d : E.database.Db) → I d → I (E.database.delete_peer i d).1

  decoded-Keeps :
      {A : Type 0} {Pre : E.database.Db → Type 0} (r : Outcome Reply A)
      → Keeps E I Pre (decoded r) (λ a d. Pre d × (r ≡ ok a))
  unfolding decoded
  decoded-Keeps (ok a) = record { keeps = λ s i pre. (i, (pre, refl)) }
  decoded-Keeps (err x) = record { keeps = λ s i pre. i }

  abbrev Got : ℕ → Peer → E.database.Db → Type 0
  Got i p d = E.database.get_peer_by_id i d ≡ ok (some p)

  find_peer-Keeps : (network_id i : ℕ) → Keeps E I (λ d. Unit) (find_peer E network_id i) (Got i)
  unfolding find_peer
  find_peer-Keeps network_id i = record {
    keeps = λ s h pre. after s (E.database.get_peer_by_id i s.db) refl h;
  }
    where
      after :
          (s : Server E) (r : Outcome Str (Option Peer))
          → E.database.get_peer_by_id i s.db ≡ r
          → I s.db
          → let v : Outcome Reply Peer × Server E = elim r [
            | err e ↦ (err internal_error, s)
            | ok q ↦ elim q [
              | none ↦ (err (failed 404 peer_not_found), s)
              | some p ↦
                  if p.network_id == network_id
                  then (ok p, s)
                  else (err (failed 404 peer_not_found), s)
            ]
          ] in
            Holds E I {A = Peer} (Got i) v.0 v.1.db
      after s (err x) e h = h
      after s (ok none) e h = h
      after s (ok (some p)) e h = elim (Bool-cases (p.network_id == network_id)) [
        | inl b ↦ rw b (h, e)
        | inr b ↦ rw b h
      ]

module _ (E : Env) (I : E.database.Db → Type 0) (K : KeptByPeers E I) where
  abbrev Leases : Network → ℕ → List Peer → ℕ → E.database.Db → Type 0
  Leases n i ps ip d =
      (E.database.list_peers_by_network_id i d ≡ ok ps) × (lease E.parsers n ps ≡ ok ip)

  store_peer-Keeps :
      (n m : Network) (p : Peer) (Pre : E.database.Db → Type 0)
      → ((d : E.database.Db) → Pre d → I d → I (E.database.create_peer p d).1)
      → Keeps E I Pre (store_peer E n p) (λ i d. Unit)
  unfolding store_peer
  store_peer-Keeps n m p Pre k = record {
    keeps = λ s i pre.
        after s (E.database.create_peer p s.db).0 (E.database.create_peer p s.db).1 (k s.db pre i);
  }
    where
      after :
          (s : Server E) (r : Outcome Str ℕ) (d : E.database.Db)
          → I d
          → let s' : Server E = record s { db = d } in
            let v : Outcome Reply ℕ × Server E = elim r [
              | ok id ↦ (ok id, s')
              | err x ↦ (
                err internal_error,
                (wireguard (remove_peer E.host n.interface p.public_key) s').1,
              )
            ] in
            Holds E I {A = ℕ} (λ a e. Unit) v.0 v.1.db
      after s (ok id) d i = (i, tt)
      after s (err x) d i =
          subst I
            (sym (
              wireguard_quiet E (remove_peer E.host n.interface p.public_key)
                (record s { db = d })))
            i

  build_peer-Keeps :
      (n : Network) (p : Peer) (Pre : E.database.Db → Type 0)
      → ((d : E.database.Db) → Pre d → I d → I (E.database.create_peer p d).1)
      → Keeps E I Pre (build_peer E n p) (λ a d. Unit)
  unfolding build_peer
  build_peer-Keeps n p Pre k = pass_then E I (wire E _ _) (λ _.
      bind-Keeps E I (store_peer-Keeps n n p Pre k)
        (λ id. pass_then E I (fetch_peer-Quiet E id) (λ _. pass_end E I (done-Quiet E _))))

  create-Safe :
      (path : Outcome Reply ℕ) (body : Outcome Reply CreatePeerRequest)
      → Safe E I (handle_create_peer E path body)
  unfolding handle_create_peer
  create-Safe path body = pass_then E I (decoded-Quiet E path) (λ id.
      pass_then E I (decoded-Quiet E body) (λ req. pass_then E I (reject_invalid-Quiet E _) (λ _.
        pass_then E I (find_network-Quiet E id) (λ n. bind-Keeps E I (query-Keeps E I _) (λ ps.
          bind-Keeps E I (decoded-Keeps E I (lease E.parsers n ps)) (λ ip.
            pass_then E I (draw_keys-Quiet E) (λ keys.
              pass_then E I (draw_preshared_key-Quiet E) (λ shared.
                pass_then E I (read_now-Quiet E) (λ now. pass_then E I (decoded-Quiet E _) (λ t.
                  build_peer-Keeps n _ _
                    (λ d pre i. K.created n req id ip ps keys shared t d pre.0.1 pre.1 i)))))))))))

  write_peer-Keeps :
      (i : ℕ) (n : Network) (p q : Peer)
      → q.id ≡ p.id
      → q.allowed_ips ≡ p.allowed_ips
      → Keeps E I (Got E I i p) (write_peer E i n q) (λ a d. Unit)
  unfolding write_peer
  write_peer-Keeps i n p q e f = pass_then E I (wire E _ _) (λ _.
      bind-Keeps E I (change-Keeps E I _ _ (λ d got h. K.updated i p q d got e f h))
        (λ _. pass_then E I (fetch_peer-Quiet E i) (λ _. pass_end E I (done-Quiet E _))))

  update-Safe :
      (path peer_path : Outcome Reply ℕ) (body : Outcome Reply UpdatePeerRequest)
      → Safe E I (handle_update_peer E path peer_path body)
  unfolding handle_update_peer
  update-Safe path peer_path body = pass_then E I (decoded-Quiet E path) (λ network_id.
      pass_then E I (decoded-Quiet E peer_path) (λ id. pass_then E I (decoded-Quiet E body) (λ req.
        pass_then E I (reject_invalid-Quiet E _) (λ _.
          bind-Keeps E I (find_peer-Keeps E I network_id id) (λ p.
            pass_then E I (network_of-Quiet E network_id) (λ n.
              pass_then E I (read_now-Quiet E) (λ now.
                pass_then E I (decoded-Quiet E _)
                  (λ t. write_peer-Keeps id n p (changed_peer req t p) refl refl))))))))

  delete-Safe : (path peer_path : Outcome Reply ℕ) → Safe E I (handle_delete_peer E path peer_path)
  unfolding handle_delete_peer
  delete-Safe path peer_path = pass_then E I (decoded-Quiet E path) (λ network_id.
      pass_then E I (decoded-Quiet E peer_path) (λ id.
        bind-Keeps E I (find_peer-Keeps E I network_id id) (λ p.
          pass_then E I (network_of-Quiet E network_id) (λ n. pass_then E I (wire_quietly E _) (λ _.
            bind-Keeps E I (change-Safe E I _ _ (K.deleted id))
              (λ _. pass_end E I (done-Quiet E _)))))))

  switch_on-Keeps :
      (network_id i : ℕ) (p : Peer)
      → Keeps E I (Got E I i p) (switch_on E network_id i p) (λ a d. Unit)
  unfolding switch_on
  switch_on-Keeps network_id i p = pass_then E I (network_of-Quiet E network_id) (λ n.
      bind-Keeps E I (change-Keeps E I _ _ (λ d got h. K.updated i p _ d got refl refl h)) (λ _.
        pass_then E I (when-Quiet E n.enabled _ (wire_quietly E _))
          (λ _. pass_then E I (fetch_peer_or-Quiet E i _) (λ _. pass_end E I (done-Quiet E _)))))

  switch_off-Keeps :
      (network_id i : ℕ) (p : Peer)
      → Keeps E I (Got E I i p) (switch_off E network_id i p) (λ a d. Unit)
  unfolding switch_off
  switch_off-Keeps network_id i p = pass_then E I (network_of-Quiet E network_id) (λ n.
      bind-Keeps E I (change-Keeps E I _ _ (λ d got h. K.updated i p _ d got refl refl h)) (λ _.
        pass_then E I (when-Quiet E n.enabled _ (wire_quietly E _))
          (λ _. pass_then E I (fetch_peer_or-Quiet E i _) (λ _. pass_end E I (done-Quiet E _)))))

  enable-Safe : (path peer_path : Outcome Reply ℕ) → Safe E I (handle_enable_peer E path peer_path)
  unfolding handle_enable_peer
  enable-Safe path peer_path = pass_then E I (decoded-Quiet E path) (λ network_id.
      pass_then E I (decoded-Quiet E peer_path) (λ id.
        bind-Keeps E I (find_peer-Keeps E I network_id id) (λ p.
          either_Keeps E I p.enabled (pass_end E I (done-Quiet E _))
            (switch_on-Keeps network_id id p))))

  disable-Safe :
      (path peer_path : Outcome Reply ℕ) → Safe E I (handle_disable_peer E path peer_path)
  unfolding handle_disable_peer
  disable-Safe path peer_path = pass_then E I (decoded-Quiet E path) (λ network_id.
      pass_then E I (decoded-Quiet E peer_path) (λ id.
        bind-Keeps E I (find_peer-Keeps E I network_id id) (λ p.
          either_Keeps E I p.enabled (switch_off-Keeps network_id id p)
            (pass_end E I (done-Quiet E _)))))

  pub peer_handler-Safe : (r : PeerRequest) → Safe E I (peer_handler E r)
  unfolding peer_handler
  peer_handler-Safe (add path body) = create-Safe path body
  peer_handler-Safe (change_peer path peer_path body) = update-Safe path peer_path body
  peer_handler-Safe (remove path peer_path) = delete-Safe path peer_path
  peer_handler-Safe (enable_peer path peer_path) = enable-Safe path peer_path
  peer_handler-Safe (disable_peer path peer_path) = disable-Safe path peer_path
