-- ===== src/Server/Peers/Handlers.antt =====
-- The handlers of internal/server/routes_peers.go that change peers, and the one that writes the
-- file of a peer. A moment that is added to is not bounded.
use wgpilot.Base.{
  ℕ, suc, ◌+◌, ◌-◌, true, false, Option, none, some, [], ◌∷◌, Str, bytes, if◌then◌else◌, ltb, ◌==◌,
}
use wgpilot.Base.Int.{ℤ, pos, negsuc}
use wgpilot.Wg.Types.{Outcome, ok, err}
use wgpilot.Wg.Manager.{add_peer, update_peer, remove_peer}
use wgpilot.Server.Types.{
  Network, Peer, Parsers, network_not_found, peer_not_found, peer_add_failed, Reply, peer,
  no_content, failed, invalid, Env,
}
use wgpilot.Server.Handlers.{
  internal_error, Handler, ◌>>=◌, ◌>>◌, done, decoded, reject_invalid, when, query, must, ignore,
  nothing, change, wireguard, find_network,
}
use wgpilot.Server.Networks.{peer_config, draw_keys}
use wgpilot.Server.Bridges.{or_else}
use wgpilot.Server.Peers.Validate.{
  CreatePeerRequest, UpdatePeerRequest, validate_create_peer, validate_update_peer,
}
use wgpilot.Server.Peers.Lease.{lease, server_allowed_ips}

-- `time.Now().Add(d)`.
abbrev pub later : ℕ → ℤ → ℤ
later now (pos d) = pos (now + d)
later now (negsuc d) = if ltb d now then pos (now - suc d) else negsuc (d - now)

-- The value of an `int` that has been checked not to be negative.
abbrev pub natural : ℤ → ℕ
natural (pos n) = n
natural (negsuc n) = 0

-- The moment that `expires_in` names, `none` for an empty text.
unfoldable pub expiry : Parsers → ℕ → Str → Outcome Reply (Option ℤ)
expiry P now [] = ok none
expiry P now (c ∷ s) = elim (P.parse_duration (c ∷ s)) [
  | none ↦ err (invalid (bytes "expires_in" ∷ []))
  | some d ↦ ok (some (later now d))
]

-- The row of the request; the database gives the identifier.
abbrev pub new_peer : ℕ → CreatePeerRequest → ℕ → Str × Str → Str → Option ℤ → Peer
new_peer network_id req ip keys shared expires_at = record {
  id = 0;
  network_id = network_id;
  name = req.name;
  email = req.email;
  private_key = keys.0;
  public_key = keys.1;
  preshared_key = shared;
  allowed_ips = server_allowed_ips ip req;
  endpoint = [];
  persistent_keepalive = natural req.persistent_keepalive;
  role = req.role;
  site_networks = req.site_networks;
  enabled = true;
  expires_at = expires_at;
}

abbrev pub changed_keepalive : Option ℤ → ℕ → ℕ
changed_keepalive none old = old
changed_keepalive (some i) old = natural i

abbrev pub changed_peer : UpdatePeerRequest → Option ℤ → Peer → Peer
changed_peer req expires_at p = record p {
  name = or_else req.name p.name;
  email = or_else req.email p.email;
  enabled = or_else req.enabled p.enabled;
  persistent_keepalive = changed_keepalive req.persistent_keepalive p.persistent_keepalive;
  endpoint = or_else req.endpoint p.endpoint;
  expires_at = expires_at;
}

-- The moment after an update: a field that is left out keeps it, and an empty text clears it.
unfoldable pub changed_expiry : Parsers → ℕ → Option Str → Option ℤ → Outcome Reply (Option ℤ)
unfolding expiry
changed_expiry P now none old = ok old
changed_expiry P now (some s) old = expiry P now s

module _ (E : Env) where
  -- The peer of the path, which must be of the network of the path.
  unfoldable pub find_peer : ℕ → ℕ → Handler E Peer
  find_peer network_id id s = elim (E.database.get_peer_by_id id s.db) [
    | err e ↦ (err internal_error, s)
    | ok r ↦ elim r [
      | none ↦ (err (failed 404 peer_not_found), s)
      | some p ↦
          if p.network_id == network_id then (ok p, s) else (err (failed 404 peer_not_found), s)
    ]
  ]

  -- The network of the path; an error is answered like a missing one.
  unfoldable pub network_of : ℕ → Handler E Network
  network_of id s = elim (E.database.get_network_by_id id s.db) [
    | err e ↦ (err (failed 404 network_not_found), s)
    | ok r ↦ elim r [ none ↦ (err (failed 404 network_not_found), s) | some n ↦ (ok n, s) ]
  ]

  -- The row that was just written; that it is missing is an internal error.
  unfoldable pub fetch_peer : ℕ → Handler E Peer
  fetch_peer id s = elim (E.database.get_peer_by_id id s.db) [
    | err e ↦ (err internal_error, s)
    | ok r ↦ elim r [ none ↦ (err internal_error, s) | some p ↦ (ok p, s) ]
  ]

  -- The row that was just written, or the value that was written.
  unfoldable pub fetch_peer_or : ℕ → Peer → Handler E Peer
  fetch_peer_or id p s = elim (E.database.get_peer_by_id id s.db) [
    | err e ↦ (ok p, s)
    | ok r ↦ elim r [ none ↦ (ok p, s) | some q ↦ (ok q, s) ]
  ]

  unfoldable pub draw_preshared_key : Handler E Str
  draw_preshared_key s =
      let (r, seed) = E.generate_preshared_key s.seed in
      elim r [
        | ok key ↦ (ok key, record s { seed = seed })
        | err e ↦ (err internal_error, record s { seed = seed })
      ]

  unfoldable pub read_now : Handler E ℕ
  read_now s = (ok (E.now s.seed), s)

  -- A peer that cannot be stored is removed from the interface again.
  unfoldable pub store_peer : Network → Peer → Handler E ℕ
  store_peer n p s =
      let (r, db) = E.database.create_peer p s.db in
      elim r [
        | ok id ↦ (ok id, record s { db = db })
        | err e ↦ (
          err internal_error,
          (wireguard (remove_peer E.host n.interface p.public_key) (record s { db = db })).1,
        )
      ]

  unfoldable pub build_peer : Network → Peer → Handler E Reply
  build_peer n p = do
    must (wireguard (add_peer E.host n.interface (peer_config p))) nothing
        (failed 500 peer_add_failed)
    id ← store_peer n p
    created ← fetch_peer id
    done (peer 201 created)

  unfoldable pub handle_create_peer :
      Outcome Reply ℕ → Outcome Reply CreatePeerRequest → Handler E Reply
  handle_create_peer path body = do
    id ← decoded path
    req ← decoded body
    reject_invalid (validate_create_peer E.parsers req)
    n ← find_network id
    ps ← query (E.database.list_peers_by_network_id id)
    ip ← decoded (lease E.parsers n ps)
    keys ← draw_keys E
    shared ← draw_preshared_key
    now ← read_now
    expires_at ← decoded (expiry E.parsers now req.expires_in)
    build_peer n (new_peer id req ip keys shared expires_at)

  unfoldable pub handle_get_peer : Outcome Reply ℕ → Outcome Reply ℕ → Handler E Reply
  handle_get_peer path peer_path = do
    network_id ← decoded path
    id ← decoded peer_path
    p ← find_peer network_id id
    done (peer 200 p)

  unfoldable pub write_peer : ℕ → Network → Peer → Handler E Reply
  write_peer id n p = do
    must
        (wireguard
          (update_peer E.host n.interface (record (peer_config p) { enabled = p.enabled })))
        nothing internal_error
    must (change (E.database.update_peer p)) nothing internal_error
    updated ← fetch_peer id
    done (peer 200 updated)

  unfoldable pub handle_update_peer :
      Outcome Reply ℕ → Outcome Reply ℕ → Outcome Reply UpdatePeerRequest → Handler E Reply
  handle_update_peer path peer_path body = do
    network_id ← decoded path
    id ← decoded peer_path
    req ← decoded body
    reject_invalid (validate_update_peer E.parsers req)
    p ← find_peer network_id id
    n ← network_of network_id
    now ← read_now
    expires_at ← decoded (changed_expiry E.parsers now req.expires_in p.expires_at)
    write_peer id n (changed_peer req expires_at p)

  unfoldable pub handle_delete_peer : Outcome Reply ℕ → Outcome Reply ℕ → Handler E Reply
  handle_delete_peer path peer_path = do
    network_id ← decoded path
    id ← decoded peer_path
    p ← find_peer network_id id
    n ← network_of network_id
    ignore (wireguard (remove_peer E.host n.interface p.public_key))
    must (change (E.database.delete_peer id)) nothing internal_error
    done no_content

  unfoldable pub switch_on : ℕ → ℕ → Peer → Handler E Reply
  switch_on network_id id p = do
    n ← network_of network_id
    must (change (E.database.update_peer (record p { enabled = true }))) nothing internal_error
    when n.enabled (ignore (wireguard (add_peer E.host n.interface (peer_config p))))
    updated ← fetch_peer_or id (record p { enabled = true })
    done (peer 200 updated)

  unfoldable pub handle_enable_peer : Outcome Reply ℕ → Outcome Reply ℕ → Handler E Reply
  handle_enable_peer path peer_path = do
    network_id ← decoded path
    id ← decoded peer_path
    p ← find_peer network_id id
    (if p.enabled then done (peer 200 p) else switch_on network_id id p)

  unfoldable pub switch_off : ℕ → ℕ → Peer → Handler E Reply
  switch_off network_id id p = do
    n ← network_of network_id
    must (change (E.database.update_peer (record p { enabled = false }))) nothing internal_error
    when n.enabled (ignore (wireguard (remove_peer E.host n.interface p.public_key)))
    updated ← fetch_peer_or id (record p { enabled = false })
    done (peer 200 updated)

  unfoldable pub handle_disable_peer : Outcome Reply ℕ → Outcome Reply ℕ → Handler E Reply
  handle_disable_peer path peer_path = do
    network_id ← decoded path
    id ← decoded peer_path
    p ← find_peer network_id id
    (if p.enabled then switch_off network_id id p else done (peer 200 p))
