-- ===== src/Server/Bridges.antt =====
-- The handlers of internal/server/routes_bridges.go that change bridges. A reply has the bridge
-- without the names of its networks.
pub mod Quiet
pub mod Frames
pub mod Pairs
mod Tests
use wgpilot.Base.{
  ℕ, Bool, true, false, not, Option, none, some, Str, bytes, str_eq, if◌then◌else◌, ◌==◌, ◌||◌,
}
use wgpilot.Wg.Types.{Outcome, ok, err}
use wgpilot.Nft.Manager.{add_bridge, remove_bridge}
use wgpilot.Server.Types.{
  Network, Bridge, validation, bridge_not_found, bridge_already_exists, bridge_self_reference,
  Reply, bridge, no_content, failed, Env, Server,
}
use wgpilot.Server.Handlers.{
  internal_error, Handler, ◌>>=◌, ◌>>◌, done, decoded, reject, when, query, must, ignore, nothing,
  change, firewall, find_network,
}

pub record CreateBridgeRequest : Type 0 where
  pub network_a_id : ℕ
  pub network_b_id : ℕ
  pub direction : Str
  pub allowed_cidrs : Str

-- `none` is a field that the request leaves out.
pub record UpdateBridgeRequest : Type 0 where
  pub direction : Option Str
  pub allowed_cidrs : Option Str
  pub enabled : Option Bool

unfoldable pub is_valid_direction : Str → Bool
is_valid_direction d =
    str_eq d (bytes "a_to_b") || (str_eq d (bytes "b_to_a") || str_eq d (bytes "bidirectional"))

-- The row of the request; the database gives the identifier.
abbrev pub new_bridge : CreateBridgeRequest → Bridge
new_bridge req = record {
  id = 0;
  network_a_id = req.network_a_id;
  network_b_id = req.network_b_id;
  direction = req.direction;
  allowed_cidrs = req.allowed_cidrs;
  enabled = true;
}

abbrev pub or_else : {A : Type 0} → Option A → A → A
or_else none a = a
or_else (some b) a = b

abbrev pub changed : UpdateBridgeRequest → Bridge → Bridge
changed req b = record b {
  direction = or_else req.direction b.direction;
  allowed_cidrs = or_else req.allowed_cidrs b.allowed_cidrs;
  enabled = or_else req.enabled b.enabled;
}

abbrev pub names_direction : UpdateBridgeRequest → Bool
names_direction req = elim req.direction [ none ↦ true | some d ↦ is_valid_direction d ]

module _ (E : Env) where
  unfoldable pub find_bridge : ℕ → Handler E Bridge
  find_bridge id s = elim (E.database.get_bridge_by_id id s.db) [
    | err e ↦ (err internal_error, s)
    | ok r ↦ elim r [ none ↦ (err (failed 404 bridge_not_found), s) | some b ↦ (ok b, s) ]
  ]

  -- The row that was just written; that it is missing is an internal error.
  unfoldable pub fetch_bridge : ℕ → Handler E Bridge
  fetch_bridge id s = elim (E.database.get_bridge_by_id id s.db) [
    | err e ↦ (err internal_error, s)
    | ok r ↦ elim r [ none ↦ (err internal_error, s) | some b ↦ (ok b, s) ]
  ]

  -- The row that was just written, or the value that was written.
  unfoldable pub fetch_bridge_or : Bridge → Handler E Bridge
  fetch_bridge_or b s = elim (E.database.get_bridge_by_id b.id s.db) [
    | err e ↦ (ok b, s)
    | ok r ↦ elim r [ none ↦ (ok b, s) | some c ↦ (ok c, s) ]
  ]

  -- The network of that identifier; an error is taken for a missing one.
  unfoldable pub end_network : ℕ → Handler E (Option Network)
  end_network id s = elim (E.database.get_network_by_id id s.db) [
    | err e ↦ (ok none, s)
    | ok r ↦ (ok r, s)
  ]

  -- A bridge that cannot be stored loses its rules again.
  unfoldable pub store_bridge : Network → Network → Bridge → Handler E ℕ
  store_bridge a b new s =
      let (r, db) = E.database.create_bridge new s.db in
      elim r [
        | ok id ↦ (ok id, record s { db = db })
        | err e ↦ (
          err internal_error,
          (firewall (remove_bridge a.interface b.interface) (record s { db = db })).1,
        )
      ]

  unfoldable pub build_bridge : Network → Network → CreateBridgeRequest → Handler E Reply
  unfolding store_bridge fetch_bridge
  build_bridge a b req = do
    must (firewall (add_bridge a.interface b.interface req.direction)) nothing internal_error
    id ← store_bridge a b (new_bridge req)
    created ← fetch_bridge id
    done (bridge 201 created)

  unfoldable pub handle_create_bridge : Outcome Reply CreateBridgeRequest → Handler E Reply
  unfolding build_bridge
  handle_create_bridge body = do
    req ← decoded body
    reject (not (is_valid_direction req.direction)) (failed 400 validation)
    reject (req.network_a_id == req.network_b_id) (failed 400 bridge_self_reference)
    a ← find_network req.network_a_id
    b ← find_network req.network_b_id
    exists ← query (E.database.bridge_exists_between req.network_a_id req.network_b_id)
    reject exists (failed 409 bridge_already_exists)
    build_bridge a b req

  -- The rules of the new direction in place of the old ones, if both networks are there.
  unfoldable pub turn : Bridge → Option Network → Option Network → Handler E (Unit {0})
  turn new none b = done tt
  turn new (some a) none = done tt
  turn new (some a) (some b) = do
    ignore (firewall (remove_bridge a.interface b.interface))
    must (firewall (add_bridge a.interface b.interface new.direction)) nothing internal_error

  unfoldable pub redirect : Bridge → Handler E (Unit {0})
  unfolding turn end_network
  redirect new = do a ← end_network new.network_a_id; b ← end_network new.network_b_id; turn new a b

  -- The bridge is looked up before the body is read.
  unfoldable pub handle_update_bridge :
      Outcome Reply ℕ → Outcome Reply UpdateBridgeRequest → Handler E Reply
  unfolding redirect find_bridge fetch_bridge_or
  handle_update_bridge path body = do
    id ← decoded path
    old ← find_bridge id
    req ← decoded body
    reject (not (names_direction req)) (failed 400 validation)
    when (E.has_firewall)
        (when (not (str_eq old.direction (changed req old).direction)) (redirect (changed req old)))
    must (change (E.database.update_bridge (changed req old))) nothing internal_error
    updated ← fetch_bridge_or (changed req old)
    done (bridge 200 updated)

  unfoldable pub drop_rules : Option Network → Option Network → Handler E (Unit {0})
  drop_rules none b = done tt
  drop_rules (some a) none = done tt
  drop_rules (some a) (some b) = ignore (firewall (remove_bridge a.interface b.interface))

  unfoldable pub drop_bridge : Bridge → Handler E (Unit {0})
  unfolding drop_rules end_network
  drop_bridge b = do x ← end_network b.network_a_id; y ← end_network b.network_b_id; drop_rules x y

  unfoldable pub handle_delete_bridge : Outcome Reply ℕ → Handler E Reply
  unfolding drop_bridge find_bridge
  handle_delete_bridge path = do
    id ← decoded path
    b ← find_bridge id
    when E.has_firewall (drop_bridge b)
    must (change (E.database.delete_bridge id)) nothing internal_error
    done no_content
