-- ===== src/Server/Stored.antt =====
-- The rows of the networks and of the bridges, and what the methods of internal/db do to them.
use wgpilot.Base.{
  ℕ, ◌≡◌, ◌≢◌, Bool, true, false, ◌&&◌, ◌||◌, none, some, List, [], ◌∷◌, ◌++◌, Str, All, Member,
  if◌then◌else◌, ◌==◌,
}
use wgpilot.Wg.Types.{ok, err}
use wgpilot.Server.Types.{Network, Bridge, Peer, Database}

-- The rows of the database after an update and after a deletion. An update keeps the interface.
abbrev pub replace_row : Network → List Network → List Network
replace_row m [] = []
replace_row m (r ∷ rs) =
    (if r.id == m.id then record m { interface = r.interface } else r) ∷ replace_row m rs

abbrev pub remove_row : ℕ → List Network → List Network
remove_row i [] = []
remove_row i (r ∷ rs) = if r.id == i then remove_row i rs else r ∷ remove_row i rs

-- Does the bridge join the two networks, in either order?
abbrev pub joins_pair : ℕ → ℕ → Bridge → Bool
joins_pair a b c =
    ((c.network_a_id == a) && (c.network_b_id == b))
    || ((c.network_a_id == b) && (c.network_b_id == a))

unfoldable pub joins : ℕ → ℕ → List Bridge → Bool
joins a b [] = false
joins a b (c ∷ cs) = if joins_pair a b c then true else joins a b cs

-- An update keeps the ends of a bridge.
abbrev pub replace_link : Bridge → List Bridge → List Bridge
replace_link b [] = []
replace_link b (c ∷ cs) =
    (if c.id == b.id
      then record b { network_a_id = c.network_a_id; network_b_id = c.network_b_id }
      else c)
    ∷ replace_link b cs

abbrev pub remove_link : ℕ → List Bridge → List Bridge
remove_link i [] = []
remove_link i (c ∷ cs) = if c.id == i then remove_link i cs else c ∷ remove_link i cs

abbrev pub remove_links_of : ℕ → List Bridge → List Bridge
remove_links_of i [] = []
remove_links_of i (c ∷ cs) =
    if (c.network_a_id == i) || (c.network_b_id == i)
    then remove_links_of i cs
    else c ∷ remove_links_of i cs

-- The peers of a network, and the rows of peers after an update, a deletion, and the deletion of a
-- network. An update keeps the network of a peer.
abbrev pub peers_of : ℕ → List Peer → List Peer
peers_of i [] = []
peers_of i (p ∷ ps) = if p.network_id == i then p ∷ peers_of i ps else peers_of i ps

abbrev pub replace_peer_row : Peer → List Peer → List Peer
replace_peer_row p [] = []
replace_peer_row p (q ∷ qs) =
    (if q.id == p.id then record p { network_id = q.network_id } else q) ∷ replace_peer_row p qs

abbrev pub remove_peer_row : ℕ → List Peer → List Peer
remove_peer_row i [] = []
remove_peer_row i (q ∷ qs) = if q.id == i then remove_peer_row i qs else q ∷ remove_peer_row i qs

abbrev pub remove_peers_of : ℕ → List Peer → List Peer
remove_peers_of i [] = []
remove_peers_of i (q ∷ qs) =
    if q.network_id == i then remove_peers_of i qs else q ∷ remove_peers_of i qs

-- What the handlers rely on: the database has a list of networks and one of bridges. The queries
-- answer from the lists. An insertion adds the row with a new identifier, an update and a deletion
-- change the rows with the identifier, and a change that fails changes nothing. The bridges of a
-- network are deleted with it.
pub record Stored (D : Database) : Type 0 where
  pub rows : D.Db → List Network
  pub listed : (d : D.Db) (ns : List Network) → D.list_networks d ≡ ok ns → ns ≡ rows d
  pub got :
      (i : ℕ) (d : D.Db) (n : Network) → D.get_network_by_id i d ≡ ok (some n) → Member n (rows d)
  pub inserted :
      (n : Network) (d : D.Db) (i : ℕ)
      → (D.create_network n d).0 ≡ ok i
      → (rows (D.create_network n d).1 ≡ rows d ++ (record n { id = i } ∷ []))
        × All (λ (m : Network). m.id ≢ i) (rows d)
  pub refused :
      (n : Network) (d : D.Db) (e : Str)
      → (D.create_network n d).0 ≡ err e
      → rows (D.create_network n d).1 ≡ rows d
  pub updated :
      (n : Network) (d : D.Db)
      → rows (D.update_network n d).1
        ≡ elim (D.update_network n d).0 [ none ↦ replace_row n (rows d) | some e ↦ rows d ]
  pub deleted :
      (i : ℕ) (d : D.Db)
      → rows (D.delete_network i d).1
        ≡ elim (D.delete_network i d).0 [ none ↦ remove_row i (rows d) | some e ↦ rows d ]
  pub links : D.Db → List Bridge
  pub exists :
      (a b : ℕ) (d : D.Db) (e : Bool)
      → D.bridge_exists_between a b d ≡ ok e
      → e ≡ joins a b (links d)
  pub linked :
      (b : Bridge) (d : D.Db)
      → links (D.create_bridge b d).1 ≡ elim (D.create_bridge b d).0 [
        | ok i ↦ links d ++ (record b { id = i } ∷ [])
        | err e ↦ links d
      ]
  pub relinked :
      (b : Bridge) (d : D.Db)
      → links (D.update_bridge b d).1
        ≡ elim (D.update_bridge b d).0 [ none ↦ replace_link b (links d) | some e ↦ links d ]
  pub unlinked :
      (i : ℕ) (d : D.Db)
      → links (D.delete_bridge i d).1
        ≡ elim (D.delete_bridge i d).0 [ none ↦ remove_link i (links d) | some e ↦ links d ]
  pub cascaded :
      (i : ℕ) (d : D.Db)
      → links (D.delete_network i d).1
        ≡ elim (D.delete_network i d).0 [ none ↦ remove_links_of i (links d) | some e ↦ links d ]
  pub links_created : (n : Network) (d : D.Db) → links (D.create_network n d).1 ≡ links d
  pub links_updated : (n : Network) (d : D.Db) → links (D.update_network n d).1 ≡ links d
  pub rows_linked : (b : Bridge) (d : D.Db) → rows (D.create_bridge b d).1 ≡ rows d
  pub rows_relinked : (b : Bridge) (d : D.Db) → rows (D.update_bridge b d).1 ≡ rows d
  pub rows_unlinked : (i : ℕ) (d : D.Db) → rows (D.delete_bridge i d).1 ≡ rows d
  pub rows_add_peer : (p : Peer) (d : D.Db) → rows (D.create_peer p d).1 ≡ rows d
  pub rows_set_peer : (p : Peer) (d : D.Db) → rows (D.update_peer p d).1 ≡ rows d
  pub rows_drop_peer : (i : ℕ) (d : D.Db) → rows (D.delete_peer i d).1 ≡ rows d
  pub links_add_peer : (p : Peer) (d : D.Db) → links (D.create_peer p d).1 ≡ links d
  pub links_set_peer : (p : Peer) (d : D.Db) → links (D.update_peer p d).1 ≡ links d
  pub links_drop_peer : (i : ℕ) (d : D.Db) → links (D.delete_peer i d).1 ≡ links d
