-- ===== src/Expiry/Tests.antt =====
-- One round of the check of internal/monitor/expiry.go over a database in memory.
use wgpilot.Base.{◌≡◌, refl, true, false, none, some, List, [], ◌∷◌, bytes, All, arith}
use wgpilot.Wg.Types.{ok}
use wgpilot.Expiry.{ExpiringPeer, Surroundings, check, expire_each, expire_one}
use wgpilot.Expiry.Disabled.{is_expired, select_expired, replace_peer, PeerRows, check-NoneExpired}

abbrev peers_in_memory : Surroundings
peers_in_memory = record {
  Db = List ExpiringPeer;
  list_expired_peers = λ d. ok (select_expired 100 d);
  update_peer = λ p d. (none, replace_peer p d);
  get_network_by_id = λ i d. ok none;
  World = Unit {0};
  remove_peer = λ i k w. (none, w);
  has_remover = true;
}

memory-PeerRows : PeerRows peers_in_memory 100
memory-PeerRows = record { rows = λ d. d; listed = λ d ps e. ground arith; updated = λ p d. refl }

abbrev guest : ExpiringPeer
guest = record {
  id = 1;
  network_id = 1;
  public_key = bytes "guest";
  enabled = true;
  expires_at = some 99;
}

abbrev peers : List ExpiringPeer
peers = guest ∷ record guest { id = 2; expires_at = some 100 } ∷ []

one_round :
    (check peers_in_memory (peers, tt)).0 ≡ replace_peer (record guest { enabled = false }) peers
unfolding check expire_each expire_one select_expired replace_peer
one_round = refl

check-NoneExpired_example :
    All
      (λ (r : ExpiringPeer). is_expired 100 r ≡ false)
      (memory-PeerRows.rows (check peers_in_memory (peers, tt)).0)
check-NoneExpired_example =
    check-NoneExpired peers_in_memory 100 memory-PeerRows (peers, tt) (select_expired 100 peers)
      refl (λ p d. refl)
