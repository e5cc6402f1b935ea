-- ===== src/Expiry.antt =====
-- internal/monitor/expiry.go: one round of the check for expired peers. Logging and the ticker
-- that starts the rounds are left out.
pub mod Disabled
mod Tests
use wgpilot.Base.{ℕ, Bool, true, false, Option, none, some, List, [], ◌∷◌, Str}
use wgpilot.Wg.Types.{Outcome, ok, err}
use wgpilot.Server.Types.{Network}

-- The fields of a row of internal/db/peers.go that the check reads or changes; `expires_at` is
-- none for a peer that does not expire.
pub record ExpiringPeer : Type 0 where
  pub id : ℕ
  pub network_id : ℕ
  pub public_key : Str
  pub enabled : Bool
  pub expires_at : Option ℕ

-- The interfaces ExpiryStore and PeerRemover, with whether there is a remover.
pub record Surroundings : Type 1 where
  pub Db : Type 0
  pub list_expired_peers : Db → Outcome Str (List ExpiringPeer)
  pub update_peer : ExpiringPeer → Db → Option Str × Db
  pub get_network_by_id : ℕ → Db → Outcome Str (Option Network)
  pub World : Type 0
  pub remove_peer : Str → Str → World → Option Str × World
  pub has_remover : Bool

abbrev pub disabled : ExpiringPeer → ExpiringPeer
disabled p = record p { enabled = false }

module _ (S : Surroundings) where
  -- A peer whose network is missing, cannot be read or is disabled is in no interface.
  remove : ExpiringPeer → S.Db → S.World → S.World
  remove p d w = elim (S.get_network_by_id p.network_id d) [
    | err e ↦ w
    | ok r ↦ elim r [
      | none ↦ w
      | some n ↦ elim n.enabled [ true ↦ (S.remove_peer n.interface p.public_key w).1 | false ↦ w ]
    ]
  ]

  -- A peer that cannot be updated is passed over.
  pub expire_one : ExpiringPeer → S.Db × S.World → S.Db × S.World
  unfolding remove
  expire_one p (d, w) =
      let (e, d') = S.update_peer (disabled p) d in
      elim e [
        | some x ↦ (d', w)
        | none ↦ elim S.has_remover [ true ↦ (d', remove p d' w) | false ↦ (d', w) ]
      ]

  pub expire_each : List ExpiringPeer → S.Db × S.World → S.Db × S.World
  unfolding expire_one
  expire_each [] s = s
  expire_each (p ∷ ps) s = expire_each ps (expire_one p s)

  pub check : S.Db × S.World → S.Db × S.World
  unfolding expire_each
  check (d, w) = elim (S.list_expired_peers d) [ err e ↦ (d, w) | ok ps ↦ expire_each ps (d, w) ]
