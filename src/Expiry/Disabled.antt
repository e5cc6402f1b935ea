-- ===== src/Expiry/Disabled.antt =====
-- What one round of internal/monitor/expiry.go leaves of the expired peers.
use wgpilot.Base.{
  ℕ, ◌≡◌, refl, sym, subst, Bool, true, false, ◌&&◌, none, some, List, [], ◌∷◌, arith, All,
  if◌then◌else◌, ◌==◌, ltb, Bool-cases, inl, inr,
}
use wgpilot.Wg.Types.{ok}
use wgpilot.Expiry.{ExpiringPeer, Surroundings, disabled, expire_one, expire_each, check}

-- Enabled, and expired before `now`.
abbrev pub is_expired : ℕ → ExpiringPeer → Bool
is_expired now p = p.enabled && (elim p.expires_at [ none ↦ false | some t ↦ ltb t now ])

unfoldable pub select_expired : ℕ → List ExpiringPeer → List ExpiringPeer
select_expired now [] = []
select_expired now (p ∷ ps) =
    if is_expired now p then p ∷ select_expired now ps else select_expired now ps

-- UpdatePeer does not write the network of a peer.
unfoldable pub replace_peer : ExpiringPeer → List ExpiringPeer → List ExpiringPeer
replace_peer q [] = []
replace_peer q (p ∷ ps) =
    (if p.id == q.id then record q { network_id = p.network_id } else p) ∷ replace_peer q ps

-- What the check relies on: the database has a list of peers, at a time `now`. ListExpiredPeers
-- selects from it, and UpdatePeer replaces the rows with the identifier, or changes nothing.
pub record PeerRows (S : Surroundings) (now : ℕ) : Type 0 where
  pub rows : S.Db → List ExpiringPeer
  pub listed :
      (d : S.Db) (ps : List ExpiringPeer)
      → S.list_expired_peers d ≡ ok ps
      → ps ≡ select_expired now (rows d)
  pub updated :
      (p : ExpiringPeer) (d : S.Db)
      → rows (S.update_peer p d).1
        ≡ elim (S.update_peer p d).0 [ none ↦ replace_peer p (rows d) | some e ↦ rows d ]

has_id : ℕ → List ExpiringPeer → Bool
has_id i [] = false
has_id i (p ∷ ps) = if p.id == i then true else has_id i ps

-- Each expired row has its identifier among those of the list.
abbrev Covered : ℕ → List ExpiringPeer → List ExpiringPeer → Type 0
Covered now ps = All (λ r. (if is_expired now r then has_id r.id ps else true) ≡ true)

Covered-select :
    (now : ℕ) (p : ExpiringPeer) (ps rs : List ExpiringPeer)
    → Covered now ps rs
    → Covered now (p ∷ ps) rs
unfolding has_id
Covered-select now p ps [] h = tt
Covered-select now p ps (r ∷ rs) (h, hs) = (ground arith, Covered-select now p ps rs hs)

select_yes :
    (now : ℕ) (r : ExpiringPeer) (rs : List ExpiringPeer)
    → is_expired now r ≡ true
    → select_expired now (r ∷ rs) ≡ r ∷ select_expired now rs
unfolding select_expired
select_yes now r rs e = ground arith

select_no :
    (now : ℕ) (r : ExpiringPeer) (rs : List ExpiringPeer)
    → is_expired now r ≡ false
    → select_expired now (r ∷ rs) ≡ select_expired now rs
unfolding select_expired
select_no now r rs e = ground arith

select-Covered : (now : ℕ) (rs : List ExpiringPeer) → Covered now (select_expired now rs) rs
unfolding has_id
select-Covered now [] = tt
select-Covered now (r ∷ rs) = elim (Bool-cases (is_expired now r)) [
  | inl e ↦
      subst (λ l. Covered now l (r ∷ rs)) (sym (select_yes now r rs e))
        (ground arith, Covered-select now r (select_expired now rs) rs (select-Covered now rs))
  | inr e ↦
      subst (λ l. Covered now l (r ∷ rs)) (sym (select_no now r rs e))
        (ground arith, select-Covered now rs)
]

Covered-replace :
    (now : ℕ) (p : ExpiringPeer) (ps rs : List ExpiringPeer)
    → Covered now (p ∷ ps) rs
    → Covered now ps (replace_peer (disabled p) rs)
unfolding has_id replace_peer
Covered-replace now p ps [] h = tt
Covered-replace now p ps (r ∷ rs) (h, hs) = (ground arith, Covered-replace now p ps rs hs)

Covered-none :
    (now : ℕ) (rs : List ExpiringPeer) → Covered now [] rs → All (λ r. is_expired now r ≡ false) rs
unfolding has_id
Covered-none now [] h = tt
Covered-none now (r ∷ rs) (h, hs) = (ground arith, Covered-none now rs hs)

module _ (S : Surroundings) (now : ℕ) (R : PeerRows S now)
    (works : (p : ExpiringPeer) (d : S.Db) → (S.update_peer p d).0 ≡ none) where
  expire_one-rows :
      (p : ExpiringPeer) (s : S.Db × S.World)
      → R.rows (expire_one S p s).0 ≡ replace_peer (disabled p) (R.rows s.0)
  unfolding expire_one
  expire_one-rows p (d, w) = ground (arith, R.updated (disabled p) d, works (disabled p) d)

  expire_each-Covered :
      (ps : List ExpiringPeer) (s : S.Db × S.World)
      → Covered now ps (R.rows s.0)
      → Covered now [] (R.rows (expire_each S ps s).0)
  unfolding expire_each
  expire_each-Covered [] s h = h
  expire_each-Covered (p ∷ ps) s h =
      expire_each-Covered ps (expire_one S p s) (
        subst (Covered now ps) (sym (expire_one-rows p s))
          (Covered-replace now p ps (R.rows s.0) h))

  check_rows :
      (s : S.Db × S.World) (ps : List ExpiringPeer)
      → S.list_expired_peers s.0 ≡ ok ps
      → check S s ≡ expire_each S ps s
  unfolding check
  check_rows (d, w) ps e = rw (e, check) refl

-- Over a database that keeps peers as `PeerRows` says: if the expired peers can be listed and every
-- update of a peer succeeds, then after one round of the check no peer of the database is both
-- enabled and expired.
pub check-NoneExpired :
    (S : Surroundings) (now : ℕ) (R : PeerRows S now) (s : S.Db × S.World) (ps : List ExpiringPeer)
    → S.list_expired_peers s.0 ≡ ok ps
    → ((p : ExpiringPeer) (d : S.Db) → (S.update_peer p d).0 ≡ none)
    → All (λ (r : ExpiringPeer). is_expired now r ≡ false) (R.rows (check S s).0)
check-NoneExpired S now R s ps e works =
    let start : Covered now ps (R.rows s.0) =
      subst (λ l. Covered now l (R.rows s.0)) (sym (R.listed s.0 ps e))
        (select-Covered now (R.rows s.0)) in
    subst
      (λ (t : S.Db × S.World). All (λ (r : ExpiringPeer). is_expired now r ≡ false) (R.rows t.0))
      (sym (check_rows S now R works s ps e))
      (Covered-none now _ (expire_each-Covered S now R works ps s start))
