-- ===== src/Server/Handlers.antt =====
-- The steps that the handlers of internal/server are made of. A handler stops at the first reply
-- that it sends. A manager that is nil is not called. Logs, audit entries, the messages of errors
-- and the times of rows are left out.
use wgpilot.Base.{ℕ, Bool, true, false, Option, none, some, List, [], ◌∷◌, Str}
use wgpilot.Wg.Types.{Outcome, ok, err}
use wgpilot.Wg.Manager.{M, Error as WireguardError}
use wgpilot.Nft.Manager.{Op, step, Error as FirewallError}
use wgpilot.Server.Types.{Network, internal, network_not_found, Reply, failed, invalid, Env, Server}

abbrev pub internal_error : Reply
internal_error = failed 500 internal

abbrev pub Handler : Env → Type 0 → Type 0
Handler E A = Server E → Outcome Reply A × Server E

-- A call that may fail.
abbrev pub Call : Env → Type 0 → Type 0
Call E X = Server E → Option X × Server E

abbrev pub to_error : Outcome WireguardError (Unit {0}) → Option WireguardError
to_error (ok u) = none
to_error (err e) = some e

abbrev pub merge : Outcome Reply Reply → Reply
merge (ok r) = r
merge (err r) = r

module _ {E : Env} where
  infixl 5 ◌>>=◌ ◌>>◌
  unfoldable pub ◌>>=◌ : {A B : Type 0} → Handler E A → (A → Handler E B) → Handler E B
  ◌>>=◌ m f s = let (r, s') = m s in elim r [ ok a ↦ f a s' | err e ↦ (err e, s') ]

  abbrev pub ◌>>◌ : {B : Type 0} → Handler E (Unit {0}) → Handler E B → Handler E B
  m >> k = m >>= λ _. k

  unfoldable pub done : {A : Type 0} → A → Handler E A
  done a s = (ok a, s)

  -- What the path or the body of the request holds, or the reply to one that cannot be read.
  unfoldable pub decoded : {A : Type 0} → Outcome Reply A → Handler E A
  decoded r s = (r, s)

  unfoldable pub reject : Bool → Reply → Handler E (Unit {0})
  reject b r s = elim b [ true ↦ (err r, s) | false ↦ (ok tt, s) ]

  unfoldable pub reject_invalid : List Str → Handler E (Unit {0})
  reject_invalid fields s = elim fields [ [] ↦ (ok tt, s) | f ∷ fs ↦ (err (invalid (f ∷ fs)), s) ]

  unfoldable pub when : Bool → Handler E (Unit {0}) → Handler E (Unit {0})
  when b m s = elim b [ true ↦ m s | false ↦ (ok tt, s) ]

  -- A query of the database whose error is answered with an internal error.
  unfoldable pub query : {A : Type 0} → (E.database.Db → Outcome Str A) → Handler E A
  query f s = elim (f s.db) [ ok a ↦ (ok a, s) | err e ↦ (err internal_error, s) ]

  -- A call whose failure is answered after a clean-up, and one whose failure is only logged.
  unfoldable pub must :
      {X : Type 0} → Call E X → (Server E → Server E) → Reply → Handler E (Unit {0})
  must call undo r s =
      let (e, s') = call s in elim e [ none ↦ (ok tt, s') | some x ↦ (err r, undo s') ]

  unfoldable pub ignore : {X : Type 0} → Call E X → Handler E (Unit {0})
  ignore call s = (ok tt, (call s).1)

  abbrev pub nothing : Server E → Server E
  nothing s = s

  abbrev pub change : (E.database.Db → Option Str × E.database.Db) → Call E Str
  change f s = let (e, db) = f s.db in (e, record s { db = db })

  unfoldable pub firewall : Op → Call E FirewallError
  firewall op s = elim E.has_firewall [
    | false ↦ (none, s)
    | true ↦ let (e, f) = step E.applier E.range op s.firewall in (e, record s { firewall = f })
  ]

  unfoldable pub wireguard : M E.host (Unit {0}) → Call E WireguardError
  wireguard m s = elim E.has_wireguard [
    | false ↦ (none, s)
    | true ↦ let (r, w) = m s.world in (to_error r, record s { world = w })
  ]

  -- The row of the path's identifier.
  unfoldable pub find_network : ℕ → Handler E Network
  find_network id s = elim (E.database.get_network_by_id id s.db) [
    | err e ↦ (err internal_error, s)
    | ok r ↦ elim r [ none ↦ (err (failed 404 network_not_found), s) | some n ↦ (ok n, s) ]
  ]

  -- The row that was just written; that it is missing is an internal error.
  unfoldable pub fetch_network : ℕ → Handler E Network
  fetch_network id s = elim (E.database.get_network_by_id id s.db) [
    | err e ↦ (err internal_error, s)
    | ok r ↦ elim r [ none ↦ (err internal_error, s) | some n ↦ (ok n, s) ]
  ]

  -- The row that was just written, or the value that was written.
  unfoldable pub fetch_or : Network → Handler E Network
  fetch_or n s = elim (E.database.get_network_by_id n.id s.db) [
    | err e ↦ (ok n, s)
    | ok r ↦ elim r [ none ↦ (ok n, s) | some m ↦ (ok m, s) ]
  ]

  -- The reply that a handler sends, and the server after it.
  abbrev pub answer : Handler E Reply → Server E → Reply × Server E
  answer h s = let (r, s') = h s in (merge r, s')
