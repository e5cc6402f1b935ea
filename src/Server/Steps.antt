-- ===== src/Server/Steps.antt =====
-- The steps of the handlers of internal/server, and what they leave of the database.
use wgpilot.Base.{◌≡◌, refl, ◌∙◌, Bool, true, false, List, [], ◌∷◌, Str, arith, if◌then◌else◌}
use wgpilot.Wg.Types.{Outcome, ok, err}
use wgpilot.Wg.Manager.{M}
use wgpilot.Nft.Manager.{Op}
use wgpilot.Server.Types.{Reply, Env, Server}
use wgpilot.Server.Handlers.{
  Handler, Call, ◌>>=◌, done, decoded, query, reject, reject_invalid, when, must, ignore, firewall,
  wireguard,
}

module _ (E : Env) where
  abbrev pub Facts : Type 0 → Type 1
  Facts A = A → E.database.Db → Type 0

  -- A step that leaves the database as it was.
  pub record Quiet {A : Type 0} (m : Handler E A) : Type 0 where
    pub quiet : (s : Server E) → (m s).1.db ≡ s.db

  -- A call that leaves the database as it was.
  abbrev pub ApartFromDatabase : {X : Type 0} → Call E X → Type 0
  ApartFromDatabase call = (s : Server E) → (call s).1.db ≡ s.db

  pub firewall_quiet : (op : Op) → ApartFromDatabase (firewall op)
  unfolding firewall
  firewall_quiet op s = ground arith

  pub wireguard_quiet : (m : M E.host (Unit {0})) → ApartFromDatabase (wireguard m)
  unfolding wireguard
  wireguard_quiet m s = ground arith

  pub decoded-Quiet : {A : Type 0} (r : Outcome Reply A) → Quiet (decoded r)
  unfolding decoded
  decoded-Quiet r = record { quiet = λ s. refl }

  pub when-Quiet : (b : Bool) (m : Handler E (Unit {0})) → Quiet m → Quiet (when b m)
  unfolding when
  when-Quiet true m q = q
  when-Quiet false m q = record { quiet = λ s. refl }

  pub ignore-Quiet : {X : Type 0} (call : Call E X) → ApartFromDatabase call → Quiet (ignore call)
  unfolding ignore
  ignore-Quiet call h = record { quiet = h }

  pub must-Quiet :
      {X : Type 0} (call : Call E X) (undo : Server E → Server E) (r : Reply)
      → ApartFromDatabase call
      → ((s : Server E) → (undo s).db ≡ s.db)
      → Quiet (must call undo r)
  unfolding must
  must-Quiet call undo r h k = record { quiet = λ s. ground (arith, h s, k (call s).1) }

  pub bind-Quiet :
      {A B : Type 0} (m : Handler E A) (f : A → Handler E B)
      → Quiet m
      → ((a : A) → Quiet (f a))
      → Quiet (m >>= f)
  unfolding ◌>>=◌
  bind-Quiet {A} {B} m f qm qf = record { quiet = λ s. after (m s).0 (m s).1 s (qm.quiet s) }
    where
      after :
          (r : Outcome Reply A) (s' s : Server E)
          → s'.db ≡ s.db
          → let v : Outcome Reply B × Server E = elim r [ ok a ↦ f a s' | err e ↦ (err e, s') ] in
            v.1.db ≡ s.db
      after (ok a) s' s e = (qf a).quiet s' ∙ e
      after (err x) s' s e = e

  pub done-Quiet : {A : Type 0} (a : A) → Quiet (done a)
  unfolding done
  done-Quiet a = record { quiet = λ s. refl }

  pub either_Quiet :
      {A : Type 0} {m k : Handler E A} (b : Bool) → Quiet m → Quiet k → Quiet (if b then m else k)
  either_Quiet true qm qk = qm
  either_Quiet false qm qk = qk

  pub reject-Quiet : (b : Bool) (r : Reply) → Quiet (reject b r)
  unfolding reject
  reject-Quiet b r = record { quiet = λ s. ground arith }

  pub reject_invalid-Quiet : (fields : List Str) → Quiet (reject_invalid fields)
  unfolding reject_invalid
  reject_invalid-Quiet [] = record { quiet = λ s. refl }
  reject_invalid-Quiet (f ∷ fs) = record { quiet = λ s. refl }

  pub query-Quiet : {A : Type 0} (f : E.database.Db → Outcome Str A) → Quiet (query f)
  unfolding query
  query-Quiet f = record { quiet = λ s. ground arith }
