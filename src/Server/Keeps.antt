-- ===== src/Server/Keeps.antt =====
-- Rules for an invariant of the database: what keeps it, and what a step then leaves behind.
use wgpilot.Base.{
  ◌≡◌, refl, sym, subst, Bool, true, false, List, [], ◌∷◌, Str, if◌then◌else◌, Option, none, some,
}
use wgpilot.Wg.Types.{Outcome, ok, err}
use wgpilot.Server.Types.{Reply, Env, Server}
use wgpilot.Server.Handlers.{
  internal_error, Handler, ◌>>=◌, done, query, nothing, change, answer, reject, reject_invalid,
  must,
}
use wgpilot.Server.Steps.{Facts, Quiet}

module _ (E : Env) (I : E.database.Db → Type 0) where
  abbrev pub Holds : {A : Type 0} → Facts E A → Outcome Reply A → E.database.Db → Type 0
  Holds Post (ok a) d = I d × Post a d
  Holds Post (err r) d = I d

  -- The step keeps the plan. From `Pre` it comes to `Post`, unless it ends the handler.
  pub record Keeps {A : Type 0} (Pre : E.database.Db → Type 0) (m : Handler E A) (Post : Facts E A)
      : Type 0 where
    pub keeps : (s : Server E) → I s.db → Pre s.db → Holds Post (m s).0 (m s).1.db

  pub bind-Keeps :
      {A B : Type 0} {Pre : E.database.Db → Type 0} {Mid : Facts E A} {Post : Facts E B}
      {m : Handler E A} {f : A → Handler E B}
      → Keeps Pre m Mid
      → ((a : A) → Keeps (Mid a) (f a) Post)
      → Keeps Pre (m >>= f) Post
  unfolding ◌>>=◌
  bind-Keeps {A} {B} {Pre} {Mid} {Post} {m} {f} km kf = record {
    keeps = λ s plan pre. after (m s).0 (m s).1 (km.keeps s plan pre);
  }
    where
      after :
          (r : Outcome Reply A) (s : Server E)
          → Holds Mid r s.db
          → let v : Outcome Reply B × Server E = elim r [ ok a ↦ f a s | err e ↦ (err e, s) ] in
            Holds Post v.0 v.1.db
      after (ok a) s (plan, mid) = (kf a).keeps s plan mid
      after (err e) s plan = plan

  pub Quiet-Keeps :
      {A : Type 0} {Pre : E.database.Db → Type 0} {m : Handler E A}
      → Quiet E m
      → Keeps Pre m (λ a. Pre)
  Quiet-Keeps {A} {Pre} {m} q = record {
    keeps = λ s plan pre. after (m s).0 (m s).1 s (q.quiet s) plan pre;
  }
    where
      after :
          (r : Outcome Reply A) (s' s : Server E)
          → s'.db ≡ s.db
          → I s.db
          → Pre s.db
          → Holds {A = A} (λ a. Pre) r s'.db
      after (ok a) s' s e plan pre = (subst I (sym e) plan, subst Pre (sym e) pre)
      after (err x) s' s e plan pre = subst I (sym e) plan

  pub done-Keeps :
      {A : Type 0} {Pre : E.database.Db → Type 0} (a : A)
      → Keeps Pre (done a) (λ b d. Pre d × (b ≡ a))
  unfolding done
  done-Keeps a = record { keeps = λ s plan pre. (plan, (pre, refl)) }

  pub reject_invalid-Keeps :
      {Pre : E.database.Db → Type 0} (fields : List Str)
      → Keeps Pre (reject_invalid fields) (λ u d. Pre d × (fields ≡ []))
  unfolding reject_invalid
  reject_invalid-Keeps [] = record { keeps = λ s plan pre. (plan, (pre, refl)) }
  reject_invalid-Keeps (f ∷ fs) = record { keeps = λ s plan pre. plan }

  pub reject-Keeps :
      {Pre : E.database.Db → Type 0} (b : Bool) (r : Reply)
      → Keeps Pre (reject b r) (λ u d. Pre d × (b ≡ false))
  unfolding reject
  reject-Keeps true r = record { keeps = λ s plan pre. plan }
  reject-Keeps false r = record { keeps = λ s plan pre. (plan, (pre, refl)) }

  -- A step that leaves the database as it was, before other steps and at the end.
  pub pass_then :
      {A B : Type 0} {Pre : E.database.Db → Type 0} {Post : Facts E B} {m : Handler E A}
      {f : A → Handler E B}
      → Quiet E m
      → ((a : A) → Keeps Pre (f a) Post)
      → Keeps Pre (m >>= f) Post
  pass_then q k = bind-Keeps (Quiet-Keeps q) k

  pub pass_end :
      {A : Type 0} {Pre : E.database.Db → Type 0} {m : Handler E A}
      → Quiet E m
      → Keeps Pre m (λ a d. Unit)
  pass_end {A} {Pre} {m} q = record {
    keeps = λ s plan pre. after (m s).0 (m s).1 s (q.quiet s) plan;
  }
    where
      after :
          (r : Outcome Reply A) (s' s : Server E)
          → s'.db ≡ s.db
          → I s.db
          → Holds {A = A} (λ a d. Unit) r s'.db
      after (ok a) s' s e plan = (subst I (sym e) plan, tt)
      after (err x) s' s e plan = subst I (sym e) plan

  pub either_Keeps :
      {A : Type 0} {Pre : E.database.Db → Type 0} {Post : Facts E A} {m k : Handler E A} (b : Bool)
      → Keeps Pre m Post
      → Keeps Pre k Post
      → Keeps Pre (if b then m else k) Post
  either_Keeps true hm hk = hm
  either_Keeps false hm hk = hk

  pub weaken :
      {A : Type 0} {Pre Pre' : E.database.Db → Type 0} {Post : Facts E A} {m : Handler E A}
      → ((d : E.database.Db) → Pre d → Pre' d)
      → Keeps Pre' m Post
      → Keeps Pre m Post
  weaken h k = record { keeps = λ s plan pre. k.keeps s plan (h s.db pre) }

  pub given :
      {A Q : Type 0} {Pre : E.database.Db → Type 0} {Post : Facts E A} {m : Handler E A}
      → (Q → Keeps Pre m Post)
      → Keeps (λ d. Pre d × Q) m Post
  given h = record { keeps = λ s plan (pre, q). (h q).keeps s plan pre }

  -- A handler that keeps the invariant, wherever it starts.
  abbrev pub Safe : {A : Type 0} → Handler E A → Type 0
  Safe m = Keeps (λ d. Unit) m (λ a d. Unit)

  pub change-Keeps :
      {Pre : E.database.Db → Type 0} (f : E.database.Db → Option Str × E.database.Db) (r : Reply)
      → ((d : E.database.Db) → Pre d → I d → I (f d).1)
      → Keeps Pre (must (change f) nothing r) (λ u d. Unit)
  unfolding must
  change-Keeps f r h = record { keeps = λ s i pre. after s (f s.db).0 (h s.db pre i) }
    where
      after :
          (s : Server E) (e : Option Str)
          → let d' = (f s.db).1 in
            I d'
            → let s' : Server E = record s { db = d' } in
              let v : Outcome Reply (Unit {0}) × Server E = elim e [
                | none ↦ (ok tt, s')
                | some x ↦ (err r, s')
              ] in
              Holds {A = Unit {0}} (λ u d. Unit) v.0 v.1.db
      after s none i = (i, tt)
      after s (some x) i = i

  pub change-Safe :
      {Pre : E.database.Db → Type 0} (f : E.database.Db → Option Str × E.database.Db) (r : Reply)
      → ((d : E.database.Db) → I d → I (f d).1)
      → Keeps Pre (must (change f) nothing r) (λ u d. Unit)
  change-Safe f r h = change-Keeps f r (λ d pre. h d)

  pub answer_Safe : (m : Handler E Reply) (s : Server E) → Safe m → I s.db → I (answer m s).1.db
  answer_Safe m s safe i = after (m s).0 (m s).1 (safe.keeps s i tt)
    where
      after :
          (r : Outcome Reply Reply) (s : Server E) → Holds {A = Reply} (λ a d. Unit) r s.db → I s.db
      after (ok a) s h = h.0
      after (err x) s h = h

  -- A query that succeeds, with what the database answers.
  pub query-Keeps :
      {A : Type 0} {Pre : E.database.Db → Type 0} (f : E.database.Db → Outcome Str A)
      → Keeps Pre (query f) (λ a d. Pre d × (f d ≡ ok a))
  unfolding query
  query-Keeps {A} {Pre} f = record { keeps = λ s i pre. after s (f s.db) refl i pre }
    where
      after :
          (s : Server E) (r : Outcome Str A)
          → f s.db ≡ r
          → I s.db
          → Pre s.db
          → let v : Outcome Reply A × Server E = elim r [
            | ok a ↦ (ok a, s)
            | err e ↦ (err internal_error, s)
          ] in
            Holds (λ a d. Pre d × (f d ≡ ok a)) v.0 v.1.db
      after s (ok a) e i pre = (i, (pre, e))
      after s (err x) e i pre = i
