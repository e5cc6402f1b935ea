-- ===== src/Server/Passes.antt =====
-- Steps of a handler that pass, with what they give, and steps that end it.
use wgpilot.Base.{◌≡◌, refl, ap, Bool, true, false, List, [], ◌∷◌, Str}
use wgpilot.Wg.Types.{Outcome, ok, err}
use wgpilot.Server.Types.{Reply, Env, Server}
use wgpilot.Server.Handlers.{Handler, ◌>>=◌, decoded, reject, reject_invalid, query}

module _ (E : Env) where
  pub bind_pass :
      {A B : Type 0} (m : Handler E A) (f : A → Handler E B) (a : A) (s : Server E)
      → m s ≡ (ok a, s)
      → (m >>= f) s ≡ f a s
  unfolding ◌>>=◌
  bind_pass {A} m f a s e =
      ap (λ (v : Outcome Reply A × Server E). elim v.0 [ ok b ↦ f b v.1 | err x ↦ (err x, v.1) ]) e

  pub bind_stop :
      {A B : Type 0} (m : Handler E A) (f : A → Handler E B) (r : Reply) (s : Server E)
      → m s ≡ (err r, s)
      → (m >>= f) s ≡ (err r, s)
  unfolding ◌>>=◌
  bind_stop {A} m f r s e =
      ap (λ (v : Outcome Reply A × Server E). elim v.0 [ ok b ↦ f b v.1 | err x ↦ (err x, v.1) ]) e

  pub decoded_pass : {A : Type 0} (a : A) (s : Server E) → decoded (ok a) s ≡ (ok a, s)
  unfolding decoded
  decoded_pass a s = refl

  pub reject_invalid_pass :
      (fields : List Str) (s : Server E) → fields ≡ [] → reject_invalid fields s ≡ (ok tt, s)
  unfolding reject_invalid
  reject_invalid_pass [] s e = refl
  reject_invalid_pass (f ∷ fs) s e = cc

  pub query_pass :
      {A : Type 0} (f : E.database.Db → Outcome Str A) (a : A) (s : Server E)
      → f s.db ≡ ok a
      → query f s ≡ (ok a, s)
  unfolding query
  query_pass f a s e = rw (e, query) refl

  pub reject_stop : (b : Bool) (r : Reply) (s : Server E) → b ≡ true → reject b r s ≡ (err r, s)
  unfolding reject
  reject_stop true r s e = refl
  reject_stop false r s e = cc
