-- ===== src/Server/Peers/Enabled.antt =====
-- handleUpdatePeer and the switch of a peer.
use wgpilot.Base.{ℕ, ◌≡◌, refl, sym, ap, ◌∙◌, Bool, Option, Str, arith}
use wgpilot.Wg.Types.{Outcome, ok, err}
use wgpilot.Wg.Manager.{update_peer, update_peer_ignores_enabled}
use wgpilot.Server.Types.{Network, Peer, Reply, Env, Server}
use wgpilot.Server.Handlers.{
  internal_error, Handler, ◌>>=◌, done, decoded, reject_invalid, must, nothing, change, wireguard,
}
use wgpilot.Server.Networks.{peer_config}
use wgpilot.Server.Peers.Validate.{UpdatePeerRequest, validate_update_peer}
use wgpilot.Server.Bridges.{or_else}
use wgpilot.Server.Peers.Handlers.{
  changed_peer, find_peer, network_of, read_now, fetch_peer, write_peer, handle_update_peer,
}

module _ (E : Env) where
  -- Two steps that leave the world alike.
  record SameWorld {A B : Type 0} (m : Handler E A) (k : Handler E B) : Type 0 where
    same : (s : Server E) → (m s).1.world ≡ (k s).1.world

  bind-SameWorld :
      {A B : Type 0} (m : Handler E A) {f g : A → Handler E B}
      → ((a : A) → SameWorld (f a) (g a))
      → SameWorld (m >>= f) (m >>= g)
  unfolding ◌>>=◌
  bind-SameWorld {A} {B} m {f} {g} h = record { same = λ s. after (m s).0 (m s).1 }
    where
      after :
          (r : Outcome Reply A) (s : Server E)
          → let v : Outcome Reply B × Server E = elim r [ ok a ↦ f a s | err e ↦ (err e, s) ] in
            let w : Outcome Reply B × Server E = elim r [ ok a ↦ g a s | err e ↦ (err e, s) ] in
            v.1.world ≡ w.1.world
      after (ok a) s = (h a).same s
      after (err e) s = refl

  -- A step that leaves the world as it was.
  record KeepsWorld {A : Type 0} (m : Handler E A) : Type 0 where
    kept : (s : Server E) → (m s).1.world ≡ s.world

  bind-last :
      {A B : Type 0} (m : Handler E A) {f : A → Handler E B}
      → ((a : A) → KeepsWorld (f a))
      → SameWorld (m >>= f) m
  unfolding ◌>>=◌
  bind-last {A} {B} m {f} h = record { same = λ s. after (m s).0 (m s).1 }
    where
      after :
          (r : Outcome Reply A) (s : Server E)
          → let v : Outcome Reply B × Server E = elim r [ ok a ↦ f a s | err e ↦ (err e, s) ] in
            v.1.world ≡ s.world
      after (ok a) s = (h a).kept s
      after (err e) s = refl

  bind-KeepsWorld :
      {A B : Type 0} (m : Handler E A) {f : A → Handler E B}
      → KeepsWorld m
      → ((a : A) → KeepsWorld (f a))
      → KeepsWorld (m >>= f)
  bind-KeepsWorld m k h = record { kept = λ s. (bind-last m h).same s ∙ k.kept s }

  change-KeepsWorld :
      (f : E.database.Db → Option Str × E.database.Db) (r : Reply)
      → KeepsWorld (must (change f) nothing r)
  unfolding must
  change-KeepsWorld f r = record { kept = λ s. ground arith }

  fetch_peer-KeepsWorld : (i : ℕ) → KeepsWorld (fetch_peer E i)
  unfolding fetch_peer
  fetch_peer-KeepsWorld i = record { kept = λ s. ground arith }

  done-KeepsWorld : {A : Type 0} (a : A) → KeepsWorld (done a)
  unfolding done
  done-KeepsWorld a = record { kept = λ s. refl }

  abbrev send : Network → Peer → Handler E (Unit {0})
  send n p =
      must
        (wireguard
          (update_peer E.host n.interface (record (peer_config p) { enabled = p.enabled })))
        nothing internal_error

  -- Only the call of the manager in `write_peer` reaches the world.
  write_peer-send : (i : ℕ) (n : Network) (p : Peer) → SameWorld (write_peer E i n p) (send n p)
  unfolding write_peer
  write_peer-send i n p = bind-last (send n p) (λ _.
      bind-KeepsWorld _ (change-KeepsWorld _ _)
        (λ _. bind-KeepsWorld _ (fetch_peer-KeepsWorld i) (λ _. done-KeepsWorld _)))

  send_ignores_enabled :
      (n : Network) (p : Peer) (b : Bool) → send n (record p { enabled = b }) ≡ send n p
  send_ignores_enabled n p b =
      ap (λ m. must (wireguard m) nothing internal_error)
        (update_peer_ignores_enabled E.host n.interface (peer_config p) b
          ∙ sym (update_peer_ignores_enabled E.host n.interface (peer_config p) p.enabled))

  write_peer-SameWorld :
      (i : ℕ) (n : Network) (p : Peer) (b : Bool)
      → SameWorld (write_peer E i n (record p { enabled = b })) (write_peer E i n p)
  write_peer-SameWorld i n p b = record {
    same = λ s.
        (write_peer-send i n (record p { enabled = b })).same s
        ∙ ap (λ m. (m s).1.world) (send_ignores_enabled n p b)
        ∙ sym ((write_peer-send i n p).same s);
  }

  given-SameWorld :
      {A B : Type 0} (a b : A) (f g : A → Handler E B)
      → SameWorld (f a) (g b)
      → SameWorld (decoded (ok a) >>= f) (decoded (ok b) >>= g)
  unfolding ◌>>=◌ decoded
  given-SameWorld a b f g h = record { same = h.same }

  update-SameWorld :
      (path peer_path : Outcome Reply ℕ) (req : UpdatePeerRequest) (e : Option Bool)
      → SameWorld
          (handle_update_peer E path peer_path (ok (record req { enabled = e })))
          (handle_update_peer E path peer_path (ok req))
  unfolding handle_update_peer validate_update_peer
  update-SameWorld path peer_path req e = bind-SameWorld (decoded path) (λ network_id.
      bind-SameWorld (decoded peer_path) (λ id.
        given-SameWorld (record req { enabled = e }) req _ _
          (bind-SameWorld (reject_invalid _) (λ _. bind-SameWorld (find_peer E network_id id) (λ p.
            bind-SameWorld (network_of E network_id) (λ n. bind-SameWorld (read_now E) (λ now.
              bind-SameWorld (decoded _)
                (λ t. write_peer-SameWorld id n (changed_peer req t p) (or_else e p.enabled)))))))))

-- A request to update a peer leaves the kernel the same whatever it says of `enabled`: to disable a
-- peer in this way does not remove it from the interface, and to enable it does not add it.
pub update_peer_switches_nothing :
    (E : Env) (path peer_path : Outcome Reply ℕ) (req : UpdatePeerRequest) (e : Option Bool)
    (s : Server E)
    → (handle_update_peer E path peer_path (ok (record req { enabled = e })) s).1.world
      ≡ (handle_update_peer E path peer_path (ok req) s).1.world
update_peer_switches_nothing E path peer_path req e s =
    (update-SameWorld E path peer_path req e).same s
