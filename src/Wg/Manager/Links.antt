-- ===== src/Wg/Manager/Links.antt =====
-- The links that CreateInterface and DeleteInterface of internal/wg/manager.go leave behind.
use wgpilot.Base.{
  ◌≡◌, refl, ◌∙◌, ap, subst, str_eq_refl, str_eq_iff, Bool, true, false, Option, none, some, List,
  [], ◌∷◌, Str, str_eq, if◌then◌else◌, arith,
}
use wgpilot.Wg.Types.{WgPeerInfo, DeviceConfig, NetworkConfig, Outcome, ok, err, Host}
use wgpilot.Wg.Manager.{
  Error, link_add, assign_address, configure, bring_up, remove_peers, bring_down, delete_failed, M,
  ◌>>=◌, call, or_delete, create_interface, delete_interface, parse_net, get_device_info,
  remove_all, key_and_port, server_address,
}

-- What the manager relies on, `exists` being whether the kernel has a link of that name. A link
-- that cannot be created or deleted stays as it was, and one that is there can be deleted.
pub record Linked (H : Host) : Type 0 where
  pub exists : Str → H.World → Bool
  pub created :
      (n j : Str) (w : H.World)
      → exists j (H.create_wireguard_link n w).1 ≡ elim (H.create_wireguard_link n w).0 [
        | none ↦ if str_eq n j then true else exists j w
        | some e ↦ exists j w
      ]
  pub fresh : (n : Str) (w : H.World) → (H.create_wireguard_link n w).0 ≡ none → exists n w ≡ false
  pub deleted :
      (n j : Str) (w : H.World)
      → exists j (H.delete_link n w).1 ≡ elim (H.delete_link n w).0 [
        | none ↦ if str_eq n j then false else exists j w
        | some e ↦ exists j w
      ]
  pub deletable : (n : Str) (w : H.World) → exists n w ≡ true → (H.delete_link n w).0 ≡ none
  pub configured :
      (n j : Str) (c : DeviceConfig) (w : H.World)
      → exists j (H.configure_device n c w).1 ≡ exists j w
  pub upped : (n j : Str) (w : H.World) → exists j (H.set_link_up n w).1 ≡ exists j w
  pub downed : (n j : Str) (w : H.World) → exists j (H.set_link_down n w).1 ≡ exists j w
  pub addressed : (n j a : Str) (w : H.World) → exists j (H.add_address n a w).1 ≡ exists j w

module _ (H : Host) (L : Linked H) where
  -- A step that changes no link, and one that deletes `name` when it fails.
  record Same {A : Type 0} (m : M H A) : Type 0 where
    same : (j : Str) (w : H.World) → L.exists j (m w).1 ≡ L.exists j w

  abbrev undone : {A : Type 0} → Str → Outcome Error A → Str → H.World → Bool
  undone name r j w = elim r [
    | ok a ↦ L.exists j w
    | err e ↦ if str_eq name j then false else L.exists j w
  ]

  record Undoes {A : Type 0} (name : Str) (m : M H A) : Type 0 where
    undoes :
        (w : H.World)
        → L.exists name w ≡ true
        → (j : Str) → L.exists j (m w).1 ≡ undone name (m w).0 j w

  call-Same :
      (wrap : Str → Error) (op : H.World → Option Str × H.World)
      → ((j : Str) (w : H.World) → L.exists j (op w).1 ≡ L.exists j w)
      → Same (call H wrap op)
  call-Same wrap op h = record { same = λ j w. ground (arith, h j w) }

  or_delete-Undoes :
      {A : Type 0} (name : Str) (m : M H A) → Same m → Undoes name (or_delete H name m)
  or_delete-Undoes name m s = record {
    undoes = λ w there j.
        ground
          (arith, s.same j w, s.same name w, L.deleted name j (m w).1, L.deletable name (m w).1);
  }

  bind-Undoes :
      {A B : Type 0} (name : Str) (m : M H A) (f : A → M H B)
      → Undoes name m
      → ((a : A) → Undoes name (f a))
      → Undoes name (◌>>=◌ H m f)
  bind-Undoes {A = A} {B = B} name m f hm hf = record {
    undoes = λ w there j. after w there j (m w).0 (m w).1 (hm.undoes w there);
  }
    where
      after :
          (w : H.World)
          → L.exists name w ≡ true
          → (j : Str) (r : Outcome Error A) (w' : H.World)
          → ((i : Str) → L.exists i w' ≡ undone name r i w)
          → let v : Outcome Error B × H.World = elim r [ ok a ↦ f a w' | err e ↦ (err e, w') ] in
            L.exists j v.1 ≡ undone {A = B} name v.0 j w
      after w there j (ok a) w' h =
          subst (λ b. L.exists j (f a w').1 ≡ b) (carry (f a w').0)
            ((hf a).undoes w' (h name ∙ there) j)
        where
          carry : (r : Outcome Error B) → undone {A = B} name r j w' ≡ undone {A = B} name r j w
          carry (ok b) = h j
          carry (err e) = ap (λ b. if str_eq name j then false else b) (h j)
      after w there j (err e) w' h = h j

  bind-Same :
      {A B : Type 0} (m : M H A) (f : A → M H B)
      → Same m
      → ((a : A) → Same (f a))
      → Same (◌>>=◌ H m f)
  bind-Same {A = A} {B = B} m f hm hf = record {
    same = λ j w. after j w (m w).0 (m w).1 (hm.same j w);
  }
    where
      after :
          (j : Str) (w : H.World) (r : Outcome Error A) (w' : H.World)
          → L.exists j w' ≡ L.exists j w
          → let v : Outcome Error B × H.World = elim r [ ok a ↦ f a w' | err e ↦ (err e, w') ] in
            L.exists j v.1 ≡ L.exists j w
      after j w (ok a) w' h = (hf a).same j w' ∙ h
      after j w (err e) w' h = h

  parse_net-Same : (s : Str) → Same (parse_net H s)
  unfolding parse_net
  parse_net-Same s = record { same = λ j w. ground arith }

  get_device_info-Same : (name : Str) → Same (get_device_info H name)
  unfolding get_device_info
  get_device_info-Same name = record { same = λ j w. ground arith }

  remove_all-Same : (name : Str) (ps : List WgPeerInfo) → Same (remove_all H name ps)
  unfolding remove_all
  remove_all-Same name [] = record { same = λ j w. refl }
  remove_all-Same name (p ∷ ps) = record {
    same = λ j w.
        (call-Same remove_peers (H.configure_device name _) (λ i v. L.configured name i _ v)).same j
          w;
  }

  -- The links that a creation leaves, by how it ended.
  abbrev pub links_created : Str → Outcome Error (Unit {0}) → Str → H.World → Bool
  links_created name r j w = elim r [
    | ok u ↦ if str_eq name j then true else L.exists j w
    | err e ↦ L.exists j w
  ]

  after_creation :
      (name : Str) (k : M H (Unit {0}))
      → Undoes name k
      → (w : H.World) (j : Str)
      → let v = ◌>>=◌ H (call H link_add (H.create_wireguard_link name)) (λ _. k) w in
        L.exists j v.1 ≡ links_created name v.0 j w
  after_creation name k u w j =
      let w' = (H.create_wireguard_link name w).1 in
      let rest : L.exists name w' ≡ true → L.exists j (k w').1 ≡ undone name (k w').0 j w' =
        λ there. u.undoes w' there j in
      ground (
        arith,
        L.created name j w,
        L.created name name w,
        L.fresh name w,
        str_eq_refl name,
        str_eq_iff name j,
      )

  -- Over a kernel that treats links as `Linked` says, creating an interface is atomic: if it
  -- succeeds, the link of its name is there and no other link has changed; if a step fails,
  -- whichever it is, every link is as it was before the call.
  pub create_interface-atomic :
      (n : NetworkConfig) (w : H.World) (j : Str)
      → L.exists j (create_interface H n w).1
        ≡ links_created n.interface (create_interface H n w).0 j w
  unfolding create_interface
  create_interface-atomic n w j =
      after_creation n.interface _
        (bind-Undoes n.interface _ _ (or_delete-Undoes n.interface _ (parse_net-Same n.subnet))
          (λ net.
            bind-Undoes n.interface _ _
              (or_delete-Undoes n.interface _ (
                call-Same assign_address (H.add_address n.interface (server_address H.text net))
                  (λ i v. L.addressed n.interface i (server_address H.text net) v)))
              (λ _.
                bind-Undoes n.interface _ _
                  (or_delete-Undoes n.interface _ (
                    call-Same configure (H.configure_device n.interface (key_and_port H n))
                      (λ i v. L.configured n.interface i (key_and_port H n) v)))
                  (λ _. or_delete-Undoes n.interface _ (
                    call-Same bring_up (H.set_link_up n.interface)
                      (λ i v. L.upped n.interface i v))))))
        w j

  abbrev pub links_deleted : Str → Outcome Error (Unit {0}) → Str → H.World → Bool
  links_deleted name r j w = elim r [
    | ok u ↦ if str_eq name j then false else L.exists j w
    | err e ↦ L.exists j w
  ]

  record Deletes (name : Str) (m : M H (Unit {0})) : Type 0 where
    deletes : (w : H.World) (j : Str) → L.exists j (m w).1 ≡ links_deleted name (m w).0 j w

  bind-Deletes :
      {A : Type 0} (name : Str) (m : M H A) (f : A → M H (Unit {0}))
      → Same m
      → ((a : A) → Deletes name (f a))
      → Deletes name (◌>>=◌ H m f)
  bind-Deletes {A = A} name m f hm hf = record {
    deletes = λ w j. after w j (m w).0 (m w).1 (hm.same j w);
  }
    where
      after :
          (w : H.World) (j : Str) (r : Outcome Error A) (w' : H.World)
          → L.exists j w' ≡ L.exists j w
          → let v : Outcome Error (Unit {0}) × H.World = elim r [
            | ok a ↦ f a w'
            | err e ↦ (err e, w')
          ] in
            L.exists j v.1 ≡ links_deleted name v.0 j w
      after w j (ok a) w' h =
          subst (λ b. L.exists j (f a w').1 ≡ links_of b (f a w').0) h ((hf a).deletes w' j)
        where
          links_of : Bool → Outcome Error (Unit {0}) → Bool
          links_of b (ok u) = if str_eq name j then false else b
          links_of b (err e) = b
      after w j (err e) w' h = h

  call-Deletes : (name : Str) → Deletes name (call H delete_failed (H.delete_link name))
  call-Deletes name = record { deletes = λ w j. ground (arith, L.deleted name j w) }

  -- Over a kernel that treats links as `Linked` says, deleting an interface removes its link and no
  -- other if it succeeds, and no link if it fails.
  pub delete_interface-links :
      (name : Str) (w : H.World) (j : Str)
      → L.exists j (delete_interface H name w).1
        ≡ links_deleted name (delete_interface H name w).0 j w
  unfolding delete_interface
  delete_interface-links name w j =
      (bind-Deletes name _ _ (get_device_info-Same name) (λ dev.
          bind-Deletes name _ _ (remove_all-Same name dev.peers) (λ _.
            bind-Deletes name _ _
              (call-Same bring_down (H.set_link_down name) (λ i v. L.downed name i v))
              (λ _. call-Deletes name)))).deletes
        w j
