-- ===== src/Server/Bridges/Pairs.antt =====
-- The pairs of networks that the stored bridges join, and what the requests to
-- internal/server/routes_bridges.go and internal/server/routes_networks.go leave of them.
use wgpilot.Base.{
  ℕ, ◌≡◌, refl, sym, subst, ◌∙◌, false, Option, none, some, List, [], ◌∷◌, ◌++◌, Str, arith, ◌==◌,
  ◌||◌, Bool-cases, inl, inr,
}
use wgpilot.Wg.Types.{Outcome, ok, err}
use wgpilot.Server.Types.{Bridge, Env, Server}
use wgpilot.Server.Handlers.{answer}
use wgpilot.Server.Requests.{Request, to_networks, to_bridges, to_peers, handler, serve}
use wgpilot.Server.Stored.{Stored, joins_pair, joins, replace_link, remove_link, remove_links_of}
use wgpilot.Server.Peers.Frames.{peer_handler-Safe}
use wgpilot.Server.Keeps.{Safe, answer_Safe}
use wgpilot.Server.Frames.{network_handler-Safe}
use wgpilot.Server.Bridges.Frames.{bridge_handler-Safe}

-- Each bridge joins two different networks, and no two join the same ones.
abbrev pub Paired : List Bridge → Type 0
Paired [] = Unit
Paired (b ∷ bs) =
    ((b.network_a_id == b.network_b_id) ≡ false)
    × (joins b.network_a_id b.network_b_id bs ≡ false)
    × Paired bs

joins-append :
    (a b : ℕ) (c : Bridge) (bs : List Bridge)
    → joins a b (bs ++ c ∷ []) ≡ (joins a b bs || joins_pair a b c)
unfolding joins
joins-append a b c [] = ground arith
joins-append a b c (d ∷ bs) = ground (arith, joins-append a b c bs)

Paired-append :
    (c : Bridge) (bs : List Bridge)
    → (c.network_a_id == c.network_b_id) ≡ false
    → joins c.network_a_id c.network_b_id bs ≡ false
    → Paired bs
    → Paired (bs ++ c ∷ [])
unfolding joins
Paired-append c [] differ free p = (differ, refl, tt)
Paired-append c (b ∷ bs) differ free (d, f, p) = (
  d,
  joins-append b.network_a_id b.network_b_id c bs ∙ ground arith,
  Paired-append c bs differ (ground arith) p,
)

joins-replace_link :
    (a b : ℕ) (c : Bridge) (bs : List Bridge) → joins a b (replace_link c bs) ≡ joins a b bs
unfolding joins
joins-replace_link a b c [] = refl
joins-replace_link a b c (d ∷ bs) = ground (arith, joins-replace_link a b c bs)

Paired-replace_link : (c : Bridge) (bs : List Bridge) → Paired bs → Paired (replace_link c bs)
Paired-replace_link c [] p = tt
Paired-replace_link c (b ∷ bs) (d, f, p) =
    (ground arith, joins-replace_link _ _ c bs ∙ ground arith, Paired-replace_link c bs p)

joins-remove_link :
    (a b i : ℕ) (bs : List Bridge) → joins a b bs ≡ false → joins a b (remove_link i bs) ≡ false
unfolding joins
joins-remove_link a b i [] h = refl
joins-remove_link a b i (d ∷ bs) h = ground (arith, joins-remove_link a b i bs)

Paired-remove_link : (i : ℕ) (bs : List Bridge) → Paired bs → Paired (remove_link i bs)
Paired-remove_link i [] p = tt
Paired-remove_link i (b ∷ bs) (d, f, p) = elim (Bool-cases (b.id == i)) [
  | inl e ↦ rw e (Paired-remove_link i bs p)
  | inr e ↦ rw e (d, joins-remove_link _ _ i bs f, Paired-remove_link i bs p)
]

joins-remove_links_of :
    (a b i : ℕ) (bs : List Bridge) → joins a b bs ≡ false → joins a b (remove_links_of i bs) ≡ false
unfolding joins
joins-remove_links_of a b i [] h = refl
joins-remove_links_of a b i (d ∷ bs) h = ground (arith, joins-remove_links_of a b i bs)

Paired-remove_links_of : (i : ℕ) (bs : List Bridge) → Paired bs → Paired (remove_links_of i bs)
Paired-remove_links_of i [] p = tt
Paired-remove_links_of i (b ∷ bs) (d, f, p) =
    elim (Bool-cases ((b.network_a_id == i) || (b.network_b_id == i))) [
      | inl e ↦ rw e (Paired-remove_links_of i bs p)
      | inr e ↦ rw e (d, joins-remove_links_of _ _ i bs f, Paired-remove_links_of i bs p)
    ]

module _ (E : Env) (S : Stored E.database) where
  InPairs : E.database.Db → Type 0
  InPairs d = Paired (S.links d)

  -- A change of the links whose result hangs on how it ended.
  kept :
      {X : Type 0} (d d' : E.database.Db) (e : Option X) (after : List Bridge)
      → S.links d' ≡ elim e [ none ↦ after | some x ↦ S.links d ]
      → (Paired (S.links d) → Paired after)
      → Paired (S.links d)
      → Paired (S.links d')
  kept d d' none after e h p = subst Paired (sym e) (h p)
  kept d d' (some x) after e h p = subst Paired (sym e) p

  stored :
      (b : Bridge) (d d' : E.database.Db) (r : Outcome Str ℕ)
      → S.links d' ≡ elim r [ ok i ↦ S.links d ++ (record b { id = i } ∷ []) | err e ↦ S.links d ]
      → (b.network_a_id == b.network_b_id) ≡ false
      → joins b.network_a_id b.network_b_id (S.links d) ≡ false
      → Paired (S.links d)
      → Paired (S.links d')
  stored b d d' (ok i) e differ free p =
      subst Paired (sym e) (Paired-append (record b { id = i }) (S.links d) differ free p)
  stored b d d' (err x) e differ free p = subst Paired (sym e) p

  handler-Safe : (r : Request) → Safe E InPairs (handler E r)
  unfolding handler InPairs
  handler-Safe (to_networks r) =
      network_handler-Safe E InPairs
        (record {
          created = λ n d p. subst Paired (sym (S.links_created n d)) p;
          updated = λ n d p. subst Paired (sym (S.links_updated n d)) p;
          deleted = λ i d p. kept d _ _ _ (S.cascaded i d) (Paired-remove_links_of i (S.links d)) p;
        })
        r
  handler-Safe (to_bridges r) =
      bridge_handler-Safe E InPairs
        (record {
          created = λ b d differ free p.
              stored b d _ _ (S.linked b d) differ (sym (S.exists _ _ d false free)) p;
          updated = λ b d p. kept d _ _ _ (S.relinked b d) (Paired-replace_link b (S.links d)) p;
          deleted = λ i d p. kept d _ _ _ (S.unlinked i d) (Paired-remove_link i (S.links d)) p;
        })
        r
  handler-Safe (to_peers r) =
      peer_handler-Safe E InPairs
        (record {
          created =
              λ n req i ip ps keys shared t d l e p. subst Paired (sym (S.links_add_peer _ d)) p;
          updated = λ i p q d g e f h. subst Paired (sym (S.links_set_peer q d)) h;
          deleted = λ i d p. subst Paired (sym (S.links_drop_peer i d)) p;
        })
        r

-- Over a database that stores rows as `Stored` says, whatever requests come, and whatever calls of
-- the database, of the firewall or of WireGuard fail: if every bridge of the database joins two
-- different networks and no two bridges join the same ones, in whatever order, then so it is after
-- the requests.
pub serve-Paired :
    (E : Env) (S : Stored E.database) (rs : List Request) (s : Server E)
    → Paired (S.links s.db)
    → Paired (S.links (serve E rs s).db)
unfolding serve InPairs
serve-Paired E S [] s p = p
serve-Paired E S (r ∷ rs) s p =
    serve-Paired E S rs (answer (handler E r) s).1
      (answer_Safe E (InPairs E S) (handler E r) s (handler-Safe E S r) p)
