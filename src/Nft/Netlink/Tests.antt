-- ===== src/Nft/Netlink/Tests.antt =====
-- The applier over a small kernel that loads at most two rules.
use wgpilot.Base.{
  ◌≡◌, refl, sym, ap, ◌∙◌, arith, true, false, Option, none, some, List, [], ◌∷◌, Str, bytes,
  str_eq, length, leb, map, if◌then◌else◌,
}
use wgpilot.Wg.Types.{Outcome, ok, err}
use wgpilot.Nft.Manager.{udp_rule, bridge_rule}
use wgpilot.Nft.Rules.{Rule, bidirectional, expand_forward_entries}
use wgpilot.Nft.Netlink.{
  Message, del_table, add_table, add_chain, add_rule, Table, Netlink, is_ours, apply_rules,
  delete_existing, install, batch, build_forward_exprs,
}
use wgpilot.Nft.Netlink.Expressions.{entry_exprs, build_forward_exprs-expand_forward_entries}
use wgpilot.Nft.Netlink.Batch.{Loaded, added, wanted}
use wgpilot.Nft.Netlink.Tables.{any_ours, Loads, outcome_table, apply_rules-table}

abbrev our_table : Table
our_table = record { name = bytes "wgpilot"; ipv4 = true }

abbrev small_list : Option Loaded → List Table
small_list none = []
small_list (some l) = our_table ∷ []

small_load : List Message → Option Loaded → Option Str × Option Loaded
small_load ms w =
    if leb (length (added ms)) 2 then (none, some (added ms)) else (some (bytes "full"), w)

unfoldable pub small_flush : List Message → Option Loaded → Option Str × Option Loaded
unfolding small_load
small_flush [] w = (none, w)
small_flush (del_table ∷ ms) w = (none, none)
small_flush (add_table ∷ ms) w = small_load ms w
small_flush (add_chain c ∷ ms) w = (none, w)
small_flush (add_rule c es ∷ ms) w = (none, w)

abbrev pub small_netlink : Netlink
small_netlink = record {
  World = Option Loaded;
  connect = λ w. none;
  list_tables = λ w. ok (small_list w);
  flush = small_flush;
}

pub shown_small :
    (w : Option Loaded) → any_ours (small_list w) ≡ elim w [ none ↦ false | some l ↦ true ]
unfolding any_ours is_ours str_eq
shown_small none = refl
shown_small (some l) = refl

abbrev pub tables_of : Outcome Str (List Table) → List Table
tables_of (ok ts) = ts
tables_of (err e) = []

pub listed_small :
    (w : Option Loaded) (ts : List Table)
    → small_netlink.list_tables w ≡ ok ts
    → any_ours ts ≡ elim w [ none ↦ false | some l ↦ true ]
listed_small w ts h = ap (λ r. any_ours (tables_of r)) (sym h) ∙ shown_small w

pub deleted_small : (w : Option Loaded) → (small_flush (del_table ∷ []) w).1 ≡ none
unfolding small_flush
deleted_small w = refl

pub loaded_small :
    (w : Option Loaded) (ms : List Message)
    → (small_flush (add_table ∷ ms) w).0 ≡ none
    → (small_flush (add_table ∷ ms) w).1 ≡ some (added ms)
unfolding small_flush small_load
loaded_small w ms h = ground arith

pub refused_small :
    (w : Option Loaded) (ms : List Message) (e : Str)
    → (small_flush ms w).0 ≡ some e
    → (small_flush ms w).1 ≡ w
unfolding small_flush small_load
refused_small w [] e h = refl
refused_small w (del_table ∷ ms) e h = cc
refused_small w (add_table ∷ ms) e h = ground arith
refused_small w (add_chain c ∷ ms) e h = refl
refused_small w (add_rule c es ∷ ms) e h = refl

abbrev pub small_loads : Loads small_netlink
small_loads = record {
  table = λ w. w;
  listed = listed_small;
  deleted = λ w h. deleted_small w;
  loaded = λ w ms a h. loaded_small w ms;
  refused = refused_small;
}

abbrev ports : List Rule
ports = udp_rule 51820 ∷ udp_rule 51821 ∷ udp_rule 51822 ∷ []

-- The old table is gone: the kernel has deleted it, and then refuses the three ports.
apply_rules-table_example :
    small_loads.table (apply_rules small_netlink ports (some [])).1
    ≡ outcome_table small_netlink small_loads
        (apply_rules small_netlink ports (some [])).0
        (wanted ports)
        (some [])
apply_rules-table_example = apply_rules-table small_netlink small_loads ports (some [])

build_forward_exprs-expand_forward_entries_example :
    build_forward_exprs (bridge_rule (bytes "wg0") (bytes "wg1") bidirectional)
    ≡ map entry_exprs
        (expand_forward_entries (bridge_rule (bytes "wg0") (bytes "wg1") bidirectional))
build_forward_exprs-expand_forward_entries_example =
    build_forward_exprs-expand_forward_entries
      (bridge_rule (bytes "wg0") (bytes "wg1") bidirectional)

-- A kernel that accepts every batch.
pub open_flush : List Message → Option Loaded → Option Str × Option Loaded
open_flush [] w = (none, w)
open_flush (del_table ∷ ms) w = (none, none)
open_flush (add_table ∷ ms) w = (none, some (added ms))
open_flush (add_chain c ∷ ms) w = (none, w)
open_flush (add_rule c es ∷ ms) w = (none, w)

abbrev pub open_netlink : Netlink
open_netlink = record {
  World = Option Loaded;
  connect = λ w. none;
  list_tables = λ w. ok (small_list w);
  flush = open_flush;
}

open_accepts : (ms : List Message) (w : Option Loaded) → (open_flush ms w).0 ≡ none
unfolding open_flush
open_accepts [] w = refl
open_accepts (del_table ∷ ms) w = refl
open_accepts (add_table ∷ ms) w = refl
open_accepts (add_chain c ∷ ms) w = refl
open_accepts (add_rule c es ∷ ms) w = refl

pub refused_open :
    (w : Option Loaded) (ms : List Message) (e : Str)
    → (open_flush ms w).0 ≡ some e
    → (open_flush ms w).1 ≡ w
refused_open w ms e h = absurd (ground (arith, open_accepts ms w))

pub deleted_open : (w : Option Loaded) → (open_flush (del_table ∷ []) w).1 ≡ none
unfolding open_flush
deleted_open w = refl

pub loaded_open :
    (w : Option Loaded) (ms : List Message) → (open_flush (add_table ∷ ms) w).1 ≡ some (added ms)
unfolding open_flush
loaded_open w ms = refl

abbrev pub open_loads : Loads open_netlink
open_loads = record {
  table = λ w. w;
  listed = λ w ts h. ap (λ r. any_ours (tables_of r)) (sym h) ∙ shown_small w;
  deleted = λ w h. deleted_open w;
  loaded = λ w ms a h e. loaded_open w ms;
  refused = refused_open;
}

pub apply_rules-open :
    (rs : List Rule) (w : Option Loaded) → (apply_rules open_netlink rs w).0 ≡ none
unfolding apply_rules delete_existing install is_ours open_flush batch str_eq
apply_rules-open [] none = refl
apply_rules-open (r ∷ rs) none = refl
apply_rules-open [] (some l) = refl
apply_rules-open (r ∷ rs) (some l) = refl
