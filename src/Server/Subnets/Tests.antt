-- ===== src/Server/Subnets/Tests.antt =====
-- The overlap of two networks of internal/server/routes_networks.go.
use wgpilot.Base.{ℕ, ◌≡◌, ◌↔◌, refl, true, false}
use wgpilot.IpAlloc.{contains}
use wgpilot.Wg.Nets.{v4, v6}
use wgpilot.Server.Example.{lan, wide}
use wgpilot.Server.Subnets.{overlaps, contains_start, overlaps_iff}

no_families : overlaps (v4 lan) (v6 5 64) ≡ false
unfolding overlaps contains_start
no_families = refl

overlaps_iff_example :
    (overlaps (v4 lan) (v4 wide) ≡ true)
    ↔ ((x : ℕ) × (contains lan x ≡ true) × (contains wide x ≡ true))
overlaps_iff_example = overlaps_iff lan wide
