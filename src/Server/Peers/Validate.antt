-- ===== src/Server/Peers/Validate.antt =====
-- The checks of requests in internal/server/routes_peers.go.
use wgpilot.Base.{
  Bool, true, false, ◌&&◌, ◌||◌, not, Option, none, some, List, [], ◌∷◌, Str, bytes, str_eq,
  if◌then◌else◌, ltb, leb, ◌==◌, length,
}
use wgpilot.Base.Int.{ℤ, pos, negsuc, atoi}
use wgpilot.Base.Space.{trim_space}
use wgpilot.Server.Types.{Parsers}
use wgpilot.Server.Validate.{is_valid_name, split_comma, unless_valid}

pub record CreatePeerRequest : Type 0 where
  pub name : Str
  pub email : Str
  pub role : Str
  pub persistent_keepalive : ℤ
  pub site_networks : Str
  pub expires_in : Str

-- `none` is a field that the request leaves out.
pub record UpdatePeerRequest : Type 0 where
  pub name : Option Str
  pub email : Option Str
  pub enabled : Option Bool
  pub persistent_keepalive : Option ℤ
  pub endpoint : Option Str
  pub expires_in : Option Str

abbrev pub site_gateway : Str
site_gateway = bytes "site-gateway"

unfoldable pub is_valid_role : Str → Bool
is_valid_role role = str_eq role (bytes "client") || str_eq role site_gateway

-- What stands before the last "@" and behind it.
unfoldable pub split_at : Str → Option (Str × Str)
split_at [] = none
split_at (c ∷ s) = elim (split_at s) [
  | some p ↦ some (c ∷ p.0, p.1)
  | none ↦ if c == b'@' then some ([], s) else none
]

unfoldable pub has_dot : Str → Bool
has_dot [] = false
has_dot (c ∷ s) = (c == b'.') || has_dot s

-- Behind the last "@" there is a text with a dot, and something in front.
unfoldable pub is_valid_parts : Option (Str × Str) → Bool
is_valid_parts none = false
is_valid_parts (some p) = not (str_eq p.0 []) && (not (str_eq p.1 []) && has_dot p.1)

unfoldable pub is_valid_email : Str → Bool
unfolding split_at is_valid_parts has_dot
is_valid_email [] = true
is_valid_email (c ∷ s) =
    if ltb 254 (length (c ∷ s)) then false else is_valid_parts (split_at (c ∷ s))

unfoldable pub is_port : ℤ → Bool
is_port (pos n) = leb 1 n && leb n 65535
is_port (negsuc n) = false

unfoldable pub is_keepalive : ℤ → Bool
is_keepalive (pos n) = leb n 65535
is_keepalive (negsuc n) = false

module _ (P : Parsers) where
  unfoldable pub is_valid_endpoint : Str → Bool
  is_valid_endpoint [] = true
  is_valid_endpoint (c ∷ s) = elim (P.split_host_port (c ∷ s)) [
    | none ↦ false
    | some p ↦
        if str_eq p.0 [] then false else elim (atoi p.1) [ none ↦ false | some n ↦ is_port n ]
  ]

  unfoldable pub each_cidr : List Str → Bool
  each_cidr [] = true
  each_cidr (p ∷ ps) = elim (P.parse_cidr (trim_space p)) [ none ↦ false | some r ↦ each_cidr ps ]

  unfoldable pub is_valid_site_networks : Str → Bool
  unfolding each_cidr
  is_valid_site_networks [] = true
  is_valid_site_networks (c ∷ s) = each_cidr (split_comma (c ∷ s))

  unfoldable pub validate_create_peer : CreatePeerRequest → List Str
  validate_create_peer r = unless_valid (is_valid_name r.name) (bytes "name") (
      unless_valid (is_valid_email r.email) (bytes "email") (
        unless_valid (is_valid_role r.role) (bytes "role") (
          unless_valid (is_keepalive r.persistent_keepalive) (bytes "persistent_keepalive") (
            unless_valid
              (not (str_eq r.role site_gateway) || is_valid_site_networks r.site_networks)
              (bytes "site_networks") []))))

  abbrev given : {A : Type 0} → (A → Bool) → Option A → Bool
  given test none = true
  given test (some a) = test a

  unfoldable pub validate_update_peer : UpdatePeerRequest → List Str
  validate_update_peer r = unless_valid (given is_valid_name r.name) (bytes "name") (
      unless_valid (given is_valid_email r.email) (bytes "email") (
        unless_valid (given is_keepalive r.persistent_keepalive) (bytes "persistent_keepalive")
          (unless_valid (given is_valid_endpoint r.endpoint) (bytes "endpoint") [])))
