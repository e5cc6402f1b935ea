-- ===== src/WgQuick/Keys.antt =====
-- The keys of the templates under the names that the parser compares with.
use wgpilot.Base.{refl, bytes}
use wgpilot.Base.Space.{is_space, trim_space, trim_start, trim_end, trim_before}
use wgpilot.WgQuick.Import.{lower, is_skipped}
use wgpilot.WgQuick.Lines.{is_key, Reads}

pub Reads-private_key : Reads (bytes "PrivateKey") (bytes "privatekey")
unfolding is_key is_space is_skipped lower trim_space trim_start trim_end trim_before
Reads-private_key = (refl, refl)

pub Reads-address : Reads (bytes "Address") (bytes "address")
unfolding is_key is_space is_skipped lower trim_space trim_start trim_end trim_before
Reads-address = (refl, refl)

pub Reads-listen_port : Reads (bytes "ListenPort") (bytes "listenport")
unfolding is_key is_space is_skipped lower trim_space trim_start trim_end trim_before
Reads-listen_port = (refl, refl)

pub Reads-dns : Reads (bytes "DNS") (bytes "dns")
unfolding is_key is_space is_skipped lower trim_space trim_start trim_end trim_before
Reads-dns = (refl, refl)

pub Reads-post_up : Reads (bytes "PostUp") (bytes "postup")
unfolding is_key is_space is_skipped lower trim_space trim_start trim_end trim_before
Reads-post_up = (refl, refl)

pub Reads-post_down : Reads (bytes "PostDown") (bytes "postdown")
unfolding is_key is_space is_skipped lower trim_space trim_start trim_end trim_before
Reads-post_down = (refl, refl)

pub Reads-public_key : Reads (bytes "PublicKey") (bytes "publickey")
unfolding is_key is_space is_skipped lower trim_space trim_start trim_end trim_before
Reads-public_key = (refl, refl)

pub Reads-preshared_key : Reads (bytes "PresharedKey") (bytes "presharedkey")
unfolding is_key is_space is_skipped lower trim_space trim_start trim_end trim_before
Reads-preshared_key = (refl, refl)

pub Reads-allowed_ips : Reads (bytes "AllowedIPs") (bytes "allowedips")
unfolding is_key is_space is_skipped lower trim_space trim_start trim_end trim_before
Reads-allowed_ips = (refl, refl)

pub Reads-endpoint : Reads (bytes "Endpoint") (bytes "endpoint")
unfolding is_key is_space is_skipped lower trim_space trim_start trim_end trim_before
Reads-endpoint = (refl, refl)

pub Reads-persistent_keepalive : Reads (bytes "PersistentKeepalive") (bytes "persistentkeepalive")
unfolding is_key is_space is_skipped lower trim_space trim_start trim_end trim_before
Reads-persistent_keepalive = (refl, refl)
