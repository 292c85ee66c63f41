-- ===== src/Config/Proxies.antt =====
-- ParseTrustedProxies and buildDSNFromParts of internal/config/config.go.
use evidra_gitops.Base.{
  String, ◌<>◌, Bool, not, Option, none, some, List, [], ◌∷◌, if◌then◌else◌, trim_space, contains,
  split_all,
}
use evidra_gitops.Result.{Result, ok, err, other, ◌>>=◌}
use evidra_gitops.Config.{Config, DatabaseSettings, is_blank, has_all_db_parts}

-- What package net makes of the address of a proxy: its text, and whether it is of version 4.
pub record Net (N : Type 0) : Type 0 where
  pub parse_ip : String → Option (String × Bool)
  pub parse_cidr : String → Option N

module _ {N : Type 0} (net : Net N) where
  -- The network of one entry, which may be an address without a mask.
  unfoldable pub with_mask : String → Result String
  with_mask cidr = if contains cidr "/" then ok cidr else elim (net.parse_ip cidr) [
    | none ↦ err (other ("invalid trusted proxy IP: " <> cidr))
    | some (ip, is_v4) ↦ ok (ip <> (if is_v4 then "/32" else "/128"))
  ]

  unfoldable pub network_of : String → Result N
  network_of cidr = elim (net.parse_cidr cidr) [
    | none ↦ err (other ("invalid trusted proxy CIDR " <> cidr))
    | some n ↦ ok n
  ]

  unfoldable pub networks_of : List String → Result (List N)
  networks_of [] = ok []
  networks_of (part ∷ parts) =
      let rest = networks_of parts in
      if is_blank part
      then rest
      else with_mask (trim_space part) >>= λ cidr.
          network_of cidr >>= λ n. rest >>= λ ns. ok (n ∷ ns)

  -- ParseTrustedProxies; the text of an error does not quote its entry.
  unfoldable pub parse_trusted_proxies : Config → Result (List N)
  parse_trusted_proxies c =
      if is_blank c.trusted_proxies
      then ok []
      else networks_of (split_all b',' (trim_space c.trusted_proxies))

-- What package net/url makes of the parts: user, password, host, name and TLS mode.
unfoldable pub build_dsn_from_parts :
    (String → String → String → String → String → String)
    → (String → Bool)
    → DatabaseSettings
    → String
build_dsn_from_parts url is_number d =
    if not (has_all_db_parts d)
    then ""
    else if not (is_number (trim_space d.port))
    then ""
    else url d.user d.password (d.host <> ":" <> trim_space d.port) d.name
        (if is_blank d.ssl_mode then "disable" else trim_space d.ssl_mode)
