-- ===== src/Api/Remote.antt =====
-- requestRemoteIP and remoteAddrIP of internal/api/audit.go, which name the peer of a request for the
-- rate limiter. `net.SplitHostPort`, `net.ParseIP` and the networks of package net are parameters.
use evidra_gitops.Base.{
  String, Bool, false, Option, none, some, List, [], ◌∷◌, ◌==◌, if◌then◌else◌, any, split_all,
  trim_space,
}

pub record Network (N I : Type 0) : Type 0 where
  pub split_host_port : String → Option String
  pub parse_ip : String → Option I
  pub contains : N → I → Bool

unfoldable pub first_part : List String → String
first_part [] = ""
first_part (part ∷ parts) = trim_space part

module _ {N I : Type 0} (net : Network N I) (trusted : List N) where
  -- remoteAddrIP
  unfoldable pub remote_addr_ip : String → String
  remote_addr_ip remote_addr = elim (net.split_host_port (trim_space remote_addr)) [
    | none ↦ trim_space remote_addr
    | some host ↦ host
  ]

  unfoldable pub is_trusted : String → Bool
  is_trusted ip = elim (net.parse_ip ip) [
    | none ↦ false
    | some parsed ↦ any (λ n. net.contains n parsed) trusted
  ]

  -- requestRemoteIP, of the address of the connection and the header X-Forwarded-For
  unfoldable pub request_remote_ip : String → String → String
  request_remote_ip remote_addr forwarded_for =
      let remote_ip = remote_addr_ip remote_addr in
      if is_trusted remote_ip
      then if trim_space forwarded_for == ""
        then remote_ip
        else first_part (split_all b',' (trim_space forwarded_for))
      else remote_ip
