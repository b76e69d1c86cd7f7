-- ===== src/Provisioning/Endpoint.antt =====
-- firmware/components/provisioning_service/provisioning_softap_endpoint.c: requests are served only
-- on the local address of the access point. The socket interface is not in the repository: its
-- constants are the record `Abi`, and what `getsockname` returns is an argument.
pub mod Authorized
use industrial_edge_monitor.Base.{
  ℕ, ◌+◌, ◌*◌, ◌^◌, Bool, true, false, ◌&&◌, ◌||◌, not, Option, none, some, List, [], ◌∷◌, ltb, leb,
  ◌==◌, if◌then◌else◌, ℤ, is_negative, bytes_eq, take, get_or, codes,
}

pub data EndpointClass : Type 0 where
  ipv4_softap ipv4_other ipv4_mapped_softap ipv4_mapped_other ipv6_native : EndpointClass
  netif_unavailable invalid_socket getsockname_failed truncated unexpected_family : EndpointClass

-- `sizeof(sa_family_t)`, `sizeof(struct sockaddr_in)`, `sizeof(struct sockaddr_in6)`,
-- `sizeof(struct sockaddr_storage)` and the address families.
pub record Abi : Type 0 where
  pub family_size : ℕ
  pub ipv4_size : ℕ
  pub ipv6_size : ℕ
  pub storage_size : ℕ
  pub af_unspec : ℕ
  pub af_inet : ℕ
  pub af_inet6 : ℕ

-- The fields of a socket address under each of the structures that it may be read as: the IPv4
-- address as the number that `s_addr` holds, and the 16 bytes of the IPv6 address.
pub record SocketAddress : Type 0 where
  pub family : ℕ
  pub ipv4_address : ℕ
  pub ipv6_address : List ℕ

abbrev pub mapped_prefix : List ℕ
mapped_prefix = 0 ∷ 0 ∷ 0 ∷ 0 ∷ 0 ∷ 0 ∷ 0 ∷ 0 ∷ 0 ∷ 0 ∷ 0xff ∷ 0xff ∷ []

-- `memcpy` of the last four bytes into a `uint32_t`, on a little-endian machine.
unfoldable pub mapped_ipv4 : List ℕ → ℕ
mapped_ipv4 a =
    get_or a 12 0 + get_or a 13 0 * 2 ^ 8 + get_or a 14 0 * 2 ^ 16 + get_or a 15 0 * 2 ^ 24

module _ (abi : Abi) where
  unfoldable pub classify : Option SocketAddress → ℕ → ℕ → EndpointClass
  classify none size softap = truncated
  classify (some local) size softap =
      if ltb size abi.family_size
      then truncated
      else if local.family == abi.af_inet
      then (if ltb size abi.ipv4_size
          then truncated
          else if local.ipv4_address == softap
          then ipv4_softap
          else ipv4_other)
      else if local.family == abi.af_inet6
      then (if ltb size abi.ipv6_size
          then truncated
          else if not (bytes_eq (take 12 local.ipv6_address) mapped_prefix)
          then ipv6_native
          else if mapped_ipv4 local.ipv6_address == softap
          then ipv4_mapped_softap
          else ipv4_mapped_other)
      else unexpected_family

  -- What `getsockname` returned: `none` is a failure, otherwise the address and its length. The
  -- class, and the family stored through the last argument.
  unfoldable pub authorize_socket :
      Option (SocketAddress × ℕ) → ℤ → Bool → ℕ → ℕ → EndpointClass × ℕ
  unfolding classify
  authorize_socket answer socket ready softap netmask =
      if not ready || (softap == 0 || netmask == 0)
      then (netif_unavailable, abi.af_unspec)
      else if is_negative socket
      then (invalid_socket, abi.af_unspec)
      else elim answer [
        | none ↦ (getsockname_failed, abi.af_unspec)
        | some (local, size) ↦ (
          if ltb abi.storage_size size then truncated else classify (some local) size softap,
          if leb abi.family_size size then local.family else abi.af_unspec,
        )
      ]

unfoldable pub is_authorized : EndpointClass → Bool
is_authorized ipv4_softap = true
is_authorized ipv4_mapped_softap = true
is_authorized _ = false

-- The classes are the values of the enumeration, so the `default` case is not reached.
unfoldable pub class_name : EndpointClass → List ℕ
class_name ipv4_softap = codes "ipv4-softap"
class_name ipv4_other = codes "ipv4-other"
class_name ipv4_mapped_softap = codes "ipv4-mapped-softap"
class_name ipv4_mapped_other = codes "ipv4-mapped-other"
class_name ipv6_native = codes "ipv6-native"
class_name netif_unavailable = codes "softap-netif-unavailable"
class_name invalid_socket = codes "invalid-socket"
class_name getsockname_failed = codes "getsockname-failed"
class_name truncated = codes "sockaddr-truncated"
class_name unexpected_family = codes "unexpected-family"
