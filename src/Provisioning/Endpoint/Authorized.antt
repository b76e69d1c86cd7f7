-- ===== src/Provisioning/Endpoint/Authorized.antt =====
-- Which sockets are authorized.
use industrial_edge_monitor.Base.{
  ℕ, ◌≤◌, ◌<◌, ◌≡◌, ◌↔◌, ◌≢◌, ◌⊎◌, Bool, true, false, none, some, arith, ℤ, bytes_eq_iff, take,
  is_negative,
}
use industrial_edge_monitor.Provisioning.Endpoint.{
  Abi, SocketAddress, classify, authorize_socket, is_authorized, mapped_ipv4, mapped_prefix,
}

-- The address is the access point's, as IPv4 or as IPv6-mapped IPv4, in a structure that is whole.
abbrev pub IsSoftap : Abi → SocketAddress → ℕ → ℕ → Type 0
IsSoftap abi local size softap =
    (abi.family_size ≤ size)
    × ((local.family ≡ abi.af_inet) × (abi.ipv4_size ≤ size) × (local.ipv4_address ≡ softap)
        ⊎ (local.family ≡ abi.af_inet6)
          × (abi.ipv6_size ≤ size)
          × (take 12 local.ipv6_address ≡ mapped_prefix)
          × (mapped_ipv4 local.ipv6_address ≡ softap))

classify_iff :
    (abi : Abi) (local : SocketAddress) (size softap : ℕ)
    → abi.af_inet ≢ abi.af_inet6
    → (is_authorized (classify abi (some local) size softap) ≡ true)
      ↔ IsSoftap abi local size softap
unfolding classify is_authorized
classify_iff abi local size softap families =
    ground (arith, bytes_eq_iff (take 12 local.ipv6_address) mapped_prefix)

-- A request is authorized exactly when the access point is up with an address and a netmask, the
-- socket is valid, `getsockname` answers, and the local address that it gives is the access
-- point's in a structure that is neither truncated nor oversized.
pub authorize_socket_iff :
    (abi : Abi) (local : SocketAddress) (size : ℕ) (socket : ℤ) (ready : Bool) (softap netmask : ℕ)
    → abi.af_inet ≢ abi.af_inet6
    → (is_authorized (authorize_socket abi none socket ready softap netmask).0 ≡ false)
      × ((is_authorized (authorize_socket abi (some (local, size)) socket ready softap netmask).0
            ≡ true)
          ↔ ((ready ≡ true)
              × (0 < softap)
              × (0 < netmask)
              × (is_negative socket ≡ false)
              × (size ≤ abi.storage_size)
              × IsSoftap abi local size softap))
unfolding authorize_socket is_authorized
authorize_socket_iff abi local size socket ready softap netmask families =
    (ground arith, ground (arith, bytes_eq_iff (take 12 local.ipv6_address) mapped_prefix))
