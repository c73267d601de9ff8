-- ===== src/Net.antt =====
-- net.rs: the IPv4 addresses of the network interfaces. `getifaddrs` of nix answers with a list or an
-- error, whose text is kept; an IPv4 address is kept as it is printed.
use uswarm_unitctl.Base.{
  Bool, true, false, Option, none, some, List, [], ◌∷◌, ◌++◌, Text, text_eq, if◌then◌else◌, Result,
  ok, err,
}

pub data Address : Type 0 where
  ipv4 : Text → Address
  other_family : Address

pub record InterfaceAddress : Type 0 where
  pub interface_name : Text
  pub address : Option Address

pub data ResolveIpError : Type 0 where
  interface_not_found : Text → ResolveIpError
  no_ipv4 : Text → ResolveIpError
  getifaddrs_failed : Text → ResolveIpError

-- `ifa.address` with `as_sockaddr_in` and `ip`.
unfoldable pub sockaddr_in : Option Address → Option Text
sockaddr_in (some (ipv4 ip)) = some ip
sockaddr_in _ = none

-- The loop over the addresses; the flag is `found_iface`.
unfoldable pub resolve_from : Text → Bool → List InterfaceAddress → Result Text ResolveIpError
unfolding sockaddr_in
resolve_from interface found [] =
    if found then err (no_ipv4 interface) else err (interface_not_found interface)
resolve_from interface found (ifa ∷ rest) =
    let passed = resolve_from interface found rest in
    let later = resolve_from interface true rest in
    if text_eq ifa.interface_name interface
    then elim (sockaddr_in ifa.address) [ some ip ↦ ok ip | none ↦ later ]
    else passed

unfoldable pub resolve_ipv4 :
    Result (List InterfaceAddress) Text → Text → Result Text ResolveIpError
unfolding resolve_from
resolve_ipv4 (err e) interface = err (getifaddrs_failed e)
resolve_ipv4 (ok addrs) interface = resolve_from interface false addrs

-- `out.entry(name).or_default().push(ip)`
unfoldable pub push_ip : Text → Text → List (Text × List Text) → List (Text × List Text)
push_ip name ip [] = (name, ip ∷ []) ∷ []
push_ip name ip ((key, ips) ∷ rest) =
    let later = push_ip name ip rest in
    if text_eq key name then (key, ips ++ ip ∷ []) ∷ rest else (key, ips) ∷ later

abbrev push_found : Text → Option Text → List (Text × List Text) → List (Text × List Text)
push_found name none out = out
push_found name (some ip) out = push_ip name ip out

unfoldable pub collect_ips :
    List InterfaceAddress → List (Text × List Text) → List (Text × List Text)
unfolding push_ip sockaddr_in
collect_ips [] out = out
collect_ips (ifa ∷ rest) out =
    collect_ips rest (push_found ifa.interface_name (sockaddr_in ifa.address) out)

-- `ipv4_map_for_all_interfaces`
unfoldable pub ipv4_map_for_all_interfaces :
    Result (List InterfaceAddress) Text → List (Text × List Text)
unfolding collect_ips
ipv4_map_for_all_interfaces (err e) = []
ipv4_map_for_all_interfaces (ok addrs) = collect_ips addrs []
