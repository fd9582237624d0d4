-- ===== src/CommandLine/Network.antt =====
-- The addresses and interfaces that src/main.cpp takes from its options.
use mfsync.Common.{
  not, Option, none, some, List, [], ◌∷◌, Bytes, codes, str_eq, if◌then◌else◌, any_of,
}
use mfsync.CommandLine.{Options, System, Check, stops, goes, ◌>>=◌, unless, is_empty, aborts}

unfoldable pub address_or : System → Option Bytes → Bytes → Check Bytes
address_or sys none default = goes default
address_or sys (some text) default = elim (sys.make_address text) [
  | none ↦ stops aborts
  | some a ↦ goes a
]

unfoldable pub all_addresses : System → List Bytes → Check (List Bytes)
all_addresses sys [] = goes []
all_addresses sys (text ∷ texts) = do
  a ← elim (sys.make_address text) [ none ↦ stops aborts | some a ↦ goes a ]
  rest ← all_addresses sys texts
  goes (a ∷ rest)

-- `get_ip_addresses_by_interface_name`
unfoldable pub get_ip_addresses_by_interface_name :
    List (Bytes × Option Bytes) → List Bytes → List Bytes
get_ip_addresses_by_interface_name [] names = []
get_ip_addresses_by_interface_name ((name, none) ∷ interfaces) names =
    get_ip_addresses_by_interface_name interfaces names
get_ip_addresses_by_interface_name ((name, some address) ∷ interfaces) names =
    let rest = get_ip_addresses_by_interface_name interfaces names in
    if any_of (λ n. str_eq n name) names then address ∷ rest else rest

-- The interface that a sender is bound to, if its address names one.
abbrev interface_of : System → Bytes → Option Bytes
interface_of sys a = if sys.is_unspecified a then none else if sys.is_v4 a then some a else none

abbrev interfaces_of : System → List Bytes → List (Option Bytes)
interfaces_of sys [] = []
interfaces_of sys (a ∷ as') = interface_of sys a ∷ interfaces_of sys as'

-- For each sender its interface.
unfoldable pub outbound :
    System → Option (List Bytes) → Option (List Bytes) → Check (List (Option Bytes))
unfolding all_addresses get_ip_addresses_by_interface_name
outbound sys none none = goes (none ∷ [])
outbound sys (some addresses) (some interfaces) = stops aborts
outbound sys (some addresses) none = do
  _ ← unless (is_empty addresses) aborts
  found ← all_addresses sys addresses
  goes (interfaces_of sys found)
outbound sys none (some interfaces) = do
  _ ← unless (is_empty interfaces) aborts
  goes (interfaces_of sys (get_ip_addresses_by_interface_name sys.interfaces interfaces))

-- The addresses of the multicast: the one to listen on, the senders' interfaces, and the group.
pub record Addresses : Type 0 where
  pub listen : Bytes
  pub senders : List (Option Bytes)
  pub group : Bytes

unfoldable pub read_addresses : Options → System → Check Addresses
unfolding address_or outbound
read_addresses o sys = do
  listen ← address_or sys o.multicast_listen_address (codes "0.0.0.0")
  senders ← outbound sys o.outbound_addresses o.outbound_interfaces
  group ← address_or sys o.multicast_address (codes "239.255.0.1")
  _ ← unless (not (sys.is_multicast group)) aborts
  goes (record { listen = listen; senders = senders; group = group })
