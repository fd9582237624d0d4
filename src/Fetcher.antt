-- ===== src/Fetcher.antt =====
-- src/file_fetcher.cpp: the hosts that announce themselves, and those whose file lists are fetched.
pub mod Hosts
use mfsync.Common.{
  ℕ, Bool, true, false, Option, none, some, List, [], ◌∷◌, ◌++◌, Bytes, str_eq, any_of,
  if◌then◌else◌,
}
use mfsync.Common.{Outcome, ok, throws, undefined, ◌>>=◌}
use mfsync.Info.{HostInformation}
use mfsync.Json.{JsonLib}
use mfsync.Crypto.{CryptoHandler, is_allowed}
use mfsync.Protocol.Fields.{get_host_info_from_message}

-- The size of the buffer that a datagram is received in; a longer one is cut.
abbrev pub max_length : ℕ
max_length = 1024

-- `file_fetcher`. The set of the printed keys stands as a list.
pub record Fetcher : Type 0 where
  pub crypto : CryptoHandler
  pub list_host_infos : Bool
  pub host_infos : List Bytes

-- What a callback does: the key that it prints, the host that a session is started for, whether it
-- waits for the next datagram, and the fetcher after it.
pub record Received : Type 0 where
  pub printed : Option Bytes
  pub session : Option HostInformation
  pub receives : Bool
  pub fetcher : Fetcher

abbrev pub quiet : Bool → Fetcher → Received
quiet receives f = record { printed = none; session = none; receives = receives; fetcher = f }

-- `list_hosts`
unfoldable pub list_hosts : Fetcher → Bool → Fetcher
list_hosts f value = record f { list_host_infos = value }

abbrev pub was_printed : Fetcher → Bytes → Bool
was_printed f key = any_of (λ k. str_eq k key) f.host_infos

-- `print_host`
unfoldable pub print_host : Fetcher → HostInformation → Received
print_host f host_info = if was_printed f host_info.public_key then quiet true f else record {
  printed = some host_info.public_key;
  session = none;
  receives = true;
  fetcher = record f { host_infos = host_info.public_key ∷ f.host_infos };
}

-- The part of `handle_receive_from` behind the parsing.
unfoldable pub received_host : Fetcher → Option HostInformation → Received
unfolding print_host is_allowed
received_host f none = quiet true f
received_host f (some host_info) =
    if f.list_host_infos
    then print_host f host_info
    else if is_allowed f.crypto host_info.public_key
    then record { printed = none; session = some host_info; receives = true; fetcher = f }
    else quiet true f

-- A datagram and the address of its sender; `none` is an error of the socket.
unfoldable pub handle_receive_from :
    (J : JsonLib) → Fetcher → Option (Bytes × Bytes) → Outcome Received
unfolding received_host get_host_info_from_message
handle_receive_from J f none = ok (quiet false f)
handle_receive_from J f (some (datagram, address)) = do
  host_info ← get_host_info_from_message J datagram address
  ok (received_host f host_info)

-- The keys that are printed while datagrams come in.
unfoldable pub print_all :
    (J : JsonLib) → Fetcher → List (Option (Bytes × Bytes)) → Outcome (List Bytes)
unfolding handle_receive_from
print_all J f [] = ok []
print_all J f (d ∷ ds) = do
  r ← handle_receive_from J f d
  rest ← print_all J r.fetcher ds
  ok (elim r.printed [ none ↦ rest | some k ↦ k ∷ rest ])
