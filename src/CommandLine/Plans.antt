-- ===== src/CommandLine/Plans.antt =====
-- The parts that `main` of src/main.cpp starts: the last checks of the options, and what follows from
-- them for each mode.
use mfsync.Common.{
  ℕ, Bool, true, false, not, ◌&&◌, ◌||◌, Option, none, some, List, [], Bytes, if◌then◌else◌,
}
use mfsync.CommandLine.{
  Mode, Options, System, Check, goes, ◌>>=◌, or_given, is_empty, is_fetch, is_share, is_get,
  read_mode, read_destination, read_server_tls,
}
use mfsync.CommandLine.Keys.{read_keys}
use mfsync.CommandLine.Network.{Addresses, read_addresses}

-- The receiver: how many downloads at a time, the files (all where there are none), and the trusted
-- certificates.
pub record ReceiverPlan : Type 0 where
  pub concurrent_downloads : ℕ
  pub files : List Bytes
  pub client_tls : Option Bytes

-- The parts that are started, and how.
pub record Plan : Type 0 where
  pub mode : Mode
  pub public_key : Bytes
  pub allowed_keys : List Bytes
  pub port : ℕ
  pub multicast_port : ℕ
  pub addresses : Addresses
  pub storage : Option Bytes
  pub senders : List (Option Bytes)
  pub serves : Bool
  pub server_tls : Option (Bytes × Bytes)
  pub fetches : Bool
  pub receiver : Option ReceiverPlan
  pub lists_hosts : Bool
  pub prints_availables : Bool

-- Both `--port` and `--multicast-port` set the port of the server.
unfoldable pub port_of : Options → ℕ
port_of o = or_given o.multicast_port (or_given o.port 8000)

abbrev non_empty : Option Bytes → Option Bytes
non_empty none = none
non_empty (some path) = if is_empty path then none else some path

-- The parts of each mode.
unfoldable pub plan :
    Options
    → Bytes × List Bytes
    → Mode
    → Addresses
    → Bytes × List Bytes
    → Option (Bytes × Bytes)
    → Plan
unfolding port_of
plan o keys mode addresses destination tls = record {
  mode = mode;
  public_key = keys.0;
  allowed_keys = keys.1;
  port = port_of o;
  multicast_port = 30001;
  addresses = addresses;
  storage = if is_fetch mode then none else some destination.0;
  senders = if is_fetch mode || is_get mode then [] else addresses.senders;
  serves = if is_fetch mode || is_get mode then false else true;
  server_tls = if is_fetch mode || is_get mode then none else tls;
  fetches = not (is_share mode);
  receiver =
      if is_share mode || is_fetch mode
      then none
      else some (record {
        concurrent_downloads = or_given o.concurrent_downloads 3;
        files = destination.1;
        client_tls = non_empty o.client_tls;
      });
  lists_hosts = is_fetch mode && o.list_hosts;
  prints_availables = is_fetch mode && not o.list_hosts;
}

-- `main` up to the start of the workers.
unfoldable pub main : Options → System → Check Plan
unfolding read_keys read_mode read_addresses read_destination read_server_tls plan
main o sys = do
  keys ← read_keys o sys
  mode ← read_mode o
  addresses ← read_addresses o sys
  destination ← read_destination o.destination
  tls ← read_server_tls o.server_tls
  goes (plan o keys mode addresses destination tls)
