-- ===== src/CommandLine.antt =====
-- src/main.cpp and include/mfsync/misc.h: what the options make the program do. The parsing of the
-- options (Boost), the file system, the addresses and the key file are what `System` answers; the
-- waiting for the end and the logging stay outside.
pub mod Keys
pub mod Network
pub mod Plans
pub mod Parts
use mfsync.Common.{
  ℕ, ◌==◌, Bool, true, false, not, ◌&&◌, ◌||◌, Option, none, some, List, [], ◌∷◌, ◌++◌, Bytes,
  codes, str_eq, if◌then◌else◌, any_of, is_some,
}

-- `operation_mode`
pub data Mode : Type 0 where
  sync share fetch get no_mode : Mode

-- The options that were given.
pub record Options : Type 0 where
  pub version : Bool
  pub help : Bool
  pub show_public_key : Bool
  pub list_hosts : Bool
  pub trace : Bool
  pub verbose : Bool
  pub mode : Option Bytes
  pub destination : Option (List Bytes)
  pub port : Option ℕ
  pub multicast_port : Option ℕ
  pub concurrent_downloads : Option ℕ
  pub key_file : Option Bytes
  pub config : Option Bytes
  pub multicast_address : Option Bytes
  pub multicast_listen_address : Option Bytes
  pub server_tls : Option (List Bytes)
  pub client_tls : Option Bytes
  pub trusted_keys : Option (List Bytes)
  pub outbound_addresses : Option (List Bytes)
  pub outbound_interfaces : Option (List Bytes)

-- What the program asks its surroundings: the home directory, paths, the public key that a key file
-- gives (an empty one if it has none), the trusted keys of a config file (`none` if it cannot be
-- read as one), addresses, and the interfaces with their addresses, if they have one of IPv4.
pub record System : Type 0 where
  pub home : Option Bytes
  pub exists : Bytes → Bool
  pub create_directory : Bytes → Bool
  pub join : Bytes → Bytes → Bytes
  pub init_key : Bytes → Bytes
  pub read_config : Bytes → Option (List Bytes)
  pub make_address : Bytes → Option Bytes
  pub is_unspecified : Bytes → Bool
  pub is_v4 : Bytes → Bool
  pub is_multicast : Bytes → Bool
  pub interfaces : List (Bytes × Option Bytes)

-- Why the program ends before it starts its parts. `aborts` returns -1; `caught` is an exception that
-- the end of `main` catches.
pub data Stop : Type 0 where
  shows_version : Stop
  shows_help : Mode → Stop
  shows_key : Bytes → Stop
  unknown_mode : Stop
  no_destination : Stop
  aborts : Stop
  caught : Stop
  undefined : Stop

pub data Check (A : Type 0) : Type 0 where
  stops : Stop → Check A
  goes : A → Check A

infixl 5 ◌>>=◌
abbrev pub ◌>>=◌ : {A : Type 0} {B : Type 0} → Check A → (A → Check B) → Check B
stops v >>= f = stops v
goes a >>= f = f a

-- The program goes on unless the condition holds.
abbrev pub unless : Bool → Stop → Check (Unit {0})
unless true v = stops v
unless false v = goes tt

abbrev pub or_given {ℓ} : {A : Type ℓ} → Option A → A → A
or_given none d = d
or_given (some a) d = a

abbrev pub is_empty {ℓ} : {A : Type ℓ} → List A → Bool
is_empty [] = true
is_empty (a ∷ as') = false

-- `get_mode`
unfoldable pub get_mode : Bytes → Mode
get_mode input =
    if str_eq input (codes "sync")
    then sync
    else if str_eq input (codes "share")
    then share
    else if str_eq input (codes "fetch")
    then fetch
    else if str_eq input (codes "get")
    then get
    else no_mode

abbrev pub is_fetch : Mode → Bool
is_fetch fetch = true
is_fetch sync = false
is_fetch share = false
is_fetch get = false
is_fetch no_mode = false

abbrev pub is_share : Mode → Bool
is_share share = true
is_share sync = false
is_share fetch = false
is_share get = false
is_share no_mode = false

abbrev pub is_get : Mode → Bool
is_get get = true
is_get sync = false
is_get share = false
is_get fetch = false
is_get no_mode = false

abbrev pub is_no_mode : Mode → Bool
is_no_mode no_mode = true
is_no_mode sync = false
is_no_mode share = false
is_no_mode fetch = false
is_no_mode get = false

unfoldable pub help_mode : Option Bytes → Mode
unfolding get_mode
help_mode none = no_mode
help_mode (some input) = get_mode input

-- The mode that is asked for; an option that was not given has no value.
unfoldable pub mode_of : Bool → Option Bytes → Check Mode
unfolding get_mode
mode_of true input = goes fetch
mode_of false none = stops caught
mode_of false (some input) = goes (get_mode input)

unfoldable pub read_mode : Options → Check Mode
unfolding mode_of
read_mode o = do
  mode ← mode_of o.list_hosts o.mode
  _ ← unless (is_no_mode mode) unknown_mode
  _ ← unless (not (is_fetch mode) && not (is_some o.destination)) no_destination
  goes mode

-- The destination and the files in front of it; an empty list has no last element.
unfoldable pub split_last : List Bytes → Check (Bytes × List Bytes)
split_last [] = stops undefined
split_last (x ∷ []) = goes (x, [])
split_last (x ∷ y ∷ ys) = do (last, front) ← split_last (y ∷ ys); goes (last, x ∷ front)

unfoldable pub read_destination : Option (List Bytes) → Check (Bytes × List Bytes)
unfolding split_last
read_destination none = goes ([], [])
read_destination (some paths) = split_last paths

-- The certificate and the parameters; `at` throws where one is missing.
unfoldable pub read_server_tls : Option (List Bytes) → Check (Option (Bytes × Bytes))
read_server_tls none = goes none
read_server_tls (some []) = stops caught
read_server_tls (some (x ∷ [])) = stops caught
read_server_tls (some (x ∷ y ∷ ys)) = goes (some (x, y))
