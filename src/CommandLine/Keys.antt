-- ===== src/CommandLine/Keys.antt =====
-- The keys and the configuration that src/main.cpp starts with.
use mfsync.Common.{
  not, ◌&&◌, Option, none, some, List, [], ◌++◌, Bytes, codes, if◌then◌else◌, is_some,
}
use mfsync.CommandLine.{
  Options, System, Check, stops, goes, ◌>>=◌, unless, or_given, is_empty, aborts, shows_version,
  shows_help, shows_key, undefined, help_mode,
}

-- `std::filesystem::path{home} / ".mfsync"`; a path of a null pointer is undefined.
unfoldable pub config_root : System → Option Bytes → Check Bytes
config_root sys none = stops undefined
config_root sys (some home) = goes (sys.join home (codes ".mfsync"))

unfoldable pub key_file_in : System → Bytes → Option Bytes → Check Bytes
key_file_in sys root (some path) = goes path
key_file_in sys root none =
    if not (sys.exists root) && not (sys.create_directory root)
    then stops aborts
    else goes (sys.join root (codes "key.bin"))

unfoldable pub config_file_in : System → Bytes → Option Bytes → Check Bytes
config_file_in sys root (some path) = if sys.exists path then goes path else stops aborts
config_file_in sys root none = goes (sys.join root (codes "config.json"))

unfoldable pub config_keys : System → Bytes → Check (List Bytes)
config_keys sys path =
    if sys.exists path
    then elim (sys.read_config path) [ none ↦ stops aborts | some keys ↦ goes keys ]
    else goes []

-- The public key, and the keys that are allowed.
unfoldable pub read_keys : Options → System → Check (Bytes × List Bytes)
unfolding help_mode config_root key_file_in config_file_in config_keys
read_keys o sys = do
  _ ← unless o.version shows_version
  _ ← unless o.help (shows_help (help_mode o.mode))
  _ ← unless (not (is_some sys.home) && not (is_some o.key_file)) aborts
  root ← config_root sys sys.home
  key_file ← key_file_in sys root o.key_file
  let public_key = sys.init_key key_file
  _ ← unless (is_empty public_key) aborts
  _ ← unless o.show_public_key (shows_key public_key)
  config_file ← config_file_in sys root o.config
  keys ← config_keys sys config_file
  goes (public_key, keys ++ or_given o.trusted_keys [])
