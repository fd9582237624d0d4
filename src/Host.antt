-- ===== src/Host.antt =====
-- One running program, as src/main.cpp puts it together: the sessions of src/client_session.cpp and
-- src/server_session.cpp over one file handler, one request queue and the `static` nonces of
-- src/crypto.cpp, with the acceptor of src/server.cpp and the
-- socket of src/file_fetcher.cpp. A callback is one step. The steps come in any order, and between them other
-- programs may change the files.
pub mod Ownership
pub mod Places
pub mod Changes
pub mod Downloads
pub mod Offers
pub mod Names
use mathlib.Core.Option
use mfsync.Common.{
  ℕ, zero, suc, ◌≡◌, refl, Bool, true, false, Option, none, some, List, [], ◌∷◌, ◌++◌, Bytes, ok,
  get_elem?, set, if◌then◌else◌, Outcome,
}
use mfsync.Info.{AvailableFile, HostInformation, available_file_named}
use mfsync.Json.{JsonLib}
use mfsync.Disk.{Entries}
use mfsync.NameSet
use mfsync.Crypto.{CryptoLib, CryptoHandler, is_allowed}
use mfsync.FileHandler.{FileHandler, empty_handler, update_stored_files}
use mfsync.FileHandler.Operations.{Answers}
use mfsync.FileHandler.Sharing.{init_storage}
use mfsync.Receive.{add_to_request_queue}
use mfsync.ClientSession
use mfsync.ClientSession.{created, start_request}
use mfsync.ServerSession
use mfsync.ListSession
use mfsync.Server
use mfsync.Server.{Server}
use mfsync.Fetcher
use mfsync.Fetcher.{Fetcher, Received, handle_receive_from}

-- `receive_iv` and `send_iv` are the `static` nonces of `decrypt_file_to_buf` and of
-- `encrypt_file_to_buf`; `downloads` are the places of `sessions_`.
pub record Host : Type 0 where
  pub root : Entries
  pub handler : FileHandler
  pub queue : List AvailableFile
  pub receive_iv : Option Bytes
  pub send_iv : Option Bytes
  pub downloads : List ClientSession.Connection
  pub uploads : List ServerSession.Connection
  pub lists : List ListSession.Connection
  pub server : Server
  pub fetcher : Fetcher

abbrev pub for_download : Host → Answers → ClientSession.Shared
for_download h os = record {
  root = h.root;
  handler = h.handler;
  queue = h.queue;
  answers = os;
  static_iv = h.receive_iv;
}

abbrev pub for_upload : Host → ServerSession.Shared
for_upload h = record { root = h.root; handler = h.handler; static_iv = h.send_iv }

-- The host after a callback of the session at a place.
unfoldable pub after_download : Host → ℕ → ClientSession.Reaction → Host
after_download h i r = record h {
  root = r.shared.root;
  handler = r.shared.handler;
  queue = r.shared.queue;
  receive_iv = r.shared.static_iv;
  downloads = set h.downloads i r.connection;
}

unfoldable pub after_upload : Host → ℕ → ServerSession.Reaction → Host
after_upload h i r = record h {
  handler = r.handler;
  send_iv = elim r.static_iv [ none ↦ h.send_iv | some iv ↦ some iv ];
  uploads = set h.uploads i r.connection;
}

unfoldable pub after_list : Host → ℕ → ListSession.Reaction → Host
after_list h i r = record h { handler = r.handler; lists = set h.lists i r.connection }

-- The places of sessions that have not been started.
unfoldable pub slots : ℕ → ClientSession.Connection → List ClientSession.Connection
slots zero s = []
slots (suc n) s = s ∷ slots n s

abbrev pub asking_for : CryptoHandler → HostInformation → ListSession.Connection
asking_for crypto host_info = record {
  crypto = crypto;
  derived = none;
  host_info = host_info;
  address = host_info.ip;
  phase = ListSession.connecting;
}

abbrev pub then_session {ℓ} : {A : Type ℓ} → List A → Option A → List A
then_session cs none = cs
then_session cs (some c) = cs ++ (c ∷ [])

-- The host after the acceptor has reported something, and after a datagram.
unfoldable pub after_accept : Host → Server.Accepted → Host
after_accept h r = record h { server = r.server; uploads = then_session h.uploads r.session }

unfoldable pub after_datagram : Host → CryptoHandler → Received → Host
after_datagram h crypto r = record h {
  fetcher = r.fetcher;
  lists = then_session h.lists (Option.map (asking_for crypto) r.session);
}

-- No session holds a stream.
abbrev pub AllIdle : List ClientSession.Connection → Type 0
AllIdle [] = Unit {0}
AllIdle (s ∷ ss) = (ClientSession.held s.phase ≡ none) × AllIdle ss

-- A host before its first download: no file is locked, and no session holds a stream.
abbrev pub Idle : Host → Type 0
Idle h = (h.handler.locked_files ≡ []) × AllIdle h.downloads

-- The program before its first step: whether downloads and uploads use TLS, the port of the server and
-- whether it could be bound, and whether hosts are listed.
unfoldable pub started : Entries → CryptoHandler → Bool → ℕ → Bool → ℕ → Bool → Bool → Host
unfolding slots Server.run Server.enable_tls Fetcher.list_hosts
started root crypto tls max_concurrent_sessions server_tls port bound listing =
    let server = Server.created port crypto in
    let fetcher : Fetcher = record { crypto = crypto; list_host_infos = false; host_infos = [] } in
    record {
      root = root;
      handler = empty_handler;
      queue = [];
      receive_iv = none;
      send_iv = none;
      downloads = slots max_concurrent_sessions (created tls crypto);
      uploads = [];
      lists = [];
      server = Server.run (if server_tls then Server.enable_tls server else server) bound;
      fetcher = if listing then Fetcher.list_hosts fetcher true else fetcher;
    }

module _ (J : JsonLib) (C : CryptoLib) (sha256 : Bytes → Bytes) (tls : Bool)
    (crypto : CryptoHandler) where
  -- A callback of a session; a place that is free again gets a new session; an available file is
  -- queued; the acceptor reports a connection or an error; a datagram arrives; the storage is opened or
  -- scanned; another program changes the files.
  pub data Step (h : Host) : Host → Type 0 where
    downloads :
        (i : ℕ) (s : ClientSession.Connection) (os : Answers) (e : ClientSession.Event)
        (r : ClientSession.Reaction)
        → get_elem? h.downloads i ≡ some s
        → ClientSession.step J C sha256 s (for_download h os) e ≡ ok r
        → Step h (after_download h i r)
    starts :
        (i : ℕ) (s : ClientSession.Connection) (os : Answers) (r : ClientSession.Reaction)
        → get_elem? h.downloads i ≡ some s
        → s.phase ≡ ClientSession.ended
        → start_request (created tls crypto) (for_download h os) ≡ ok r
        → Step h (after_download h i r)
    queues :
        (a : AvailableFile)
        → NameSet.find a.file_info.file_name h.handler.available_files ≡ some a
        → Step h (record h { queue = add_to_request_queue h.handler a h.queue })
    accepts : (e : Server.Event) → Step h (after_accept h (Server.step h.server e))
    uploads :
        (i : ℕ) (s : ServerSession.Connection) (e : ServerSession.Event)
        (r : ServerSession.Reaction)
        → get_elem? h.uploads i ≡ some s
        → ServerSession.step J C s (for_upload h) e ≡ ok r
        → Step h (after_upload h i r)
    hears :
        (datagram : Option (Bytes × Bytes)) (r : Received)
        → handle_receive_from J h.fetcher datagram ≡ ok r
        → Step h (after_datagram h crypto r)
    lists :
        (i : ℕ) (s : ListSession.Connection) (e : ClientSession.Event) (r : ListSession.Reaction)
        → get_elem? h.lists i ≡ some s
        → ListSession.step J C s h.root h.handler e ≡ ok r
        → Step h (after_list h i r)
    opens : (path : Bytes) → Step h (record h { handler = (init_storage h.root h.handler path).1 })
    scans : Step h (record h { handler = (update_stored_files h.root false h.handler).1 })
    outside : (root : Entries) → Step h (record h { root = root })

  -- The hosts that a sequence of steps leads to from a first one.
  pub data Reach (h₀ : Host) : Host → Type 0 where
    start : Reach h₀ h₀
    later : {h g : Host} → Reach h₀ h → Step h g → Reach h₀ g
