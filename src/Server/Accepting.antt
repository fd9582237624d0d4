-- ===== src/Server/Accepting.antt =====
-- The sessions that src/server.cpp starts, and what one of them does over TLS.
use mfsync.Common.{
  ℕ, ◌⊎◌, inl, inr, ◌≡◌, refl, sym, ap, Bool, true, false, some, List, [], ◌∷◌, Bytes, map,
  take_while, if◌then◌else◌, ok, undefined, codes,
}
use mathlib.Core.Path.{subst}
use mfsync.Json.{JsonLib}
use mfsync.Crypto.{CryptoLib, CryptoHandler}
use mfsync.Protocol.{file, file_list, get_message_type, get_json_from_message, text_at}
use mfsync.ServerSession
use mfsync.ServerSession.{handle_read_header, answer_request}
use mfsync.Server.{
  Server, Event, failed, connected, stops, start, step, serve, run, handle_new_connection, stop,
  start_listening, accept_connections, do_handshake,
}

-- Whether an event is a connection, and what its TLS handshake leads to.
abbrev pub is_connection : Event → Bool
is_connection (connected tls_error) = true
is_connection failed = false
is_connection stops = false

-- The session that a connection gets, with the server at rest.
abbrev pub session_for : Server → Event → ServerSession.Connection
session_for s (connected tls_error) = start s tls_error
session_for s failed = start s true
session_for s stops = start s true

abbrev server : ℕ → CryptoHandler → Bool → Bool → Bool → Server
server port crypto tls is_open accepts = record {
  port = port;
  crypto = crypto;
  tls = tls;
  is_open = is_open;
  accepts = accepts;
}

-- Where no accept is outstanding, no session is started any more.
serve-idle :
    (port : ℕ) (crypto : CryptoHandler) (tls is_open : Bool) (es : List Event)
    → serve (server port crypto tls is_open false) es ≡ []
unfolding serve step stop
serve-idle p c t o [] = refl
serve-idle p c t o (stops ∷ es) = serve-idle p c t false es
serve-idle p c t o (failed ∷ es) = serve-idle p c t o es
serve-idle p c t o (connected b ∷ es) = serve-idle p c t o es

-- Nor is one where the acceptor is closed.
serve-closed :
    (port : ℕ) (crypto : CryptoHandler) (tls accepts : Bool) (es : List Event)
    → serve (server port crypto tls false accepts) es ≡ []
unfolding serve step stop handle_new_connection
serve-closed p c t a [] = refl
serve-closed p c t false (e ∷ es) = serve-idle p c t false (e ∷ es)
serve-closed p c t true (stops ∷ es) = serve-closed p c t true es
serve-closed p c t true (failed ∷ es) = serve-idle p c t false es
serve-closed p c t true (connected b ∷ es) = serve-idle p c t false es

serve-running :
    (port : ℕ) (crypto : CryptoHandler) (tls : Bool) (es : List Event)
    → let s = server port crypto tls true true in
      serve s es ≡ map (session_for s) (take_while is_connection es)
unfolding serve step stop handle_new_connection
serve-running p c t [] = refl
serve-running p c t (stops ∷ es) = serve-closed p c t true es
serve-running p c t (failed ∷ es) = serve-idle p c t true es
serve-running p c t (connected b ∷ es) =
    ap (◌∷◌ (start (server p c t true true) b)) (serve-running p c t es)

-- A server that waits for no connection yet is run, and whatever the acceptor reports then: where the
-- port could be bound, one session is started for each connection before the first error or the call
-- of `stop`, in their order, and no other one; where it could not, none is.
pub serve-run :
    (s : Server) (bound : Bool) (es : List Event)
    → s.accepts ≡ false
    → serve (run s bound) es
      ≡ (if bound then map (session_for s) (take_while is_connection es) else [])
unfolding run start start_listening accept_connections
serve-run s true es idle = serve-running s.port s.crypto s.tls es
serve-run s false es idle =
    subst (λ a. serve (record s { is_open = true; accepts = a }) es ≡ []) (sym idle)
      (serve-idle s.port s.crypto s.tls true es)

module _ (J : JsonLib) (C : CryptoLib) where
  -- Over TLS, once the TLS handshake has succeeded, a request for a file is undefined, whatever else
  -- it holds, and so is a request for the list that names a key.
  pub request_over_tls :
      (s : Server) (w : ServerSession.Shared) (m public_key : Bytes) (j : J.Json)
      → s.tls ≡ true
      → ((get_message_type J m ≡ ok file)
          ⊎ ((get_message_type J m ≡ ok file_list)
              × (get_json_from_message J m ≡ ok (some j))
              × (text_at J j (codes "public_key") ≡ ok public_key)))
      → ServerSession.step J C (start s false) w (ServerSession.arrived m) ≡ undefined
  unfolding start do_handshake ServerSession.step handle_read_header answer_request
      ServerSession.list_files
  request_over_tls s w m public_key j tls (inl e) = rw (tls, e) refl
  request_over_tls s w m public_key j tls (inr (e, parsed, named)) = rw (tls, e, parsed, named) refl
