-- ===== src/Dialogue/Greeting.antt =====
-- The first round: the client greets the server, which derives its handler and answers.
use mfsync.Common.{ℕ, ◌≡◌, refl, ◌∙◌, false, none, some, Bytes, ◌++◌, codes, ok, str_eq}
use mfsync.Info.{RequestedFile}
use mfsync.Json.{JsonLib, IsLawful}
use mfsync.Crypto
use mfsync.Crypto.{CryptoLib, CryptoHandler, derive, get_public_key, get_count}
use mfsync.FileHandler.{FileHandler}
use mfsync.Protocol.{
  handshake_json, wrap_with_header, text_at, create_handshake_message, dump_wrapped, type_of_text,
}
use mfsync.Protocol.Framing.{get_json-wrap, get_json-tail, get_message_type-tail}
use mfsync.Protocol.Kinds.{get_message_type-wrap}
use mfsync.Protocol.Ends.{Holds, Framed, AnswerText, answer_to_message-Holds}
use mfsync.ClientSession
use mfsync.ServerSession
use mfsync.ServerSession.{accepted, respond_encrypted, handle_read_handshake, greet_if, greet}
use mfsync.Dialogue.{round}

-- A client that connects to the holder of a key, to request a file.
abbrev pub connecting_to : CryptoHandler → Bytes → RequestedFile → ClientSession.Connection
connecting_to crypto key r = record {
  secured = false;
  crypto = crypto;
  derived = none;
  pub_key = key;
  requested = r;
  phase = ClientSession.connecting;
}

abbrev pub greeted : ClientSession.Connection → CryptoHandler → ClientSession.Connection
greeted c d = record c { derived = some d; phase = ClientSession.awaits_handshake }

abbrev pub answered : ServerSession.Connection → CryptoHandler → ServerSession.Connection
answered s d = record s { derived = some d; phase = ServerSession.responding }

module _ (J : JsonLib) (L : IsLawful J) (C : CryptoLib) {IsPair : Bytes → Bytes → Type 0}
    (K : Crypto.IsLawful C IsPair) (sha256 : Bytes → Bytes) where
  pub handle_read_handshake-wrap :
      (s : ServerSession.Connection) (h : FileHandler) (k salt m tail : Bytes)
      → Framed J (handshake_json J k salt) m
      → handle_read_handshake J C s h (wrap_with_header m ++ tail)
        ≡ respond_encrypted J C s h k salt
  unfolding handle_read_handshake greet_if greet text_at type_of_text str_eq
  handle_read_handshake-wrap s h k salt m tail f =
      rw
        (
          get_message_type-tail J L m tail f.1,
          get_message_type-wrap J L (codes "handshake") _ m f.0 f.1,
        )
        (rw (get_json-tail J L m tail f.1, get_json-wrap J L (handshake_json J k salt) m f.0 f.1)
          (rw
            (
              L.at-object _ (codes "public_key"),
              L.at-object _ (codes "salt"),
              L.get_text-text k,
              L.get_text-text salt,
            )
            refl))

  pub respond_encrypted-Holds :
      (s : ServerSession.Connection) (h : FileHandler) (k salt secret m : Bytes)
      → Holds (derive C s.crypto k salt) k secret 0
      → AnswerText J C secret 0 m
      → respond_encrypted J C s h k salt
        ≡ ok (record {
          sent = some (wrap_with_header m);
          connection = answered s (get_count (derive C s.crypto k salt) k).1;
          handler = h;
          static_iv = none;
        })
  unfolding respond_encrypted
  respond_encrypted-Holds s h k salt secret m e a =
      rw (answer_to_message-Holds J L C K secret 0 (derive C s.crypto k salt) k m e a) refl

  -- The client's greeting is answered, and both ends have derived a handler.
  pub greeting_round :
      (a b : CryptoHandler) (kb random secret m₀ m₁ tail : Bytes) (port : ℕ) (r : RequestedFile)
      (cw : ClientSession.Shared) (sw : ServerSession.Shared)
      → let salt = C.hex_encode random in
        let d = derive C a kb salt in
        let ka = get_public_key C d in
        let e = derive C b ka salt in
        Framed J (handshake_json J ka salt) m₀
        → Holds e ka secret 0
        → AnswerText J C secret 0 m₁
        → round J C sha256
            (record { client = connecting_to a kb r; server = accepted port b; reply = none })
            cw
            sw
            tail
            (ClientSession.connected random)
          ≡ ok (
            record {
              client = greeted (connecting_to a kb r) d;
              server = answered (accepted port b) (get_count e ka).1;
              reply = some (wrap_with_header m₁);
            },
            cw,
          )
  unfolding round create_handshake_message dump_wrapped ClientSession.step ServerSession.step
  greeting_round a b kb random secret m₀ m₁ tail port r cw sw f held text =
      let salt = C.hex_encode random in
      let d = derive C a kb salt in
      let ka = get_public_key C d in
      let arrives =
        handle_read_handshake-wrap (accepted port b) sw.handler ka salt m₀ tail f
        ∙ respond_encrypted-Holds (accepted port b) sw.handler ka salt secret m₁ held text in
      rw (f.0, arrives) refl
