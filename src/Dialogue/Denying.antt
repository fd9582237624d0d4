-- ===== src/Dialogue/Denying.antt =====
-- The first round with a server that does not allow the key of the client.
use mfsync.Common.{ℕ, ◌≡◌, refl, ◌∙◌, true, false, none, some, [], Bytes, codes, ok, str_eq, arith}
use mfsync.Info.{RequestedFile}
use mfsync.Json.{JsonLib, IsLawful}
use mfsync.Crypto
use mfsync.Crypto.{CryptoLib, CryptoHandler, derive, trust_key, is_allowed, get_public_key, encrypt}
use mfsync.Dict.{lookup}
use mfsync.FileHandler.{FileHandler}
use mfsync.Protocol.{
  handshake_json, denied_json, wrap_with_header, create_handshake_message, create_denied_message,
  dump_wrapped, type_of_text,
}
use mfsync.Protocol.Kinds.{get_message_type-wrap}
use mfsync.Protocol.Converter.{answer_json, answer_to_message, answer_from_message, wrap_encrypted}
use mfsync.Protocol.Ends.{Framed}
use mfsync.ClientSession
use mfsync.ServerSession
use mfsync.ServerSession.{accepted, respond_encrypted}
use mfsync.Dialogue.{round}
use mfsync.Dialogue.Greeting.{connecting_to, greeted, answered, handle_read_handshake-wrap}

-- The handler that is derived for a key which is not allowed holds none.
derive-not_allowed :
    (C : CryptoLib) (h : CryptoHandler) (k salt : Bytes)
    → is_allowed h k ≡ false
    → derive C h k salt ≡ record h { trusted_keys = [] }
unfolding derive trust_key is_allowed
derive-not_allowed C h k salt e = ground arith

module _ (J : JsonLib) (L : IsLawful J) (C : CryptoLib) {IsPair : Bytes → Bytes → Type 0}
    (K : Crypto.IsLawful C IsPair) (sha256 : Bytes → Bytes) where
  respond_encrypted-not_allowed :
      (s : ServerSession.Connection) (h : FileHandler) (k salt plain m : Bytes)
      → is_allowed s.crypto k ≡ false
      → J.dump (answer_json J true) ≡ ok plain
      → J.dump (denied_json J) ≡ ok m
      → respond_encrypted J C s h k salt
        ≡ ok (record {
          sent = some (wrap_with_header m);
          connection = answered s (record s.crypto { trusted_keys = [] });
          handler = h;
          static_iv = none;
        })
  unfolding respond_encrypted answer_to_message wrap_encrypted create_denied_message dump_wrapped
      encrypt lookup
  respond_encrypted-not_allowed s h k salt plain m refused a d =
      rw (derive-not_allowed C s.crypto k salt refused, a, d) refl

  -- If the greeting and the denial are dumped as texts with no end mark, and the answer that would be
  -- encrypted is dumped at all, then a server that does not allow the key of the client answers its
  -- greeting with the denial; the client then ends its session, and has neither locked a file nor
  -- changed anything else.
  pub denied_round :
      (a b : CryptoHandler) (kb random plain m₀ m₁ tail : Bytes) (port : ℕ) (r : RequestedFile)
      (cw cw' : ClientSession.Shared) (sw : ServerSession.Shared)
      → let salt = C.hex_encode random in
        let d = derive C a kb salt in
        let ka = get_public_key C d in
        let client = greeted (connecting_to a kb r) d in
        is_allowed b ka ≡ false
        → Framed J (handshake_json J ka salt) m₀
        → Framed J (denied_json J) m₁
        → J.dump (answer_json J true) ≡ ok plain
        → (round J C sha256
              (record { client = connecting_to a kb r; server = accepted port b; reply = none })
              cw
              sw
              tail
              (ClientSession.connected random)
            ≡ ok (
              record {
                client = client;
                server = answered (accepted port b) (record b { trusted_keys = [] });
                reply = some (wrap_with_header m₁);
              },
              cw,
            ))
          × (ClientSession.step J C sha256 client cw' (ClientSession.arrived (wrap_with_header m₁))
              ≡ ok (record {
                sent = none;
                connection = record client { phase = ClientSession.ended };
                shared = cw';
              }))
  unfolding round create_handshake_message dump_wrapped ClientSession.step ServerSession.step
      ClientSession.handle_read_handshake ClientSession.greeted answer_from_message type_of_text
      str_eq ClientSession.closes
  denied_round a b kb random plain m₀ m₁ tail port r cw cw' sw refused greets denies p =
      let salt = C.hex_encode random in
      let d = derive C a kb salt in
      let ka = get_public_key C d in
      let arrives =
        handle_read_handshake-wrap J L C K sha256 (accepted port b) sw.handler ka salt m₀ tail
          greets
        ∙ respond_encrypted-not_allowed (accepted port b) sw.handler ka salt plain m₁ refused p
            denies.0 in
      (
        rw (greets.0, arrives) refl,
        rw (get_message_type-wrap J L (codes "denied") _ m₁ denies.0 denies.1) refl,
      )
