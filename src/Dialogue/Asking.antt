-- ===== src/Dialogue/Asking.antt =====
-- The second round: the client asks for a file, and the server confirms that it has it.
use mfsync.Common.{ℕ, ◌++◌, ◌≡◌, refl, sym, true, none, some, Bytes, ok, arith}
use mathlib.Core.Path.{subst}
use mfsync.Info.{RequestedFile}
use mfsync.Json.{JsonLib, IsLawful}
use mfsync.Crypto
use mfsync.Crypto.{CryptoLib, CryptoHandler, derive, get_public_key, get_count}
use mfsync.FileHandler.{FileHandler, is_stored}
use mfsync.FileHandler.Operations.{OfstreamWrapper, create_file}
use mfsync.Protocol.{wrap_with_header}
use mfsync.Protocol.Framing.{get_message_type-tail}
use mfsync.Protocol.Ends.{
  Holds, Holds-next, Fits, AnswerText, RequestText, answer_to_message-Holds,
  answer_from_message-Holds, request_to_message-Holds, request_from_message-Holds,
  request_from_message-tail, get_message_type-RequestText, get_public_key-get_count,
}
use mfsync.ClientSession
use mfsync.ServerSession
use mfsync.ServerSession.{accepted, handle_read_header, answer_request, confirm, send_confirmation}
use mfsync.Dialogue.{round, next_round}
use mfsync.Dialogue.Greeting.{connecting_to, greeted, answered}

-- The handler after so many uses of the key.
abbrev pub after_one : CryptoHandler → Bytes → CryptoHandler
after_one h k = (get_count h k).1

abbrev pub after_two : CryptoHandler → Bytes → CryptoHandler
after_two h k = after_one (after_one h k) k

-- The client has sent its request.
abbrev pub asked :
    ClientSession.Connection
    → CryptoHandler
    → RequestedFile
    → OfstreamWrapper
    → ClientSession.Connection
asked c d r o = record c {
  derived = some d;
  requested = r;
  phase = ClientSession.awaits_response o;
}

-- The server has confirmed the request of this key.
abbrev pub confirmed :
    ServerSession.Connection → CryptoHandler → RequestedFile → Bytes → ServerSession.Connection
confirmed s e r k = record s {
  derived = some e;
  public_key = k;
  requested = r;
  phase = ServerSession.confirming;
}

module _ (J : JsonLib) (L : IsLawful J) (C : CryptoLib) {IsPair : Bytes → Bytes → Type 0}
    (K : Crypto.IsLawful C IsPair) (sha256 : Bytes → Bytes) (secret : Bytes) where
  request_file-Holds :
      (c : ClientSession.Connection) (w : ClientSession.Shared) (d : CryptoHandler)
      (o : OfstreamWrapper) (m : Bytes)
      → let created = create_file w.handler w.root w.answers c.requested in
        c.derived ≡ some d
        → created.result ≡ ok (some o)
        → Holds d c.pub_key secret 1
        → RequestText J C (get_public_key C d) secret 1 created.requested m
        → ClientSession.request_file J C c w
          ≡ ok (record {
            sent = some (wrap_with_header m);
            connection = record c {
              requested = created.requested;
              derived = some (after_one d c.pub_key);
              phase = ClientSession.requesting o;
            };
            shared = record w { handler = created.handler; root = created.root };
          })
  unfolding ClientSession.request_file ClientSession.request_with
  request_file-Holds c w d o m there made held text =
      rw (made, there, request_to_message-Holds J L C K secret 1 d c.pub_key m _ held text) refl

  pub client_asks :
      (a : CryptoHandler) (kb m m' : Bytes) (r : RequestedFile) (d : CryptoHandler)
      (w : ClientSession.Shared) (o : OfstreamWrapper)
      → let created = create_file w.handler w.root w.answers r in
        Holds d kb secret 0
        → AnswerText J C secret 0 m
        → created.result ≡ ok (some o)
        → RequestText J C (get_public_key C d) secret 1 created.requested m'
        → ClientSession.handle_read_handshake J C
            (greeted (connecting_to a kb r) d)
            w
            (wrap_with_header m)
          ≡ ok (record {
            sent = some (wrap_with_header m');
            connection = record (greeted (connecting_to a kb r) d) {
              requested = created.requested;
              derived = some (after_two d kb);
              phase = ClientSession.requesting o;
            };
            shared = record w { handler = created.handler; root = created.root };
          })
  unfolding ClientSession.handle_read_handshake ClientSession.greeted
  client_asks a kb m m' r d w o held answer made request =
      let d' = after_one d kb in
      rw (answer_from_message-Holds J L C K secret 0 d kb m (omega arith) held answer) (
        request_file-Holds (record (greeted (connecting_to a kb r) d) { derived = some d' }) w d' o
          m' refl made (Holds-next d kb secret 0 held)
          (subst
            (λ k.
              RequestText J C k secret 1 (create_file w.handler w.root w.answers r).requested m')
            (sym (get_public_key-get_count C d kb)) request))

  pub server_confirms :
      (s : ServerSession.Connection) (h : FileHandler) (ka m m' tail : Bytes) (r : RequestedFile)
      (e : CryptoHandler)
      → s.derived ≡ some e
      → Holds e ka secret 1
      → Fits r
      → RequestText J C ka secret 1 r m
      → is_stored h r.file_info ≡ true
      → AnswerText J C secret 2 m'
      → handle_read_header J C s h (wrap_with_header m ++ tail)
        ≡ ok (record {
          sent = some (wrap_with_header m');
          connection = confirmed s (after_two e ka) r ka;
          handler = h;
          static_iv = none;
        })
  unfolding handle_read_header answer_request confirm send_confirmation
  server_confirms s h ka m m' tail r e there held fits request stored answer =
      let e' = after_one e ka in
      rw
        (
          get_message_type-tail J L m tail request.framed.1,
          get_message_type-RequestText J L C K secret 1 ka m r request,
        )
        (rw
          (
            there,
            request_from_message-tail J L C e m tail request.framed.1,
            request_from_message-Holds J L C K secret 1 e ka m r (omega arith) fits held request,
          )
          (rw
            (
              stored,
              confirm,
              send_confirmation,
              answer_to_message-Holds J L C K secret 2 e' ka m' (Holds-next e ka secret 1 held)
                  answer,
            )
            refl))

  -- The client's request is confirmed, and it holds the open stream.
  pub asking_round :
      (a b : CryptoHandler) (kb m₁ m₂ m₃ tail : Bytes) (port : ℕ) (r : RequestedFile)
      (d e : CryptoHandler) (cw : ClientSession.Shared) (sw : ServerSession.Shared)
      (o : OfstreamWrapper)
      → let created = create_file cw.handler cw.root cw.answers r in
        let ka = get_public_key C d in
        Holds d kb secret 0
        → Holds e ka secret 1
        → AnswerText J C secret 0 m₁
        → created.result ≡ ok (some o)
        → Fits created.requested
        → RequestText J C ka secret 1 created.requested m₂
        → is_stored sw.handler created.requested.file_info ≡ true
        → AnswerText J C secret 2 m₃
        → next_round J C sha256
            (record {
              client = greeted (connecting_to a kb r) d;
              server = answered (accepted port b) e;
              reply = some (wrap_with_header m₁);
            })
            cw
            sw
            tail
          ≡ ok (
            record {
              client = asked (connecting_to a kb r) (after_two d kb) created.requested o;
              server = confirmed (accepted port b) (after_two e ka) created.requested ka;
              reply = some (wrap_with_header m₃);
            },
            record cw { handler = created.handler; root = created.root },
          )
  unfolding next_round round ClientSession.step ServerSession.step
  asking_round a b kb m₁ m₂ m₃ tail port r d e cw sw o hd he t₁ made fits t₂ stored t₃ =
      let created = create_file cw.handler cw.root cw.answers r in
      let ka = get_public_key C d in
      let s = record (answered (accepted port b) e) { phase = ServerSession.awaits_header } in
      rw
        (
          client_asks a kb m₁ m₂ r d cw o hd t₁ made t₂,
          server_confirms s sw.handler ka m₂ m₃ tail created.requested e refl he fits t₂ stored t₃,
        )
        refl
