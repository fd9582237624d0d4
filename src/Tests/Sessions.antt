-- ===== src/Tests/Sessions.antt =====
-- A connection of a server, from the handshake to the first block of a file.
use mfsync.Common.{◌≡◌, refl, ◌∙◌, true, none, some, [], ◌∷◌, ◌++◌, Bytes, arith, ok}
use mfsync.Json.Sample.{sample, sample-IsLawful}
use mfsync.Crypto.{CryptoHandler, is_allowed, derive, get_public_key}
use mfsync.Crypto.Sample
use mfsync.Crypto.Exchange.{derive-entry}
use mfsync.Protocol.{wrap_with_header}
use mfsync.Protocol.Ends.{Holds, Holds-next}
use mfsync.Transfer
use mfsync.ServerSession
use mfsync.ServerSession.{accepted}
use mfsync.ServerSession.Trust.{Reach, start, later, streaming_allowed}
use mfsync.Dialogue.Greeting.{handle_read_handshake-wrap, respond_encrypted-Holds}
use mfsync.Dialogue.Asking.{after_one, after_two, confirmed, server_confirms}
use mfsync.Dialogue.Starting.{sending, server_sends}
use mfsync.Tests.Downloads
use mfsync.Tests.Downloads.{
  host, wanted, requested, client_before, client_after, server_shared, greeting_text, request_text,
  answer_text, stream, file_info, secret, meeting, reader, opens, stored,
}

abbrev e₀ : CryptoHandler
e₀ = derive Sample.sample (host 2) (2 ∷ []) (9 ∷ [])

abbrev key : Bytes
key = 2 ∷ []

held₀ : Holds e₀ key secret 0
unfolding get_public_key
held₀ =
    (derive-entry Sample.sample Sample.sample-IsLawful (host 1) (host 2) (9 ∷ []) (3 ∷ []) 8 []
      meeting).1

abbrev e₁ : CryptoHandler
e₁ = after_one e₀ key

abbrev e₃ : CryptoHandler
e₃ = after_two e₁ key

held₁ : Holds e₁ key secret 1
held₁ = Holds-next e₀ key secret 0 held₀

held₃ : Holds e₃ key secret 3
held₃ = Holds-next (after_one e₁ key) key secret 2 (Holds-next e₁ key secret 1 held₁)

abbrev greeted : ServerSession.Connection
greeted = record (accepted 8000 (host 2)) { derived = some e₁; phase = ServerSession.responding }

abbrev trailing : Bytes
trailing = 0 ∷ 2 ∷ []

greets :
    ServerSession.step sample Sample.sample
      (accepted 8000 (host 2))
      server_shared
      (ServerSession.arrived (wrap_with_header greeting_text ++ trailing))
    ≡ ok (record {
      sent = some (wrap_with_header (answer_text 0));
      connection = greeted;
      handler = server_shared.handler;
      static_iv = none;
    })
unfolding ServerSession.step
greets =
    handle_read_handshake-wrap sample sample-IsLawful Sample.sample Sample.sample-IsLawful (λ t. [])
      (accepted 8000 (host 2)) server_shared.handler key (9 ∷ []) greeting_text trailing
      Downloads.greeting
    ∙ respond_encrypted-Holds sample sample-IsLawful Sample.sample Sample.sample-IsLawful (λ t. [])
        (accepted 8000 (host 2)) server_shared.handler key (9 ∷ []) secret (answer_text 0) held₀
        (Downloads.answered 0 Downloads.answers-IsClean.0)

abbrev ready : ServerSession.Connection
ready = record greeted { phase = ServerSession.awaits_header }

abbrev busy : ServerSession.Connection
busy = confirmed ready e₃ requested key

confirms :
    ServerSession.step sample Sample.sample ready server_shared
      (ServerSession.arrived (wrap_with_header request_text ++ trailing))
    ≡ ok (record {
      sent = some (wrap_with_header (answer_text 2));
      connection = busy;
      handler = server_shared.handler;
      static_iv = none;
    })
unfolding ServerSession.step
confirms =
    server_confirms sample sample-IsLawful Sample.sample Sample.sample-IsLawful (λ t. []) secret
      ready server_shared.handler key request_text (answer_text 2) trailing requested e₁ refl held₁
      (omega arith, omega arith, omega arith) Downloads.asked stored
      (Downloads.answered 2 Downloads.answers-IsClean.1)

abbrev waiting : ServerSession.Connection
waiting = record busy { phase = ServerSession.awaits_confirmation }

abbrev source : Transfer.ServerSession
source = Transfer.opened requested key (after_one e₃ key) none (10 ∷ 11 ∷ 12 ∷ [])

abbrev streams : ServerSession.Connection
streams = sending Sample.sample waiting source

sends :
    ServerSession.step sample Sample.sample waiting server_shared
      (ServerSession.arrived (wrap_with_header (answer_text 3)))
    ≡ ok (record {
      sent = (Transfer.write_file Sample.sample source).0;
      connection = streams;
      handler = reader;
      static_iv = (Transfer.write_file Sample.sample source).1.static_iv;
    })
unfolding ServerSession.step
sends =
    server_sends sample sample-IsLawful Sample.sample Sample.sample-IsLawful (λ t. []) secret
      waiting server_shared e₃ (answer_text 3) (10 ∷ 11 ∷ 12 ∷ []) reader refl held₃
      (Downloads.answered 3 Downloads.answers-IsClean.2) opens

reached : Reach sample Sample.sample (accepted 8000 (host 2)) streams
unfolding ServerSession.step
reached =
    later server_shared (ServerSession.arrived (wrap_with_header (answer_text 3))) _
      (later server_shared ServerSession.written _
        (later server_shared (ServerSession.arrived (wrap_with_header request_text ++ trailing)) _
          (later server_shared ServerSession.written _
            (later server_shared
              (ServerSession.arrived (wrap_with_header greeting_text ++ trailing)) _ start greets)
            refl)
          confirms)
        refl)
      sends

streaming_allowed_example :
    is_allowed (host 2) (Transfer.write_file Sample.sample source).1.public_key ≡ true
streaming_allowed_example =
    streaming_allowed sample Sample.sample 8000 (host 2) streams
      (Transfer.write_file Sample.sample source).1 reached refl
