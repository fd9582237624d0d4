-- ===== src/Dialogue/Starting.antt =====
-- The third round: the client confirms, the server opens the file and sends the first block, and the
-- client waits for it.
use mathlib.Core.List.{append-nil}
use mfsync.Common.{ℕ, [], ap, ◌∙◌, ◌+◌, ◌^◌, ◌<◌, ◌≡◌, refl, none, some, Bytes, ok, arith}
use Prim.Native.Nat.{min}
use mfsync.Info.{RequestedFile}
use mfsync.Json.{JsonLib, IsLawful}
use mfsync.Crypto
use mfsync.Crypto.{CryptoLib, CryptoHandler, get_count, get_nonce_from_count}
use mfsync.FileHandler.{FileHandler}
use mfsync.FileHandler.Operations.{OfstreamWrapper}
use mfsync.FileHandler.Sharing.{read_file}
use mfsync.Protocol.{wrap_with_header}
use mfsync.Protocol.Ends.{
  Holds, Holds-next, AnswerText, answer_to_message-Holds, answer_from_message-Holds,
}
use mfsync.Transfer
use mfsync.Transfer.{read_file_chunk, open_source, open_after, opened}
use mfsync.Transfer.Whole.{read_file_chunk-reads}
use mfsync.ClientSession
use mfsync.ClientSession.{transfer_of}
use mfsync.ServerSession
use mfsync.ServerSession.{accepted, begin_file, transmit, streams}
use mfsync.Dialogue.{round, next_round}
use mfsync.Dialogue.Asking.{after_one, after_two, asked, confirmed}

-- The client waits for the first bytes of the file, and so many are left.
abbrev pub downloading :
    ClientSession.Connection
    → ClientSession.Shared
    → CryptoHandler
    → RequestedFile
    → OfstreamWrapper
    → ℕ
    → ClientSession.Connection
downloading c w d r o left =
    let at_start : ClientSession.Connection = record c { requested = r } in
    record c {
      derived = some d;
      requested = r;
      phase = ClientSession.receiving o (min r.chunksize left) (transfer_of at_start w d o);
    }

-- The server has sent the first block of its open file.
abbrev pub sending :
    CryptoLib → ServerSession.Connection → Transfer.ServerSession → ServerSession.Connection
sending C s t =
    let t' = (Transfer.write_file C t).1 in
    record s { derived = some t'.derived; phase = ServerSession.streaming t' }

module _ (J : JsonLib) (L : IsLawful J) (C : CryptoLib) {IsPair : Bytes → Bytes → Type 0}
    (K : Crypto.IsLawful C IsPair) (sha256 : Bytes → Bytes) (secret : Bytes) where
  pub client_confirms :
      (c : ClientSession.Connection) (w : ClientSession.Shared) (o : OfstreamWrapper)
      (d : CryptoHandler) (m m' : Bytes)
      → c.derived ≡ some d
      → Holds d c.pub_key secret 2
      → AnswerText J C secret 2 m
      → AnswerText J C secret 3 m'
      → ClientSession.handle_read_file_request_response J C c w o (wrap_with_header m)
        ≡ ok (record {
          sent = some (wrap_with_header m');
          connection = record c {
            derived = some (after_two d c.pub_key);
            phase = ClientSession.confirming o;
          };
          shared = w;
        })
  unfolding ClientSession.handle_read_file_request_response ClientSession.confirmed
  client_confirms c w o d m m' there held t t' =
      let k = c.pub_key in
      rw (there, answer_from_message-Holds J L C K secret 2 d k m (omega arith) held t)
        (rw
          (answer_to_message-Holds J L C K secret 3 (after_one d k) k m'
            (Holds-next d k secret 2 held) t')
          refl)

  pub begin_receiving-reads :
      (c : ClientSession.Connection) (w : ClientSession.Shared) (o : OfstreamWrapper)
      (d : CryptoHandler) (left : ℕ)
      → c.derived ≡ some d
      → c.requested.file_info.size ≡ c.requested.offset + left
      → c.requested.file_info.size < 2 ^ 64
      → 0 < left
      → ClientSession.begin_receiving c w o
        ≡ ok (record {
          sent = none;
          connection = record c {
            derived = some d;
            phase =
                ClientSession.receiving o (min c.requested.chunksize left) (transfer_of c w d o);
          };
          shared = w;
        })
  unfolding ClientSession.begin_receiving ClientSession.proceed transfer_of
  begin_receiving-reads c w o d left there size small some_left =
      rw
        (
          there,
          read_file_chunk-reads c.requested c.requested.offset left size (omega (arith, size))
              some_left,
        )
        refl

  pub server_sends :
      (s : ServerSession.Connection) (w : ServerSession.Shared) (e : CryptoHandler)
      (m content : Bytes) (h : FileHandler)
      → let e' = after_one e s.public_key in
        let t = opened s.requested s.public_key e' w.static_iv content in
        s.derived ≡ some e
        → Holds e s.public_key secret 3
        → AnswerText J C secret 3 m
        → read_file w.root w.handler s.requested.file_info ≡ (ok (some content), h)
        → ServerSession.handle_read_confirmation J C s w (wrap_with_header m)
          ≡ ok (record {
            sent = (Transfer.write_file C t).0;
            connection = sending C s t;
            handler = h;
            static_iv = (Transfer.write_file C t).1.static_iv;
          })
  unfolding ServerSession.handle_read_confirmation transmit open_source open_after begin_file
      ServerSession.write_file streams Transfer.write_file
  server_sends s w e m content h there held t opens =
      rw (there, answer_from_message-Holds J L C K secret 3 e s.public_key m (omega arith) held t)
        (rw opens refl)

  -- The client confirms, and the first block is on its way.
  pub starting_round :
      (c : ClientSession.Connection) (b : CryptoHandler) (ka m₃ m₄ content : Bytes) (port left : ℕ)
      (r : RequestedFile) (d e : CryptoHandler) (cw : ClientSession.Shared)
      (sw : ServerSession.Shared) (o : OfstreamWrapper) (h : FileHandler)
      → let t = opened r ka (after_one e ka) sw.static_iv content in
        Holds d c.pub_key secret 2
        → Holds e ka secret 3
        → AnswerText J C secret 2 m₃
        → AnswerText J C secret 3 m₄
        → r.file_info.size ≡ r.offset + left
        → r.file_info.size < 2 ^ 64
        → 0 < left
        → read_file sw.root sw.handler r.file_info ≡ (ok (some content), h)
        → next_round J C sha256
            (record {
              client = asked c d r o;
              server = confirmed (accepted port b) e r ka;
              reply = some (wrap_with_header m₃);
            })
            cw
            sw
            []
          ≡ ok (
            record {
              client = downloading c cw (after_two d c.pub_key) r o left;
              server = sending C (confirmed (accepted port b) e r ka) t;
              reply = (Transfer.write_file C t).0;
            },
            cw,
          )
  unfolding next_round round ClientSession.step ServerSession.step
  starting_round c b ka m₃ m₄ content port left r d e cw sw o h hd he t₃ t₄ size small some_left
        opens =
      let s = record (confirmed (accepted port b) e r ka) {
        phase = ServerSession.awaits_confirmation;
      } in
      let c' = record c {
        derived = some (after_two d c.pub_key);
        requested = r;
        phase = ClientSession.confirming o;
      } in
      rw
        (
          client_confirms (asked c d r o) cw o d m₃ m₄ refl hd t₃ t₄,
          begin_receiving-reads c' cw o (after_two d c.pub_key) left refl size small some_left,
          ap (ServerSession.handle_read_confirmation J C s sw) (append-nil (wrap_with_header m₄))
              ∙ server_sends s sw e m₄ content h refl he t₄ opens,
        )
        refl
