-- ===== src/ClientSession/Trust/Answers.antt =====
-- The answers that a session of src/client_session.cpp goes on after.
use mfsync.Common.{
  ◌≡◌, refl, Bool, true, false, Option, none, some, Bytes, ok, throws, undefined, ◌>>=◌, Outcome,
  Post-bind,
}
use mfsync.Info.{RequestedFile}
use mfsync.Json.{JsonLib}
use mfsync.Crypto.{CryptoLib, CryptoHandler}
use mfsync.Crypto.Trust.{Keeps, OnlyAllowed, OnlyAllowed-Keeps}
use mfsync.FileHandler.Operations.{OfstreamWrapper, create_file}
use mfsync.Protocol.Converter.{answer_to_message, answer_from_message, request_to_message}
use mfsync.Protocol.Trust.{
  Reads, answer_to_message-Keeps, answer_from_message-Reads, request_to_message-Keeps,
}
use mfsync.ClientSession.{
  requesting, confirming, Connection, Shared, closes, writes, deref, request_with, request_file,
  greeted, handle_read_handshake, confirmed, handle_read_file_request_response,
}
use mfsync.ClientSession.Trust.Keys.{Checked, IsTrusted, Fine, Good, deref_lem, closes-Good}

module _ (crypto : CryptoHandler) where
  module _ (J : JsonLib) (C : CryptoLib) where
    request_with-Good :
        (s : Connection) (w : Shared) (r : RequestedFile) (o : Outcome (Option OfstreamWrapper))
        → IsTrusted crypto s
        → Good crypto (request_with J C s w r o)
    unfolding request_with
    request_with-Good s w r (ok none) i =
        closes-Good crypto (record s { requested = r }) w
          (record { kept = i.kept; derived_allowed = i.derived_allowed; checked = i.checked })
    request_with-Good s w r (ok (some o)) i =
        Post-bind (OnlyAllowed crypto) (Fine crypto) (deref s.derived)
          (λ d. request_to_message J C r s.pub_key d >>= (λ m.
            writes m.0 (record s { requested = r; derived = some m.1; phase = requesting o }) w))
          (deref_lem crypto s.derived i.derived_allowed)
          (λ d only.
            Post-bind (λ m. Keeps d m.1) (Fine crypto) (request_to_message J C r s.pub_key d)
              (λ m.
                writes m.0 (record s { requested = r; derived = some m.1; phase = requesting o }) w)
              (request_to_message-Keeps J C d r s.pub_key)
              (λ m keeps. record {
                kept = i.kept;
                derived_allowed = OnlyAllowed-Keeps crypto d m.1 only keeps;
                checked = tt;
              }))
    request_with-Good s w r (throws e) i = tt
    request_with-Good s w r undefined i = tt

    pub request_file-Good :
        (s : Connection) (w : Shared) → IsTrusted crypto s → Good crypto (request_file J C s w)
    unfolding request_file
    request_file-Good s w i =
        let made = create_file w.handler w.root w.answers s.requested in
        request_with-Good s (record w { handler = made.handler; root = made.root }) made.requested
          made.result i

    greeted-Good :
        (s : Connection) (w : Shared) (d : CryptoHandler) (a : Option Bool × CryptoHandler)
        → s.crypto ≡ crypto
        → Checked crypto s.pub_key s.phase
        → OnlyAllowed crypto d
        → Reads d (λ x. s.pub_key) a
        → Good crypto (greeted J C s w a)
    unfolding greeted
    greeted-Good s w d (none, d') kept c only q =
        closes-Good crypto (record s { derived = some d' }) w
          (record {
            kept = kept;
            derived_allowed = OnlyAllowed-Keeps crypto d d' only q.0;
            checked = c;
          })
    greeted-Good s w d (some b, d') kept c only q =
        request_file-Good (record s { derived = some d' }) w
          (record {
            kept = kept;
            derived_allowed = OnlyAllowed-Keeps crypto d d' only q.0;
            checked = c;
          })

    pub handshake-Good :
        (s : Connection) (w : Shared) (m : Bytes)
        → IsTrusted crypto s
        → Good crypto (handle_read_handshake J C s w m)
    unfolding handle_read_handshake
    handshake-Good s w m i =
        Post-bind (OnlyAllowed crypto) (Fine crypto) (deref s.derived)
          (λ d. answer_from_message J C m s.pub_key d >>= greeted J C s w)
          (deref_lem crypto s.derived i.derived_allowed)
          (λ d only.
            Post-bind (Reads d (λ x. s.pub_key)) (Fine crypto)
              (answer_from_message J C m s.pub_key d) (greeted J C s w)
              (answer_from_message-Reads J C d s.pub_key m)
              (λ a q. greeted-Good s w d a i.kept i.checked only q))

    confirmed-Good :
        (s : Connection) (w : Shared) (o : OfstreamWrapper) (d : CryptoHandler)
        (a : Option Bool × CryptoHandler)
        → s.crypto ≡ crypto
        → Checked crypto s.pub_key s.phase
        → OnlyAllowed crypto d
        → Reads d (λ x. s.pub_key) a
        → Good crypto (confirmed J C s w o a)
    unfolding confirmed closes
    confirmed-Good s w o d (none, d') kept c only q = record {
      kept = kept;
      derived_allowed = OnlyAllowed-Keeps crypto d d' only q.0;
      checked = tt;
    }
    confirmed-Good s w o d (some false, d') kept c only q = record {
      kept = kept;
      derived_allowed = OnlyAllowed-Keeps crypto d d' only q.0;
      checked = tt;
    }
    confirmed-Good s w o d (some true, d') kept c only q =
        Post-bind (λ m. Keeps d' m.1) (Fine crypto) (answer_to_message J C true s.pub_key d')
          (λ m. writes m.0 (record s { derived = some m.1; phase = confirming o }) w)
          (answer_to_message-Keeps J C d' true s.pub_key)
          (λ m keeps. record {
            kept = kept;
            derived_allowed =
                OnlyAllowed-Keeps crypto d' m.1 (OnlyAllowed-Keeps crypto d d' only q.0) keeps;
            checked = only s.pub_key (q.1 true refl);
          })

    pub response-Good :
        (s : Connection) (w : Shared) (o : OfstreamWrapper) (m : Bytes)
        → IsTrusted crypto s
        → Good crypto (handle_read_file_request_response J C s w o m)
    unfolding handle_read_file_request_response
    response-Good s w o m i =
        Post-bind (OnlyAllowed crypto) (Fine crypto) (deref s.derived)
          (λ d. answer_from_message J C m s.pub_key d >>= confirmed J C s w o)
          (deref_lem crypto s.derived i.derived_allowed)
          (λ d only.
            Post-bind (Reads d (λ x. s.pub_key)) (Fine crypto)
              (answer_from_message J C m s.pub_key d) (confirmed J C s w o)
              (answer_from_message-Reads J C d s.pub_key m)
              (λ a q. confirmed-Good s w o d a i.kept i.checked only q))
