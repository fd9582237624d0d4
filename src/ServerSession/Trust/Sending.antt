-- ===== src/ServerSession/Trust/Sending.antt =====
-- The confirmation and the blocks of src/server_session.cpp: whom a file is sent to.
use mfsync.Common.{take, ◌≡◌, refl, Bool, true, false, Option, none, some, Bytes, arith}
use mfsync.Common.{Outcome, Post-bind, ok, throws, undefined, ◌>>=◌}
use mfsync.Info.{RequestedFile}
use mfsync.Json.{JsonLib}
use mfsync.Crypto.{CryptoLib, CryptoHandler, is_allowed, encrypt_file_to_buf}
use mfsync.Crypto.Trust.{Keeps, OnlyAllowed, OnlyAllowed-Keeps, block_with-Keeps}
use mfsync.FileHandler.{FileHandler}
use mfsync.Protocol.Converter.{answer_from_message}
use mfsync.Protocol.Trust.{Reads, answer_from_message-Reads}
use mfsync.Transfer
use mfsync.Transfer.{open_source, open_after, opened}
use mfsync.FileHandler.Sharing.{read_file}
use mfsync.ServerSession.{
  Phase, awaits_handshake, responding, awaits_header, confirming, awaits_confirmation, replying,
  streaming, Connection, Shared, Event, arrived, written, failed, deref, react, waits,
}
use mfsync.ServerSession.{streams, write_file, begin_file, transmit, handle_read_confirmation}
use mfsync.ServerSession.Trust.Greeting.{
  Checked, IsTrusted, Fine, Good, closes-Good, handshake-Good,
}
use mfsync.ServerSession.Trust.Asking.{deref_lem, header-Good}

module _ (crypto : CryptoHandler) where
  module _ (J : JsonLib) (C : CryptoLib) where
    streams-Good :
        (s : Connection) (h : FileHandler) (b : Option Bytes) (t : Transfer.ServerSession)
        → IsTrusted crypto s
        → is_allowed crypto t.public_key ≡ true
        → OnlyAllowed crypto t.derived
        → Good crypto (streams J C s h (b, t))
    unfolding streams
    streams-Good s h none t i a o = record { kept = i.kept; derived_allowed = o; checked = tt }
    streams-Good s h (some b) t i a o = record {
      kept = i.kept;
      derived_allowed = o;
      checked = (a, o);
    }

    write_file_key :
        (t : Transfer.ServerSession) → (Transfer.write_file C t).1.public_key ≡ t.public_key
    unfolding Transfer.write_file
    write_file_key t = ground arith

    write_file-Keeps :
        (t : Transfer.ServerSession) → Keeps t.derived (Transfer.write_file C t).1.derived
    unfolding Transfer.write_file encrypt_file_to_buf
    write_file-Keeps t k e = ground (
      arith,
      block_with-Keeps C C.encrypt_block t.static_iv t.derived t.public_key
          (take t.requested.chunksize t.rest) k,
    )

    write_file-Good :
        (s : Connection) (h : FileHandler) (t : Transfer.ServerSession)
        → IsTrusted crypto s
        → is_allowed crypto t.public_key ≡ true
        → OnlyAllowed crypto t.derived
        → Good crypto (write_file J C s h t)
    unfolding write_file
    write_file-Good s h t i a o =
        let sent = Transfer.write_file C t in
        streams-Good s h sent.0 sent.1 i (rw (write_file_key t) a)
          (OnlyAllowed-Keeps crypto t.derived sent.1.derived o (write_file-Keeps t))

    begin_file-Good :
        (s : Connection) (d : CryptoHandler) (r : RequestedFile) (iv : Option Bytes)
        (o : Outcome (Option Bytes) × FileHandler)
        → IsTrusted crypto s
        → is_allowed crypto s.public_key ≡ true
        → OnlyAllowed crypto d
        → Good crypto (begin_file J C s (open_after r s.public_key d iv o))
    unfolding begin_file open_after
    begin_file-Good s d r iv (ok none, h) i a o = closes-Good crypto s h i
    begin_file-Good s d r iv (ok (some content), h) i a o =
        write_file-Good s h (opened r s.public_key d iv content) i a o
    begin_file-Good s d r iv (throws e, h) i a o = tt
    begin_file-Good s d r iv (undefined, h) i a o = tt

    transmit-Good :
        (s : Connection) (w : Shared) (d : CryptoHandler) (r : Option Bool × CryptoHandler)
        → IsTrusted crypto s
        → OnlyAllowed crypto d
        → Reads d (λ q. s.public_key) r
        → Good crypto (transmit J C s w r)
    unfolding transmit open_source
    transmit-Good s w d (none, d') i o q = record {
      kept = i.kept;
      derived_allowed = OnlyAllowed-Keeps crypto d d' o q.0;
      checked = tt;
    }
    transmit-Good s w d (some false, d') i o q = record {
      kept = i.kept;
      derived_allowed = OnlyAllowed-Keeps crypto d d' o q.0;
      checked = tt;
    }
    transmit-Good s w d (some true, d') i o q =
        let o' = OnlyAllowed-Keeps crypto d d' o q.0 in
        begin_file-Good (record s { derived = some d' }) d' s.requested w.static_iv
          (read_file w.root w.handler s.requested.file_info)
          (record { kept = i.kept; derived_allowed = o'; checked = i.checked })
          (o s.public_key (q.1 true refl)) o'

    confirmation-Good :
        (s : Connection) (w : Shared) (m : Bytes)
        → IsTrusted crypto s
        → Good crypto (handle_read_confirmation J C s w m)
    unfolding handle_read_confirmation
    confirmation-Good s w m i =
        Post-bind (OnlyAllowed crypto) (Fine crypto) (deref s.derived)
          (λ d. answer_from_message J C m s.public_key d >>= transmit J C s w)
          (deref_lem crypto J C s.derived i.derived_allowed)
          (λ d o.
            Post-bind (Reads d (λ q. s.public_key)) (Fine crypto)
              (answer_from_message J C m s.public_key d) (transmit J C s w)
              (answer_from_message-Reads J C d s.public_key m) (λ r q. transmit-Good s w d r i o q))

    waits-Good :
        (p : Phase) (s : Connection) (h : FileHandler)
        → IsTrusted crypto s
        → Checked crypto s.public_key p
        → Good crypto (waits p s h)
    waits-Good p s h i c = record {
      kept = i.kept;
      derived_allowed = i.derived_allowed;
      checked = c;
    }

    pub react-Good :
        (p : Phase) (s : Connection) (w : Shared) (e : Event)
        → Checked crypto s.public_key p
        → IsTrusted crypto s
        → Good crypto (react J C p s w e)
    unfolding react
    react-Good awaits_handshake s w (arrived m) c i = handshake-Good crypto J C s w.handler m i
    react-Good responding s w written c i = waits-Good awaits_header s w.handler i tt
    react-Good awaits_header s w (arrived m) c i = header-Good crypto J C s w.handler m i
    react-Good confirming s w written c i = waits-Good awaits_confirmation s w.handler i c
    react-Good awaits_confirmation s w (arrived m) c i = confirmation-Good s w m i
    react-Good replying s w written c i = closes-Good crypto s w.handler i
    react-Good (streaming t) s w written c i =
        write_file-Good s w.handler (record t { static_iv = w.static_iv }) i c.0 c.1
    react-Good p s w failed c i = closes-Good crypto s w.handler i
    react-Good p s w e c i = i
