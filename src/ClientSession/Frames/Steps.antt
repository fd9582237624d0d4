-- ===== src/ClientSession/Frames/Steps.antt =====
-- Every callback of src/client_session.cpp keeps to its frame.
use mfsync.Common.{
  ◌≡◌, refl, sym, Bool, true, false, Option, none, some, Bytes, ok, throws, undefined, ◌>>=◌,
  Outcome, Post, Post-after, Post-ok, inl, inr, Bool-cases, if◌then◌else◌,
}
use mathlib.Core.Path.{subst}
use mfsync.Info.{RequestedFile}
use mfsync.Json.{JsonLib}
use mfsync.Crypto.{CryptoLib, CryptoHandler, derive, get_public_key}
use mfsync.FileHandler.Operations.{OfstreamWrapper, create_file}
use mfsync.FileHandler.Keeping.{Keeps, create_file-Keeps}
use mfsync.Protocol.{create_handshake_message}
use mfsync.Protocol.Converter.{answer_to_message, answer_from_message, request_to_message}
use mfsync.Transfer
use mfsync.Transfer.{
  Next, reads, complete, finalized, read_file_chunk, handle_read_file_chunk, after_write, write_at,
  flush,
}
use mfsync.ClientSession.{
  Phase, connecting, securing, greeting, awaits_handshake, requesting, awaits_response, confirming,
  receiving, ended, Connection, Shared, Reaction, closes, writes, waits, deref,
  initialize_communication, request_with, request_file, greeted, handle_read_handshake, confirmed,
  handle_read_file_request_response, receive_chunk, Event, connected, shaken, written, arrived,
  failed, react, step,
}
use mfsync.ClientSession.Frames.{
  Frame, AsksOnly-refl, closes-Frame, proceed-Frame, begin_receiving-Frame, chunk-Keeps, given-file,
}

module _ (J : JsonLib) (C : CryptoLib) where
  request_with-Frame :
      (s : Connection) (w v : Shared) (r : RequestedFile) (x : Outcome (Option OfstreamWrapper))
      → Keeps w.handler v.handler
      → v.queue ≡ w.queue
      → ((o : OfstreamWrapper) → x ≡ ok (some o) → r.file_info ≡ s.requested.file_info)
      → Post (Frame w s.requested.file_info) (request_with J C s v r x)
  unfolding request_with
  request_with-Frame s w v r (ok none) keeps same file =
      closes-Frame (record s { requested = r }) w v s.requested.file_info keeps same
  request_with-Frame s w v r (ok (some o)) keeps same file =
      Post-after (Frame w s.requested.file_info) (deref s.derived)
        (λ d. request_to_message J C r s.pub_key d >>= (λ m.
          writes m.0 (record s { requested = r; derived = some m.1; phase = requesting o }) v))
        (λ d.
          Post-after (Frame w s.requested.file_info) (request_to_message J C r s.pub_key d)
            (λ m.
              writes m.0 (record s { requested = r; derived = some m.1; phase = requesting o }) v)
            (λ m. (keeps, same, file o refl)))
  request_with-Frame s w v r (throws x) keeps same file = tt
  request_with-Frame s w v r undefined keeps same file = tt

  request_file-Frame :
      (s : Connection) (w : Shared) → Post (Frame w s.requested.file_info) (request_file J C s w)
  unfolding request_file
  request_file-Frame s w =
      let c = create_file w.handler w.root w.answers s.requested in
      request_with-Frame s w (record w { handler = c.handler; root = c.root }) c.requested c.result
        (create_file-Keeps w.handler w.root w.answers s.requested) refl
        (given-file w.handler w s.requested)

  greeted-Frame :
      (s : Connection) (w : Shared) (a : Option Bool × CryptoHandler)
      → Post (Frame w s.requested.file_info) (greeted J C s w a)
  unfolding greeted
  greeted-Frame s w (none, d) =
      closes-Frame (record s { derived = some d }) w w s.requested.file_info refl refl
  greeted-Frame s w (some accepted, d) = request_file-Frame (record s { derived = some d }) w

  confirmed-Frame :
      (s : Connection) (w : Shared) (o : OfstreamWrapper) (a : Option Bool × CryptoHandler)
      → Post (Frame w s.requested.file_info) (confirmed J C s w o a)
  unfolding confirmed
  confirmed-Frame s w o (none, d) =
      closes-Frame (record s { derived = some d }) w w s.requested.file_info refl refl
  confirmed-Frame s w o (some false, d) =
      closes-Frame (record s { derived = some d }) w w s.requested.file_info refl refl
  confirmed-Frame s w o (some true, d) =
      Post-after (Frame w s.requested.file_info) (answer_to_message J C true s.pub_key d)
        (λ m. writes m.0 (record s { derived = some m.1; phase = confirming o }) w)
        (λ m. (refl, refl, refl))

  -- A callback that reads an answer and goes on with it.
  answer-Frame :
      (s : Connection) (w : Shared) (m : Bytes)
      (next : Option Bool × CryptoHandler → Outcome Reaction)
      → ((a : Option Bool × CryptoHandler) → Post (Frame w s.requested.file_info) (next a))
      → Post
          (Frame w s.requested.file_info)
          (deref s.derived >>= (λ d. answer_from_message J C m s.pub_key d >>= next))
  answer-Frame s w m next frames =
      Post-after (Frame w s.requested.file_info) (deref s.derived)
        (λ d. answer_from_message J C m s.pub_key d >>= next)
        (λ d.
          Post-after (Frame w s.requested.file_info) (answer_from_message J C m s.pub_key d) next
            frames)

  initialize-Frame :
      (s : Connection) (w : Shared) (random : Bytes)
      → Post (Frame w s.requested.file_info) (initialize_communication J C s w random)
  unfolding initialize_communication
  initialize-Frame s w random =
      let salt = C.hex_encode random in
      let d = derive C s.crypto s.pub_key salt in
      Post-after (Frame w s.requested.file_info)
        (create_handshake_message J (get_public_key C d) salt)
        (λ m. writes m (record s { derived = some d; phase = greeting }) w)
        (λ m. (refl, refl, refl))

  connecting-Frame :
      (s : Connection) (w : Shared) (random : Bytes)
      → Post
          (Frame w s.requested.file_info)
          (if s.secured then waits securing s w else initialize_communication J C s w random)
  connecting-Frame s w random = elim (Bool-cases s.secured) [
    | inl tls ↦ simp tls (refl, refl, refl)
    | inr plain ↦ simp plain (initialize-Frame s w random)
  ]

  module _ (sha256 : Bytes → Bytes) where
    react-Frame :
        (p : Phase) (s : Connection) (w : Shared) (e : Event)
        → Post (Frame w s.requested.file_info) (react J C sha256 p s w e)
    unfolding react handle_read_handshake handle_read_file_request_response receive_chunk
    react-Frame connecting s w (connected random) = connecting-Frame s w random
    react-Frame securing s w shaken = request_file-Frame s w
    react-Frame greeting s w written = (refl, refl, refl)
    react-Frame awaits_handshake s w (arrived b) =
        answer-Frame s w b (greeted J C s w) (greeted-Frame s w)
    react-Frame (requesting o) s w written = (refl, refl, refl)
    react-Frame (awaits_response o) s w (arrived b) =
        answer-Frame s w b (confirmed J C s w o) (confirmed-Frame s w o)
    react-Frame (confirming o) s w written = begin_receiving-Frame s w o
    react-Frame (receiving o n t) s w (arrived bytes) =
        let t' : Transfer.ClientSession = record t {
          handler = w.handler;
          root = w.root;
          static_iv = w.static_iv;
        } in
        let x = handle_read_file_chunk C sha256 t' bytes in
        proceed-Frame s w o x.0 x.1 (chunk-Keeps C sha256 t' bytes)
    react-Frame p s w failed = closes-Frame s w w s.requested.file_info refl refl
    react-Frame p s w e = (refl, refl, AsksOnly-refl s.phase s.requested.file_info)

  pub step-Frame :
      (sha256 : Bytes → Bytes) (s : Connection) (w : Shared) (e : Event) (r : Reaction)
      → step J C sha256 s w e ≡ ok r
      → Frame w s.requested.file_info r
  unfolding step
  step-Frame sha256 s w e r q =
      Post-ok (Frame w s.requested.file_info) (step J C sha256 s w e) r
        (react-Frame sha256 s.phase s w e) q

  -- A session that has ended stays so.
  react-ended :
      (sha256 : Bytes → Bytes) (s : Connection) (w : Shared) (e : Event)
      → s.phase ≡ ended
      → Post (λ r. r.connection.phase ≡ ended) (react J C sha256 ended s w e)
  unfolding react closes
  react-ended sha256 s w failed over = refl
  react-ended sha256 s w (connected random) over = over
  react-ended sha256 s w shaken over = over
  react-ended sha256 s w written over = over
  react-ended sha256 s w (arrived m) over = over

  pub step-ended :
      (sha256 : Bytes → Bytes) (s : Connection) (w : Shared) (e : Event) (r : Reaction)
      → s.phase ≡ ended
      → step J C sha256 s w e ≡ ok r
      → r.connection.phase ≡ ended
  unfolding step
  step-ended sha256 s w e r over q =
      Post-ok (λ x. x.connection.phase ≡ ended) (step J C sha256 s w e) r
        (subst (λ p. Post (λ x. x.connection.phase ≡ ended) (react J C sha256 p s w e)) (sym over)
          (react-ended sha256 s w e over))
        q
