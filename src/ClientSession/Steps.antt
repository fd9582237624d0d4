-- ===== src/ClientSession/Steps.antt =====
-- What every callback of src/client_session.cpp does to the locks.
use mfsync.Common.{
  ◌≡◌, refl, sym, ap, Bool, true, false, Option, none, some, Bytes, ok, throws, undefined, ◌>>=◌,
  Outcome, Post, Post-after, Post-ok, inl, inr, Bool-cases, if◌then◌else◌,
}
use mathlib.Core.Path.{subst}
use mfsync.Info.{RequestedFile}
use mfsync.Json.{JsonLib}
use mfsync.Crypto.{CryptoLib, CryptoHandler, derive, get_public_key}
use mfsync.FileHandler.{FileHandler}
use mfsync.FileHandler.Operations.{OfstreamWrapper, create_file}
use mfsync.Protocol.{create_handshake_message}
use mfsync.Protocol.Converter.{answer_to_message, answer_from_message, request_to_message}
use mfsync.Transfer
use mfsync.Transfer.{Next, reads, complete, finalized, read_file_chunk, handle_read_file_chunk}
use mfsync.ClientSession.{
  Phase, connecting, securing, greeting, awaits_handshake, requesting, awaits_response, confirming,
  receiving, Connection, Shared, Reaction, held, closes, writes, waits, deref,
  initialize_communication, request_with, request_file, greeted, handle_read_handshake, confirmed,
  handle_read_file_request_response, receive_chunk, Event, connected, shaken, written, arrived,
  failed, react, step,
}
use mfsync.ClientSession.Locks.{Leaves, chunk-Leaves}
use mfsync.ClientSession.Effects.{
  Effect, Changes, Matches, Opens, closes-Changes, proceed-Changes, begin_receiving-Changes,
  create_file-Opens,
}

module _ (J : JsonLib) (C : CryptoLib) where
  request_with-Changes :
      (s : Connection) (w : Shared) (h : FileHandler) (r : RequestedFile)
      (x : Outcome (Option OfstreamWrapper))
      → held s.phase ≡ none
      → Opens h w.handler r x
      → Post (Changes h s.requested.file_info none) (request_with J C s w r x)
  unfolding request_with
  request_with-Changes s w h r (ok none) e same =
      subst (λ y. Post (Changes h s.requested.file_info y) (closes (record s { requested = r }) w))
        e (closes-Changes (record s { requested = r }) w h s.requested.file_info same)
  request_with-Changes s w h r (ok (some o)) e opens =
      Post-after (Changes h s.requested.file_info none) (deref s.derived)
        (λ d. request_to_message J C r s.pub_key d >>= (λ m.
          writes m.0 (record s { requested = r; derived = some m.1; phase = requesting o }) w))
        (λ d.
          Post-after (Changes h s.requested.file_info none) (request_to_message J C r s.pub_key d)
            (λ m.
              writes m.0 (record s { requested = r; derived = some m.1; phase = requesting o }) w)
            (λ m. (opens, tt)))
  request_with-Changes s w h r (throws x) e opens = tt
  request_with-Changes s w h r undefined e opens = tt

  request_file-Changes :
      (s : Connection) (w : Shared)
      → held s.phase ≡ none
      → Post (Changes w.handler s.requested.file_info none) (request_file J C s w)
  unfolding request_file
  request_file-Changes s w e =
      let c = create_file w.handler w.root w.answers s.requested in
      request_with-Changes s (record w { handler = c.handler; root = c.root }) w.handler c.requested
        c.result e (create_file-Opens w.handler w.root w.answers s.requested)

  greeted-Changes :
      (s : Connection) (w : Shared) (a : Option Bool × CryptoHandler)
      → held s.phase ≡ none
      → Post (Changes w.handler s.requested.file_info none) (greeted J C s w a)
  unfolding greeted
  greeted-Changes s w (none, d) e =
      subst
        (λ y.
          Post (Changes w.handler s.requested.file_info y)
            (closes (record s { derived = some d }) w))
        e
        (closes-Changes (record s { derived = some d }) w w.handler s.requested.file_info
          (refl, refl))
  greeted-Changes s w (some accepted, d) e =
      request_file-Changes (record s { derived = some d }) w e

  handshake-Changes :
      (s : Connection) (w : Shared) (m : Bytes)
      → held s.phase ≡ none
      → Post (Changes w.handler s.requested.file_info none) (handle_read_handshake J C s w m)
  unfolding handle_read_handshake
  handshake-Changes s w m e =
      Post-after (Changes w.handler s.requested.file_info none) (deref s.derived)
        (λ d. answer_from_message J C m s.pub_key d >>= greeted J C s w)
        (λ d.
          Post-after (Changes w.handler s.requested.file_info none)
            (answer_from_message J C m s.pub_key d) (greeted J C s w)
            (λ a. greeted-Changes s w a e))

  initialize-Changes :
      (s : Connection) (w : Shared) (random : Bytes)
      → Post
          (Changes w.handler s.requested.file_info none)
          (initialize_communication J C s w random)
  unfolding initialize_communication
  initialize-Changes s w random =
      let salt = C.hex_encode random in
      let d = derive C s.crypto s.pub_key salt in
      Post-after (Changes w.handler s.requested.file_info none)
        (create_handshake_message J (get_public_key C d) salt)
        (λ m. writes m (record s { derived = some d; phase = greeting }) w)
        (λ m. ((refl, refl), tt))

  confirmed-Changes :
      (s : Connection) (w : Shared) (o : OfstreamWrapper) (a : Option Bool × CryptoHandler)
      → some o ≡ held s.phase
      → Post (Changes w.handler s.requested.file_info (some o)) (confirmed J C s w o a)
  unfolding confirmed
  confirmed-Changes s w o (none, d) e =
      subst
        (λ y.
          Post (Changes w.handler s.requested.file_info y)
            (closes (record s { derived = some d }) w))
        (sym e)
        (closes-Changes (record s { derived = some d }) w w.handler s.requested.file_info
          (refl, refl))
  confirmed-Changes s w o (some false, d) e =
      subst
        (λ y.
          Post (Changes w.handler s.requested.file_info y)
            (closes (record s { derived = some d }) w))
        (sym e)
        (closes-Changes (record s { derived = some d }) w w.handler s.requested.file_info
          (refl, refl))
  confirmed-Changes s w o (some true, d) e =
      Post-after (Changes w.handler s.requested.file_info (some o))
        (answer_to_message J C true s.pub_key d)
        (λ m. writes m.0 (record s { derived = some m.1; phase = confirming o }) w)
        (λ m. ((refl, refl, (refl, refl)), tt))

  response-Changes :
      (s : Connection) (w : Shared) (o : OfstreamWrapper) (m : Bytes)
      → some o ≡ held s.phase
      → Post
          (Changes w.handler s.requested.file_info (some o))
          (handle_read_file_request_response J C s w o m)
  unfolding handle_read_file_request_response
  response-Changes s w o m e =
      Post-after (Changes w.handler s.requested.file_info (some o)) (deref s.derived)
        (λ d. answer_from_message J C m s.pub_key d >>= confirmed J C s w o)
        (λ d.
          Post-after (Changes w.handler s.requested.file_info (some o))
            (answer_from_message J C m s.pub_key d) (confirmed J C s w o)
            (λ a. confirmed-Changes s w o a e))

  connecting-Changes :
      (s : Connection) (w : Shared) (random : Bytes)
      → Post
          (Changes w.handler s.requested.file_info none)
          (if s.secured then waits securing s w else initialize_communication J C s w random)
  connecting-Changes s w random = elim (Bool-cases s.secured) [
    | inl tls ↦ simp tls ((refl, refl), tt)
    | inr plain ↦ simp plain (initialize-Changes s w random)
  ]

  module _ (sha256 : Bytes → Bytes) where
    chunk-Changes :
        (s : Connection) (w : Shared) (o : OfstreamWrapper) (t : Transfer.ClientSession)
        (bytes : Bytes)
        → some o ≡ held s.phase
        → t.requested ≡ s.requested
        → Post
            (Changes w.handler s.requested.file_info (some o))
            (receive_chunk J C sha256 s w o t bytes)
    unfolding receive_chunk
    chunk-Changes s w o t bytes e same =
        let t' : Transfer.ClientSession = record t {
          handler = w.handler;
          root = w.root;
          static_iv = w.static_iv;
        } in
        let x = handle_read_file_chunk C sha256 t' bytes in
        proceed-Changes s w o w.handler x e
          (subst (λ q. Leaves q w.handler x) same (chunk-Leaves C sha256 t' bytes))

    -- Where a callback changes nothing.
    stays-Changes :
        (s : Connection) (h : FileHandler) (x : Option OfstreamWrapper)
        → Effect h h s.requested.file_info s.requested.file_info x x
    stays-Changes s h none = (refl, refl)
    stays-Changes s h (some o) = (refl, refl, (refl, refl))

    -- The stream and the locks over a callback in a phase `p`, which is that of the session.
    react-Changes :
        (p : Phase) (s : Connection) (w : Shared) (e : Event)
        → p ≡ s.phase
        → Matches s.requested p
        → Post (Changes w.handler s.requested.file_info (held p)) (react J C sha256 p s w e)
    unfolding react
    react-Changes connecting s w (connected random) q m = connecting-Changes s w random
    react-Changes securing s w shaken q m = request_file-Changes s w (ap held (sym q))
    react-Changes greeting s w written q m = ((refl, refl), tt)
    react-Changes awaits_handshake s w (arrived b) q m = handshake-Changes s w b (ap held (sym q))
    react-Changes (requesting o) s w written q m = ((refl, refl, (refl, refl)), tt)
    react-Changes (awaits_response o) s w (arrived b) q m = response-Changes s w o b (ap held q)
    react-Changes (confirming o) s w written q m = begin_receiving-Changes s w o (ap held q)
    react-Changes (receiving o n t) s w (arrived bytes) q m =
        chunk-Changes s w o t bytes (ap held q) m
    react-Changes p s w failed q m =
        subst (λ y. Post (Changes w.handler s.requested.file_info y) (closes s w)) (ap held (sym q))
          (closes-Changes s w w.handler s.requested.file_info (refl, refl))
    react-Changes p s w e q m = (
      subst
          (λ x.
            Effect w.handler w.handler s.requested.file_info s.requested.file_info (held p)
              (held x))
          q (stays-Changes s w.handler (held p)),
      subst (Matches s.requested) q m,
    )

  -- Every callback of a session that receives what it requested changes the locks with its stream.
  pub step-Changes :
      (sha256 : Bytes → Bytes) (s : Connection) (w : Shared) (e : Event) (r : Reaction)
      → Matches s.requested s.phase
      → step J C sha256 s w e ≡ ok r
      → Changes w.handler s.requested.file_info (held s.phase) r
  unfolding step
  step-Changes sha256 s w e r m q =
      Post-ok (Changes w.handler s.requested.file_info (held s.phase)) (step J C sha256 s w e) r
        (react-Changes sha256 s.phase s w e refl m) q
