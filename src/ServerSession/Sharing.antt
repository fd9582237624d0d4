-- ===== src/ServerSession/Sharing.antt =====
-- A connection of src/server_session.cpp takes no lock, gives none back, and leaves the
-- available files alone.
use mfsync.Common.{
  ◌≡◌, refl, Bool, true, false, Option, none, some, Bytes, Bool-cases, inl, inr, codes, Outcome,
  Post, Post-after, Post-ok, ok, throws, undefined, ◌>>=◌,
}
use mfsync.Info.{RequestedFile}
use mfsync.Json.{JsonLib}
use mfsync.Crypto.{CryptoLib, CryptoHandler, derive}
use mfsync.Disk.{Entries}
use mfsync.FileHandler.{FileHandler, is_stored, update_stored_files}
use mfsync.FileHandler.Lifecycle.{update-locked_files, update-next_token}
use mfsync.FileHandler.Sharing.{read_file, read_after}
use mfsync.Info.{FileInformation}
use mfsync.Protocol.{
  MessageType, no_type, denied, handshake, file_list, file, get_message_type, get_json_from_message,
  text_at,
}
use mfsync.Protocol.Converter.{
  answer_to_message, answer_from_message, request_from_message, files_to_message,
}
use mfsync.Transfer
use mfsync.Transfer.{open_source, open_after, opened}
use mfsync.ServerSession.{
  Phase, awaits_handshake, responding, awaits_header, confirming, awaits_confirmation, replying,
  streaming, Connection, Shared, Reaction, Event, arrived, written, failed, deref, step, react,
  writes,
}
use mfsync.ServerSession.{
  respond_encrypted, greet, greet_if, handle_read_handshake, send_confirmation, reply_with_error,
  list_files, confirm, answer_request, handle_read_header, streams, write_file, begin_file,
  transmit, handle_read_confirmation,
}
use mfsync.ClientSession.Effects.{Same}
use mfsync.FileHandler.Keeping.{Keeps, update-Keeps}

-- The locks and the available files are the same.
abbrev pub Kept : FileHandler → FileHandler → Type 0
Kept h h' = Same h h' × Keeps h h'

abbrev Locked : FileHandler → Reaction → Type 0
Locked h r = Kept h r.handler

abbrev Leaves : FileHandler → Outcome Reaction → Type 0
Leaves h = Post (Locked h)

read_after-Kept :
    (root : Entries) (f : FileInformation) (h : FileHandler) (r : Outcome Bool × FileHandler)
    → Kept h r.1
    → Kept h (read_after root f r).1
unfolding read_after
read_after-Kept root f h (ok b, g) same = elim (Bool-cases (is_stored g f)) [
  | inl there ↦ simp there same
  | inr gone ↦ simp gone same
]
read_after-Kept root f h (throws e, g) same = same
read_after-Kept root f h (undefined, g) same = same

read_file-Kept :
    (root : Entries) (h : FileHandler) (f : FileInformation) → Kept h (read_file root h f).1
unfolding read_file
read_file-Kept root h f =
    read_after-Kept root f h (update_stored_files root false h) (
      (update-locked_files root false h, update-next_token root false h),
      update-Keeps root false h,
    )

module _ (J : JsonLib) (C : CryptoLib) (h : FileHandler) where
  respond-Leaves : (s : Connection) (k salt : Bytes) → Leaves h (respond_encrypted J C s h k salt)
  unfolding respond_encrypted
  respond-Leaves s k salt =
      Post-after (Locked h) (answer_to_message J C true k (derive C s.crypto k salt))
        (λ m. writes m.0 (record s { derived = some m.1; phase = responding }) h)
        (λ m. ((refl, refl), refl))

  greet-Leaves : (s : Connection) (j : Option J.Json) → Leaves h (greet J C s h j)
  unfolding greet
  greet-Leaves s none = ((refl, refl), refl)
  greet-Leaves s (some j) =
      Post-after (Locked h) (text_at J j (codes "public_key"))
        (λ key. text_at J j (codes "salt") >>= respond_encrypted J C s h key)
        (λ key.
          Post-after (Locked h) (text_at J j (codes "salt")) (respond_encrypted J C s h key)
            (λ salt. respond-Leaves s key salt))

  greet_if-Leaves :
      (s : Connection) (m : Bytes) (type : MessageType) → Leaves h (greet_if J C s h m type)
  unfolding greet_if
  greet_if-Leaves s m handshake =
      Post-after (Locked h) (get_json_from_message J m) (greet J C s h) (λ j. greet-Leaves s j)
  greet_if-Leaves s m no_type = ((refl, refl), refl)
  greet_if-Leaves s m denied = ((refl, refl), refl)
  greet_if-Leaves s m file_list = ((refl, refl), refl)
  greet_if-Leaves s m file = ((refl, refl), refl)

  handshake-Leaves : (s : Connection) (m : Bytes) → Leaves h (handle_read_handshake J C s h m)
  unfolding handle_read_handshake
  handshake-Leaves s m =
      Post-after (Locked h) (get_message_type J m) (greet_if J C s h m) (λ t. greet_if-Leaves s m t)

  list_files-Leaves : (s : Connection) (j : Option J.Json) → Leaves h (list_files J C s h j)
  unfolding list_files
  list_files-Leaves s none = ((refl, refl), refl)
  list_files-Leaves s (some j) =
      Post-after (Locked h) (text_at J j (codes "public_key"))
        (λ key. deref s.derived >>= (λ d.
          files_to_message J C h.stored_files s.port key d
          >>= (λ m. writes m.0 (record s { derived = some m.1; phase = replying }) h)))
        (λ key.
          Post-after (Locked h) (deref s.derived)
            (λ d.
              files_to_message J C h.stored_files s.port key d
              >>= (λ m. writes m.0 (record s { derived = some m.1; phase = replying }) h))
            (λ d.
              Post-after (Locked h) (files_to_message J C h.stored_files s.port key d)
                (λ m. writes m.0 (record s { derived = some m.1; phase = replying }) h)
                (λ m. ((refl, refl), refl))))

  confirm-Leaves :
      (s : Connection) (r : Option (RequestedFile × Bytes) × CryptoHandler)
      → Leaves h (confirm J C s h r)
  unfolding confirm reply_with_error send_confirmation
  confirm-Leaves s (none, d) = ((refl, refl), refl)
  confirm-Leaves s (some (r, key), d) = elim (Bool-cases (is_stored h r.file_info)) [
    | inl stored ↦
        let s' : Connection = record s { derived = some d; public_key = key; requested = r } in
        rw (stored, confirm)
          (Post-after (Locked h) (answer_to_message J C true key d)
            (λ m. writes m.0 (record s' { derived = some m.1; phase = confirming }) h)
            (λ m. ((refl, refl), refl)))
    | inr missing ↦ rw (missing, confirm) ((refl, refl), refl)
  ]

  answer_request-Leaves :
      (s : Connection) (m : Bytes) (type : MessageType) → Leaves h (answer_request J C s h m type)
  unfolding answer_request
  answer_request-Leaves s m file_list =
      Post-after (Locked h) (get_json_from_message J m) (list_files J C s h)
        (λ j. list_files-Leaves s j)
  answer_request-Leaves s m file =
      Post-after (Locked h) (deref s.derived)
        (λ d. request_from_message J C m d >>= confirm J C s h)
        (λ d.
          Post-after (Locked h) (request_from_message J C m d) (confirm J C s h)
            (λ r. confirm-Leaves s r))
  answer_request-Leaves s m no_type = ((refl, refl), refl)
  answer_request-Leaves s m denied = ((refl, refl), refl)
  answer_request-Leaves s m handshake = ((refl, refl), refl)

  header-Leaves : (s : Connection) (m : Bytes) → Leaves h (handle_read_header J C s h m)
  unfolding handle_read_header
  header-Leaves s m =
      Post-after (Locked h) (get_message_type J m) (answer_request J C s h m)
        (λ t. answer_request-Leaves s m t)

  streams-Leaves :
      (s : Connection) (g : FileHandler) (b : Option Bytes) (t : Transfer.ServerSession)
      → Kept h g
      → Leaves h (streams J C s g (b, t))
  unfolding streams
  streams-Leaves s g none t same = same
  streams-Leaves s g (some b) t same = same

  write_file-Leaves :
      (s : Connection) (g : FileHandler) (t : Transfer.ServerSession)
      → Kept h g
      → Leaves h (write_file J C s g t)
  unfolding write_file
  write_file-Leaves s g t same =
      let sent = Transfer.write_file C t in streams-Leaves s g sent.0 sent.1 same

  begin_file-Leaves :
      (s : Connection) (r : RequestedFile) (k : Bytes) (d : CryptoHandler) (iv : Option Bytes)
      (o : Outcome (Option Bytes) × FileHandler)
      → Kept h o.1
      → Leaves h (begin_file J C s (open_after r k d iv o))
  unfolding begin_file open_after
  begin_file-Leaves s r k d iv (ok none, g) same = same
  begin_file-Leaves s r k d iv (ok (some content), g) same =
      write_file-Leaves s g (opened r k d iv content) same
  begin_file-Leaves s r k d iv (throws e, g) same = tt
  begin_file-Leaves s r k d iv (undefined, g) same = tt

module _ (J : JsonLib) (C : CryptoLib) where
  transmit-Leaves :
      (s : Connection) (w : Shared) (r : Option Bool × CryptoHandler)
      → Leaves w.handler (transmit J C s w r)
  unfolding transmit open_source
  transmit-Leaves s w (none, d) = ((refl, refl), refl)
  transmit-Leaves s w (some false, d) = ((refl, refl), refl)
  transmit-Leaves s w (some true, d) =
      begin_file-Leaves J C w.handler (record s { derived = some d }) s.requested s.public_key d
        w.static_iv (read_file w.root w.handler s.requested.file_info)
        (read_file-Kept w.root w.handler s.requested.file_info)

  confirmation-Leaves :
      (s : Connection) (w : Shared) (m : Bytes)
      → Leaves w.handler (handle_read_confirmation J C s w m)
  unfolding handle_read_confirmation
  confirmation-Leaves s w m =
      Post-after (Locked w.handler) (deref s.derived)
        (λ d. answer_from_message J C m s.public_key d >>= transmit J C s w)
        (λ d.
          Post-after (Locked w.handler) (answer_from_message J C m s.public_key d)
            (transmit J C s w) (λ r. transmit-Leaves s w r))

  react-Leaves :
      (p : Phase) (s : Connection) (w : Shared) (e : Event) → Leaves w.handler (react J C p s w e)
  unfolding react
  react-Leaves awaits_handshake s w (arrived m) = handshake-Leaves J C w.handler s m
  react-Leaves responding s w written = ((refl, refl), refl)
  react-Leaves awaits_header s w (arrived m) = header-Leaves J C w.handler s m
  react-Leaves confirming s w written = ((refl, refl), refl)
  react-Leaves awaits_confirmation s w (arrived m) = confirmation-Leaves s w m
  react-Leaves replying s w written = ((refl, refl), refl)
  react-Leaves (streaming t) s w written =
      write_file-Leaves J C w.handler s w.handler (record t { static_iv = w.static_iv })
        ((refl, refl), refl)
  react-Leaves p s w failed = ((refl, refl), refl)
  react-Leaves p s w e = ((refl, refl), refl)

  pub step-Kept :
      (s : Connection) (w : Shared) (e : Event) (r : Reaction)
      → step J C s w e ≡ ok r
      → Kept w.handler r.handler
  unfolding step
  step-Kept s w e r q = Post-ok (Locked w.handler) (step J C s w e) r (react-Leaves s.phase s w e) q
