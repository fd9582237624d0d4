-- ===== src/ListSession/Sharing.antt =====
-- A session of src/client_session.cpp that asks for a list takes no lock and gives none back.
use mfsync.Common.{
  ◌≡◌, refl, ◌∙◌, Bool, true, false, Option, none, some, List, [], ◌∷◌, Bytes, Bool-cases, inl, inr,
  Outcome, Post, Post-after, Post-ok, ok, throws, undefined, ◌>>=◌,
}
use mfsync.Info.{AvailableFile}
use mfsync.Json.{JsonLib}
use mfsync.Crypto.{CryptoLib, CryptoHandler, derive, get_public_key}
use mfsync.Disk.{Entries}
use mfsync.FileHandler.{FileHandler, is_stored, update_stored_files}
use mfsync.FileHandler.Lifecycle.{update-locked_files, update-next_token}
use mfsync.FileHandler.Sharing.{add_available_files, add_after, offer_all, offer}
use mfsync.Protocol.{create_handshake_message, create_file_list_message}
use mfsync.Protocol.Converter.{answer_from_message, files_from_message}
use mfsync.ClientSession.{deref, Event, connected, written, arrived, failed}
use mfsync.ClientSession.Effects.{Same}
use mfsync.FileHandler.Keeping.{Grows, add_available_files-Grows}
use mfsync.ListSession.{
  Phase, connecting, greeting, awaits_handshake, asking, awaits_list, Connection, Reaction, writes,
  initialize_communication, greeted, handle_read_handshake, offered, received,
  handle_read_encrypted_response, react, step,
}

-- The locks are the same, and the available file of a name stays the one of that name.
abbrev pub Kept : FileHandler → FileHandler → Type 0
Kept h h' = Same h h' × Grows h h'

abbrev Locked : FileHandler → Reaction → Type 0
Locked h r = Kept h r.handler

offer-Same : (h : FileHandler) (a : AvailableFile) → Same h (offer h a).0
unfolding offer
offer-Same h a = elim (Bool-cases (is_stored h a.file_info)) [
  | inl there ↦ simp there (refl, refl)
  | inr new ↦ simp new (refl, refl)
]

offer_all-Same :
    (h g : FileHandler) (as' : List AvailableFile) (changed : Bool)
    → Same h g
    → Same h (offer_all g as' changed).0
unfolding offer_all
offer_all-Same h g [] changed same = same
offer_all-Same h g (a ∷ as') changed same =
    let one = offer-Same g a in
    offer_all-Same h (offer g a).0 as' _ ((one.0 ∙ same.0), one.1 ∙ same.1)

add_after-Same :
    (h : FileHandler) (as' : List AvailableFile) (r : Outcome Bool × FileHandler)
    → Same h r.1
    → Same h (add_after as' r).1
unfolding add_after
add_after-Same h as' (ok b, g) same = offer_all-Same h g as' false same
add_after-Same h as' (throws e, g) same = same
add_after-Same h as' (undefined, g) same = same

pub add_available_files-Same :
    (root : Entries) (h : FileHandler) (as' : List AvailableFile)
    → Same h (add_available_files root h as').1
unfolding add_available_files
add_available_files-Same root h as' =
    add_after-Same h as' (update_stored_files root false h)
      (update-locked_files root false h, update-next_token root false h)

module _ (J : JsonLib) (C : CryptoLib) (root : Entries) (h : FileHandler) where
  initialize-Kept :
      (s : Connection) (random : Bytes) → Post (Locked h) (initialize_communication J C s h random)
  unfolding initialize_communication
  initialize-Kept s random =
      let salt = C.hex_encode random in
      let d = derive C s.crypto s.host_info.public_key salt in
      Post-after (Locked h) (create_handshake_message J (get_public_key C d) salt)
        (λ m. writes m (record s { derived = some d; phase = greeting }) h)
        (λ m. ((refl, refl), λ k a e. e))

  greeted-Kept :
      (s : Connection) (a : Option Bool × CryptoHandler) → Post (Locked h) (greeted J C s h a)
  unfolding greeted
  greeted-Kept s (none, d) = ((refl, refl), λ k a e. e)
  greeted-Kept s (some accepted, d) =
      Post-after (Locked h) (create_file_list_message J (get_public_key C d))
        (λ m. writes m (record s { derived = some d; phase = asking }) h)
        (λ m. ((refl, refl), λ k a e. e))

  handshake-Kept : (s : Connection) (m : Bytes) → Post (Locked h) (handle_read_handshake J C s h m)
  unfolding handle_read_handshake
  handshake-Kept s m =
      Post-after (Locked h) (deref s.derived)
        (λ d. answer_from_message J C m s.host_info.public_key d >>= greeted J C s h)
        (λ d.
          Post-after (Locked h) (answer_from_message J C m s.host_info.public_key d)
            (greeted J C s h) (λ a. greeted-Kept s a))

  offered-Kept :
      (s : Connection) (r : Outcome Bool × FileHandler)
      → Kept h r.1
      → Post (Locked h) (offered J C s r)
  unfolding offered
  offered-Kept s (ok b, g) same = same
  offered-Kept s (throws e, g) same = tt
  offered-Kept s (undefined, g) same = tt

  received-Kept :
      (s : Connection) (r : Option (List AvailableFile) × CryptoHandler)
      → Post (Locked h) (received J C s root h r)
  unfolding received
  received-Kept s (none, d) = ((refl, refl), λ k a e. e)
  received-Kept s (some available, d) =
      offered-Kept (record s { derived = some d }) (add_available_files root h available)
        (add_available_files-Same root h available, add_available_files-Grows root h available)

  response-Kept :
      (s : Connection) (m : Bytes) → Post (Locked h) (handle_read_encrypted_response J C s root h m)
  unfolding handle_read_encrypted_response
  response-Kept s m =
      Post-after (Locked h) (deref s.derived)
        (λ d.
          files_from_message J C m s.host_info.public_key d s.address true
          >>= received J C s root h)
        (λ d.
          Post-after (Locked h) (files_from_message J C m s.host_info.public_key d s.address true)
            (received J C s root h) (λ r. received-Kept s r))

  react-Kept : (p : Phase) (s : Connection) (e : Event) → Post (Locked h) (react J C p s root h e)
  unfolding react
  react-Kept connecting s (connected random) = initialize-Kept s random
  react-Kept greeting s written = ((refl, refl), λ k a e. e)
  react-Kept awaits_handshake s (arrived m) = handshake-Kept s m
  react-Kept asking s written = ((refl, refl), λ k a e. e)
  react-Kept awaits_list s (arrived m) = response-Kept s m
  react-Kept p s failed = ((refl, refl), λ k a e. e)
  react-Kept p s e = ((refl, refl), λ k a e. e)

  pub step-Kept :
      (s : Connection) (e : Event) (r : Reaction) → step J C s root h e ≡ ok r → Kept h r.handler
  unfolding step
  step-Kept s e r q = Post-ok (Locked h) (step J C s root h e) r (react-Kept s.phase s e) q
