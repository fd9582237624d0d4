-- ===== src/Protocol/Kinds.antt =====
-- The kinds of message: what `get_message_type` says of each message that the program builds.
use mfsync.Common.{◌≡◌, refl, Bytes, codes}
use mfsync.Common.{ok, str_eq, List, ◌∷◌}
use mfsync.Json.{JsonLib, IsLawful}
use mfsync.Protocol.{denied, handshake, file_list, file}
use mfsync.Protocol.{wrap_with_header, get_message_type, type_of_text}
use mfsync.Protocol.{file_message_json, handshake_json, file_list_json, denied_json}
use mfsync.Protocol.{create_file_message, create_handshake_message, create_file_list_message}
use mfsync.Protocol.{create_denied_message}
use mfsync.Protocol.Framing.{IsClean, payload-wrap_with_header, wrap_with_header-long}

module _ (J : JsonLib) (L : IsLawful J) where
  -- A message whose JSON is an object that begins with the type.
  pub get_message_type-wrap :
      (kind : Bytes) (fs : List (Bytes × J.Json)) (t : Bytes)
      → J.dump (J.object ((codes "type", J.text kind) ∷ fs)) ≡ ok t
      → IsClean t
      → get_message_type J (wrap_with_header t) ≡ ok (type_of_text J kind)
  unfolding get_message_type str_eq
  get_message_type-wrap kind fs t d c =
      rw (wrap_with_header-long t, payload-wrap_with_header t c, L.parse-dump _ t d)
        (rw (L.contains-object, L.at-object, L.get_text-text) refl)

  -- Each message is recognised as what it is: if its JSON is dumped as a text with no end mark,
  -- then the message is that text in its frame, and its type is the one that the constructor names.
  pub get_message_type-create :
      (public_key salt msg t₁ t₂ t₃ t₄ : Bytes)
      → J.dump (handshake_json J public_key salt) ≡ ok t₁
      → J.dump (file_list_json J public_key) ≡ ok t₂
      → J.dump (file_message_json J public_key msg) ≡ ok t₃
      → J.dump (denied_json J) ≡ ok t₄
      → IsClean t₁
      → IsClean t₂
      → IsClean t₃
      → IsClean t₄
      → (create_handshake_message J public_key salt ≡ ok (wrap_with_header t₁))
        × (get_message_type J (wrap_with_header t₁) ≡ ok handshake)
        × (create_file_list_message J public_key ≡ ok (wrap_with_header t₂))
        × (get_message_type J (wrap_with_header t₂) ≡ ok file_list)
        × (create_file_message J public_key msg ≡ ok (wrap_with_header t₃))
        × (get_message_type J (wrap_with_header t₃) ≡ ok file)
        × (create_denied_message J ≡ ok (wrap_with_header t₄))
        × (get_message_type J (wrap_with_header t₄) ≡ ok denied)
  unfolding create_handshake_message create_file_list_message create_file_message
      create_denied_message type_of_text str_eq
  get_message_type-create public_key salt msg t₁ t₂ t₃ t₄ d₁ d₂ d₃ d₄ c₁ c₂ c₃ c₄ = (
    rw d₁,
    get_message_type-wrap (codes "handshake") _ t₁ d₁ c₁,
    rw d₂,
    get_message_type-wrap (codes "file_list") _ t₂ d₂ c₂,
    rw d₃,
    get_message_type-wrap (codes "file") _ t₃ d₃ c₃,
    rw d₄,
    get_message_type-wrap (codes "denied") _ t₄ d₄ c₄,
  )
