-- ===== src/Dialogue/Fetching.antt =====
-- A whole download of src/client_session.cpp from src/server_session.cpp, from the connection to the
-- last byte.
use mfsync.Common.{ℕ, [], ◌+◌, ◌<◌, ◌≡◌, refl, ◌∙◌, true, none, some, Bytes, ok}
use mfsync.Info.{RequestedFile}
use mfsync.Json.{JsonLib, IsLawful}
use mfsync.Crypto
use mfsync.Crypto.{CryptoLib, CryptoHandler, derive, get_public_key}
use mfsync.FileHandler.{FileHandler, is_stored}
use mfsync.FileHandler.Operations.{OfstreamWrapper, create_file}
use mfsync.FileHandler.Sharing.{read_file}
use mfsync.Protocol.{handshake_json}
use mfsync.Protocol.Ends.{Holds, Holds-next, Framed, Fits, AnswerText, RequestText}
use mfsync.Transfer
use mfsync.Transfer.{opened, read_file_chunk, receive, send}
use mfsync.ClientSession
use mfsync.ClientSession.{transfer_of}
use mfsync.ServerSession
use mfsync.ServerSession.{accepted}
use mfsync.Dialogue.{Dialogue, fetch, round, next_round}
use mfsync.Dialogue.Greeting.{connecting_to, greeting_round}
use mfsync.Dialogue.Asking.{after_one, after_two, confirmed, asking_round}
use mfsync.Dialogue.Starting.{downloading, sending, starting_round}

module _ (J : JsonLib) (L : IsLawful J) (C : CryptoLib) (IsPair : Bytes → Bytes → Type 0)
    (K : Crypto.IsLawful C IsPair) (sha256 : Bytes → Bytes) where
  -- The messages of a download, as texts.
  pub record Texts (ka salt secret : Bytes) (r : RequestedFile) (m₀ m₁ m₂ m₃ m₄ : Bytes)
      : Type 0 where
    pub greeting : Framed J (handshake_json J ka salt) m₀
    pub accepted_text : AnswerText J C secret 0 m₁
    pub request : RequestText J C ka secret 1 r m₂
    pub confirmation : AnswerText J C secret 2 m₃
    pub start : AnswerText J C secret 3 m₄

  fetch-rounds :
      (d d₁ d₂ : Dialogue) (w₁ w₂ w₃ : ClientSession.Shared × ServerSession.Shared) (random : Bytes)
      (tails : Bytes × Bytes) (x y : ClientSession.Shared)
      → round J C sha256 d w₁.0 w₁.1 tails.0 (ClientSession.connected random) ≡ ok (d₁, x)
      → next_round J C sha256 d₁ w₂.0 w₂.1 tails.1 ≡ ok (d₂, y)
      → fetch J C sha256 d w₁ w₂ w₃ random tails ≡ next_round J C sha256 d₂ w₃.0 w₃.1 []
  unfolding fetch
  fetch-rounds d d₁ d₂ w₁ w₂ w₃ random tails x y e f = rw (e, f) refl

  -- The three rounds, where the keys and the messages are as they should be.
  pub fetch-phases :
      (a b : CryptoHandler) (random secret m₀ m₁ m₂ m₃ m₄ content : Bytes) (tails : Bytes × Bytes)
      (port left : ℕ) (r : RequestedFile) (w₁ w₂ w₃ : ClientSession.Shared × ServerSession.Shared)
      (o : OfstreamWrapper) (h : FileHandler)
      → let salt = C.hex_encode random in
        let kb = get_public_key C b in
        let d = derive C a kb salt in
        let ka = get_public_key C d in
        let e = derive C b ka salt in
        let made = create_file w₂.0.handler w₂.0.root w₂.0.answers r in
        let q = made.requested in
        let e₃ = after_one (after_two e ka) ka in
        let t = opened q ka (after_one e₃ ka) w₃.1.static_iv content in
        Holds d kb secret 0
        → Holds e ka secret 0
        → Texts ka salt secret q m₀ m₁ m₂ m₃ m₄
        → made.result ≡ ok (some o)
        → Fits q
        → is_stored w₂.1.handler q.file_info ≡ true
        → q.file_info.size ≡ q.offset + left
        → 0 < left
        → read_file w₃.1.root w₃.1.handler q.file_info ≡ (ok (some content), h)
        → fetch J C sha256
            (record { client = connecting_to a kb r; server = accepted port b; reply = none })
            w₁
            w₂
            w₃
            random
            tails
          ≡ ok (
            record {
              client =
                  downloading (connecting_to a kb r) w₃.0 (after_two (after_two d kb) kb) q o left;
              server = sending C (confirmed (accepted port b) e₃ q ka) t;
              reply = (Transfer.write_file C t).0;
            },
            w₃.0,
          )
  fetch-phases a b random secret m₀ m₁ m₂ m₃ m₄ content tails port left r w₁ w₂ w₃ o h hd he texts
        made fits stored size some_left opens =
      let salt = C.hex_encode random in
      let kb = get_public_key C b in
      let d = derive C a kb salt in
      let ka = get_public_key C d in
      let e₁ = after_one (derive C b ka salt) ka in
      let he₁ = Holds-next (derive C b ka salt) ka secret 0 he in
      let hd₁ = Holds-next d kb secret 0 hd in
      let q = (create_file w₂.0.handler w₂.0.root w₂.0.answers r).requested in
      fetch-rounds _ _ _ w₁ w₂ w₃ random tails _ _
        (greeting_round J L C K sha256 a b kb random secret m₀ m₁ tails.0 port r w₁.0 w₁.1
          texts.greeting he texts.accepted_text)
        (asking_round J L C K sha256 secret a b kb m₁ m₂ m₃ tails.1 port r d e₁ w₂.0 w₂.1 o hd he₁
          texts.accepted_text made fits texts.request stored texts.confirmation)
      ∙ starting_round J L C K sha256 secret (connecting_to a kb r) b ka m₃ m₄ content port left q
          (after_two d kb) (after_two e₁ ka) w₃.0 w₃.1 o h
          (Holds-next (after_one d kb) kb secret 1 hd₁)
          (Holds-next (after_one e₁ ka) ka secret 2 (Holds-next e₁ ka secret 1 he₁))
          texts.confirmation texts.start size fits.0 some_left opens
