-- ===== src/ClientSession/Trust/Blocks.antt =====
-- The blocks of src/client_session.cpp, and every callback.
use mathlib.Core.Path.{subst}
use mfsync.Common.{
  ltb, refl, ◌+◌, ◌%◌, ◌^◌, ◌≡◌, ◌∙◌, if◌then◌else◌, Bool-cases, inl, inr, take, length, true,
  Bytes,
}
use mfsync.Json.{JsonLib}
use mfsync.Crypto.{CryptoLib, CryptoHandler, is_allowed, decrypt_file_to_buf, decrypt_file_error}
use mfsync.Crypto.Trust.{knows, Keeps, OnlyAllowed, OnlyAllowed-Keeps, block_with-Keeps}
use mfsync.FileHandler.Operations.{OfstreamWrapper}
use mfsync.Transfer
use mfsync.Transfer.{
  Next, reads, complete, finalized, or_fails-case, read_file_chunk, handle_read_file_chunk,
  after_write, write_at, flush,
}
use mfsync.ClientSession.{
  Phase, connecting, securing, greeting, awaits_handshake, requesting, awaits_response, confirming,
  receiving, Connection, Shared, waits, initialize_communication, receive_chunk, Event, connected,
  shaken, written, arrived, failed, react,
}
use mfsync.ClientSession.Trust.Keys.{
  Checked, IsTrusted, Good, after_write-Same, closes-Good, proceed-Good, begin_receiving-Good,
  initialize-Good,
}
use mfsync.ClientSession.Trust.Answers.{request_file-Good, handshake-Good, response-Good}

module _ (crypto : CryptoHandler) where
  module _ (J : JsonLib) (C : CryptoLib) where
    module _ (sha256 : Bytes → Bytes) where
      chunk-Same :
          (t : Transfer.ClientSession) (bytes : Bytes)
          → ((handle_read_file_chunk C sha256 t bytes).1.pub_key ≡ t.pub_key)
            × Keeps t.derived (handle_read_file_chunk C sha256 t bytes).1.derived
      unfolding handle_read_file_chunk decrypt_file_to_buf
      chunk-Same t bytes =
          let n = length bytes in
          let pump_all = ltb t.requested.file_info.size ((t.bytes_written + n) % 2 ^ 64) in
          let block = decrypt_file_to_buf C t.static_iv t.derived t.pub_key n bytes pump_all in
          let content = write_at t.bytes_written block.out t.content in
          let written : Transfer.ClientSession = record t {
            bytes_written = (t.bytes_written + length bytes) % 2 ^ 64;
            content = content;
            derived = block.handler;
            static_iv = block.static_iv;
            root = flush t.root t.path content;
          } in
          let same = after_write-Same sha256 written (t.bytes_written + length block.out) in
          or_fails-case (λ x. (x.1.pub_key ≡ t.pub_key) × Keeps t.derived x.1.derived)
            (decrypt_file_error C t.static_iv t.derived t.pub_key n bytes pump_all) t _
            (
              same.1,
              λ k e.
                  block_with-Keeps C (if pump_all then C.decrypt_whole else C.decrypt_block)
                    t.static_iv t.derived t.pub_key (take n bytes) k
                    (subst (λ d. knows d k ≡ true) same.0 e),
            )
            (λ x. (refl, λ k e. e))

      chunk-Good :
          (s : Connection) (w : Shared) (o : OfstreamWrapper) (t : Transfer.ClientSession)
          (bytes : Bytes)
          → IsTrusted crypto s
          → is_allowed crypto s.pub_key ≡ true
          → t.pub_key ≡ s.pub_key
          → OnlyAllowed crypto t.derived
          → Good crypto (receive_chunk J C sha256 s w o t bytes)
      unfolding receive_chunk
      chunk-Good s w o t bytes i a same only =
          let t' : Transfer.ClientSession = record t {
            handler = w.handler;
            root = w.root;
            static_iv = w.static_iv;
          } in
          let kept = chunk-Same t' bytes in
          proceed-Good crypto s w o (handle_read_file_chunk C sha256 t' bytes) i.kept a
            (kept.0 ∙ same)
            (OnlyAllowed-Keeps crypto t.derived (handle_read_file_chunk C sha256 t' bytes).1.derived
              only kept.1)

      connecting-Good :
          (s : Connection) (w : Shared) (random : Bytes)
          → IsTrusted crypto s
          → Good crypto
              (if s.secured then waits securing s w else initialize_communication J C s w random)
      connecting-Good s w random i = elim (Bool-cases s.secured) [
        | inl tls ↦
            simp tls (record { kept = i.kept; derived_allowed = i.derived_allowed; checked = tt })
        | inr plain ↦ simp plain (initialize-Good crypto J C s w random i)
      ]

      pub react-Good :
          (p : Phase) (s : Connection) (w : Shared) (e : Event)
          → Checked crypto s.pub_key p
          → IsTrusted crypto s
          → Good crypto (react J C sha256 p s w e)
      unfolding react
      react-Good connecting s w (connected random) c i = connecting-Good s w random i
      react-Good securing s w shaken c i = request_file-Good crypto J C s w i
      react-Good greeting s w written c i = record {
        kept = i.kept;
        derived_allowed = i.derived_allowed;
        checked = tt;
      }
      react-Good awaits_handshake s w (arrived m) c i = handshake-Good crypto J C s w m i
      react-Good (requesting o) s w written c i = record {
        kept = i.kept;
        derived_allowed = i.derived_allowed;
        checked = tt;
      }
      react-Good (awaits_response o) s w (arrived m) c i = response-Good crypto J C s w o m i
      react-Good (confirming o) s w written c i = begin_receiving-Good crypto s w o i c
      react-Good (receiving o n t) s w (arrived bytes) c i = chunk-Good s w o t bytes i c.0 c.1 c.2
      react-Good p s w failed c i = closes-Good crypto s w i
      react-Good p s w e c i = i
