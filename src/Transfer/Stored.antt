-- ===== src/Transfer/Stored.antt =====
-- The two ends of a transfer together (src/client_session.cpp, src/server_session.cpp): what is sent
-- is what is stored.
use mfsync.Common.{
  ℕ, ◌<◌, ◌≡◌, refl, sym, ◌∙◌, ap, Bool, true, false, Option, some, arith, ◌++◌, Bytes,
}
use mfsync.Common.{length, ltb, length-append, Outcome, ok}
use mathlib.Core.Option.{some-injective}
use mfsync.Disk.{Entries, regular, node_at}
use mfsync.FileHandler.{get_tmp_path, get_storage_path}
use mfsync.FileHandler.Operations.{finalize_file}
use mfsync.FileHandler.Lifecycle.{finalize_file-Moved}
use mfsync.Crypto.{CryptoLib, IsLawful}
use mfsync.Transfer.{
  ClientSession, ServerSession, Next, finalized, after_write, read_file_chunk, receive, send,
}
use mfsync.Transfer.Whole.{Paired, Arrived, receive_loop}

-- The session has finalized the file of the request, with this text at its temporary path and the
-- file handler as it was.
abbrev pub Finished :
    (Bytes → Bytes) → ClientSession → Bytes → Option (Next × ClientSession) → Type 0
Finished sha256 c content result =
    (root : Entries) × (last : ClientSession) × (node_at root
        (get_tmp_path c.handler c.requested.file_info)
      ≡ some (regular true content))
    × (let done = finalize_file sha256 c.handler root c.requested.file_info in
        (result ≡ some (finalized done.result, last))
        × (last.root ≡ done.root)
        × (last.handler ≡ done.handler))

after_whole :
    (sha256 : Bytes → Bytes) (c : ClientSession) (tellp : ℕ)
    → ltb tellp c.requested.file_info.size ≡ false
    → after_write sha256 c tellp ≡ (
        let done = finalize_file sha256 c.handler c.root c.requested.file_info in
        (finalized done.result, record c { handler = done.handler; root = done.root }))
unfolding after_write
after_whole sha256 c tellp l = rw l refl

Arrived-Finished :
    (sha256 : Bytes → Bytes) (c : ClientSession) (key iv content : Bytes)
    (result : Option (Next × ClientSession))
    → c.path ≡ get_tmp_path c.handler c.requested.file_info
    → c.requested.file_info.size ≡ length content
    → Arrived sha256 c key iv content result
    → Finished sha256 c content result
Arrived-Finished sha256 c key iv content result at_tmp size (c', got, (r, path, h), run) =
    let whole = after_whole sha256 c' (length content) (rw r (ground (arith, size))) in
    let done = finalize_file sha256 c'.handler c'.root c'.requested.file_info in
    (
      c'.root,
      record c' { handler = done.handler; root = done.root },
      (rw (← at_tmp, ← path) got.on_disk),
      (rw (← h, ← r) (run ∙ ap some whole), rw (← h, ← r) refl, rw (← h, ← r) refl),
    )

finalized-injective : (a b : Outcome Bool) → finalized a ≡ finalized b → a ≡ b
finalized-injective a b e = cc

module _ (C : CryptoLib) {IsPair : Bytes → Bytes → Type 0} (L : IsLawful C IsPair) where
  -- Where both ends trust each other under the same key and nonce, use the same block size of at
  -- least one byte, and the server's stream is good and holds the bytes, at least one, that
  -- continue the text on the client's disk to the expected size, below 2 ^ 63, then with fuel for
  -- each byte that is left the client reads what it needs of all that the server sends and calls
  -- `finalize_file` with the whole file at its temporary path.
  pub receive-send :
      (fuel sends : ℕ) (sha256 : Bytes → Bytes) (s : ServerSession) (c : ClientSession)
      (key iv content sent : Bytes)
      → Paired s c key iv content
      → c.path ≡ get_tmp_path c.handler c.requested.file_info
      → send C sends s ≡ some sent
      → length s.rest < fuel
      → Finished sha256 c
          (content ++ s.rest)
          (receive C fuel sha256 (read_file_chunk c.requested c.bytes_written, c) sent)
  receive-send fuel sends sha256 s c key iv content sent p at_tmp e enough =
      Arrived-Finished sha256 c key iv (content ++ s.rest) _ at_tmp
        (p.whole ∙ sym (length-append content s.rest))
        (receive_loop C L fuel sends sha256 s c key iv content sent p e enough)

  -- Under the conditions of a transfer (same key, nonce and block size, the server's stream
  -- continues the client's text to the expected size, which is below 2 ^ 63), if the client's session ends with a
  -- `finalize_file` that returned true, the whole file stands at its path in the storage.
  pub receive-send_stored :
      (fuel sends : ℕ) (sha256 : Bytes → Bytes) (s : ServerSession) (c last : ClientSession)
      (key iv content sent : Bytes)
      → Paired s c key iv content
      → c.path ≡ get_tmp_path c.handler c.requested.file_info
      → send C sends s ≡ some sent
      → length s.rest < fuel
      → receive C fuel sha256 (read_file_chunk c.requested c.bytes_written, c) sent
        ≡ some (finalized (ok true), last)
      → node_at last.root (get_storage_path c.handler c.requested.file_info)
        ≡ some (regular true (content ++ s.rest))
  receive-send_stored fuel sends sha256 s c last key iv content sent p at_tmp e enough stored =
      let (root, last', there, (run, root', _)) =
        receive-send fuel sends sha256 s c key iv content sent p at_tmp e enough in
      let same : (finalized (ok true), last)
          ≡ (finalized (finalize_file sha256 c.handler root c.requested.file_info).result, last') =
        some-injective _ _ (sym stored ∙ run) in
      let moved =
        finalize_file-Moved sha256 c.handler root c.requested.file_info
          (finalized-injective _ _ (sym (ap (λ x. x.0) same))) in
      rw (ap (λ x. x.1.root) same, root') (moved.2 ∙ there)
