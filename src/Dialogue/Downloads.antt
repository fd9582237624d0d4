-- ===== src/Dialogue/Downloads.antt =====
-- A whole download of src/client_session.cpp from src/server_session.cpp: after the three rounds, all
-- that the server sends is received, and the whole file is finalized.
use mfsync.Common.{
  ◌^◌, ℕ, suc, ◌+◌, ◌<◌, ◌≡◌, refl, sym, true, Option, none, some, ◌∷◌, ◌++◌, Bytes, ok, arith,
  length, drop, drop-append,
}
use mathlib.Core.Path.{subst}
use mfsync.Info.{RequestedFile}
use mfsync.Json.{JsonLib, IsLawful}
use mfsync.Disk.{regular, node_at}
use mfsync.Crypto
use mfsync.Crypto.{CryptoLib, CryptoHandler, derive, get_public_key}
use mfsync.Crypto.Blocks.{Ready, next_nonce}
use mfsync.Crypto.Exchange.{Meeting, derive-entry, get_public_key-derive}
use mfsync.FileHandler.{FileHandler, is_stored, get_tmp_path}
use mfsync.FileHandler.Operations.{OfstreamWrapper, create_file}
use mfsync.FileHandler.Sharing.{read_file}
use mfsync.Protocol.Ends.{Holds, Holds-next, Fits}
use mfsync.Transfer
use mfsync.Transfer.{opened, read_file_chunk, reads, receive, send}
use mfsync.Transfer.Whole.{Paired, read_file_chunk-reads}
use mfsync.Transfer.Sending.{send-terminates}
use mfsync.Transfer.Stored.{Finished, receive-send}
use mfsync.ClientSession
use mfsync.ClientSession.{transfer_of}
use mfsync.ServerSession
use mfsync.ServerSession.{accepted}
use mfsync.Dialogue.{Dialogue, fetch}
use mfsync.Dialogue.Greeting.{connecting_to}
use mfsync.Dialogue.Asking.{after_two}
use mfsync.Dialogue.Fetching.{Texts, fetch-phases}

-- What both ends have to do with a download: the temporary file holds the first part of the file, the
-- server reads the whole of it, and the numbers agree.
pub record Continues (q : RequestedFile) (w : ClientSession.Shared) (o : OfstreamWrapper)
    (part rest : Bytes) : Type 0 where
  pub at_tmp : o.path ≡ get_tmp_path w.handler q.file_info
  pub on_disk : node_at w.root o.path ≡ some (regular true part)
  pub offset : q.offset ≡ length part
  pub size : q.file_info.size ≡ length part + length rest
  pub size_fits : q.file_info.size < 2 ^ 63
  pub some_chunksize : 0 < q.chunksize
  pub more : 0 < length rest

rest_left :
    (q : RequestedFile) (w : ClientSession.Shared) (o : OfstreamWrapper) (part rest : Bytes)
    → Continues q w o part rest
    → drop q.offset (part ++ rest) ≡ rest
rest_left q w o part rest cont = rw cont.offset (drop-append part rest)

module _ (C : CryptoLib) where
  Holds-Ready :
      (h : CryptoHandler) (k secret : Bytes) (iv : Option Bytes)
      → Holds h k secret 4
      → Ready iv h k secret (next_nonce iv (record { key = secret; count = 4 }))
  Holds-Ready h k secret iv held = record {
    pair = record { key = secret; count = 4 };
    trusted = held;
    secret = refl;
    nonce = refl;
  }

  pub Holds-four :
      (h : CryptoHandler) (k secret : Bytes)
      → Holds h k secret 0
      → Holds (after_two (after_two h k) k) k secret 4
  Holds-four h k secret held =
      Holds-next _ k secret 3
        (Holds-next _ k secret 2 (Holds-next _ k secret 1 (Holds-next h k secret 0 held)))

  Holds-Paired :
      (c : ClientSession.Connection) (w : ClientSession.Shared) (o : OfstreamWrapper)
      (d e : CryptoHandler) (ka secret part rest : Bytes)
      → Holds d c.pub_key secret 4
      → Holds e ka secret 4
      → Continues c.requested w o part rest
      → Paired
          (opened c.requested ka e w.static_iv (part ++ rest))
          (transfer_of c w d o)
          secret
          (next_nonce w.static_iv (record { key = secret; count = 4 }))
          part
  unfolding transfer_of
  Holds-Paired c w o d e ka secret part rest hd he cont =
      let left = rest_left c.requested w o part rest cont in
      record {
        good = refl;
        server = Holds-Ready e ka secret w.static_iv he;
        client = record {
          in_stream = rw (cont.on_disk, transfer_of) refl;
          counted = cont.offset;
          on_disk = cont.on_disk;
          ready = Holds-Ready d c.pub_key secret w.static_iv hd;
        };
        same_chunksize = refl;
        some_chunksize = cont.some_chunksize;
        more = rw left cont.more;
        whole = rw left cont.size;
        bounded = rw left (ground (arith, cont.size, cont.size_fits));
      }

  -- The transfer that starts where both have counted four messages: the server's blocks end, and the
  -- client finalizes the whole file.
  started-Finished :
      (IsPair : Bytes → Bytes → Type 0) (K : Crypto.IsLawful C IsPair) (sha256 : Bytes → Bytes)
      (c : ClientSession.Connection) (w : ClientSession.Shared) (o : OfstreamWrapper)
      (d e : CryptoHandler) (ka secret part rest : Bytes)
      → Holds d c.pub_key secret 4
      → Holds e ka secret 4
      → Continues c.requested w o part rest
      → let s = opened c.requested ka e w.static_iv (part ++ rest) in
        let t = transfer_of c w d o in
        (sent : Bytes) × (send C (length rest + 2) s ≡ some sent)
        × Finished sha256 t (part ++ rest) (
            receive C
              (suc (length rest))
              sha256
              (read_file_chunk t.requested t.bytes_written, t)
              sent)
  unfolding transfer_of
  started-Finished IsPair K sha256 c w o d e ka secret part rest hd he cont =
      let s = opened c.requested ka e w.static_iv (part ++ rest) in
      let t = transfer_of c w d o in
      let iv = next_nonce w.static_iv (record { key = secret; count = 4 }) in
      let paired = Holds-Paired c w o d e ka secret part rest hd he cont in
      let left = rest_left c.requested w o part rest cont in
      let (sent, all) =
        send-terminates C (length rest + 2) s secret iv cont.some_chunksize paired.server
          (rw left (omega arith)) in
      (
        sent,
        all,
        subst
            (λ x. Finished sha256 t (part ++ x) (
              receive C (suc (length rest)) sha256 (read_file_chunk t.requested t.bytes_written, t)
                sent))
            left
            (receive-send C K (suc (length rest)) (length rest + 2) sha256 s t secret iv part sent
              paired cont.at_tmp all (rw left (omega arith))),
      )

module _ (J : JsonLib) (L : IsLawful J) (C : CryptoLib) (IsPair : Bytes → Bytes → Type 0)
    (K : Crypto.IsLawful C IsPair) (sha256 : Bytes → Bytes) where
  -- A client that connects to the holder of a key and a server that has accepted it, whose keys
  -- agree and allow each other and whose messages hold no end mark, come within three rounds to
  -- the point where the server streams and the client receives, whatever bytes stand behind the
  -- first two messages in the server's buffer, if create_file has given the client a stream and
  -- the numbers fit their widths, the size being below 2 ^ 63, the server has the file stored and
  -- reads the whole of it, the temporary file holds its first part and at least one byte is
  -- missing, and both programs have the same static nonce. The blocks that the server then sends
  -- end, and reading them the client calls finalize_file with the whole file at its temporary
  -- path.
  pub fetch-Finished :
      (a b : CryptoHandler) (shared m₀ m₁ m₂ m₃ m₄ part rest more : Bytes) (tails : Bytes × Bytes)
      (n port : ℕ) (r : RequestedFile) (w₁ w₂ w₃ : ClientSession.Shared × ServerSession.Shared)
      (o : OfstreamWrapper) (h : FileHandler)
      → let random = n ∷ more in
        let salt = C.hex_encode random in
        let made = create_file w₂.0.handler w₂.0.root w₂.0.answers r in
        let q = made.requested in
        let start : Dialogue = record {
          client = connecting_to a (get_public_key C b) r;
          server = accepted port b;
          reply = none;
        } in
        Meeting C K a b salt shared n more
        → Texts J L C IsPair K sha256
            (get_public_key C a)
            salt
            (C.derive_key shared random)
            q
            m₀
            m₁
            m₂
            m₃
            m₄
        → made.result ≡ ok (some o)
        → Fits q
        → is_stored w₂.1.handler q.file_info ≡ true
        → read_file w₃.1.root w₃.1.handler q.file_info ≡ (ok (some (part ++ rest)), h)
        → Continues q w₃.0 o part rest
        → w₃.1.static_iv ≡ w₃.0.static_iv
        → (d : Dialogue) × (c : Transfer.ClientSession) × (s : Transfer.ServerSession)
          × (wanted : ℕ) × (sent : Bytes) × (fetch J C sha256 start w₁ w₂ w₃ random tails
              ≡ ok (d, w₃.0))
          × (d.client.phase ≡ ClientSession.receiving o wanted c)
          × (read_file_chunk c.requested c.bytes_written ≡ reads wanted)
          × (d.server.phase ≡ ServerSession.streaming (Transfer.write_file C s).1)
          × (d.reply ≡ (Transfer.write_file C s).0)
          × (send C (length rest + 2) s ≡ some sent)
          × Finished sha256 c (part ++ rest) (
              receive C
                (suc (length rest))
                sha256
                (read_file_chunk c.requested c.bytes_written, c)
                sent)
  unfolding transfer_of
  fetch-Finished a b shared m₀ m₁ m₂ m₃ m₄ part rest more tails n port r w₁ w₂ w₃ o h meeting texts
        made fits stored opens cont same_iv =
      let random = n ∷ more in
      let salt = C.hex_encode random in
      let secret = C.derive_key shared random in
      let kb = get_public_key C b in
      let d = derive C a kb salt in
      let ka = get_public_key C d in
      let q = (create_file w₂.0.handler w₂.0.root w₂.0.answers r).requested in
      let same = sym (get_public_key-derive C a kb salt) in
      let held = derive-entry C K a b salt shared n more meeting in
      let he : Holds (derive C b ka salt) ka secret 0 =
        subst (λ k. Holds (derive C b k salt) k secret 0) same held.1 in
      let e = after_two (after_two (derive C b ka salt) ka) ka in
      let c : ClientSession.Connection = record (connecting_to a kb r) { requested = q } in
      let t = transfer_of c w₃.0 (after_two (after_two d kb) kb) o in
      let size : q.file_info.size ≡ q.offset + length rest =
        omega (arith, cont.size, cont.offset) in
      let (sent, all, whole) =
        subst
          (λ i.
            (sent : Bytes) × (send C (length rest + 2) (opened q ka e i (part ++ rest)) ≡ some sent)
            × Finished sha256 t (part ++ rest) (
                receive C (suc (length rest)) sha256
                  (read_file_chunk t.requested t.bytes_written, t) sent))
          (sym same_iv)
          (started-Finished C IsPair K sha256 c w₃.0 o _ e ka secret part rest
            (Holds-four C d kb secret held.0) (Holds-four C (derive C b ka salt) ka secret he)
            cont) in
      (
        _,
        t,
        opened q ka e w₃.1.static_iv (part ++ rest),
        _,
        sent,
        fetch-phases J L C IsPair K sha256 a b random secret m₀ m₁ m₂ m₃ m₄ (part ++ rest) tails
            port (length rest) r w₁ w₂ w₃ o h held.0 he
            (subst (λ k. Texts J L C IsPair K sha256 k salt secret q m₀ m₁ m₂ m₃ m₄) same texts)
            made fits stored size cont.more opens,
        refl,
        read_file_chunk-reads q q.offset (length rest) size (omega (arith, size, fits.0)) cont.more,
        refl,
        refl,
        all,
        whole,
      )
