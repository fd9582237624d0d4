-- ===== src/ClientSession/Ending.antt =====
-- How the receiving of src/client_session.cpp starts: `read_file_chunk`, called behind the response.
use mfsync.Common.{
  ℕ, ◌+◌, ◌-◌, ◌^◌, ◌<◌, ◌≡◌, refl, ap, ◌∙◌, ◌>>=◌, Bool, true, false, none, some, arith, ◌==◌, leb,
  ok, if◌then◌else◌,
}
use Prim.Native.Nat.{min}
use mfsync.Info.{RequestedFile}
use mfsync.Crypto.{CryptoHandler}
use mfsync.FileHandler.Operations.{OfstreamWrapper, release}
use mfsync.Transfer.{reads, complete, read_file_chunk, bytes_left}
use mfsync.ClientSession.{
  Connection, Shared, Reaction, confirming, receiving, ended, begin_receiving, proceed, closes,
  dropped, transfer_of, deref, held,
}

-- What is missing of a file of this size; where more is there already, the difference of the unsigned
-- numbers wraps around.
abbrev pub missing : ℕ → ℕ → ℕ
missing size offset = if leb offset size then size - offset else size + 2 ^ 64 - offset

-- The session ends and gives its stream back, or it waits for the first block.
abbrev pub Ends : Bool → Connection → Shared → OfstreamWrapper → CryptoHandler → Reaction
Ends true s w o d = record {
  sent = none;
  connection = record s { derived = some d; phase = ended };
  shared = record w { handler = release w.handler o };
}
Ends false s w o d =
    let left = missing s.requested.file_info.size s.requested.offset in
    record {
      sent = none;
      connection = record s {
        derived = some d;
        phase = receiving o (min s.requested.chunksize left) (transfer_of s w d o);
      };
      shared = w;
    }

read_file_chunk_first :
    (r : RequestedFile)
    → r.file_info.size < 2 ^ 64
    → r.offset < 2 ^ 64
    → read_file_chunk r r.offset ≡ (
        if r.offset == r.file_info.size
        then complete
        else reads (min r.chunksize (missing r.file_info.size r.offset)))
unfolding read_file_chunk bytes_left
read_file_chunk_first r hs ho = ground arith

-- For a size and an offset of 64 bits, a session that starts to receive while it holds its stream
-- ends at once exactly where the offset equals the size: it gives the stream back, and neither the
-- files nor anything else of the file handler change, so that a temporary file that is complete
-- already, and an empty file, stay where they are. Else it waits for a block of the rest; where the
-- temporary file is longer than the file, the rest is the difference modulo 2 ^ 64.
pub begin_receiving_complete :
    (s : Connection) (w : Shared) (o : OfstreamWrapper) (d : CryptoHandler)
    → s.phase ≡ confirming o
    → s.derived ≡ some d
    → s.requested.file_info.size < 2 ^ 64
    → s.requested.offset < 2 ^ 64
    → begin_receiving s w o ≡ ok (Ends (s.requested.offset == s.requested.file_info.size) s w o d)
unfolding begin_receiving proceed closes dropped transfer_of
begin_receiving_complete s w o d p e hs ho =
    ap
      (λ x. deref x >>= (λ d'.
        proceed s w o (read_file_chunk s.requested s.requested.offset, transfer_of s w d' o)))
      e
    ∙ ap (λ n. proceed s w o (n, transfer_of s w d o)) (read_file_chunk_first s.requested hs ho)
    ∙ next (s.requested.offset == s.requested.file_info.size)
  where
    next :
        (b : Bool)
        → proceed s w o (
          if b
              then complete
              else reads (
                  min s.requested.chunksize
                    (missing s.requested.file_info.size s.requested.offset)),
          transfer_of s w d o,
        )
          ≡ ok (Ends b s w o d)
    next true =
        ap
          (λ x. ok (record {
            sent = none;
            connection = record s { derived = some d; phase = ended };
            shared = record w { handler = dropped (held x) w.handler };
          }))
          p
    next false = refl
