-- ===== src/Transfer/Chunk.antt =====
-- What `handle_read_file_chunk` of src/client_session.cpp makes of a block that the server encrypted.
use mfsync.Common.{
  ℕ, suc, zero, ◌+◌, ◌-◌, ◌%◌, ◌^◌, ◌<◌, ◌≤◌, ◌≡◌, refl, sym, ◌∙◌, ap, true, some, [], ◌∷◌, arith,
}
use mfsync.Common.{ltb, false, ◌++◌, Bytes, length, take, drop, length-append, Option, none}
use mfsync.Disk.{Entries, regular, node_at, put_at, node_at-put_at}
use mfsync.Disk.Existing.{put_at_existing}
use mfsync.Crypto.{CryptoLib, IsLawful, decrypt_file_to_buf, decrypt_file_error}
use mfsync.Crypto.Blocks.{Ready, block_with-Ready}
use mfsync.Transfer.{
  ClientSession, after_write, write_at, zeros, flush, write_through, handle_read_file_chunk,
}

take-length : (xs : Bytes) → take (length xs) xs ≡ xs
take-length [] = refl
take-length (x ∷ xs) = ap (◌∷◌ x) (take-length xs)

drop_beyond : (n : ℕ) (xs : Bytes) → length xs ≤ n → drop n xs ≡ []
drop_beyond zero [] h = refl
drop_beyond zero (x ∷ xs) h = ground arith
drop_beyond (suc n) [] h = refl
drop_beyond (suc n) (x ∷ xs) h = drop_beyond n xs (omega arith)

append_nil : (xs : Bytes) → xs ++ [] ≡ xs
append_nil [] = refl
append_nil (x ∷ xs) = ap (◌∷◌ x) (append_nil xs)

zeros_none : (n m : ℕ) → n ≤ m → zeros (n - m) ≡ []
zeros_none n m h = let e : n - m ≡ 0 = omega arith in rw e refl

-- A write at the end of a file appends.
pub write_at_end : (content out : Bytes) → write_at (length content) out content ≡ content ++ out
unfolding write_at
write_at_end content [] = sym (append_nil content)
write_at_end content (b ∷ bs) =
    rw
      (
        take-length content,
        zeros_none (length content) (length content) (omega arith),
        drop_beyond (length content + length (b ∷ bs)) content (omega arith),
        append_nil bs,
      )
      refl

pub flush_existing :
    (root : Entries) (path before content : Bytes)
    → node_at root path ≡ some (regular true before)
    → node_at (flush root path content) path ≡ some (regular true content)
unfolding flush write_through
flush_existing root path before content h =
    rw h (written (put_at root path (regular true content)) refl)
  where
    written :
        (o : Option Entries)
        → put_at root path (regular true content) ≡ o
        → node_at (elim o [ none ↦ root | some root' ↦ root' ]) path ≡ some (regular true content)
    written none e =
        ground (arith, e, put_at_existing root path true before (regular true content) h)
    written (some root') e = node_at-put_at root root' path (regular true content) e

-- What the client has received so far stands in its stream and on the disk, and the next block goes
-- under this key and this nonce.
pub record Received (c : ClientSession) (key iv content : Bytes) : Type 0 where
  pub in_stream : c.content ≡ content
  pub counted : c.bytes_written ≡ length content
  pub on_disk : node_at c.root c.path ≡ some (regular true content)
  pub ready : Ready c.static_iv c.derived c.pub_key key iv

-- The parts of a session that a block leaves as they are.
abbrev pub Same : ClientSession → ClientSession → Type 0
Same c c' = (c'.requested ≡ c.requested) × (c'.path ≡ c.path) × (c'.handler ≡ c.handler)

module _ (C : CryptoLib) {IsPair : Bytes → Bytes → Type 0} (L : IsLawful C IsPair) where
  -- A block is appended, and the count goes up by its length.
  pub handle_read_file_chunk-Received :
      (sha256 : Bytes → Bytes) (c : ClientSession) (key iv content block : Bytes)
      → Received c key iv content
      → length content + length block < 2 ^ 64
      → length content + length block ≤ c.requested.file_info.size
      → (c' : ClientSession) × (handle_read_file_chunk C sha256 c (C.encrypt_block key iv block)
          ≡ after_write sha256 c' (length (content ++ block)))
        × Received c' key iv (content ++ block)
        × Same c c'
  unfolding handle_read_file_chunk decrypt_file_to_buf decrypt_file_error
  handle_read_file_chunk-Received sha256 c key iv content block r bound fits =
      let received = C.encrypt_block key iv block in
      let out =
        decrypt_file_to_buf C c.static_iv c.derived c.pub_key (length received) received false in
      let written = write_at c.bytes_written out.out c.content in
      let c' : ClientSession = record c {
        bytes_written = (c.bytes_written + length received) % 2 ^ 64;
        content = written;
        derived = out.handler;
        static_iv = out.static_iv;
        root = flush c.root c.path written;
      } in
      let inside : ltb c.requested.file_info.size ((c.bytes_written + length received) % 2 ^ 64)
          ≡ false =
        ground (arith, r.counted, L.length-encrypt_block key iv block) in
      let (turned, next) =
        block_with-Ready C C.decrypt_block c.static_iv c.derived c.pub_key
          (take (length received) received) key iv r.ready in
      let plain : out.out ≡ block =
        turned ∙ rw (take-length received) (L.decrypt-encrypt_block key iv block) in
      let appended : written ≡ content ++ block =
        rw (plain, r.counted, r.in_stream) (write_at_end content block) in
      let tellp : c.bytes_written + length out.out ≡ length (content ++ block) =
        rw (plain, r.counted, length-append content block) refl in
      (
        c',
        rw inside (ap (after_write sha256 c') tellp),
        record {
          in_stream = appended;
          counted =
              rw (r.counted, L.length-encrypt_block key iv block, length-append content block)
                (omega arith);
          on_disk = rw appended (flush_existing c.root c.path content (content ++ block) r.on_disk);
          ready = next;
        },
        (refl, refl, refl),
      )
