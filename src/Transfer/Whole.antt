-- ===== src/Transfer/Whole.antt =====
-- What the client of src/client_session.cpp makes of all that the server sends.
use mfsync.Common.{
  ℕ, suc, zero, ◌+◌, ◌-◌, ◌%◌, ◌^◌, ◌<◌, ◌≤◌, ◌≡◌, refl, sym, ◌∙◌, ap, true, false, Option, none,
  some, [], ◌∷◌, arith,
}
use mfsync.Common.{◌++◌, ◌&&◌, Bytes, length, take, ltb, Bool-cases, inl, inr, length-append}
use mfsync.Common.{take-append, drop-append, take-append-drop, length-take, length-drop}
use Prim.Native.Nat.{min}
use mathlib.Core.Option.{some-injective}
use mathlib.Core.List.{append_assoc}
use mfsync.Info.{RequestedFile}
use mfsync.Crypto.{CryptoLib, IsLawful}
use mfsync.Crypto.Blocks.{Ready}
use mfsync.Transfer.{
  ClientSession, ServerSession, Next, reads, after_write, read_file_chunk, bytes_left, receive,
  send, sent_with, handle_read_file_chunk, write_file,
}
use mfsync.Transfer.Chunk.{Received, Same, handle_read_file_chunk-Received}
use mfsync.Transfer.Sending.{write_file-Ready}

pub read_file_chunk-reads :
    (r : RequestedFile) (written left : ℕ)
    → r.file_info.size ≡ written + left
    → written + left < 2 ^ 64
    → 0 < left
    → read_file_chunk r written ≡ reads (min r.chunksize left)
unfolding read_file_chunk bytes_left
read_file_chunk-reads r written left e bound some_left =
    let d : (r.file_info.size + 2 ^ 64 - written) % 2 ^ 64 ≡ left = omega arith in
    rw d (ground arith)

module _ (C : CryptoLib) where
  receive-reads :
      (fuel : ℕ) (sha256 : Bytes → Bytes) (n : ℕ) (c : ClientSession) (now later : Bytes)
      → length now ≡ n
      → receive C (suc fuel) sha256 (reads n, c) (now ++ later)
        ≡ receive C fuel sha256 (handle_read_file_chunk C sha256 c now) later
  unfolding receive
  receive-reads fuel sha256 n c now later e =
      let enough : ltb (length (now ++ later)) n ≡ false =
        ground (arith, length-append now later) in
      rw (enough, ← e, take-append now later, drop-append now later) refl

  sent_with-inverse :
      (b o : Option Bytes) (x sent : Bytes)
      → b ≡ some x
      → sent_with C b o ≡ some sent
      → (more : Bytes) × (o ≡ some more) × (sent ≡ x ++ more)
  unfolding sent_with
  sent_with-inverse none o x sent e f = cc
  sent_with-inverse (some y) none x sent e f = cc
  sent_with-inverse (some y) (some more) x sent e f =
      (more, refl, sym (some-injective _ _ f) ∙ ap (λ z. z ++ more) (some-injective _ _ e))

take_all : (n : ℕ) (xs : Bytes) → length xs ≤ n → take n xs ≡ xs
take_all zero [] h = refl
take_all zero (x ∷ xs) h = ground arith
take_all (suc n) [] h = refl
take_all (suc n) (x ∷ xs) h = ap (◌∷◌ x) (take_all n xs (omega arith))

-- The client's last session before it finalizes: it has received this text, and is else as before.
abbrev pub Arrived :
    (Bytes → Bytes) → ClientSession → Bytes → Bytes → Bytes → Option (Next × ClientSession) → Type 0
Arrived sha256 c key iv content result =
    (c' : ClientSession) × Received c' key iv content
    × Same c c'
    × (result ≡ some (after_write sha256 c' (length content)))

-- Both ends of a transfer: the server has the rest of the text, under the same key, nonce and block
-- size, and the text is as long as the client expects.
pub record Paired (s : ServerSession) (c : ClientSession) (key iv content : Bytes) : Type 0 where
  pub good : s.good ≡ true
  pub server : Ready s.static_iv s.derived s.public_key key iv
  pub client : Received c key iv content
  pub same_chunksize : s.requested.chunksize ≡ c.requested.chunksize
  pub some_chunksize : 0 < c.requested.chunksize
  pub more : 0 < length s.rest
  pub whole : c.requested.file_info.size ≡ length content + length s.rest
  pub bounded : length content + length s.rest < 2 ^ 63

module _ (C : CryptoLib) {IsPair : Bytes → Bytes → Type 0} (L : IsLawful C IsPair) where
  after_last :
      (fuel : ℕ) (sha256 : Bytes → Bytes) (c : ClientSession) (tellp : ℕ) (arrived : Bytes)
      → 0 < fuel
      → (ltb tellp c.requested.file_info.size && ltb c.requested.file_info.size (2 ^ 63)) ≡ false
      → receive C fuel sha256 (after_write sha256 c tellp) arrived
        ≡ some (after_write sha256 c tellp)
  unfolding after_write receive
  after_last zero sha256 c tellp arrived f e = ground arith
  after_last (suc fuel) sha256 c tellp arrived f e = rw e refl

  after_more :
      (sha256 : Bytes → Bytes) (c : ClientSession) (tellp : ℕ)
      → (ltb tellp c.requested.file_info.size && ltb c.requested.file_info.size (2 ^ 63)) ≡ true
      → after_write sha256 c tellp ≡ (read_file_chunk c.requested c.bytes_written, c)
  unfolding after_write
  after_more sha256 c tellp e = rw e refl

  -- One block: what the server sends first is what the client reads first.
  receive_block :
      (fuel sends : ℕ) (sha256 : Bytes → Bytes) (s : ServerSession) (c : ClientSession)
      (key iv content sent : Bytes)
      → Paired s c key iv content
      → send C (suc sends) s ≡ some sent
      → let block = take s.requested.chunksize s.rest in
        (c' : ClientSession) × (later : Bytes) × (send C sends (write_file C s).1 ≡ some later)
        × Received c' key iv (content ++ block)
        × Same c c'
        × (receive C (suc fuel) sha256 (read_file_chunk c.requested c.bytes_written, c) sent
            ≡ receive C fuel sha256 (after_write sha256 c' (length (content ++ block))) later)
  unfolding send
  receive_block fuel sends sha256 s c key iv content sent p e =
      let chunk = s.requested.chunksize in
      let block = take chunk s.rest in
      let out = (write_file-Ready C s key iv p.good p.server).0 in
      let (later, e', split) = sent_with-inverse C _ _ _ sent out e in
      let (c', handled, got, kept) =
        handle_read_file_chunk-Received C L sha256 c key iv content block p.client
          (omega (arith, length-take chunk s.rest, p.bounded))
          (omega (arith, length-take chunk s.rest, p.whole)) in
      let read : read_file_chunk c.requested c.bytes_written
          ≡ reads (min c.requested.chunksize (length s.rest)) =
        read_file_chunk-reads c.requested c.bytes_written (length s.rest)
          (omega (arith, p.whole, p.client.counted)) (omega (arith, p.bounded, p.client.counted))
          p.more in
      let full : length (C.encrypt_block key iv block) ≡ min c.requested.chunksize (length s.rest) =
        L.length-encrypt_block key iv block ∙ rw (← p.same_chunksize) (length-take chunk s.rest) in
      (
        c',
        later,
        e',
        got,
        kept,
        rw (split, read)
            (receive-reads C fuel sha256 _ c (C.encrypt_block key iv block) later full
              ∙ ap (λ x. receive C fuel sha256 x later) handled),
      )

  Arrived-via :
      (sha256 : Bytes → Bytes) (c c' : ClientSession) (key iv content content' : Bytes)
      (result result' : Option (Next × ClientSession))
      → Same c c'
      → content' ≡ content
      → result ≡ result'
      → Arrived sha256 c' key iv content' result'
      → Arrived sha256 c key iv content result
  Arrived-via sha256 c c' key iv content content' result result' (r, path, h) e f
        (c2, got, (r2, path2, h2), g) =
      (c2, rw (← e) got, (r2 ∙ r, path2 ∙ path, h2 ∙ h), f ∙ rw (← e) g)

  pub receive_loop :
      (fuel sends : ℕ) (sha256 : Bytes → Bytes) (s : ServerSession) (c : ClientSession)
      (key iv content sent : Bytes)
      → Paired s c key iv content
      → send C sends s ≡ some sent
      → length s.rest < fuel
      → Arrived sha256 c key iv
          (content ++ s.rest)
          (receive C fuel sha256 (read_file_chunk c.requested c.bytes_written, c) sent)
  unfolding send
  receive_loop zero sends sha256 s c key iv content sent p e enough = ground arith
  receive_loop (suc fuel) zero sha256 s c key iv content sent p e enough = cc
  receive_loop (suc fuel) (suc sends) sha256 s c key iv content sent p e enough =
      let chunk = s.requested.chunksize in
      let block = take chunk s.rest in
      let s' = (write_file C s).1 in
      let (_, rest, good, same, next) = write_file-Ready C s key iv p.good p.server in
      let (c', later, e', got, kept, one) =
        receive_block fuel sends sha256 s c key iv content sent p e in
      let left : length s'.rest ≡ length s.rest - chunk = rw rest (length-drop chunk s.rest) in
      let so_far : length (content ++ block) ≡ length content + min chunk (length s.rest) =
        omega (arith, length-append content block, length-take chunk s.rest) in
      let size : c'.requested.file_info.size ≡ length content + length s.rest = rw kept.0 p.whole in
      elim (Bool-cases (ltb chunk (length s.rest))) [
        | inl further ↦
            let p' : Paired s' c' key iv (content ++ block) = record {
              good = rw good (ground arith);
              server = next;
              client = got;
              same_chunksize = rw (same, kept.0) p.same_chunksize;
              some_chunksize = rw kept.0 p.some_chunksize;
              more = ground (arith, left);
              whole = ground (arith, left, so_far, size);
              bounded = ground (arith, left, so_far, p.bounded);
            } in
            Arrived-via sha256 c c' key iv (content ++ s.rest) ((content ++ block) ++ s'.rest) _ _
              kept
              (append_assoc content block s'.rest
                ∙ ap (λ z. content ++ z) (rw rest (take-append-drop chunk s.rest)))
              (one
                ∙ ap (λ x. receive C fuel sha256 x later)
                    (after_more sha256 c' _ (ground (arith, so_far, size, p.bounded))))
              (receive_loop fuel sends sha256 s' c' key iv (content ++ block) later p' e'
                (ground (arith, left, p.some_chunksize, p.same_chunksize, p.more)))
        | inr last ↦
            let all : block ≡ s.rest = take_all chunk s.rest (ground arith) in
            (
              c',
              rw (← all) got,
              kept,
              one
                  ∙ after_last fuel sha256 c' _ later (ground (arith, p.more))
                      (ground (arith, so_far, size))
                  ∙ rw all refl,
            )
      ]
