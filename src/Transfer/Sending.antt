-- ===== src/Transfer/Sending.antt =====
-- What `write_file` of src/server_session.cpp does with a key that the session trusts.
use mfsync.Common.{
  ℕ, suc, zero, ◌+◌, ◌<◌, ◌≤◌, ◌≡◌, refl, true, false, not, Option, some, [], arith,
}
use mfsync.Common.{
  ◌++◌, Bytes, if◌then◌else◌, length, take, drop, ltb, Bool-cases, inl, inr, length-drop,
}
use mfsync.Crypto.{CryptoLib, encrypt_file_to_buf}
use mfsync.Crypto.Blocks.{Ready, block_with-Ready}
use mfsync.Transfer.{ServerSession, write_file, send, sent_with}

module _ (C : CryptoLib) where
  -- A good stream gives the next block, encrypted, and stays good where the block was full.
  pub write_file-Ready :
      (s : ServerSession) (key iv : Bytes)
      → s.good ≡ true
      → Ready s.static_iv s.derived s.public_key key iv
      → let (block, s') = write_file C s in
        (block ≡ some (C.encrypt_block key iv (take s.requested.chunksize s.rest)))
        × (s'.rest ≡ drop s.requested.chunksize s.rest)
        × (s'.good ≡ not (ltb (length s.rest) s.requested.chunksize))
        × (s'.requested ≡ s.requested)
        × Ready s'.static_iv s'.derived s'.public_key key iv
  unfolding write_file encrypt_file_to_buf
  write_file-Ready s key iv g ready =
      let (out, next) =
        block_with-Ready C C.encrypt_block s.static_iv s.derived s.public_key
          (take s.requested.chunksize s.rest) key iv ready in
      (
        simp (g, out) refl,
        simp (g, ready.trusted) refl,
        simp (g, ready.trusted) refl,
        simp g refl,
        simp g next,
      )

  send_failed : (fuel : ℕ) (s : ServerSession) → s.good ≡ false → send C (suc fuel) s ≡ some []
  unfolding send write_file sent_with
  send_failed fuel s g = simp g refl

  sent_with-some :
      (b o : Option Bytes) (x : Bytes)
      → b ≡ some x
      → (more : Bytes) × (o ≡ some more)
      → (sent : Bytes) × (sent_with C b o ≡ some sent)
  unfolding sent_with
  sent_with-some b o x e (more, f) = (x ++ more, rw (e, f) refl)

  send_bounded :
      (fuel : ℕ) (s : ServerSession) (key iv : Bytes)
      → 0 < s.requested.chunksize
      → Ready s.static_iv s.derived s.public_key key iv
      → (if s.good then length s.rest + 2 else 1) ≤ fuel
      → (sent : Bytes) × (send C fuel s ≡ some sent)
  unfolding send
  send_bounded zero s key iv c ready enough = ground arith
  send_bounded (suc fuel) s key iv c ready enough = elim (Bool-cases s.good) [
    | inr failed ↦ ([], send_failed fuel s failed)
    | inl good ↦
        let s' = (write_file C s).1 in
        let (block, rest, good', same, next) = write_file-Ready s key iv good ready in
        sent_with-some _ _ _ block (
          send_bounded fuel s' key iv (rw same c) next
            (rw (good', rest) (ground (arith, length-drop s.requested.chunksize s.rest))))
  ]

  -- If the session trusts the client's key and the client asked for blocks of at least one byte, the
  -- server's stream comes to its end: two calls of `write_file` more than there are bytes left are
  -- enough.
  pub send-terminates :
      (fuel : ℕ) (s : ServerSession) (key iv : Bytes)
      → 0 < s.requested.chunksize
      → Ready s.static_iv s.derived s.public_key key iv
      → length s.rest + 2 ≤ fuel
      → (sent : Bytes) × (send C fuel s ≡ some sent)
  send-terminates fuel s key iv c ready enough = send_bounded fuel s key iv c ready (ground arith)
