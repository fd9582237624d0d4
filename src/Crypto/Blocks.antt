-- ===== src/Crypto/Blocks.antt =====
-- The blocks of a file (src/crypto.cpp): every block goes under the key of the peer and one nonce,
-- the one of the first block in the process.
use mfsync.Common.{◌≡◌, refl, Option, none, some, Bytes, str_eq_refl, ◌∙◌}
use mfsync.Crypto.{
  CryptoLib, CryptoHandler, KeyCountPair, get_nonce_from_count, get_count, block_with, static_nonce,
}
use mfsync.Crypto.Keys.{entry, used, entry-get_count}

-- The nonce of the next block.
abbrev pub next_nonce : Option Bytes → KeyCountPair → Bytes
next_nonce none kc = get_nonce_from_count kc.count
next_nonce (some iv) kc = iv

-- The next block goes under this key and this nonce.
pub record Ready (static_iv : Option Bytes) (h : CryptoHandler) (k key iv : Bytes) : Type 0 where
  pub pair : KeyCountPair
  pub trusted : entry h k ≡ some pair
  pub secret : pair.key ≡ key
  pub nonce : next_nonce static_iv pair ≡ iv

module _ (C : CryptoLib) where
  -- A block is turned under the key and the nonce, and so will be the next one.
  pub block_with-Ready :
      (turn : Bytes → Bytes → Bytes → Bytes) (static_iv : Option Bytes) (h : CryptoHandler)
      (k text key iv : Bytes)
      → Ready static_iv h k key iv
      → let r = block_with C turn static_iv h k text in
        (r.out ≡ turn key iv text) × Ready r.static_iv r.handler k key iv
  unfolding block_with static_nonce get_count
  block_with-Ready turn (some v) h k text key iv r =
      (rw (r.trusted, block_with, r.secret, r.nonce) refl, rw (r.trusted, block_with) r)
  block_with-Ready turn none h k text key iv r = (
    rw (r.trusted, block_with, get_count, r.trusted, r.secret, r.nonce) refl,
    rw (r.trusted, block_with)
        (record {
          pair = used r.pair;
          trusted = entry-get_count h k k r.pair r.trusted ∙ rw (str_eq_refl k) refl;
          secret = r.secret;
          nonce = rw (r.trusted, get_count) r.nonce;
        }),
  )
