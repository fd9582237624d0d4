-- ===== src/Crypto/KeyFile.antt =====
-- The key pair of src/crypto.cpp on the disk: `key_pair::create`, `load_from_file` and `save_to_file`.
-- X25519 and its file format come from Crypto++, which is not part of the repository.
pub mod Reloading
use mfsync.Common.{
  ◌≡◌, Bool, true, Option, none, some, Bytes, Outcome, ok, throws, undefined, crypto_error,
  if◌then◌else◌,
}
use mfsync.Disk.{Node, Entries, regular, node_at, put_at}
use mfsync.Crypto.{CryptoHandler}

-- `key_pair`, without the wrapper of the library that its two members are taken from.
pub record KeyPair : Type 0 where
  pub private_key : Bytes
  pub public_key : Bytes

-- Crypto++: `Load` of what a file holds, which may throw, `Save`, and `Validate` at level 3.
pub record KeyLib : Type 0 where
  pub load : Bytes → Outcome KeyPair
  pub save : KeyPair → Bytes
  pub validate : KeyPair → Bool

-- What is saved is loaded again.
pub record IsLawful (K : KeyLib) : Type 0 where
  pub load-save : (k : KeyPair) → K.load (K.save k) ≡ ok k

module _ (K : KeyLib) where
  -- A key that does not validate counts as none.
  accept : Outcome KeyPair → Outcome (Option KeyPair)
  accept (ok k) = ok (if K.validate k then some k else none)
  accept (throws e) = throws e
  accept undefined = undefined

  -- `FileSource` throws where there is no file that can be read.
  load_node : Option Node → Outcome (Option KeyPair)
  unfolding accept
  load_node none = ok none
  load_node (some (regular true content)) = accept (K.load content)
  load_node (some _) = throws crypto_error

  unfoldable pub load_from_file : Entries → Bytes → Outcome (Option KeyPair)
  unfolding load_node
  load_from_file root path = load_node (node_at root path)

  -- `FileSink` replaces what the file holds, and throws where it cannot be opened.
  save_after : Entries → Option Entries → Outcome (Unit {0}) × Entries
  save_after root none = (throws crypto_error, root)
  save_after root (some root') = (ok tt, root')

  unfoldable pub save_to_file : Entries → Bytes → Bool → KeyPair → Outcome (Unit {0}) × Entries
  unfolding save_after
  save_to_file root path can_open key =
      if can_open
      then save_after root (put_at root path (regular true (K.save key)))
      else (throws crypto_error, root)

  saved : KeyPair → Outcome (Unit {0}) × Entries → Outcome KeyPair × Entries
  saved key (ok u, root) = (ok key, root)
  saved key (throws e, root) = (throws e, root)
  saved key (undefined, root) = (undefined, root)

  create_after :
      Entries → Bytes → Bool → KeyPair → Outcome (Option KeyPair) → Outcome KeyPair × Entries
  unfolding saved save_to_file
  create_after root path can_open fresh (ok (some loaded_key)) = (ok loaded_key, root)
  create_after root path can_open fresh (ok none) =
      saved fresh (save_to_file root path can_open fresh)
  create_after root path can_open fresh (throws e) = (throws e, root)
  create_after root path can_open fresh undefined = (undefined, root)

  -- `key_pair::create(path)`, with the pair that the generator would give and whether the file can be
  -- opened for writing.
  unfoldable pub create : Entries → Bytes → Bool → KeyPair → Outcome KeyPair × Entries
  unfolding create_after load_from_file
  create root path can_open fresh = create_after root path can_open fresh (load_from_file root path)

  init_after : CryptoHandler → Outcome KeyPair × Entries → Outcome Bool × CryptoHandler × Entries
  init_after h (ok k, root) =
      (ok true, record h { private_key = k.private_key; public_key = k.public_key }, root)
  init_after h (throws e, root) = (throws e, h, root)
  init_after h (undefined, root) = (undefined, h, root)

  -- `crypto_handler::init`
  unfoldable pub init :
      CryptoHandler → Entries → Bytes → Bool → KeyPair → Outcome Bool × CryptoHandler × Entries
  unfolding init_after create
  init h root path can_open fresh = init_after h (create root path can_open fresh)
