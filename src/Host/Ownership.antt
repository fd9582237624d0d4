-- ===== src/Host/Ownership.antt =====
-- The live locks of one host and the streams that its sessions hold.
use mfsync.Common.{ℕ, ◌≤◌, ◌≡◌, Option, none, some, List, get_elem?}
use mfsync.Info.{FileInformation}
use mfsync.FileHandler.{Lock}
use mfsync.FileHandler.Operations.{OfstreamWrapper}
use mfsync.FileHandler.Invariant.{Exclusive}
use mfsync.FileHandler.Tokens.{lock_of, Distinct}
use mfsync.ClientSession
use mfsync.ClientSession.{Connection}
use mfsync.ClientSession.Effects.{Matches}

abbrev pub token_of : Option OfstreamWrapper → Option ℕ
token_of none = none
token_of (some o) = o.write_token

-- The token of the lock that a session holds.
abbrev pub token : Connection → Option ℕ
token s = token_of (ClientSession.held s.phase)

-- A stream has a live lock on the file of its session.
abbrev pub HasLock : List Lock → FileInformation → Option OfstreamWrapper → Type 0
HasLock ls f none = Unit {0}
HasLock ls f (some o) = (t : ℕ) × (o.write_token ≡ some t) × (lock_of t ls ≡ some f)

abbrev pub Backed : List Lock → Connection → Type 0
Backed ls s =
    Matches s.requested s.phase × HasLock ls s.requested.file_info (ClientSession.held s.phase)

-- The live locks are the ones of the sessions, one for each stream, and no two for one file. A token
-- from `n` on is new.
pub record Owned (ls : List Lock) (n : ℕ) (ds : List Connection) : Type 0 where
  pub exclusive : Exclusive ls
  pub distinct : Distinct ls
  pub fresh : (t : ℕ) → n ≤ t → lock_of t ls ≡ none
  pub backed : (i : ℕ) (s : Connection) → get_elem? ds i ≡ some s → Backed ls s
  pub apart :
      (i j t : ℕ) (s u : Connection)
      → get_elem? ds i ≡ some s
      → get_elem? ds j ≡ some u
      → token s ≡ some t
      → token u ≡ some t
      → i ≡ j
  pub kept :
      (t : ℕ) (f : FileInformation)
      → lock_of t ls ≡ some f
      → (i : ℕ) × (s : Connection) × (get_elem? ds i ≡ some s) × (token s ≡ some t)
