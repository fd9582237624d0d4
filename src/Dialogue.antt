-- ===== src/Dialogue.antt =====
-- A session of src/client_session.cpp and a connection of src/server_session.cpp, joined: what one
-- writes arrives at the other.
pub mod Greeting
pub mod Asking
pub mod Starting
pub mod Fetching
pub mod Downloads
pub mod Denying
use mfsync.Common.{ℕ, ◌++◌, Bool, false, Option, none, some, Bytes, Outcome, ok, ◌>>=◌, value, []}
use mfsync.Info.{RequestedFile}
use mfsync.Json.{JsonLib}
use mfsync.Crypto.{CryptoLib, CryptoHandler}
use mfsync.ClientSession
use mfsync.ServerSession

-- The two ends, and the message that has last been written to the client.
pub record Dialogue : Type 0 where
  pub client : ClientSession.Connection
  pub server : ServerSession.Connection
  pub reply : Option Bytes

module _ (J : JsonLib) (C : CryptoLib) (sha256 : Bytes → Bytes) where
  -- One round: a callback of the client writes a message, both ends learn that their writes are done,
  -- and the message arrives at the server. A callback that writes nothing ends the round.
  -- The server's stream buffer holds `tail` behind the message: `commit`, which is called once more
  -- after `async_read_until`, can append bytes that nobody has written.
  unfoldable pub round :
      Dialogue
      → ClientSession.Shared
      → ServerSession.Shared
      → Bytes
      → ClientSession.Event
      → Outcome (Dialogue × ClientSession.Shared)
  unfolding ClientSession.step ServerSession.step
  round d cw sw tail e = do
    asked ← ClientSession.step J C sha256 d.client cw e
    message ← value asked.sent
    waiting ← ClientSession.step J C sha256 asked.connection asked.shared ClientSession.written
    ready ← ServerSession.step J C d.server sw ServerSession.written
    answered ← ServerSession.step J C ready.connection sw (ServerSession.arrived (message ++ tail))
    ok (
      record { client = waiting.connection; server = answered.connection; reply = answered.sent },
      waiting.shared,
    )

  -- The round in which the last reply arrives at the client.
  unfoldable pub next_round :
      Dialogue
      → ClientSession.Shared
      → ServerSession.Shared
      → Bytes
      → Outcome (Dialogue × ClientSession.Shared)
  unfolding round
  next_round d cw sw tail = do m ← value d.reply; round d cw sw tail (ClientSession.arrived m)

  -- Three rounds, with what is shared in each and what stands behind the first two messages to the
  -- server. Of the third the server reads only the message.
  unfoldable pub fetch :
      Dialogue
      → ClientSession.Shared × ServerSession.Shared
      → ClientSession.Shared × ServerSession.Shared
      → ClientSession.Shared × ServerSession.Shared
      → Bytes
      → Bytes × Bytes
      → Outcome (Dialogue × ClientSession.Shared)
  unfolding next_round
  fetch d w₁ w₂ w₃ random tails = do
    (d₁, _) ← round d w₁.0 w₁.1 tails.0 (ClientSession.connected random)
    (d₂, _) ← next_round d₁ w₂.0 w₂.1 tails.1
    next_round d₂ w₃.0 w₃.1 []
