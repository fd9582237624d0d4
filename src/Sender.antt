-- ===== src/Sender.antt =====
-- src/file_sender.cpp: the announcement of a host, sent again and again to the multicast address. The
-- socket and the timer of Boost.Asio tell by an error code how their operation ended. The buffer of
-- an `async_send_to` refers to a local string that is gone when the function returns, so a test says
-- of each write whether the socket takes the datagram within the call.
pub mod Announcing
use mfsync.Common.{
  ℕ, Bool, true, false, Option, none, some, List, [], ◌∷◌, Bytes, Outcome, ok, throws, undefined,
  ◌>>=◌,
}
use mfsync.Json.{JsonLib}
use mfsync.Protocol.{create_host_announcement_message}

-- What the sender waits for: the end of a write, the timer that leads to the next one, the timer that
-- leads back to `init`, or nothing any more.
pub data Phase : Type 0 where
  sending : Phase
  resting : Phase
  retrying : Phase
  stopped : Phase

-- What a callback does: the datagram that the socket takes, and what is waited for then.
pub record Sent : Type 0 where
  pub datagram : Option Bytes
  pub phase : Phase

-- `async_send_to` with a buffer over a local string. A socket that takes the datagram only after the
-- function has returned reads a string that is gone.
unfoldable pub send_to : Bool → Bytes → Outcome Sent
send_to true m = ok (record { datagram = some m; phase = sending })
send_to false m = undefined

-- `handle_send_to`; the test is whether there was an error.
unfoldable pub handle_send_to : Bool → Sent
handle_send_to false = record { datagram = none; phase = resting }
handle_send_to true = record { datagram = none; phase = stopped }

unfoldable pub send_or_retry : Bool → Bytes → Outcome Sent
unfolding send_to
send_or_retry taken [] = ok (record { datagram = none; phase = retrying })
send_or_retry taken (c ∷ cs) = send_to taken (c ∷ cs)

abbrev pub with_datagram : Option Bytes → List Bytes → List Bytes
with_datagram none ms = ms
with_datagram (some m) ms = m ∷ ms

module _ (J : JsonLib) (public_key : Bytes) (port : ℕ) where
  unfoldable pub init : Bool → Outcome Sent
  unfolding create_host_announcement_message send_or_retry
  init taken = do m ← create_host_announcement_message J public_key port; send_or_retry taken m

  -- A message that is empty is sent here, unlike in `init`.
  unfoldable pub handle_timeout : Bool → Bool → Outcome Sent
  unfolding create_host_announcement_message send_to
  handle_timeout false taken = do
    m ← create_host_announcement_message J public_key port
    send_to taken m
  handle_timeout true taken = ok (record { datagram = none; phase = stopped })

  -- The callback of what is waited for, by whether there was an error and whether the socket takes at
  -- once what the callback hands to it. The timer of `init` does not ask for the error.
  unfoldable pub step : Phase → Bool → Bool → Outcome Sent
  unfolding handle_send_to handle_timeout init
  step sending error taken = ok (handle_send_to error)
  step resting error taken = handle_timeout error taken
  step retrying error taken = init taken
  step stopped error taken = ok (record { datagram = none; phase = stopped })

  -- The datagrams that a run of callbacks sends, in a phase and from the start; for each callback the
  -- two tests of `step`.
  unfoldable pub run_from : Phase → List (Bool × Bool) → Outcome (List Bytes)
  unfolding step
  run_from p [] = ok []
  run_from p ((error, taken) ∷ es) = do
    s ← step p error taken
    rest ← run_from s.phase es
    ok (with_datagram s.datagram rest)

  unfoldable pub run : Bool → List (Bool × Bool) → Outcome (List Bytes)
  unfolding init run_from
  run taken es = do s ← init taken; rest ← run_from s.phase es; ok (with_datagram s.datagram rest)
