-- ===== src/Sender/Announcing.antt =====
-- The datagrams of src/file_sender.cpp, and how src/file_fetcher.cpp takes them.
use mfsync.Common.{
  zero, ◌++◌, undefined, ℕ, suc, ◌/◌, ◌^◌, ◌<◌, ◌≤◌, ◌≡◌, refl, Bool, true, false, not, none, some,
  List, [], ◌∷◌, Bytes, arith, length, take, take-all, take_while, replicate, ok,
}
use mfsync.Json.{JsonLib, IsLawful}
use mfsync.Crypto.{is_allowed}
use mfsync.Protocol.{wrap_with_header, create_host_announcement_message, announcement_json, version}
use mfsync.Protocol.Framing.{IsClean}
use mfsync.Protocol.Records.{host_information-roundtrip}
use mfsync.Fetcher.{max_length, Fetcher, handle_receive_from, received_host}
use mfsync.Sender.{
  Phase, sending, resting, retrying, stopped, Sent, init, handle_timeout, step, run, run_from,
  handle_send_to, send_or_retry, send_to,
}

-- How many callbacks succeed before the first one that reports an error.
abbrev pub succeeded : List (Bool × Bool) → ℕ
succeeded es = length (take_while (λ e. not e.0) es)

-- The socket takes each datagram within the call.
abbrev pub AllTaken : List (Bool × Bool) → Type 0
AllTaken [] = Unit
AllTaken (e ∷ es) = (e.1 ≡ true) × AllTaken es

-- So many writes that succeed, each with the timer that runs out behind it.
abbrev pub rounds : ℕ → List (Bool × Bool)
rounds zero = []
rounds (suc n) = (false, true) ∷ (false, true) ∷ rounds n

module _ (J : JsonLib) (public_key t : Bytes) (port : ℕ) where
  run_from-rounds :
      (n : ℕ) (taken : Bool) (later : List (Bool × Bool))
      → create_host_announcement_message J public_key port ≡ ok (wrap_with_header t)
      → run_from J public_key port sending (rounds n ++ ((false, taken) ∷ (false, false) ∷ later))
        ≡ undefined
  unfolding run_from step handle_send_to handle_timeout send_to
  run_from-rounds zero taken later m = rw m refl
  run_from-rounds (suc n) taken later m = rw (m, run_from-rounds n taken later m) refl

  run_from-replicate :
      (es : List (Bool × Bool))
      → AllTaken es
      → create_host_announcement_message J public_key port ≡ ok (wrap_with_header t)
      → (run_from J public_key port stopped es ≡ ok [])
        × (run_from J public_key port sending es
            ≡ ok (replicate (succeeded es / 2) (wrap_with_header t)))
        × (run_from J public_key port resting es
            ≡ ok (replicate (suc (succeeded es) / 2) (wrap_with_header t)))
  unfolding run_from step handle_send_to handle_timeout send_to
  run_from-replicate [] all m = (refl, refl, refl)
  run_from-replicate ((true, taken) ∷ es) all m =
      let over = (run_from-replicate es all.1 m).0 in (rw over, rw over, rw over)
  run_from-replicate ((false, taken) ∷ es) all m =
      let (over, sends, rests) = run_from-replicate es all.1 m in
      let two : suc (suc (succeeded es)) / 2 ≡ suc (succeeded es / 2) = omega arith in
      (rw over, rw rests, rw (m, all.0, sends, two))

  -- If its announcement is dumped, a host announces itself at the start, and again after each write
  -- that succeeded and timer that ran out, until an error is reported: that many times, and always by
  -- the same datagram, as long as the socket takes each datagram within the call that hands it over.
  -- If the socket takes a datagram later, the first one or one behind any number of such rounds, what
  -- the host sends is undefined.
  pub run-replicate :
      (es later : List (Bool × Bool)) (n : ℕ) (taken : Bool)
      → AllTaken es
      → J.dump (announcement_json J public_key port) ≡ ok t
      → (run J public_key port true es
          ≡ ok (replicate (suc (succeeded es / 2)) (wrap_with_header t)))
        × (run J public_key port false later ≡ undefined)
        × (run J public_key port true (rounds n ++ ((false, taken) ∷ (false, false) ∷ later))
            ≡ undefined)
  unfolding run init send_or_retry create_host_announcement_message wrap_with_header send_to
  run-replicate es later n taken all d =
      let m : create_host_announcement_message J public_key port ≡ ok (wrap_with_header t) = rw d in
      (rw (d, (run_from-replicate es all m).1), rw d, rw (d, run_from-rounds n taken later m))

module _ (J : JsonLib) where
  datagram_known :
      (public_key t : Bytes) (port : ℕ) (p : Phase) (taken : Bool) (s : Sent) (m : Bytes)
      → J.dump (announcement_json J public_key port) ≡ ok t
      → step J public_key port p false taken ≡ ok s
      → s.datagram ≡ some m
      → m ≡ wrap_with_header t
  unfolding step init handle_timeout handle_send_to create_host_announcement_message send_or_retry
      wrap_with_header send_to
  datagram_known public_key t port sending taken s m d e sent = cc
  datagram_known public_key t port resting true s m d e sent = ground (arith, d)
  datagram_known public_key t port resting false s m d e sent = ground (arith, d)
  datagram_known public_key t port retrying true s m d e sent = ground (arith, d)
  datagram_known public_key t port retrying false s m d e sent = ground (arith, d)
  datagram_known public_key t port stopped taken s m d e sent = cc

module _ (J : JsonLib) (L : IsLawful J) where
  -- If the announcement of a host, with a port of 16 bits, is dumped as a text with no end mark whose
  -- message fits the buffer of a fetcher, then each datagram that
  -- the socket takes before the string under it is gone makes a fetcher that
  -- allows its key and does not list hosts start a session for the key and the port that were
  -- announced, at the address that the datagram came from, and wait for the next.
  pub announcement_heard :
      (public_key address t : Bytes) (port : ℕ) (p : Phase) (taken : Bool) (s : Sent) (m : Bytes)
      (f : Fetcher)
      → port < 2 ^ 16
      → J.dump (announcement_json J public_key port) ≡ ok t
      → IsClean t
      → length (wrap_with_header t) ≤ max_length
      → step J public_key port p false taken ≡ ok s
      → s.datagram ≡ some m
      → f.list_host_infos ≡ false
      → is_allowed f.crypto public_key ≡ true
      → handle_receive_from J f (some (take max_length m, address))
        ≡ ok (record {
          printed = none;
          session =
              some
                (record { public_key = public_key; version = version; ip = address; port = port });
          receives = true;
          fetcher = f;
        })
  unfolding handle_receive_from received_host
  announcement_heard public_key address t port p taken s m f small d clean short stepped sent lists
        allowed =
      let same : m ≡ wrap_with_header t =
        datagram_known J public_key t port p taken s m d stepped sent in
      let read = (host_information-roundtrip J L public_key address t port small d clean).1 in
      rw (same, take-all max_length (wrap_with_header t) short, read, lists, allowed)
