-- ===== src/Tests/Services.antt =====
-- The sender, the server and the key file of a host, and a server that denies a client.
use mfsync.Common.{
  ℕ, suc, ◌≡◌, ◌⊎◌, inl, inr, refl, sym, Bool, true, false, Option, none, some, List, [], ◌∷◌,
  Bytes, codes, arith, ok, throws, crypto_error, undefined, ap, ◌++◌, drop, take-append,
  drop-append, length, ◌≤◌, take, replicate, Outcome,
}
use mathlib.Core.Path.{subst}
use mfsync.Json.Sample.{sample, sample-IsLawful, sample_runs, encode, text}
use mfsync.Disk.{Entries, nil, entry, directory, regular}
use mfsync.Crypto.{CryptoHandler, derive, get_public_key, is_allowed}
use mfsync.Crypto.Sample
use mfsync.Crypto.Exchange.{get_public_key-derive}
use mfsync.Crypto.KeyFile.{KeyPair, KeyLib, IsLawful, init}
use mfsync.Crypto.KeyFile.Reloading.{init_twice}
use mfsync.Protocol.{
  wrap_with_header, announcement_json, denied_json, handshake_json, version, get_message_type, file,
}
use mfsync.Protocol.Ends.{Framed, get_message_type-RequestText}
use mfsync.Protocol.Framing.{IsClean}
use mfsync.Fetcher.{Fetcher, handle_receive_from, max_length}
use mfsync.Sender
use mfsync.Sender.{run, step}
use mfsync.Sender.Announcing.{run-replicate, announcement_heard}
use mfsync.Server
use mfsync.Server.{Server, Event, failed, connected, stops, start, serve, created, enable_tls}
use mfsync.Server.Accepting.{serve-run, request_over_tls}
use mfsync.ServerSession
use mfsync.ServerSession.{accepted}
use mfsync.ClientSession
use mfsync.Dialogue.{round}
use mfsync.Dialogue.Greeting.{connecting_to, greeted, answered}
use mfsync.Dialogue.Denying.{denied_round}
use mfsync.Tests.Downloads
use mfsync.Tests.Downloads.{
  host, wanted, client_before, server_shared, greeting_text, greeting_text-IsClean, request_text,
  plain_answer, secret, requested,
}

abbrev announcement : Bytes
unfolding sample_runs
announcement = encode (announcement_json sample (codes "ab") 8000) []

announcement-IsClean : IsClean announcement
unfolding mfsync.Common.find announcement
announcement-IsClean = refl

announcement-short : length (wrap_with_header announcement) ≤ max_length
unfolding wrap_with_header announcement
announcement-short = omega arith

abbrev callbacks : List (Bool × Bool)
callbacks = (false, true) ∷ (false, true) ∷ (false, true) ∷ (true, true) ∷ (false, true) ∷ []

run-replicate_example :
    (run sample (codes "ab") 8000 true callbacks ≡ ok (replicate 2 (wrap_with_header announcement)))
    × (run sample (codes "ab") 8000 false callbacks ≡ undefined)
    × (run sample
          (codes "ab")
          8000
          true
          ((false, true) ∷ (false, true) ∷ (false, true) ∷ (false, false) ∷ callbacks)
        ≡ undefined)
unfolding announcement encode
run-replicate_example =
    run-replicate sample (codes "ab") announcement 8000 callbacks callbacks 1 true
      (refl, (refl, (refl, (refl, (refl, tt))))) refl

abbrev fetcher : Fetcher
fetcher = record { crypto = host 1; list_host_infos = false; host_infos = [] }

abbrev again : Sender.Sent
again = record { datagram = some (wrap_with_header announcement); phase = Sender.sending }

sends : step sample (codes "ab") 8000 Sender.resting false true ≡ ok again
unfolding step Sender.send_to announcement encode mfsync.Protocol.create_host_announcement_message
sends = refl

dumped : sample.dump (announcement_json sample (codes "ab") 8000) ≡ ok announcement
unfolding announcement encode
dumped = refl

anyone : is_allowed (host 1) (codes "ab") ≡ true
unfolding is_allowed
anyone = refl

announcement_heard_example :
    handle_receive_from sample fetcher
      (some (take max_length (wrap_with_header announcement), codes "::1"))
    ≡ ok (record {
      printed = none;
      session =
          some
            (record { public_key = codes "ab"; version = version; ip = codes "::1"; port = 8000 });
      receives = true;
      fetcher = fetcher;
    })
announcement_heard_example =
    announcement_heard sample sample-IsLawful (codes "ab") (codes "::1") announcement 8000
      Sender.resting true again (wrap_with_header announcement) fetcher (omega arith) dumped
      announcement-IsClean announcement-short sends refl refl anyone

abbrev events : List Event
events = connected false ∷ connected true ∷ stops ∷ connected false ∷ []

serve-run_example :
    serve (Server.run (created 8000 (host 2)) true) events
    ≡ start (created 8000 (host 2)) false ∷ start (created 8000 (host 2)) true ∷ []
serve-run_example = serve-run (created 8000 (host 2)) true events refl

abbrev over_tls : Server
unfolding enable_tls
over_tls = enable_tls (created 8000 (host 2))

is_request : get_message_type sample (wrap_with_header request_text) ≡ ok file
is_request =
    get_message_type-RequestText sample sample-IsLawful Sample.sample Sample.sample-IsLawful secret
      1 (2 ∷ []) request_text requested Downloads.asked

request_over_tls_example :
    ServerSession.step sample Sample.sample
      (start over_tls false)
      server_shared
      (ServerSession.arrived (wrap_with_header request_text))
    ≡ undefined
unfolding enable_tls
request_over_tls_example =
    request_over_tls sample Sample.sample over_tls server_shared (wrap_with_header request_text) []
      (text []) refl (inl is_request)

abbrev wary : CryptoHandler
wary = record (host 2) { allowed_keys = (99 ∷ []) ∷ [] }

abbrev derived : CryptoHandler
derived = derive Sample.sample (host 1) (3 ∷ []) (9 ∷ [])

abbrev denial : Bytes
unfolding sample_runs
denial = encode (denied_json sample) []

denial-IsClean : IsClean denial
unfolding mfsync.Common.find denial
denial-IsClean = refl

not_allowed : is_allowed wary (get_public_key Sample.sample derived) ≡ false
unfolding is_allowed get_public_key mfsync.Common.str_eq derive mfsync.Dict.lookup
not_allowed = refl

greets :
    Framed sample
      (handshake_json sample (get_public_key Sample.sample derived) (9 ∷ []))
      greeting_text
unfolding get_public_key
greets =
    subst (λ k. Framed sample (handshake_json sample k (9 ∷ [])) greeting_text)
      (sym (get_public_key-derive Sample.sample (host 1) (3 ∷ []) (9 ∷ []))) Downloads.greeting

denies : sample.dump (denied_json sample) ≡ ok denial
unfolding denial encode
denies = refl

denied_round_example :
    let client = greeted (connecting_to (host 1) (3 ∷ []) wanted) derived in
    (round sample Sample.sample
        (λ t. [])
        (record {
          client = connecting_to (host 1) (3 ∷ []) wanted;
          server = accepted 8000 wary;
          reply = none;
        })
        client_before
        server_shared
        (0 ∷ [])
        (ClientSession.connected (8 ∷ []))
      ≡ ok (
        record {
          client = client;
          server = answered (accepted 8000 wary) (record wary { trusted_keys = [] });
          reply = some (wrap_with_header denial);
        },
        client_before,
      ))
    × (ClientSession.step sample Sample.sample
          (λ t. [])
          client
          client_before
          (ClientSession.arrived (wrap_with_header denial))
        ≡ ok (record {
          sent = none;
          connection = record client { phase = ClientSession.ended };
          shared = client_before;
        }))
denied_round_example =
    let answer = Downloads.answered 0 Downloads.answers-IsClean.0 in
    denied_round sample sample-IsLawful Sample.sample Sample.sample-IsLawful (λ t. []) (host 1) wary
      (3 ∷ []) (8 ∷ []) answer.plain greeting_text denial (0 ∷ []) 8000 wanted client_before
      client_before server_shared not_allowed greets (denies, denial-IsClean) answer.plain_text

-- A key file with the length of the private key in front.
abbrev load : Bytes → Outcome KeyPair
load [] = throws crypto_error
load (n ∷ t) = ok (record { private_key = take n t; public_key = drop n t })

abbrev key_lib : KeyLib
key_lib = record {
  load = load;
  save = λ k. length k.private_key ∷ (k.private_key ++ k.public_key);
  validate = λ k. true;
}

key_lib-IsLawful : IsLawful key_lib
key_lib-IsLawful = record {
  load-save =
      λ k. rw (take-append k.private_key k.public_key, drop-append k.private_key k.public_key) refl;
}

abbrev home : Entries
home = entry (codes "h") (directory nil) nil

abbrev home_after : Entries
home_after =
    entry (codes "h") (directory (entry (codes "key") (regular true (1 ∷ 5 ∷ 6 ∷ [])) nil)) nil

abbrev pair : ℕ → KeyPair
pair n = record { private_key = n ∷ []; public_key = suc n ∷ [] }

initialised :
    init key_lib (host 0) home (codes "/h/key") true (pair 5)
    ≡ (ok true, record (host 0) { private_key = 5 ∷ []; public_key = 6 ∷ [] }, home_after)
unfolding init mfsync.Disk.node_at mfsync.Disk.put_at
initialised = refl

init_twice_example :
    init key_lib (host 1) home_after (codes "/h/key") true (pair 7)
    ≡ (ok true, record (host 1) { private_key = 5 ∷ []; public_key = 6 ∷ [] }, home_after)
init_twice_example =
    init_twice key_lib (host 0) (host 1)
      (record (host 0) { private_key = 5 ∷ []; public_key = 6 ∷ [] }) home home_after
      (codes "/h/key") true true (pair 5) (pair 7) key_lib-IsLawful refl initialised
