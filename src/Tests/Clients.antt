-- ===== src/Tests/Clients.antt =====
-- A session of a client, from the queue to the first bytes that it waits for, and one that is broken
-- off.
use mathlib.Core.Path.{subst}
use mfsync.Common.{
  ℕ, ◌≡◌, refl, sym, ◌∙◌, true, false, Option, none, some, List, [], ◌∷◌, Bytes, codes, arith, ok,
  Outcome,
}
use mfsync.Info.{AvailableFile}
use mfsync.Json.Sample.{sample, sample-IsLawful, sample_runs}
use mfsync.Crypto.{CryptoHandler, is_allowed, derive, get_public_key}
use mfsync.Crypto.Sample
use mfsync.Crypto.Exchange.{derive-entry, get_public_key-derive}
use mfsync.Protocol.{wrap_with_header, create_handshake_message, dump_wrapped}
use mfsync.Protocol.Ends.{Holds, Holds-next, RequestText}
use mfsync.Transfer
use mfsync.ClientSession
use mfsync.ClientSession.{take_file, created, transfer_of, dropped, begin_receiving}
use mfsync.ClientSession.Ending.{Ends, begin_receiving_complete}
use mfsync.ClientSession.Release.{Cleared, ended_released}
use mfsync.ClientSession.Trust.{Reach, start, later, receiving_allowed}
use mfsync.Dialogue.Greeting.{connecting_to}
use mfsync.Dialogue.Greeting
use mfsync.Dialogue.Asking.{after_one, after_two, asked, client_asks}
use mfsync.Dialogue.Starting.{downloading, client_confirms, begin_receiving-reads}
use mfsync.Tests.Downloads
use mfsync.Tests.Downloads.{
  host, wanted, requested, client_before, client_after, greeting_text, request_text, answer_text,
  stream, file_info, secret, meeting,
}

abbrev pub key : Bytes
key = 3 ∷ []

abbrev available : AvailableFile
available = Downloads.offered file_info

abbrev pub d₀ : CryptoHandler
d₀ = derive Sample.sample (host 1) key (9 ∷ [])

abbrev d₂ : CryptoHandler
d₂ = after_two d₀ key

abbrev d₄ : CryptoHandler
d₄ = after_two d₂ key

pub held₀ : Holds d₀ key secret 0
unfolding get_public_key
held₀ =
    (derive-entry Sample.sample Sample.sample-IsLawful (host 1) (host 2) (9 ∷ []) (3 ∷ []) 8 []
      meeting).0

held₂ : Holds d₂ key secret 2
held₂ = Holds-next (after_one d₀ key) key secret 1 (Holds-next d₀ key secret 0 held₀)

abbrev client : ClientSession.Connection
client = connecting_to (host 1) key wanted

abbrev pub hash : Bytes → Bytes
hash t = []

abbrev step :
    ClientSession.Connection
    → ClientSession.Shared
    → ClientSession.Event
    → Outcome ClientSession.Reaction
step = ClientSession.step sample Sample.sample hash

taken : take_file (created false (host 1)) available ≡ client
unfolding take_file
taken = refl

abbrev greets : ClientSession.Connection
greets = record client { derived = some d₀; phase = ClientSession.greeting }

abbrev pub ready : ClientSession.Connection
ready = Greeting.greeted client d₀

request :
    RequestText sample Sample.sample
      (get_public_key Sample.sample d₀)
      secret
      1
      requested
      request_text
unfolding get_public_key
request =
    subst (λ k. RequestText sample Sample.sample k secret 1 requested request_text)
      (sym (get_public_key-derive Sample.sample (host 1) key (9 ∷ []))) Downloads.asked

abbrev pub asking : ClientSession.Connection
asking = record ready {
  requested = requested;
  derived = some d₂;
  phase = ClientSession.requesting stream;
}

pub asks :
    step ready client_before (ClientSession.arrived (wrap_with_header (answer_text 0)))
    ≡ ok (record {
      sent = some (wrap_with_header request_text);
      connection = asking;
      shared = client_after;
    })
unfolding ClientSession.step mfsync.FileHandler.is_stored mfsync.NameSet.contains
    mfsync.FileHandler.is_blocked mfsync.Disk.node_at mfsync.FileHandler.get_storage_path
    mfsync.FileHandler.get_tmp_path mfsync.Common.parent
asks =
    client_asks sample sample-IsLawful Sample.sample Sample.sample-IsLawful hash secret (host 1) key
      (answer_text 0) request_text wanted d₀ client_before stream held₀
      (Downloads.answered 0 Downloads.answers-IsClean.0) Downloads.made request

abbrev waiting : ClientSession.Connection
waiting = asked client d₂ requested stream

abbrev confirming : ClientSession.Connection
confirming = record waiting { derived = some d₄; phase = ClientSession.confirming stream }

confirms :
    step waiting client_after (ClientSession.arrived (wrap_with_header (answer_text 2)))
    ≡ ok (record {
      sent = some (wrap_with_header (answer_text 3));
      connection = confirming;
      shared = client_after;
    })
unfolding ClientSession.step
confirms =
    client_confirms sample sample-IsLawful Sample.sample Sample.sample-IsLawful hash secret waiting
      client_after stream d₂ (answer_text 2) (answer_text 3) refl held₂
      (Downloads.answered 2 Downloads.answers-IsClean.1)
      (Downloads.answered 3 Downloads.answers-IsClean.2)

abbrev complete_already : ClientSession.Connection
complete_already = record confirming { requested = record requested { offset = 3 } }

begin_receiving_complete_example :
    begin_receiving complete_already client_after stream
    ≡ ok (Ends true complete_already client_after stream d₄)
begin_receiving_complete_example =
    begin_receiving_complete complete_already client_after stream d₄ refl refl (omega arith)
      (omega arith)

abbrev receives : ClientSession.Connection
receives = downloading client client_after d₄ requested stream 2

begins :
    step confirming client_after ClientSession.written
    ≡ ok (record { sent = none; connection = receives; shared = client_after })
unfolding ClientSession.step transfer_of
begins =
    begin_receiving-reads sample sample-IsLawful Sample.sample Sample.sample-IsLawful hash secret
      confirming client_after stream d₄ 2 refl refl (omega arith) (omega arith)

reached : Reach sample Sample.sample hash (take_file (created false (host 1)) available) receives
unfolding ClientSession.step take_file create_handshake_message dump_wrapped sample_runs
reached =
    later client_after ClientSession.written _
      (later client_after (ClientSession.arrived (wrap_with_header (answer_text 2))) _
        (later client_after ClientSession.written _
          (later client_before (ClientSession.arrived (wrap_with_header (answer_text 0))) _
            (later client_before ClientSession.written
              (record { sent = none; connection = ready; shared = client_before })
              (later client_before (ClientSession.connected (8 ∷ []))
                (record { sent = some _; connection = greets; shared = client_before }) start refl)
              refl)
            asks)
          refl)
        confirms)
      begins

abbrev transfer : Transfer.ClientSession
transfer = transfer_of (record client { requested = requested }) client_after d₄ stream

receiving_allowed_example : (transfer.pub_key ≡ key) × (is_allowed (host 1) transfer.pub_key ≡ true)
receiving_allowed_example =
    receiving_allowed sample Sample.sample hash false (host 1) available receives stream 2 transfer
      reached refl

ended_released_example : Cleared (some stream) (dropped (some stream) client_after.handler)
unfolding ClientSession.step
ended_released_example =
    ended_released sample Sample.sample hash waiting client_after ClientSession.failed
      (record {
        sent = none;
        connection = record waiting { phase = ClientSession.ended };
        shared = record client_after { handler = dropped (some stream) client_after.handler };
      })
      refl refl
