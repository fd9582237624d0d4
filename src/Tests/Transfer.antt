-- ===== src/Tests/Transfer.antt =====
-- A transfer of a file of five bytes in blocks of two, of which the client has the first.
use mfsync.Common.{
  ℕ, ◌≡◌, refl, Bool, true, false, Option, none, some, List, [], ◌∷◌, Bytes, codes, arith, ok,
}
use mfsync.Info.{FileInformation, RequestedFile}
use mfsync.Disk.{Entries, nil, entry, directory, regular, node_at, rename}
use mfsync.Dict
use mfsync.Crypto.{CryptoHandler}
use mfsync.Crypto.Sample.{sample, sample-IsLawful}
use mfsync.FileHandler.{FileHandler, empty_handler, get_tmp_path, get_storage_path}
use mfsync.Transfer.{ClientSession, ServerSession, Next, finalized, read_file_chunk, receive, send}
use mfsync.Transfer.Whole.{Paired}
use mfsync.Transfer.Sending.{send-terminates}
use mfsync.Transfer.Stored.{receive-send_stored}
use mfsync.Crypto.Blocks.{Ready}

abbrev file_info : FileInformation
file_info = record { file_name = codes "f"; sha256sum = none; size = 5 }

abbrev requested : RequestedFile
requested = record { file_info = file_info; offset = 1; chunksize = 2 }

abbrev derived : CryptoHandler
derived = record {
  private_key = 1 ∷ [];
  public_key = 1 ∷ [];
  trust_all = true;
  trusted_keys = (7 ∷ [], record { key = 3 ∷ []; count = 4 }) ∷ [];
  allowed_keys = [];
}

abbrev iv : Bytes
iv = 4 ∷ 0 ∷ 0 ∷ 0 ∷ 0 ∷ 0 ∷ 0 ∷ 0 ∷ 0 ∷ 0 ∷ 0 ∷ 0 ∷ []

abbrev server : ServerSession
server = record {
  requested = requested;
  public_key = 7 ∷ [];
  derived = derived;
  static_iv = some iv;
  rest = 11 ∷ 12 ∷ 13 ∷ 14 ∷ [];
  good = true;
}

abbrev files : Entries
files = entry (codes "s") (directory (entry (codes "f.mfsync") (regular true (10 ∷ [])) nil)) nil

abbrev client : ClientSession
client = record {
  requested = requested;
  pub_key = 7 ∷ [];
  bytes_written = 1;
  path = codes "/s/f.mfsync";
  content = 10 ∷ [];
  derived = derived;
  static_iv = some iv;
  handler = record empty_handler {
    storage_path = codes "/s";
    storage_initialized = true;
    locked_files = record { file_info = file_info; token = 0; active = true } ∷ [];
    next_token = 1;
  };
  root = files;
}

abbrev sha256 : Bytes → Bytes
sha256 text = []

abbrev sent : Bytes
sent = 12 ∷ 13 ∷ 14 ∷ 15 ∷ []

ready : Ready (some iv) derived (7 ∷ []) (3 ∷ []) iv
unfolding Dict.lookup mfsync.Common.str_eq
ready = record {
  pair = record { key = 3 ∷ []; count = 4 };
  trusted = refl;
  secret = refl;
  nonce = refl;
}

paired : Paired server client (3 ∷ []) iv (10 ∷ [])
unfolding node_at
paired = record {
  good = refl;
  server = ready;
  client = record { in_stream = refl; counted = refl; on_disk = refl; ready = ready };
  same_chunksize = refl;
  some_chunksize = omega arith;
  more = omega arith;
  whole = refl;
  bounded = omega arith;
}

sent_all : send sample 9 server ≡ some sent
unfolding send Dict.lookup mfsync.Common.str_eq
sent_all = refl

abbrev session_of : Option (Next × ClientSession) → ClientSession
session_of none = client
session_of (some (next, s)) = s

abbrev run : Option (Next × ClientSession)
unfolding receive read_file_chunk
run = receive sample 9 sha256 (read_file_chunk requested 1, client) sent

stored : run ≡ some (finalized (ok true), session_of run)
unfolding receive read_file_chunk Dict.lookup mfsync.Common.str_eq mfsync.FileHandler.is_stored
    mfsync.NameSet.contains mfsync.FileHandler.is_blocked rename get_tmp_path get_storage_path
    mfsync.FileHandler.update_stored_files mfsync.Common.parent
stored = refl

send-terminates_example : (sent' : Bytes) × (send sample 9 server ≡ some sent')
send-terminates_example =
    send-terminates sample 9 server (3 ∷ []) iv (omega arith) ready (omega arith)

receive-send_stored_example :
    node_at (session_of run).root (codes "/s/f") ≡ some (regular true (10 ∷ 11 ∷ 12 ∷ 13 ∷ 14 ∷ []))
unfolding get_storage_path get_tmp_path receive run
receive-send_stored_example =
    receive-send_stored sample sample-IsLawful 9 9 sha256 server client (session_of run) (3 ∷ []) iv
      (10 ∷ []) sent paired refl sent_all (omega arith) stored
