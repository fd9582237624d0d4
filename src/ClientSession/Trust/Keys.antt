-- ===== src/ClientSession/Trust/Keys.antt =====
-- The keys of a session of src/client_session.cpp, and how it begins and ends.
use mathlib.Core.Path.{subst}
use mfsync.Common.{
  ℕ, ◌≡◌, refl, true, Option, none, some, Bytes, arith, ok, throws, undefined, Outcome, Post,
  Post-bind, Post-after,
}
use mfsync.Json.{JsonLib}
use mfsync.Crypto.{CryptoLib, CryptoHandler, derive, is_allowed, get_public_key}
use mfsync.Crypto.Trust.{OnlyAllowed, derive-OnlyAllowed}
use mfsync.FileHandler.Operations.{OfstreamWrapper}
use mfsync.Protocol.{create_handshake_message}
use mfsync.Transfer
use mfsync.Transfer.{
  Next, reads, complete, finalized, fails, read_file_chunk, handle_read_file_chunk, after_write,
  write_at, flush,
}
use mfsync.ClientSession.{
  Phase, connecting, securing, greeting, awaits_handshake, requesting, awaits_response, confirming,
  receiving, ended, Connection, Shared, Reaction, closes, writes, deref, proceed, begin_receiving,
  initialize_communication, transfer_of,
}

-- The key that a phase has checked is allowed.
abbrev pub Checked : CryptoHandler → Bytes → Phase → Type 0
Checked crypto key connecting = Unit
Checked crypto key securing = Unit
Checked crypto key greeting = Unit
Checked crypto key awaits_handshake = Unit
Checked crypto key (requesting o) = Unit
Checked crypto key (awaits_response o) = Unit
Checked crypto key (confirming o) = is_allowed crypto key ≡ true
Checked crypto key (receiving o n t) =
    (is_allowed crypto key ≡ true) × (t.pub_key ≡ key) × OnlyAllowed crypto t.derived
Checked crypto key ended = Unit

abbrev pub AllAllowed : CryptoHandler → Option CryptoHandler → Type 0
AllAllowed crypto none = Unit
AllAllowed crypto (some d) = OnlyAllowed crypto d

pub record IsTrusted (crypto : CryptoHandler) (s : Connection) : Type 0 where
  pub kept : s.crypto ≡ crypto
  pub derived_allowed : AllAllowed crypto s.derived
  pub checked : Checked crypto s.pub_key s.phase

abbrev pub Fine : CryptoHandler → Reaction → Type 0
Fine crypto r = IsTrusted crypto r.connection

abbrev pub Good : CryptoHandler → Outcome Reaction → Type 0
Good crypto = Post (Fine crypto)

pub deref_lem :
    (crypto : CryptoHandler) (d : Option CryptoHandler)
    → AllAllowed crypto d
    → Post (OnlyAllowed crypto) (deref d)
deref_lem crypto none o = tt
deref_lem crypto (some d) o = o

-- The keys after a block are those before it.
pub after_write-Same :
    (sha256 : Bytes → Bytes) (t : Transfer.ClientSession) (n : ℕ)
    → ((after_write sha256 t n).1.derived ≡ t.derived)
      × ((after_write sha256 t n).1.pub_key ≡ t.pub_key)
unfolding after_write
after_write-Same sha256 t n = ground arith

module _ (crypto : CryptoHandler) where
  pub closes-Good : (s : Connection) (w : Shared) → IsTrusted crypto s → Good crypto (closes s w)
  unfolding closes
  closes-Good s w i = record { kept = i.kept; derived_allowed = i.derived_allowed; checked = tt }

  pub proceed-Good :
      (s : Connection) (w : Shared) (o : OfstreamWrapper) (x : Next × Transfer.ClientSession)
      → s.crypto ≡ crypto
      → is_allowed crypto s.pub_key ≡ true
      → x.1.pub_key ≡ s.pub_key
      → OnlyAllowed crypto x.1.derived
      → Good crypto (proceed s w o x)
  unfolding proceed closes
  proceed-Good s w o (reads n, t) kept a same only = record {
    kept = kept;
    derived_allowed = only;
    checked = (a, same, only);
  }
  proceed-Good s w o (complete, t) kept a same only = record {
    kept = kept;
    derived_allowed = only;
    checked = tt;
  }
  proceed-Good s w o (finalized (ok b), t) kept a same only = record {
    kept = kept;
    derived_allowed = only;
    checked = tt;
  }
  proceed-Good s w o (finalized (throws e), t) kept a same only = tt
  proceed-Good s w o (finalized undefined, t) kept a same only = tt
  proceed-Good s w o (fails e, t) kept a same only = tt

  pub begin_receiving-Good :
      (s : Connection) (w : Shared) (o : OfstreamWrapper)
      → IsTrusted crypto s
      → is_allowed crypto s.pub_key ≡ true
      → Good crypto (begin_receiving s w o)
  unfolding begin_receiving transfer_of
  begin_receiving-Good s w o i a =
      Post-bind (OnlyAllowed crypto) (Fine crypto) (deref s.derived)
        (λ d. proceed s w o (read_file_chunk s.requested s.requested.offset, transfer_of s w d o))
        (deref_lem crypto s.derived i.derived_allowed)
        (λ d only.
          proceed-Good s w o (read_file_chunk s.requested s.requested.offset, transfer_of s w d o)
            i.kept a refl only)

  module _ (J : JsonLib) (C : CryptoLib) where
    pub initialize-Good :
        (s : Connection) (w : Shared) (random : Bytes)
        → IsTrusted crypto s
        → Good crypto (initialize_communication J C s w random)
    unfolding initialize_communication
    initialize-Good s w random i =
        let salt = C.hex_encode random in
        let d = derive C s.crypto s.pub_key salt in
        Post-after (Fine crypto) (create_handshake_message J (get_public_key C d) salt)
          (λ m. writes m (record s { derived = some d; phase = greeting }) w)
          (λ m. record {
            kept = i.kept;
            derived_allowed =
                subst (λ c. OnlyAllowed c d) i.kept (derive-OnlyAllowed C s.crypto s.pub_key salt);
            checked = tt;
          })
