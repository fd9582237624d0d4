-- ===== src/ServerSession/Trust/Greeting.antt =====
-- The keys of a connection of src/server_session.cpp, and that its handshake keeps to the allowed ones.
use mfsync.Common.{◌≡◌, true, Option, none, some, Bytes, codes}
use mathlib.Core.Path.{subst}
use mfsync.Common.{Outcome, Post, Post-bind, Post-after, ◌>>=◌}
use mfsync.Json.{JsonLib}
use mfsync.Crypto.{CryptoLib, CryptoHandler, derive, is_allowed}
use mfsync.Crypto.Trust.{Keeps, OnlyAllowed, OnlyAllowed-Keeps, derive-OnlyAllowed}
use mfsync.FileHandler.{FileHandler}
use mfsync.Protocol.{
  MessageType, no_type, denied, handshake, file_list, file, get_message_type, get_json_from_message,
  text_at,
}
use mfsync.Protocol.Converter.{answer_to_message}
use mfsync.Protocol.Trust.{answer_to_message-Keeps}
use mfsync.ServerSession.{
  Phase, awaits_handshake, responding, awaits_header, confirming, awaits_confirmation, replying,
  streaming, ended, Connection, Reaction, closes, writes,
}
use mfsync.ServerSession.{respond_encrypted, greet, greet_if, handle_read_handshake}

-- The key that a phase has checked is allowed.
abbrev pub Checked : CryptoHandler → Bytes → Phase → Type 0
Checked crypto key awaits_handshake = Unit
Checked crypto key responding = Unit
Checked crypto key awaits_header = Unit
Checked crypto key confirming = is_allowed crypto key ≡ true
Checked crypto key awaits_confirmation = is_allowed crypto key ≡ true
Checked crypto key replying = Unit
Checked crypto key (streaming t) =
    (is_allowed crypto t.public_key ≡ true) × OnlyAllowed crypto t.derived
Checked crypto key ended = Unit

abbrev pub AllAllowed : CryptoHandler → Option CryptoHandler → Type 0
AllAllowed crypto none = Unit
AllAllowed crypto (some d) = OnlyAllowed crypto d

pub record IsTrusted (crypto : CryptoHandler) (s : Connection) : Type 0 where
  pub kept : s.crypto ≡ crypto
  pub derived_allowed : AllAllowed crypto s.derived
  pub checked : Checked crypto s.public_key s.phase

abbrev pub Fine : CryptoHandler → Reaction → Type 0
Fine crypto r = IsTrusted crypto r.connection

abbrev pub Good : CryptoHandler → Outcome Reaction → Type 0
Good crypto = Post (Fine crypto)

module _ (crypto : CryptoHandler) where
  pub closes-Good :
      (s : Connection) (h : FileHandler) → IsTrusted crypto s → Good crypto (closes s h)
  closes-Good s h i = record { kept = i.kept; derived_allowed = i.derived_allowed; checked = tt }

  module _ (J : JsonLib) (C : CryptoLib) where
    respond-Good :
        (s : Connection) (h : FileHandler) (k salt : Bytes)
        → IsTrusted crypto s
        → Good crypto (respond_encrypted J C s h k salt)
    unfolding respond_encrypted
    respond-Good s h k salt i =
        Post-bind (λ m. Keeps (derive C s.crypto k salt) m.1) (Fine crypto)
          (answer_to_message J C true k (derive C s.crypto k salt))
          (λ m. writes m.0 (record s { derived = some m.1; phase = responding }) h)
          (answer_to_message-Keeps J C (derive C s.crypto k salt) true k)
          (λ m keeps. record {
            kept = i.kept;
            derived_allowed =
                OnlyAllowed-Keeps crypto (derive C s.crypto k salt) m.1
                  (subst (λ c. OnlyAllowed c (derive C s.crypto k salt)) i.kept
                    (derive-OnlyAllowed C s.crypto k salt))
                  keeps;
            checked = tt;
          })

    greet-Good :
        (s : Connection) (h : FileHandler) (j : Option J.Json)
        → IsTrusted crypto s
        → Good crypto (greet J C s h j)
    unfolding greet
    greet-Good s h none i = closes-Good s h i
    greet-Good s h (some j) i =
        Post-after (Fine crypto) (text_at J j (codes "public_key"))
          (λ key. text_at J j (codes "salt") >>= respond_encrypted J C s h key)
          (λ key.
            Post-after (Fine crypto) (text_at J j (codes "salt")) (respond_encrypted J C s h key)
              (λ salt. respond-Good s h key salt i))

    greet_if-Good :
        (s : Connection) (h : FileHandler) (m : Bytes) (type : MessageType)
        → IsTrusted crypto s
        → Good crypto (greet_if J C s h m type)
    unfolding greet_if
    greet_if-Good s h m handshake i =
        Post-after (Fine crypto) (get_json_from_message J m) (greet J C s h)
          (λ j. greet-Good s h j i)
    greet_if-Good s h m no_type i = closes-Good s h i
    greet_if-Good s h m denied i = closes-Good s h i
    greet_if-Good s h m file_list i = closes-Good s h i
    greet_if-Good s h m file i = closes-Good s h i

    pub handshake-Good :
        (s : Connection) (h : FileHandler) (m : Bytes)
        → IsTrusted crypto s
        → Good crypto (handle_read_handshake J C s h m)
    unfolding handle_read_handshake
    handshake-Good s h m i =
        Post-after (Fine crypto) (get_message_type J m) (greet_if J C s h m)
          (λ t. greet_if-Good s h m t i)
