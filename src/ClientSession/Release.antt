-- ===== src/ClientSession/Release.antt =====
-- The lock of a session of src/client_session.cpp: it goes with the session, however that ends.
use mfsync.Common.{
  ℕ, ◌≡◌, refl, sym, ap, ◌∙◌, Bool, true, false, Option, none, some, List, [], ◌∷◌, Bytes, arith,
  ok, throws, undefined, ◌>>=◌, Outcome, Post, Post-after, Post-ok,
}
use mathlib.Core.Path.{subst}
use mfsync.Json.{JsonLib}
use mfsync.Crypto.{CryptoLib, CryptoHandler}
use mfsync.FileHandler.{FileHandler, Lock}
use mfsync.FileHandler.Operations.{OfstreamWrapper, release, clear_lock, clear_token}
use mfsync.Protocol.Converter.{answer_from_message, answer_to_message}
use mfsync.Transfer
use mfsync.Transfer.{
  Next, reads, complete, finalized, fails, read_file_chunk, handle_read_file_chunk,
}
use mfsync.ClientSession.{
  Phase, connecting, securing, greeting, awaits_handshake, requesting, awaits_response, confirming,
  receiving, ended, Connection, Shared, Reaction, held, dropped, closes, writes, deref, proceed,
  begin_receiving, confirmed, handle_read_file_request_response, receive_chunk, Event, written,
  arrived, failed, react, step, transfer_of,
}

-- No lock with this token is live.
abbrev pub NoneLive : ℕ → List Lock → Type 0
NoneLive t [] = Unit
NoneLive t (l ∷ ls) = (l.token ≡ t → l.active ≡ false) × NoneLive t ls

abbrev pub TokenCleared : Option ℕ → FileHandler → Type 0
TokenCleared none h = Unit
TokenCleared (some t) h = NoneLive t h.locked_files

-- No lock of this stream is live.
abbrev pub Cleared : Option OfstreamWrapper → FileHandler → Type 0
Cleared none h = Unit
Cleared (some o) h = TokenCleared o.write_token h

clear_token-NoneLive : (t : ℕ) (ls : List Lock) → NoneLive t (clear_token t ls)
unfolding clear_token
clear_token-NoneLive t [] = tt
clear_token-NoneLive t (l ∷ ls) = (ground arith, clear_token-NoneLive t ls)

clear_lock-Cleared : (t : Option ℕ) (h : FileHandler) → TokenCleared t (clear_lock h t)
unfolding clear_lock
clear_lock-Cleared none h = tt
clear_lock-Cleared (some t) h = clear_token-NoneLive t h.locked_files

dropped-Cleared : (o : Option OfstreamWrapper) (h : FileHandler) → Cleared o (dropped o h)
unfolding dropped release
dropped-Cleared none h = tt
dropped-Cleared (some o) h = clear_lock-Cleared o.write_token h

-- If the session has ended, its lock is gone.
abbrev Leaves : Connection → Reaction → Type 0
Leaves s r = r.connection.phase ≡ ended → Cleared (held s.phase) r.shared.handler

abbrev Ends : Connection → Outcome Reaction → Type 0
Ends s = Post (Leaves s)

closes-Ends : (s : Connection) (w : Shared) → Ends s (closes s w)
unfolding closes
closes-Ends s w q = dropped-Cleared (held s.phase) w.handler

-- A session that holds no stream has nothing to release.
unheld-Ends :
    (s : Connection) (p : Phase) (m : Outcome Reaction) → p ≡ s.phase → held p ≡ none → Ends s m
unheld-Ends s p (ok r) e n = λ q. subst (λ o. Cleared o r.shared.handler) (sym n ∙ ap held e) tt
unheld-Ends s p (throws x) e n = tt
unheld-Ends s p undefined e n = tt

proceed-Ends :
    (s : Connection) (w : Shared) (o : OfstreamWrapper) (x : Next × Transfer.ClientSession)
    → Ends s (proceed s w o x)
unfolding proceed closes
proceed-Ends s w o (reads n, t) = λ q. cc
proceed-Ends s w o (complete, t) = λ q. dropped-Cleared (held s.phase) t.handler
proceed-Ends s w o (finalized (ok b), t) = λ q. dropped-Cleared (held s.phase) t.handler
proceed-Ends s w o (finalized (throws e), t) = tt
proceed-Ends s w o (finalized undefined, t) = tt
proceed-Ends s w o (fails e, t) = tt

begin_receiving-Ends :
    (s : Connection) (w : Shared) (o : OfstreamWrapper) → Ends s (begin_receiving s w o)
unfolding begin_receiving
begin_receiving-Ends s w o =
    Post-after (Leaves s) (deref s.derived)
      (λ d. proceed s w o (read_file_chunk s.requested s.requested.offset, transfer_of s w d o))
      (λ d. proceed-Ends s w o _)

module _ (J : JsonLib) (C : CryptoLib) where
  confirmed-Ends :
      (s : Connection) (w : Shared) (o : OfstreamWrapper) (a : Option Bool × CryptoHandler)
      → Ends s (confirmed J C s w o a)
  unfolding confirmed closes
  confirmed-Ends s w o (none, d) = λ q. dropped-Cleared (held s.phase) w.handler
  confirmed-Ends s w o (some false, d) = λ q. dropped-Cleared (held s.phase) w.handler
  confirmed-Ends s w o (some true, d) =
      Post-after (Leaves s) (answer_to_message J C true s.pub_key d)
        (λ m. writes m.0 (record s { derived = some m.1; phase = confirming o }) w) (λ m q. cc)

  response-Ends :
      (s : Connection) (w : Shared) (o : OfstreamWrapper) (m : Bytes)
      → Ends s (handle_read_file_request_response J C s w o m)
  unfolding handle_read_file_request_response
  response-Ends s w o m =
      Post-after (Leaves s) (deref s.derived)
        (λ d. answer_from_message J C m s.pub_key d >>= confirmed J C s w o)
        (λ d.
          Post-after (Leaves s) (answer_from_message J C m s.pub_key d) (confirmed J C s w o)
            (λ a. confirmed-Ends s w o a))

  module _ (sha256 : Bytes → Bytes) where
    -- Where the callback changes nothing.
    stays-Ends :
        (s : Connection) (w : Shared)
        → Cleared (held ended) w.handler
        → Leaves s (record { sent = none; connection = s; shared = w })
    stays-Ends s w u q = subst (λ p. Cleared (held p) w.handler) (sym q) u

    react-Ends :
        (p : Phase) (s : Connection) (w : Shared) (e : Event)
        → p ≡ s.phase
        → Ends s (react J C sha256 p s w e)
    unfolding react receive_chunk
    react-Ends connecting s w e q = unheld-Ends s connecting _ q refl
    react-Ends securing s w e q = unheld-Ends s securing _ q refl
    react-Ends greeting s w e q = unheld-Ends s greeting _ q refl
    react-Ends awaits_handshake s w e q = unheld-Ends s awaits_handshake _ q refl
    react-Ends ended s w e q = unheld-Ends s ended _ q refl
    react-Ends (requesting o) s w written q = λ x. cc
    react-Ends (awaits_response o) s w (arrived m) q = response-Ends s w o m
    react-Ends (confirming o) s w written q = begin_receiving-Ends s w o
    react-Ends (receiving o n t) s w (arrived bytes) q = proceed-Ends s w o (
        handle_read_file_chunk C sha256
          (record t { handler = w.handler; root = w.root; static_iv = w.static_iv }) bytes)
    react-Ends p s w failed q = closes-Ends s w
    react-Ends p s w e q = stays-Ends s w tt

    -- A callback that ends a session leaves no live lock of the stream that the session held, whether
    -- the file is complete, was refused, or the connection failed.
    pub ended_released :
        (s : Connection) (w : Shared) (e : Event) (r : Reaction)
        → step J C sha256 s w e ≡ ok r
        → r.connection.phase ≡ ended
        → Cleared (held s.phase) r.shared.handler
    unfolding step
    ended_released s w e r q =
        Post-ok (Leaves s) (step J C sha256 s w e) r (react-Ends s.phase s w e refl) q
