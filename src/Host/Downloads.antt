-- ===== src/Host/Downloads.antt =====
-- What holds of the downloads of one host at every time.
use mfsync.Common.{
  ℕ, zero, suc, ◌≡◌, ◌≢◌, refl, sym, ap, ◌∙◌, Bool, true, false, Option, none, some, List, [], ◌∷◌,
  Bytes, Post, Post-ok, ok, throws, undefined, Outcome, get_elem?,
}
use mathlib.Core.Path.{subst}
use mfsync.Info.{RequestedFile, AvailableFile, FileInformation, file_information_eq}
use mfsync.Json.{JsonLib}
use mfsync.Disk.{Entries}
use mfsync.Deque
use mfsync.Crypto.{CryptoLib, CryptoHandler}
use mfsync.FileHandler.{FileHandler, is_blocked, update_stored_files}
use mfsync.FileHandler.Operations.{OfstreamWrapper}
use mfsync.FileHandler.Sharing.{init_storage, after_init}
use mfsync.FileHandler.Lifecycle.{update-locked_files, update-next_token}
use mfsync.FileHandler.Tokens.{lock_of, Exclusive-lock_of, held-lock_of, lock_of-held}
use mfsync.ClientSession
use mfsync.ClientSession.{Connection, created, start_request, begin, take_file, closes}
use mfsync.ClientSession.Effects.{Same, Matches}
use mfsync.ClientSession.Steps.{step-Changes}
use mfsync.ServerSession.Sharing as Uploading
use mfsync.ListSession.Sharing as Listing
use mfsync.Host.{
  Host, Step, Reach, start, later, Idle, AllIdle, started, slots, after_download, after_upload,
  after_list, after_accept, after_datagram, for_download, for_upload,
}
use mfsync.Host.Ownership.{token_of, HasLock, Owned}
use mfsync.Host.Places.{some-ne-none, some-injective, lock_of-token}
use mfsync.Host.Changes.{Effect-Owned, Same-transport, held_token}

abbrev Safe : Host → Type 0
Safe h = Owned h.handler.locked_files h.handler.next_token h.downloads

-- `start_request` takes no lock, and the new session holds no stream.
abbrev Starts : FileHandler → ClientSession.Reaction → Type 0
Starts h r =
    (ClientSession.held r.connection.phase ≡ none)
    × Same h r.shared.handler
    × Matches r.connection.requested r.connection.phase

begin-Starts :
    (tls : Bool) (crypto : CryptoHandler) (w : ClientSession.Shared)
    (x : Option AvailableFile × List AvailableFile)
    → Post (Starts w.handler) (begin (created tls crypto) w x)
unfolding begin take_file closes
begin-Starts tls crypto w (none, queue) = (refl, (refl, refl), tt)
begin-Starts tls crypto w (some a, queue) = (refl, (refl, refl), tt)

start_request-Starts :
    (tls : Bool) (crypto : CryptoHandler) (w : ClientSession.Shared) (r : ClientSession.Reaction)
    → start_request (created tls crypto) w ≡ ok r
    → Starts w.handler r
unfolding start_request
start_request-Starts tls crypto w r e =
    Post-ok (Starts w.handler) (start_request (created tls crypto) w) r
      (begin-Starts tls crypto w (Deque.try_pop w.queue)) e

after_init-Same :
    (h : FileHandler) (x : Outcome Bool × FileHandler) → Same h x.1 → Same h (after_init x).1
after_init-Same h (ok b, g) same = same
after_init-Same h (throws e, g) same = same
after_init-Same h (undefined, g) same = same

init_storage-Same :
    (root : Entries) (h : FileHandler) (path : Bytes) → Same h (init_storage root h path).1
unfolding init_storage
init_storage-Same root h path =
    let h' = record h { storage_path = path } in
    after_init-Same h (update_stored_files root true h')
      (update-locked_files root true h', update-next_token root true h')

unheld-Matches :
    (q : RequestedFile) (p : ClientSession.Phase) → ClientSession.held p ≡ none → Matches q p
unheld-Matches q (ClientSession.receiving o n t) e = cc
unheld-Matches q p e = tt

idle_at :
    (ds : List Connection) (i : ℕ) (s : Connection)
    → AllIdle ds
    → get_elem? ds i ≡ some s
    → ClientSession.held s.phase ≡ none
idle_at [] i s a e = cc
idle_at (d ∷ ds) zero s a e =
    ap (λ c. ClientSession.held c.phase) (sym (some-injective d s e)) ∙ a.0
idle_at (d ∷ ds) (suc i) s a e = idle_at ds i s a.1 e

no_locks-Owned : (n : ℕ) (ds : List Connection) → AllIdle ds → Owned [] n ds
unfolding lock_of
no_locks-Owned n ds idle = record {
  exclusive = tt;
  distinct = tt;
  fresh = λ t above. refl;
  backed = λ i s e.
      let unheld = idle_at ds i s idle e in
      (
        unheld-Matches s.requested s.phase unheld,
        subst (HasLock [] s.requested.file_info) (sym unheld) tt,
      );
  apart = λ i j t s u e f p q. some-ne-none t (sym p ∙ ap token_of (idle_at ds i s idle e));
  kept = λ t f e. cc;
}

slots-AllIdle : (n : ℕ) (s : Connection) → ClientSession.held s.phase ≡ none → AllIdle (slots n s)
unfolding slots
slots-AllIdle zero s e = tt
slots-AllIdle (suc n) s e = (e, slots-AllIdle n s e)

token_held :
    (x : Option OfstreamWrapper) (t : ℕ)
    → token_of x ≡ some t
    → (p : OfstreamWrapper) × (x ≡ some p)
token_held none t e = cc
token_held (some p) t e = (p, refl)

-- The program starts idle.
pub started-Idle :
    (root : Entries) (crypto : CryptoHandler) (tls : Bool) (n : ℕ) (server_tls : Bool) (port : ℕ)
    (bound listing : Bool)
    → Idle (started root crypto tls n server_tls port bound listing)
unfolding started
started-Idle root crypto tls n server_tls port bound listing =
    (refl, slots-AllIdle n (created tls crypto) refl)

module _ (J : JsonLib) (C : CryptoLib) (sha256 : Bytes → Bytes) (tls : Bool)
    (crypto : CryptoHandler) where
  Step-Safe : {h g : Host} → Step J C sha256 tls crypto h g → Safe h → Safe g
  unfolding after_download after_upload after_list after_accept after_datagram
  Step-Safe {h} (Step.downloads i s os e r there q) o =
      let changes = step-Changes J C sha256 s (for_download h os) e r (o.backed i s there).0 q in
      Effect-Owned h.handler r.shared.handler h.downloads i s r.connection
        (ClientSession.held s.phase) (ClientSession.held r.connection.phase) o there refl refl
        changes.1 changes.0
  Step-Safe {h} (Step.starts i s os r there idle q) o =
      let (unheld, same, m) = start_request-Starts tls crypto (for_download h os) r q in
      Effect-Owned h.handler r.shared.handler h.downloads i s r.connection none none o there
        (ap ClientSession.held idle) unheld m same
  Step-Safe (Step.queues a there) o = o
  Step-Safe (Step.accepts e) o = o
  Step-Safe {h} (Step.uploads i s e r there q) o =
      Same-transport h.handler r.handler h.downloads
        (Uploading.step-Kept J C s (for_upload h) e r q).0 o
  Step-Safe (Step.hears datagram r q) o = o
  Step-Safe {h} (Step.lists i s e r there q) o =
      Same-transport h.handler r.handler h.downloads
        (Listing.step-Kept J C h.root h.handler s e r q).0 o
  Step-Safe {h} (Step.opens path) o =
      Same-transport h.handler (init_storage h.root h.handler path).1 h.downloads
        (init_storage-Same h.root h.handler path) o
  Step-Safe {h} Step.scans o =
      Same-transport h.handler (update_stored_files h.root false h.handler).1 h.downloads
        (update-locked_files h.root false h.handler, update-next_token h.root false h.handler) o
  Step-Safe (Step.outside root) o = o

  Reach-Safe : {h₀ h : Host} → Idle h₀ → Reach J C sha256 tls crypto h₀ h → Safe h
  Reach-Safe {h₀} idle start =
      subst (λ ls. Owned ls h₀.handler.next_token h₀.downloads) (sym idle.0)
        (no_locks-Owned h₀.handler.next_token h₀.downloads idle.1)
  Reach-Safe idle (later r st) = Step-Safe st (Reach-Safe idle r)

  -- From a start at which no file is locked and no session holds a stream, whatever steps were made in
  -- whatever order: two sessions that both hold a stream have requested different files.
  pub downloads_exclusive :
      (h₀ h : Host) (i j : ℕ) (s u : Connection) (p q : OfstreamWrapper)
      → Idle h₀
      → Reach J C sha256 tls crypto h₀ h
      → get_elem? h.downloads i ≡ some s
      → get_elem? h.downloads j ≡ some u
      → i ≢ j
      → ClientSession.held s.phase ≡ some p
      → ClientSession.held u.phase ≡ some q
      → file_information_eq s.requested.file_info u.requested.file_info ≡ false
  downloads_exclusive h₀ h i j s u p q idle reached at_i at_j other holds holds' =
      let o = Reach-Safe idle reached in
      let (t, _, had, found) = held_token h.handler.locked_files s p holds (o.backed i s at_i) in
      let (t', _, had', found') =
        held_token h.handler.locked_files u q holds' (o.backed j u at_j) in
      Exclusive-lock_of t t' s.requested.file_info u.requested.file_info h.handler.locked_files
        o.exclusive found found'
        (λ same. other (o.apart i j t s u at_i at_j had (had' ∙ ap some (sym same))))

  -- From a start at which no file is locked and no session holds a stream, whatever steps were made in
  -- whatever order: the file of a session that holds a stream is blocked.
  pub held_blocked :
      (h₀ h : Host) (i : ℕ) (s : Connection) (p : OfstreamWrapper)
      → Idle h₀
      → Reach J C sha256 tls crypto h₀ h
      → get_elem? h.downloads i ≡ some s
      → ClientSession.held s.phase ≡ some p
      → is_blocked h.handler s.requested.file_info ≡ true
  unfolding is_blocked
  held_blocked h₀ h i s p idle reached there holds =
      let o = Reach-Safe idle reached in
      let (t, _, had, found) = held_token h.handler.locked_files s p holds (o.backed i s there) in
      held-lock_of t s.requested.file_info h.handler.locked_files found

  -- From a start at which no file is locked and no session holds a stream, whatever steps were made in
  -- whatever order: a file that is blocked is the one of a session that holds a stream, so that no
  -- lock outlives its session.
  pub blocked_held :
      (h₀ h : Host) (f : FileInformation)
      → Idle h₀
      → Reach J C sha256 tls crypto h₀ h
      → is_blocked h.handler f ≡ true
      → (i : ℕ) × (s : Connection) × (p : OfstreamWrapper) × (get_elem? h.downloads i ≡ some s)
        × (ClientSession.held s.phase ≡ some p)
        × (file_information_eq s.requested.file_info f ≡ true)
  unfolding is_blocked
  blocked_held h₀ h f idle reached blocked =
      let o = Reach-Safe idle reached in
      let (t, g, found, same) = lock_of-held f h.handler.locked_files o.distinct blocked in
      let (i, s, there, has) = o.kept t g found in
      let (p, holds) = token_held (ClientSession.held s.phase) t has in
      let file = some-injective g s.requested.file_info (
        sym found
        ∙ lock_of-token h.handler.locked_files s.requested.file_info (ClientSession.held s.phase) t
            (o.backed i s there).1 has) in
      (i, s, p, there, holds, (ap (λ x. file_information_eq x f) (sym file) ∙ same))
