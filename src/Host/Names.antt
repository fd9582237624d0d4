-- ===== src/Host/Names.antt =====
-- The names of the files that the sessions of one host receive. The temporary path of a file is made of
-- its name alone, so that two downloads of one name would write to one file.
use mathlib.Core.Path.{subst}
use mfsync.Common.{
  ℕ, ◌≡◌, ◌≢◌, refl, sym, Bool, false, inl, inr, some, Bytes, ok, get_elem?, str_eq, Post-ok,
}
use mfsync.Info.{available_file_named}
use mfsync.Json.{JsonLib}
use mfsync.Crypto.{CryptoLib, CryptoHandler}
use mfsync.FileHandler.{update_stored_files}
use mfsync.FileHandler.Operations.{OfstreamWrapper}
use mfsync.FileHandler.Sharing.{init_storage}
use mfsync.FileHandler.Keeping.{Keeps, Keeps-Grows, update-Keeps, init_storage-Keeps}
use mfsync.ClientSession
use mfsync.ClientSession.{Connection, created, start_request, begin, take_file, closes}
use mfsync.ClientSession.Frames.{file_in}
use mfsync.ClientSession.Frames.Steps.{step-Frame, step-ended}
use mfsync.ServerSession.Sharing as Uploading
use mfsync.ListSession.Sharing as Listing
use mfsync.Host.{
  Host, Step, Reach, start, later, Idle, after_download, after_upload, after_list, after_accept,
  after_datagram, for_download, for_upload,
}
use mfsync.Host.Downloads.{downloads_exclusive}
use mfsync.Host.Offers.{
  Offered, AllOffered, Agrees, Grows-Agrees, queues-AllOffered, replace-Agrees, file_in-cases,
  file_in-held, AsksOnly-Offered, begin-Agrees, names-apart,
}

-- What a host has queued and asks for is available as it is.
abbrev pub Settled : Host → Type 0
Settled h = Agrees h.handler h.queue h.downloads

module _ (J : JsonLib) (C : CryptoLib) (sha256 : Bytes → Bytes) (tls : Bool)
    (crypto : CryptoHandler) where
  -- The file that a session asks for after a callback.
  asked_after :
      (s : Connection) (w : ClientSession.Shared) (e : ClientSession.Event)
      (r : ClientSession.Reaction)
      → ClientSession.step J C sha256 s w e ≡ ok r
      → Offered w.handler (file_in s.phase s.requested.file_info)
      → Offered w.handler (file_in r.connection.phase r.connection.requested.file_info)
  asked_after s w e r q o = elim (file_in-cases s.phase s.requested.file_info) [
    | inl over ↦
        subst (λ p. Offered w.handler (file_in p r.connection.requested.file_info))
          (sym (step-ended J C sha256 s w e r over q)) tt
    | inr alive ↦
        AsksOnly-Offered w.handler s.requested.file_info _ (step-Frame J C sha256 s w e r q).2
          (subst (Offered w.handler) alive o)
  ]

  Step-Settled : {h g : Host} → Step J C sha256 tls crypto h g → Settled h → Settled g
  unfolding after_download after_upload after_list after_accept after_datagram start_request
  Step-Settled {h} (Step.downloads i s os e r there q) (os', asked) =
      let w = for_download h os in
      let (keeps, same, _) = step-Frame J C sha256 s w e r q in
      Grows-Agrees h.handler r.shared.handler r.shared.queue _
        (Keeps-Grows h.handler r.shared.handler keeps)
        (replace-Agrees h.handler r.shared.queue h.downloads i s r.connection there
          (subst (AllOffered h.handler) (sym same) os', asked)
          (asked_after s w e r q (asked i s there)))
  Step-Settled {h} (Step.starts i s os r there idle q) (os', asked) =
      let w = for_download h os in
      let (keeps, queued, o) =
        Post-ok
          (λ x.
            Keeps w.handler x.shared.handler
            × AllOffered w.handler x.shared.queue
            × Offered w.handler (file_in x.connection.phase x.connection.requested.file_info))
          (start_request (created tls crypto) w) r (begin-Agrees tls crypto w h.queue os') q in
      Grows-Agrees h.handler r.shared.handler r.shared.queue _
        (Keeps-Grows h.handler r.shared.handler keeps)
        (replace-Agrees h.handler r.shared.queue h.downloads i s r.connection there (queued, asked)
          o)
  Step-Settled {h} (Step.queues a there) (os, asked) =
      (queues-AllOffered h.handler a h.queue (a, there, refl) os, asked)
  Step-Settled (Step.accepts e) o = o
  Step-Settled {h} (Step.uploads i s e r there q) o =
      Grows-Agrees h.handler r.handler h.queue h.downloads
        (Keeps-Grows h.handler r.handler (Uploading.step-Kept J C s (for_upload h) e r q).1) o
  Step-Settled (Step.hears datagram r q) o = o
  Step-Settled {h} (Step.lists i s e r there q) o =
      Grows-Agrees h.handler r.handler h.queue h.downloads
        (Listing.step-Kept J C h.root h.handler s e r q).1 o
  Step-Settled {h} (Step.opens path) o =
      let g = (init_storage h.root h.handler path).1 in
      Grows-Agrees h.handler g h.queue h.downloads
        (Keeps-Grows h.handler g (init_storage-Keeps h.root h.handler path)) o
  Step-Settled {h} Step.scans o =
      let g = (update_stored_files h.root false h.handler).1 in
      Grows-Agrees h.handler g h.queue h.downloads
        (Keeps-Grows h.handler g (update-Keeps h.root false h.handler)) o
  Step-Settled (Step.outside root) o = o

  Reach-Settled : {h₀ h : Host} → Settled h₀ → Reach J C sha256 tls crypto h₀ h → Settled h
  Reach-Settled o start = o
  Reach-Settled o (later r st) = Step-Settled st (Reach-Settled o r)

  held-Offered :
      (h : Host) (i : ℕ) (s : Connection) (p : OfstreamWrapper)
      → Settled h
      → get_elem? h.downloads i ≡ some s
      → ClientSession.held s.phase ≡ some p
      → Offered h.handler (some s.requested.file_info)
  held-Offered h i s p settled there holds =
      subst (Offered h.handler) (file_in-held s.phase s.requested.file_info p holds)
        (settled.1 i s there)

  -- From a start at which no file is locked, no session holds a stream, and what is queued or asked for
  -- is available as it is, whatever steps were made in whatever order: two sessions that both hold a
  -- stream have requested files of different names.
  pub names_exclusive :
      (h₀ h : Host) (i j : ℕ) (s u : Connection) (p q : OfstreamWrapper)
      → Idle h₀
      → Settled h₀
      → Reach J C sha256 tls crypto h₀ h
      → get_elem? h.downloads i ≡ some s
      → get_elem? h.downloads j ≡ some u
      → i ≢ j
      → ClientSession.held s.phase ≡ some p
      → ClientSession.held u.phase ≡ some q
      → str_eq s.requested.file_info.file_name u.requested.file_info.file_name ≡ false
  names_exclusive h₀ h i j s u p q idle settled reached at_i at_j other holds holds' =
      let now = Reach-Settled settled reached in
      names-apart h.handler s.requested.file_info u.requested.file_info
        (held-Offered h i s p now at_i holds) (held-Offered h j u q now at_j holds')
        (downloads_exclusive J C sha256 tls crypto h₀ h i j s u p q idle reached at_i at_j other
          holds holds')
