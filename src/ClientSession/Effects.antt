-- ===== src/ClientSession/Effects.antt =====
-- How each callback of src/client_session.cpp changes the locks, together with the stream that the
-- session holds: it takes one lock, keeps it, or gives it back.
use mfsync.Common.{
  ℕ, suc, ◌≡◌, refl, sym, ap, ◌∙◌, false, ◌||◌, Option, none, some, arith, ok, throws, undefined,
  Outcome, Post, Post-after, ◌⊎◌, inl, inr, Bool-cases, ◌≢◌,
}
use mathlib.Core.Path.{subst}
use mfsync.Info.{FileInformation, RequestedFile}
use mfsync.Disk.{Entries}
use mfsync.FileHandler.{FileHandler, is_stored, is_blocked}
use mfsync.FileHandler.Operations.{Answers, OfstreamWrapper, release, clear_lock, create_file}
use mfsync.FileHandler.Locks.{create_file-Result, create_file_in_progress}
use mfsync.Transfer
use mfsync.Transfer.{
  Next, reads, complete, finalized, fails, read_file_chunk, handle_read_file_chunk,
}
use mfsync.ClientSession.{
  Phase, connecting, securing, greeting, awaits_handshake, requesting, awaits_response, confirming,
  receiving, ended, Connection, Shared, Reaction, held, dropped, closes, deref, proceed,
  begin_receiving, transfer_of,
}
use mfsync.ClientSession.Locks.{released, unlocked, taken, Finishes, Leaves, read_file_chunk-Leaves}

abbrev pub Same : FileHandler → FileHandler → Type 0
Same h h' = (h'.locked_files ≡ h.locked_files) × (h'.next_token ≡ h.next_token)

-- From the stream that a session holds to the one that it holds then, with the file of its request
-- before and after: the locks are the same, one is taken for a file that no live lock holds, or the
-- session's own is given back, with those of a finalized file.
abbrev pub Effect :
    FileHandler
    → FileHandler
    → FileInformation
    → FileInformation
    → Option OfstreamWrapper
    → Option OfstreamWrapper
    → Type 0
Effect h h' f f' none none = Same h h'
Effect h h' f f' none (some o) =
    (o.write_token ≡ some h.next_token)
    × (is_blocked h f' ≡ false)
    × (h'.locked_files ≡ taken h f')
    × (h'.next_token ≡ suc h.next_token)
Effect h h' f f' (some o) none =
    (h'.next_token ≡ h.next_token)
    × ((h'.locked_files ≡ released o.write_token h.locked_files)
        ⊎ (h'.locked_files ≡ released o.write_token (unlocked f h.locked_files)))
Effect h h' f f' (some o) (some p) = (p ≡ o) × (f' ≡ f) × Same h h'

-- A session that receives a file receives the one that it requested.
abbrev pub Matches : RequestedFile → Phase → Type 0
Matches q connecting = Unit
Matches q securing = Unit
Matches q greeting = Unit
Matches q awaits_handshake = Unit
Matches q (requesting o) = Unit
Matches q (awaits_response o) = Unit
Matches q (confirming o) = Unit
Matches q (receiving o n t) = t.requested ≡ q
Matches q ended = Unit

abbrev pub Changes : FileHandler → FileInformation → Option OfstreamWrapper → Reaction → Type 0
Changes h f x r =
    Effect h r.shared.handler f r.connection.requested.file_info x (held r.connection.phase)
    × Matches r.connection.requested r.connection.phase

clear_lock-released :
    (h : FileHandler) (t : Option ℕ)
    → ((clear_lock h t).locked_files ≡ released t h.locked_files)
      × ((clear_lock h t).next_token ≡ h.next_token)
unfolding clear_lock
clear_lock-released h none = (refl, refl)
clear_lock-released h (some t) = (refl, refl)

-- A session that ends, after locks that are the same, gives its own back.
dropped-Effect :
    (h g : FileHandler) (f f' : FileInformation) (x : Option OfstreamWrapper)
    → Same h g
    → Effect h (dropped x g) f f' x none
unfolding dropped release
dropped-Effect h g f f' none same = same
dropped-Effect h g f f' (some o) same =
    let back = clear_lock-released g o.write_token in
    (back.1 ∙ same.1, inl (back.0 ∙ ap (released o.write_token) same.0))

-- The same after its file was finalized.
finished-Effect :
    (h g : FileHandler) (f f' : FileInformation) (o : OfstreamWrapper)
    → Finishes h f g
    → Effect h (dropped (some o) g) f f' (some o) none
unfolding dropped release
finished-Effect h g f f' o (n, inl same) = dropped-Effect h g f f' (some o) (same, n)
finished-Effect h g f f' o (n, inr gone) =
    let back = clear_lock-released g o.write_token in
    (back.1 ∙ n, inr (back.0 ∙ ap (released o.write_token) gone))

pub closes-Changes :
    (s : Connection) (w : Shared) (h : FileHandler) (f : FileInformation)
    → Same h w.handler
    → Post (Changes h f (held s.phase)) (closes s w)
unfolding closes
closes-Changes s w h f same = (dropped-Effect h w.handler f _ (held s.phase) same, tt)

pub proceed-Changes :
    (s : Connection) (w : Shared) (o : OfstreamWrapper) (h : FileHandler)
    (x : Next × Transfer.ClientSession)
    → some o ≡ held s.phase
    → Leaves s.requested h x
    → Post (Changes h s.requested.file_info (some o)) (proceed s w o x)
unfolding proceed closes
proceed-Changes s w o h (reads n, u) e l =
    ((refl, refl, (ap (λ k. k.locked_files) l.1, ap (λ k. k.next_token) l.1)), l.0)
proceed-Changes s w o h (complete, u) e l =
    let same : Same h u.handler = (ap (λ k. k.locked_files) l.1, ap (λ k. k.next_token) l.1) in
    (
      subst
          (λ y.
            Effect h (dropped y u.handler) s.requested.file_info s.requested.file_info (some o)
              none)
          e (dropped-Effect h u.handler s.requested.file_info s.requested.file_info (some o) same),
      tt,
    )
proceed-Changes s w o h (finalized (ok b), u) e l = (
  subst
      (λ y.
        Effect h (dropped y u.handler) s.requested.file_info s.requested.file_info (some o) none)
      e (finished-Effect h u.handler s.requested.file_info s.requested.file_info o l.1),
  tt,
)
proceed-Changes s w o h (finalized (throws x), u) e l = tt
proceed-Changes s w o h (finalized undefined, u) e l = tt
proceed-Changes s w o h (fails x, u) e l = tt

pub begin_receiving-Changes :
    (s : Connection) (w : Shared) (o : OfstreamWrapper)
    → some o ≡ held s.phase
    → Post (Changes w.handler s.requested.file_info (some o)) (begin_receiving s w o)
unfolding begin_receiving transfer_of
begin_receiving-Changes s w o e =
    Post-after (Changes w.handler s.requested.file_info (some o)) (deref s.derived)
      (λ d. proceed s w o (read_file_chunk s.requested s.requested.offset, transfer_of s w d o))
      (λ d.
        proceed-Changes s w o w.handler _ e
          (read_file_chunk-Leaves (transfer_of s w d o) s.requested s.requested.offset))

-- What `create_file` has done to the locks, by its result.
abbrev pub Opens :
    FileHandler → FileHandler → RequestedFile → Outcome (Option OfstreamWrapper) → Type 0
Opens h h' r (ok none) = Same h h'
Opens h h' r (ok (some o)) =
    (o.write_token ≡ some h.next_token)
    × (is_blocked h r.file_info ≡ false)
    × (h'.locked_files ≡ taken h r.file_info)
    × (h'.next_token ≡ suc h.next_token)
Opens h h' r (throws x) = Same h h'
Opens h h' r undefined = Same h h'

never-Opens :
    (h h' : FileHandler) (r : RequestedFile) (x : Outcome (Option OfstreamWrapper))
    → ((o : OfstreamWrapper) → x ≢ ok (some o))
    → Same h h'
    → Opens h h' r x
never-Opens h h' r (ok none) n same = same
never-Opens h h' r (ok (some o)) n same = absurd (n o refl)
never-Opens h h' r (throws x) n same = same
never-Opens h h' r undefined n same = same

pub create_file-Opens :
    (h : FileHandler) (root : Entries) (os : Answers) (r : RequestedFile)
    → let c = create_file h root os r in Opens h c.handler c.requested c.result
create_file-Opens h root os r =
    let c = create_file h root os r in
    elim (Bool-cases (is_stored h r.file_info || is_blocked h r.file_info)) [
      | inl e ↦ rw (create_file_in_progress h root os r e) (refl, refl)
      | inr e ↦ elim (create_file-Result h root os r) [
        | inl (u, never) ↦
            never-Opens h c.handler c.requested c.result never
              (ap (λ k. k.locked_files) u.0, ap (λ k. k.next_token) u.0)
        | inr (o, given, l) ↦ subst (Opens h c.handler c.requested) (sym given) (
          l.1,
          (ap (is_blocked h) l.3 ∙ ground (arith, e)),
          (ap (λ k. k.locked_files) l.0 ∙ ap (taken h) (sym l.3)),
          ap (λ k. k.next_token) l.0,
        )
      ]
    ]
