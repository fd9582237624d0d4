-- ===== src/Host/Offers.antt =====
-- The files that the sessions of one host ask for, and the offers that they were taken from.
use mathlib.Core.Path.{subst}
use mfsync.Common.{
  ℕ, ◌≡◌, refl, sym, ap, ◌∙◌, ◌⊎◌, Bool, true, false, inl, inr, Option, none, some, List, [], ◌∷◌,
  ◌++◌, get_elem?, set, Bool-cases, str_eq, str_eq_iff, str_eq_refl, arith, Post,
}
use mfsync.Info.{FileInformation, AvailableFile, available_file_named, file_information_eq}
use mfsync.Deque
use mfsync.NameSet
use mfsync.Crypto.{CryptoHandler}
use mfsync.FileHandler.{FileHandler, in_progress}
use mfsync.FileHandler.Operations.{OfstreamWrapper}
use mfsync.FileHandler.Keeping.{Keeps, Grows}
use mfsync.Receive.{add_to_request_queue, same_name}
use mfsync.ClientSession
use mfsync.ClientSession.{Connection, created, start_request, begin, take_file, closes}
use mfsync.ClientSession.Frames.{file_in, AsksOnly}
use mfsync.Host.Places.{set_cases, some-injective}

-- The file is the one that is available under its name.
abbrev pub Offered : FileHandler → Option FileInformation → Type 0
Offered h none = Unit {0}
Offered h (some f) =
    (a : AvailableFile) × (NameSet.find f.file_name h.available_files ≡ some a) × (a.file_info ≡ f)

abbrev pub AllOffered : FileHandler → List AvailableFile → Type 0
AllOffered h [] = Unit {0}
AllOffered h (a ∷ as') = Offered h (some a.file_info) × AllOffered h as'

-- What is queued and what the sessions ask for is available as it is.
abbrev pub Agrees : FileHandler → List AvailableFile → List Connection → Type 0
Agrees h queue ds =
    AllOffered h queue
    × ((i : ℕ) (s : Connection)
        → get_elem? ds i ≡ some s
        → Offered h (file_in s.phase s.requested.file_info))

Grows-Offered :
    (h h' : FileHandler) (f : Option FileInformation) → Grows h h' → Offered h f → Offered h' f
Grows-Offered h h' none grows o = tt
Grows-Offered h h' (some f) grows (a, found, same) = (a, grows f.file_name a found, same)

pub Grows-AllOffered :
    (h h' : FileHandler) (as' : List AvailableFile)
    → Grows h h'
    → AllOffered h as'
    → AllOffered h' as'
Grows-AllOffered h h' [] grows o = tt
Grows-AllOffered h h' (a ∷ as') grows (o, os) =
    (Grows-Offered h h' (some a.file_info) grows o, Grows-AllOffered h h' as' grows os)

pub Grows-Agrees :
    (h h' : FileHandler) (queue : List AvailableFile) (ds : List Connection)
    → Grows h h'
    → Agrees h queue ds
    → Agrees h' queue ds
Grows-Agrees h h' queue ds grows (o, asked) = (
  Grows-AllOffered h h' queue grows o,
  (λ i s e. Grows-Offered h h' (file_in s.phase s.requested.file_info) grows (asked i s e)),
)

append-AllOffered :
    (h : FileHandler) (as' : List AvailableFile) (a : AvailableFile)
    → AllOffered h as'
    → Offered h (some a.file_info)
    → AllOffered h (as' ++ (a ∷ []))
append-AllOffered h [] a os o = (o, tt)
append-AllOffered h (b ∷ as') a os o = (os.0, append-AllOffered h as' a os.1 o)

pub queues-AllOffered :
    (h : FileHandler) (a : AvailableFile) (queue : List AvailableFile)
    → Offered h (some a.file_info)
    → AllOffered h queue
    → AllOffered h (add_to_request_queue h a queue)
unfolding add_to_request_queue Deque.push_back
queues-AllOffered h a queue o os = elim (Bool-cases (Deque.contains (same_name a) queue)) [
  | inl there ↦ simp there os
  | inr new ↦ simp new (elim (Bool-cases (in_progress h a)) [
    | inl busy ↦ simp busy os
    | inr idle ↦ simp idle (append-AllOffered h queue a os o)
  ])
]

-- The session at one place is replaced by one that asks for an offered file.
pub replace-Agrees :
    (h : FileHandler) (queue : List AvailableFile) (ds : List Connection) (i : ℕ)
    (s s' : Connection)
    → get_elem? ds i ≡ some s
    → Agrees h queue ds
    → Offered h (file_in s'.phase s'.requested.file_info)
    → Agrees h queue (set ds i s')
replace-Agrees h queue ds i s s' there (os, asked) o = (
  os,
  (λ j u e. elim (set_cases ds i j s' u s there e) [
    | inl (_, same) ↦ subst (λ c. Offered h (file_in c.phase c.requested.file_info)) same o
    | inr (_, before) ↦ asked j u before
  ]),
)

pub file_in-cases :
    (p : ClientSession.Phase) (f : FileInformation)
    → (p ≡ ClientSession.ended) ⊎ (file_in p f ≡ some f)
file_in-cases ClientSession.ended f = inl refl
file_in-cases ClientSession.connecting f = inr refl
file_in-cases ClientSession.securing f = inr refl
file_in-cases ClientSession.greeting f = inr refl
file_in-cases ClientSession.awaits_handshake f = inr refl
file_in-cases (ClientSession.requesting o) f = inr refl
file_in-cases (ClientSession.awaits_response o) f = inr refl
file_in-cases (ClientSession.confirming o) f = inr refl
file_in-cases (ClientSession.receiving o n t) f = inr refl

pub file_in-held :
    (p : ClientSession.Phase) (f : FileInformation) (o : OfstreamWrapper)
    → ClientSession.held p ≡ some o
    → file_in p f ≡ some f
file_in-held (ClientSession.requesting o) f x e = refl
file_in-held (ClientSession.awaits_response o) f x e = refl
file_in-held (ClientSession.confirming o) f x e = refl
file_in-held (ClientSession.receiving o n t) f x e = refl
file_in-held p f x e = cc

pub AsksOnly-Offered :
    (h : FileHandler) (f : FileInformation) (x : Option FileInformation)
    → AsksOnly f x
    → Offered h (some f)
    → Offered h x
AsksOnly-Offered h f none e o = tt
AsksOnly-Offered h f (some g) e o = subst (λ k. Offered h (some k)) (sym e) o

-- `start_request` takes the file of a session from the queue.
pub begin-Agrees :
    (tls : Bool) (crypto : CryptoHandler) (w : ClientSession.Shared) (queue : List AvailableFile)
    → AllOffered w.handler queue
    → Post
        (λ r.
          Keeps w.handler r.shared.handler
          × AllOffered w.handler r.shared.queue
          × Offered w.handler (file_in r.connection.phase r.connection.requested.file_info))
        (begin (created tls crypto) w (Deque.try_pop queue))
unfolding begin take_file closes Deque.try_pop
begin-Agrees tls crypto w [] os = (refl, tt, tt)
begin-Agrees tls crypto w (a ∷ queue) (o, os) = (refl, os, o)

file_information_eq_refl : (f : FileInformation) → file_information_eq f f ≡ true
unfolding file_information_eq
file_information_eq_refl f = ground (arith, str_eq_refl f.file_name)

-- Two offered files of one name are the same.
pub names-apart :
    (h : FileHandler) (f g : FileInformation)
    → Offered h (some f)
    → Offered h (some g)
    → file_information_eq f g ≡ false
    → str_eq f.file_name g.file_name ≡ false
names-apart h f g (a, found, same) (b, found', same') differ =
    elim (Bool-cases (str_eq f.file_name g.file_name)) [
      | inr apart ↦ apart
      | inl one ↦
          let name = (str_eq_iff f.file_name g.file_name).0 one in
          let ab =
            some-injective a b
              (sym found ∙ ap (λ k. NameSet.find k h.available_files) name ∙ found') in
          let fg : f ≡ g = sym same ∙ ap (λ x. x.file_info) ab ∙ same' in
          let clash : true ≡ false =
            sym (subst (λ x. file_information_eq f x ≡ true) fg (file_information_eq_refl f))
            ∙ differ in
          cc
    ]
