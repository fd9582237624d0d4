-- ===== src/Fetcher/Hosts.antt =====
-- Which hosts src/file_fetcher.cpp lists, and which it asks for their files.
use mfsync.Common.{
  ◌≡◌, refl, ◌∙◌, ap, Bool, true, false, Option, none, some, List, [], ◌∷◌, Bytes, str_eq, any_of,
  if◌then◌else◌,
}
use mfsync.Common.{ok, ◌>>=◌, Post, Post-bind, Post-after, Post-known, Post-ok}
use mathlib.Core.Path.{subst}
use mathlib.Core.Option.{some-injective}
use mfsync.Info.{HostInformation}
use mfsync.Json.{JsonLib}
use mfsync.Crypto.{is_allowed}
use mfsync.Protocol.Fields.{get_host_info_from_message}
use mfsync.Fetcher.{
  Fetcher, Received, was_printed, print_host, received_host, handle_receive_from, print_all,
}

-- No key of the second list stands in the first, and none stands in it twice.
abbrev pub AllNew : List Bytes → List Bytes → Type 0
AllNew seen [] = Unit
AllNew seen (k ∷ ks) = (any_of (λ s. str_eq s k) seen ≡ false) × AllNew (k ∷ seen) ks

abbrev RemembersKey : Fetcher → Option Bytes → List Bytes → Type 0
RemembersKey f none after = after ≡ f.host_infos
RemembersKey f (some k) after = (was_printed f k ≡ false) × (after ≡ k ∷ f.host_infos)

-- A key that is printed was not printed before, and is remembered.
abbrev Remembers : Fetcher → Received → Type 0
Remembers f r = RemembersKey f r.printed r.fetcher.host_infos

if-cases :
    (P : Received → Type 0) (b : Bool) (x y : Received)
    → (b ≡ true → P x)
    → (b ≡ false → P y)
    → P (if b then x else y)
if-cases P true x y p q = p refl
if-cases P false x y p q = q refl

print_host-Remembers : (f : Fetcher) (h : HostInformation) → Remembers f (print_host f h)
unfolding print_host
print_host-Remembers f h =
    if-cases (Remembers f) (was_printed f h.public_key) _ _ (λ before. refl) (λ new. (new, refl))

received_host-Remembers :
    (f : Fetcher) (h : Option HostInformation) → Remembers f (received_host f h)
unfolding received_host
received_host-Remembers f none = refl
received_host-Remembers f (some h) =
    if-cases (Remembers f) f.list_host_infos _ _ (λ listing. print_host-Remembers f h)
      (λ fetching.
        if-cases (Remembers f) (is_allowed f.crypto h.public_key) _ _ (λ allowed. refl)
          (λ other. refl))

AllNew-RemembersKey :
    (f : Fetcher) (p : Option Bytes) (after ks : List Bytes)
    → RemembersKey f p after
    → AllNew after ks
    → AllNew f.host_infos (elim p [ none ↦ ks | some k ↦ k ∷ ks ])
AllNew-RemembersKey f none after ks m n = subst (λ s. AllNew s ks) m n
AllNew-RemembersKey f (some k) after ks (new, m) n = (new, subst (λ s. AllNew s ks) m n)

-- A session that is started is for the host of the datagram.
abbrev Starts : Fetcher → Option HostInformation → Received → Type 0
Starts f announced r =
    (h : HostInformation)
    → r.session ≡ some h
    → (is_allowed f.crypto h.public_key ≡ true)
      × (f.list_host_infos ≡ false)
      × (announced ≡ some h)
      × (r.printed ≡ none)

received_host-Starts :
    (f : Fetcher) (announced : Option HostInformation)
    → Starts f announced (received_host f announced)
unfolding received_host print_host
received_host-Starts f none = λ h e. cc
received_host-Starts f (some a) =
    if-cases (Starts f (some a)) f.list_host_infos _ _
      (λ listing.
        if-cases (Starts f (some a)) (was_printed f a.public_key) _ _ (λ before h e. cc)
          (λ new h e. cc))
      (λ fetching.
        if-cases (Starts f (some a)) (is_allowed f.crypto a.public_key) _ _
          (λ allowed h e. (
            subst (λ x. is_allowed f.crypto x.public_key ≡ true) (some-injective _ _ e) allowed,
            fetching,
            e,
            refl,
          ))
          (λ other h e. cc))

module _ (J : JsonLib) where
  receive-Remembers :
      (f : Fetcher) (d : Option (Bytes × Bytes)) → Post (Remembers f) (handle_receive_from J f d)
  unfolding handle_receive_from
  receive-Remembers f none = refl
  receive-Remembers f (some (datagram, address)) =
      Post-after (Remembers f) (get_host_info_from_message J datagram address)
        (λ h. ok (received_host f h)) (λ h. received_host-Remembers f h)

  print_all-Post :
      (f : Fetcher) (ds : List (Option (Bytes × Bytes)))
      → Post (AllNew f.host_infos) (print_all J f ds)
  unfolding print_all
  print_all-Post f [] = tt
  print_all-Post f (d ∷ ds) =
      Post-bind (Remembers f) (AllNew f.host_infos) (handle_receive_from J f d)
        (λ r.
          print_all J r.fetcher ds
          >>= (λ rest. ok (elim r.printed [ none ↦ rest | some k ↦ k ∷ rest ])))
        (receive-Remembers f d)
        (λ r m.
          Post-bind (AllNew r.fetcher.host_infos) (AllNew f.host_infos) (print_all J r.fetcher ds)
            (λ rest. ok (elim r.printed [ none ↦ rest | some k ↦ k ∷ rest ]))
            (print_all-Post r.fetcher ds)
            (λ rest n. AllNew-RemembersKey f r.printed r.fetcher.host_infos rest m n))

  -- Whatever datagrams come in, the keys that are listed are all different, and none of them was
  -- listed before.
  pub print_all-AllNew :
      (f : Fetcher) (ds : List (Option (Bytes × Bytes))) (ks : List Bytes)
      → print_all J f ds ≡ ok ks
      → AllNew f.host_infos ks
  print_all-AllNew f ds ks =
      Post-ok (AllNew f.host_infos) (print_all J f ds) ks (print_all-Post f ds)

  -- A session is started only while hosts are not being listed, for the host that the datagram
  -- announced, if the key of that host is allowed; nothing is printed then.
  pub session_allowed :
      (f : Fetcher) (datagram address : Bytes) (r : Received) (h : HostInformation)
      → handle_receive_from J f (some (datagram, address)) ≡ ok r
      → r.session ≡ some h
      → (is_allowed f.crypto h.public_key ≡ true)
        × (f.list_host_infos ≡ false)
        × (get_host_info_from_message J datagram address ≡ ok (some h))
        × (r.printed ≡ none)
  unfolding handle_receive_from
  session_allowed f datagram address r h e s =
      let parsed = get_host_info_from_message J datagram address in
      let known : (announced : Option HostInformation) × (parsed ≡ ok announced)
          × Starts f announced r =
        Post-ok
          (λ x.
            (announced : Option HostInformation) × (parsed ≡ ok announced) × Starts f announced x)
          (handle_receive_from J f (some (datagram, address))) r
          (Post-known _ parsed (λ a. ok (received_host f a))
            (λ a p. (a, p, received_host-Starts f a)))
          e in
      let found = known.2 h s in (found.0, found.1, known.1 ∙ ap ok found.2, found.3)
