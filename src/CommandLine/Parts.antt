-- ===== src/CommandLine/Parts.antt =====
-- Which parts src/main.cpp starts in each mode.
use mfsync.Common.{◌≡◌, refl, Bool, true, false, not, ◌&&◌, Option, List, Bytes, is_some}
use mathlib.Core.Path.{subst}
use mfsync.CommandLine.{
  Mode, sync, share, fetch, get, no_mode, Options, System, Check, Stop, stops, goes, ◌>>=◌, unless,
  unknown_mode, no_destination, is_fetch, is_no_mode, mode_of, read_mode, read_destination,
  read_server_tls,
}
use mfsync.CommandLine.Keys.{read_keys}
use mfsync.CommandLine.Network.{Addresses, read_addresses}
use mfsync.CommandLine.Plans.{Plan, plan, main}

-- Which parts run.
pub record Parts : Type 0 where
  pub storage : Bool
  pub server : Bool
  pub fetcher : Bool
  pub receiver : Bool

abbrev pub parts : Plan → Parts
parts p = record {
  storage = is_some p.storage;
  server = p.serves;
  fetcher = p.fetches;
  receiver = is_some p.receiver;
}

-- The table of the modes: `share` offers, `fetch` only listens, `get` only receives, `sync` does both.
abbrev pub parts_of : Mode → Parts
parts_of sync = record { storage = true; server = true; fetcher = true; receiver = true }
parts_of share = record { storage = true; server = true; fetcher = false; receiver = false }
parts_of fetch = record { storage = false; server = false; fetcher = true; receiver = false }
parts_of get = record { storage = true; server = false; fetcher = true; receiver = true }
parts_of no_mode = record { storage = false; server = false; fetcher = false; receiver = false }

goes-inverse :
    {A : Type 0} {B : Type 0} (m : Check A) (f : A → Check B) (b : B)
    → (m >>= f) ≡ goes b
    → (a : A) × (m ≡ goes a) × (f a ≡ goes b)
goes-inverse (stops v) f b e = cc
goes-inverse (goes a) f b e = (a, refl, e)

goes-injective : {A : Type 0} (a b : A) → goes a ≡ goes b → a ≡ b
goes-injective a b e = cc

unless-false : (b : Bool) (v : Stop) → unless b v ≡ goes tt → b ≡ false
unless-false true v e = cc
unless-false false v e = refl

-- The mode that `main` goes on with.
abbrev Chosen : Options → Mode → Type 0
Chosen o m =
    (mode_of o.list_hosts o.mode ≡ goes m)
    × (is_no_mode m ≡ false)
    × ((not (is_fetch m) && not (is_some o.destination)) ≡ false)

read_mode-Chosen : (o : Options) (m : Mode) → read_mode o ≡ goes m → Chosen o m
unfolding read_mode
read_mode-Chosen o m e =
    let (m', chosen, rest) = goes-inverse (mode_of o.list_hosts o.mode) _ m e in
    let (_, known, rest') = goes-inverse (unless (is_no_mode m') unknown_mode) _ m rest in
    let (_, placed, last) =
      goes-inverse (unless (not (is_fetch m') && not (is_some o.destination)) no_destination) _ m
        rest' in
    let same : m' ≡ m = goes-injective m' m last in
    subst (Chosen o) same (chosen, unless-false _ _ known, unless-false _ _ placed)

plan-parts :
    (o : Options) (keys : Bytes × List Bytes) (m : Mode) (a : Addresses) (d : Bytes × List Bytes)
    (tls : Option (Bytes × Bytes))
    → is_no_mode m ≡ false
    → parts (plan o keys m a d tls) ≡ parts_of m
unfolding plan
plan-parts o keys sync a d tls e = refl
plan-parts o keys share a d tls e = refl
plan-parts o keys fetch a d tls e = refl
plan-parts o keys get a d tls e = refl
plan-parts o keys no_mode a d tls e = cc

-- If the program starts its parts, then they are those of the table for its mode. The mode is a known
-- one, the one that the options ask for, which is to fetch where hosts are to be listed, and every
-- other mode than fetching has a destination.
pub main-parts :
    (o : Options) (sys : System) (p : Plan)
    → main o sys ≡ goes p
    → (parts p ≡ parts_of p.mode)
      × (mode_of o.list_hosts o.mode ≡ goes p.mode)
      × (is_no_mode p.mode ≡ false)
      × ((not (is_fetch p.mode) && not (is_some o.destination)) ≡ false)
unfolding main plan
main-parts o sys p e =
    let (keys, _, e₁) = goes-inverse (read_keys o sys) _ p e in
    let (m, chosen, e₂) = goes-inverse (read_mode o) _ p e₁ in
    let (a, _, e₃) = goes-inverse (read_addresses o sys) _ p e₂ in
    let (d, _, e₄) = goes-inverse (read_destination o.destination) _ p e₃ in
    let (tls, _, e₅) = goes-inverse (read_server_tls o.server_tls) _ p e₄ in
    let (asked, known, placed) = read_mode-Chosen o m chosen in
    let table = plan-parts o keys m a d tls known in
    subst
      (λ q.
        (parts q ≡ parts_of q.mode)
        × (mode_of o.list_hosts o.mode ≡ goes q.mode)
        × (is_no_mode q.mode ≡ false)
        × ((not (is_fetch q.mode) && not (is_some o.destination)) ≡ false))
      (goes-injective (plan o keys m a d tls) p e₅) (table, asked, known, placed)
