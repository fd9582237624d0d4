-- ===== src/Disk/Existing.antt =====
-- Writing a regular file that exists always succeeds.
use mfsync.Common.{Bool, true, Option, none, some, List, [], ◌∷◌, Bytes, ◌≡◌, str_eq, refl}
use mfsync.Common.{Bool-cases, inl, inr, is_some}
use mathlib.Core.Option
use mfsync.Disk.{
  Node, Entries, directory, regular, symlink, special, nil, entry, lookup, enter, put, replace,
  resolve, node_along, node_at, put_along, put_at,
}

is_some-map :
    {A B : Type 0} (f : A → B) (o : Option A) → is_some o ≡ true → is_some (Option.map f o) ≡ true
is_some-map f none h = cc
is_some-map f (some a) h = refl

mutual
  unfolding lookup put

  put_present :
      (es : Entries) (c : Bytes) (cs : List Bytes) (x : Node)
      → is_some (lookup es c cs) ≡ true
      → is_some (put es c cs x) ≡ true
  put_present nil c cs x h = cc
  put_present (entry name y rest) c cs x h = elim (Bool-cases (str_eq name c)) [
    | inl hit ↦ rw hit (
        is_some-map (λ y'. entry name y' rest) (replace y cs x)
          (replace_present y cs x (rw hit at h)))
    | inr miss ↦
        rw miss
          (is_some-map (entry name y) (put rest c cs x) (put_present rest c cs x (rw miss at h)))
  ]

  replace_present :
      (y : Node) (cs : List Bytes) (x : Node)
      → is_some (enter y cs) ≡ true
      → is_some (replace y cs x) ≡ true
  replace_present y [] x h = refl
  replace_present (directory es) (c ∷ cs) x h =
      is_some-map directory (put es c cs x) (put_present es c cs x h)
  replace_present (regular r t) (c ∷ cs) x h = cc
  replace_present symlink (c ∷ cs) x h = cc
  replace_present special (c ∷ cs) x h = cc

-- Where a regular file is, another can be put in its place.
pub put_at_existing :
    (root : Entries) (path : Bytes) (readable : Bool) (content : Bytes) (x : Node)
    → node_at root path ≡ some (regular readable content)
    → is_some (put_at root path x) ≡ true
unfolding node_at put_at node_along put_along
put_at_existing root path readable content x h = along (resolve path) h
  where
    along :
        (cs : List Bytes)
        → node_along root cs ≡ some (regular readable content)
        → is_some (put_along root cs x) ≡ true
    along [] h = cc
    along (c ∷ cs) h = put_present root c cs x (rw h refl)
