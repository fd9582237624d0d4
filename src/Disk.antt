-- ===== src/Disk.antt =====
-- The part of a file system that the source uses through `std::filesystem` and the file streams: a
-- tree of named entries below the root, reached by path strings. Symbolic links are not followed.
pub mod Existing
use mathlib.Core.Option
use mathlib.Core.Option.{some-injective}
use mathlib.Core.List.{reverse}
use mfsync.Common.{
  ℕ, suc, ◌+◌, ◌≡◌, refl, Bool, true, false, ◌&&◌, ◌||◌, not, Option, none, some, arith,
}
use mfsync.Common.{
  List, [], ◌∷◌, ◌++◌, Bytes, codes, str_eq, str_eq_refl, starts_with, if◌then◌else◌,
}
use mfsync.Common.{parent, length, take, drop, ◌==◌, is_some, Bool-cases, Option-cases, inl, inr}

mutual
  pub data Node : Type 0 where
    -- A regular file: whether it can be read, and its content.
    regular : Bool → Bytes → Node
    directory : Entries → Node
    symlink : Node
    -- A device, a socket and the like.
    special : Node

  -- In the order in which a directory is iterated.
  pub data Entries : Type 0 where
    nil : Entries
    entry : Bytes → Node → Entries → Entries

-- `path / name`: an absolute name replaces the path, and no second separator is put.
unfoldable pub join : Bytes → Bytes → Bytes
unfolding starts_with
join path name =
    if starts_with (b'/' ∷ []) name
    then name
    else if starts_with (b'/' ∷ []) (reverse path)
    then path ++ name
    else path ++ (b'/' ∷ name)

-- The names along a path, resolved: empty names and `.` stand for nothing, `..` goes up. The first
-- list holds the names so far, the last of them first; the second one what is read of the next name.
push_name : Bytes → List Bytes → List Bytes
push_name name up =
    if str_eq name [] || str_eq name (codes ".")
    then up
    else if str_eq name (codes "..")
    then drop 1 up
    else name ∷ up

resolve_from : List Bytes → Bytes → Bytes → List Bytes
resolve_from up name [] = reverse (push_name (reverse name) up)
resolve_from up name (c ∷ path) =
    let next = if c == b'/' then push_name (reverse name) up else up in
    resolve_from next (if c == b'/' then [] else c ∷ name) path

unfoldable pub resolve : Bytes → List Bytes
unfolding resolve_from push_name str_eq
resolve path = resolve_from [] [] path

-- The node at the end of a list of names, the entries of a directory first.
unfoldable mutual
  pub lookup : Entries → Bytes → List Bytes → Option Node
  lookup nil c cs = none
  lookup (entry name x rest) c cs =
      let inside = enter x cs in
      let further = lookup rest c cs in if str_eq name c then inside else further

  pub enter : Node → List Bytes → Option Node
  enter x [] = some x
  enter (directory es) (c ∷ cs) = lookup es c cs
  enter (regular r t) (c ∷ cs) = none
  enter symlink (c ∷ cs) = none
  enter special (c ∷ cs) = none

-- New directories down to a node.
unfoldable pub chain : List Bytes → Node → Node
chain [] x = x
chain (c ∷ cs) x = directory (entry c (chain cs x) nil)

-- A node put in place at the end of a list of names, with the directories on the way; `none` if
-- something on the way is no directory.
unfoldable mutual
  pub put : Entries → Bytes → List Bytes → Node → Option Entries
  put nil c cs x = some (entry c (chain cs x) nil)
  put (entry name y rest) c cs x =
      let inside = Option.map (λ y'. entry name y' rest) (replace y cs x) in
      let further = Option.map (entry name y) (put rest c cs x) in
      if str_eq name c then inside else further

  pub replace : Node → List Bytes → Node → Option Node
  replace y [] x = some x
  replace (directory es) (c ∷ cs) x = Option.map directory (put es c cs x)
  replace (regular r t) (c ∷ cs) x = none
  replace symlink (c ∷ cs) x = none
  replace special (c ∷ cs) x = none

-- The entries without the node at the end of a list of names.
unfoldable mutual
  pub remove : Entries → Bytes → List Bytes → Entries
  remove nil c cs = nil
  remove (entry name y rest) c [] =
      let further = remove rest c [] in if str_eq name c then rest else entry name y further
  remove (entry name y rest) c (d ∷ cs) =
      let inside = remove_inside y d cs in
      let further = remove rest c (d ∷ cs) in
      if str_eq name c then entry name inside rest else entry name y further

  pub remove_inside : Node → Bytes → List Bytes → Node
  remove_inside (directory es) c cs = directory (remove es c cs)
  remove_inside (regular r t) c cs = regular r t
  remove_inside symlink c cs = symlink
  remove_inside special c cs = special

unfoldable pub node_along : Entries → List Bytes → Option Node
unfolding lookup
node_along root [] = some (directory root)
node_along root (c ∷ cs) = lookup root c cs

unfoldable pub node_at : Entries → Bytes → Option Node
unfolding node_along resolve
node_at root path = node_along root (resolve path)

-- `std::filesystem::exists`
abbrev pub exists : Entries → Bytes → Bool
exists root path = is_some (node_at root path)

unfoldable pub put_along : Entries → List Bytes → Node → Option Entries
unfolding put chain
put_along root [] x = none
put_along root (c ∷ cs) x = put root c cs x

unfoldable pub put_at : Entries → Bytes → Node → Option Entries
unfolding put_along resolve
put_at root path x = put_along root (resolve path) x

-- The directories along a list of names, made where they are missing; `none` if something on the way
-- is no directory.
unfoldable pub make_directories : Entries → List Bytes → Option Entries
unfolding node_along put_along
make_directories root cs =
    if is_some (node_along root cs) then some root else put_along root cs (directory nil)

remove_along : Entries → List Bytes → Entries
unfolding remove
remove_along root [] = root
remove_along root (c ∷ cs) = remove root c cs

-- Whether a node may take the place of what stands at a path: a directory that of an empty directory,
-- another node that of what is no directory.
unfoldable pub replaceable : Node → Option Node → Bool
replaceable x none = true
replaceable (directory es) (some (directory nil)) = true
replaceable (directory es) (some _) = false
replaceable x (some (directory es)) = false
replaceable x (some _) = true

-- `std::filesystem::rename`, into a directory that exists; `none` is the exception.
unfoldable pub rename : Entries → Bytes → Bytes → Option Entries
unfolding node_at remove_along put_at replaceable
rename root from to = elim (node_at root from) [
  | none ↦ none
  | some x ↦
      if exists root (parent to) && replaceable x (node_at root to)
      then put_at (remove_along root (resolve from)) to x
      else none
]

abbrev pub content_of : Node → Bytes
content_of (regular r t) = t
content_of (directory es) = []
content_of symlink = []
content_of special = []

-- `std::filesystem::file_size` of a node.
abbrev pub file_size : Node → ℕ
file_size x = length (content_of x)

lookup-chain :
    (c : Bytes) (cs : List Bytes) (x : Node) → lookup (entry c (chain cs x) nil) c cs ≡ some x
unfolding lookup chain
lookup-chain c [] x = rw (str_eq_refl c)
lookup-chain c (d ∷ ds) x = rw (str_eq_refl c) (lookup-chain d ds x)

mutual
  unfolding lookup put

  lookup-put :
      (es : Entries) (c : Bytes) (cs : List Bytes) (x : Node) (es' : Entries)
      → put es c cs x ≡ some es'
      → lookup es' c cs ≡ some x
  lookup-put nil c cs x es' h = rw (← some-injective _ _ h) (lookup-chain c cs x)
  lookup-put (entry name y rest) c cs x es' h = elim (Bool-cases (str_eq name c)) [
    | inl hit ↦ elim (Option-cases (replace y cs x)) [
      | inl e ↦ ground (arith, hit, e)
      | inr (y', e) ↦
          rw (← some-injective _ _ (rw (hit, e) at h)) (rw hit (enter-replace y cs x y' e))
    ]
    | inr miss ↦ elim (Option-cases (put rest c cs x)) [
      | inl e ↦ ground (arith, miss, e)
      | inr (r', e) ↦
          rw (← some-injective _ _ (rw (miss, e) at h)) (rw miss (lookup-put rest c cs x r' e))
    ]
  ]

  enter-replace :
      (y : Node) (cs : List Bytes) (x y' : Node) → replace y cs x ≡ some y' → enter y' cs ≡ some x
  enter-replace y [] x y' h = ground arith
  enter-replace (directory es) (c ∷ cs) x y' h = elim (Option-cases (put es c cs x)) [
    | inl e ↦ ground (arith, e)
    | inr (es', e) ↦ ground (arith, e, lookup-put es c cs x es' e)
  ]
  enter-replace (regular r t) (c ∷ cs) x y' h = cc
  enter-replace symlink (c ∷ cs) x y' h = cc
  enter-replace special (c ∷ cs) x y' h = cc

-- What was put at a path is found there.
pub node_at-put_at :
    (root root' : Entries) (path : Bytes) (x : Node)
    → put_at root path x ≡ some root'
    → node_at root' path ≡ some x
unfolding put_at node_at
node_at-put_at root root' path x h = along (resolve path) h
  where
    along : (cs : List Bytes) → put_along root cs x ≡ some root' → node_along root' cs ≡ some x
    along [] h = cc
    along (c ∷ cs) h = lookup-put root c cs x root' h

-- A renamed node is found at its new path.
pub node_at-rename :
    (root root' : Entries) (from to : Bytes)
    → rename root from to ≡ some root'
    → node_at root' to ≡ node_at root from
unfolding rename
node_at-rename root root' from to h = found (node_at root from) h
  where
    placed :
        (b : Bool) (x : Node)
        → (if b then put_at (remove_along root (resolve from)) to x else none) ≡ some root'
        → node_at root' to ≡ some x
    placed true x e = node_at-put_at (remove_along root (resolve from)) root' to x e
    placed false x e = cc

    found :
        (o : Option Node)
        → elim o [
          | none ↦ none
          | some x ↦
              if exists root (parent to) && replaceable x (node_at root to)
              then put_at (remove_along root (resolve from)) to x
              else none
        ]
          ≡ some root'
        → node_at root' to ≡ o
    found none e = cc
    found (some x) e = placed (exists root (parent to) && replaceable x (node_at root to)) x e
