-- ===== src/Crypto/KeyFile/Reloading.antt =====
-- The key pair that src/crypto.cpp has saved is the one that it loads.
use mfsync.Common.{
  ◌≡◌, refl, ap, ◌∙◌, Bool, true, false, Option, none, some, Bytes, Outcome, ok, ok-injective,
  throws, undefined,
}
use mfsync.Disk.{Entries, regular, put_at, node_at-put_at}
use mfsync.Crypto.{CryptoHandler}
use mfsync.Crypto.KeyFile.{
  KeyPair, KeyLib, IsLawful, accept, load_node, load_from_file, save_after, save_to_file, saved,
  create_after, create, init_after, init,
}

create-load :
    (K : KeyLib) (root : Entries) (path : Bytes) (b : Bool) (fresh k : KeyPair)
    → load_from_file K root path ≡ ok (some k)
    → create K root path b fresh ≡ (ok k, root)
unfolding create create_after
create-load K root path b fresh k e = rw e refl

put-save_after :
    (K : KeyLib) (root root' : Entries) (x : Option Entries)
    → save_after K root x ≡ (ok tt, root')
    → x ≡ some root'
unfolding save_after
put-save_after K root root' none e = cc
put-save_after K root root' (some after) e = ap some (ap (λ p. p.1) e)

saved_ok :
    (K : KeyLib) (root' : Entries) (fresh k : KeyPair) (y : Outcome (Unit {0}) × Entries)
    → saved K fresh y ≡ (ok k, root')
    → (y ≡ (ok tt, root')) × (fresh ≡ k)
unfolding saved
saved_ok K root' fresh k (ok u, after) e =
    (ap (λ p. (ok tt, p.1)) e, ok-injective fresh k (ap (λ p. p.0) e))
saved_ok K root' fresh k (throws x, after) e = cc
saved_ok K root' fresh k (undefined, after) e = cc

load-save_to_file :
    (K : KeyLib) (root root' : Entries) (path : Bytes) (b : Bool) (k : KeyPair)
    → IsLawful K
    → K.validate k ≡ true
    → save_to_file K root path b k ≡ (ok tt, root')
    → load_from_file K root' path ≡ ok (some k)
unfolding load_from_file load_node save_to_file accept
load-save_to_file K root root' path true k L valid e =
    let file = regular true (K.save k) in
    let there =
      node_at-put_at root root' path file (put-save_after K root root' (put_at root path file) e) in
    rw (there, L.load-save, valid) refl
load-save_to_file K root root' path false k L valid e = cc

create_after_stored :
    (K : KeyLib) (root root' : Entries) (path : Bytes) (b : Bool) (fresh k : KeyPair)
    (x : Outcome (Option KeyPair))
    → IsLawful K
    → K.validate fresh ≡ true
    → load_from_file K root path ≡ x
    → create_after K root path b fresh x ≡ (ok k, root')
    → load_from_file K root' path ≡ ok (some k)
unfolding create_after
create_after_stored K root root' path b fresh k (ok (some l)) L valid q e = cc
create_after_stored K root root' path b fresh k (ok none) L valid q e =
    let (written, same) = saved_ok K root' fresh k (save_to_file K root path b fresh) e in
    load-save_to_file K root root' path b fresh L valid written ∙ ap (λ x. ok (some x)) same
create_after_stored K root root' path b fresh k (throws x) L valid q e = cc
create_after_stored K root root' path b fresh k undefined L valid q e = cc

create_twice :
    (K : KeyLib) (root root' : Entries) (path : Bytes) (b b' : Bool) (fresh fresh' k : KeyPair)
    → IsLawful K
    → K.validate fresh ≡ true
    → create K root path b fresh ≡ (ok k, root')
    → create K root' path b' fresh' ≡ (ok k, root')
unfolding create
create_twice K root root' path b b' fresh fresh' k L valid e =
    create-load K root' path b' fresh' k
      (create_after_stored K root root' path b fresh k (load_from_file K root path) L valid refl e)

-- The pair that `init` has put into the handler.
created_by_init :
    (K : KeyLib) (h h₁ : CryptoHandler) (root' : Entries) (x : Outcome KeyPair × Entries)
    → init_after K h x ≡ (ok true, h₁, root')
    → x ≡ (ok (record { private_key = h₁.private_key; public_key = h₁.public_key }), root')
unfolding init_after
created_by_init K h h₁ root' (ok k, root) e =
    ap (λ p. (ok (record { private_key = p.1.private_key; public_key = p.1.public_key }), p.2)) e
created_by_init K h h₁ root' (throws x, root) e = cc
created_by_init K h h₁ root' (undefined, root) e = cc

-- If `init` succeeds, where a pair that was generated for it validates and what is saved is loaded
-- again, then each later `init` on the files that it has left, by any handler and whatever would be
-- generated then, succeeds with the same key pair and leaves the files alone.
pub init_twice :
    (K : KeyLib) (h h' h₁ : CryptoHandler) (root root' : Entries) (path : Bytes) (b b' : Bool)
    (fresh fresh' : KeyPair)
    → IsLawful K
    → K.validate fresh ≡ true
    → init K h root path b fresh ≡ (ok true, h₁, root')
    → init K h' root' path b' fresh'
      ≡ (ok true, record h' { private_key = h₁.private_key; public_key = h₁.public_key }, root')
unfolding init init_after
init_twice K h h' h₁ root root' path b b' fresh fresh' L valid e =
    let made = created_by_init K h h₁ root' (create K root path b fresh) e in
    ap (init_after K h') (create_twice K root root' path b b' fresh fresh' _ L valid made)
