-- ===== src/Host/Changes.antt =====
-- A session's callback keeps the locks of a host with its streams.
use mfsync.Common.{
  ℕ, suc, ◌≤◌, ◌≡◌, ◌≢◌, refl, sym, ap, ◌∙◌, true, false, Option, none, some, List, [], ◌∷◌, ◌++◌,
  arith, get_elem?, set, get_elem?-set_self, get_elem?-set_other, ◌⊎◌, inl, inr, Option-cases,
}
use mathlib.Core.Path.{subst}
use native.Mathlib.Decide.{ℕ_discrete}
use mfsync.Info.{FileInformation, file_information_eq}
use mfsync.FileHandler.{FileHandler, Lock, is_blocked}
use mfsync.FileHandler.Operations.{OfstreamWrapper, clear_token}
use mfsync.FileHandler.Invariant.{
  Exclusive, held, append-Exclusive, clear_token-Exclusive, erase_if-Exclusive,
}
use mfsync.FileHandler.Tokens.{
  lock_of, Distinct, Exclusive-lock_of, lock_of-append_none, lock_of-clear_token,
  lock_of-erase_if-none, lock_of-erase_if_other, append-Distinct, clear_token-Distinct,
  erase_if-Distinct,
}
use mfsync.ClientSession
use mfsync.ClientSession.{Connection}
use mfsync.ClientSession.Effects.{Matches, Effect, Same}
use mfsync.ClientSession.Locks.{unlocked, released}
use mfsync.Host.Ownership.{token, token_of, HasLock, Backed, Owned}
use mfsync.Host.Places.{
  some-injective, some-ne-none, set_cases, new_token, not_cleared, clear-HasLock, append-HasLock,
  lock_of-token,
}

module _ (ls : List Lock) (n : ℕ) (ds : List Connection) (o : Owned ls n ds) (i : ℕ)
    (s : Connection) (there : get_elem? ds i ≡ some s) where
  -- Another session than the one at `i`, which holds this token.
  Other : ℕ → Type 0
  Other t = (j : ℕ) × (u : Connection) × (i ≢ j) × (get_elem? ds j ≡ some u) × (token u ≡ some t)

  replace-Owned :
      (ls' : List Lock) (n' : ℕ) (s' : Connection)
      → Exclusive ls'
      → Distinct ls'
      → ((t : ℕ) → n' ≤ t → lock_of t ls' ≡ none)
      → Backed ls' s'
      → ((j : ℕ) (u : Connection) → i ≢ j → get_elem? ds j ≡ some u → Backed ls' u)
      → ((t : ℕ) → token s' ≡ some t → Other t → ⊥)
      → ((t : ℕ) (f : FileInformation) → lock_of t ls' ≡ some f → (token s' ≡ some t) ⊎ Other t)
      → Owned ls' n' (set ds i s')
  unfolding Other
  replace-Owned ls' n' s' x d fresh own others apart kept = record {
    exclusive = x;
    distinct = d;
    fresh = fresh;
    backed = λ j u e. elim (set_cases ds i j s' u s there e) [
      | inl (same, is) ↦ subst (Backed ls') is own
      | inr (other, before) ↦ others j u other before
    ];
    apart = λ j k t u v e f p q. elim (set_cases ds i j s' u s there e) [
      | inl (same, is) ↦ elim (set_cases ds i k s' v s there f) [
        | inl (same', is') ↦ sym same ∙ same'
        | inr (other, before) ↦ absurd (apart t (ap token is ∙ p) (k, v, other, before, q))
      ]
      | inr (other, before) ↦ elim (set_cases ds i k s' v s there f) [
        | inl (same', is') ↦ absurd (apart t (ap token is' ∙ q) (j, u, other, before, p))
        | inr (other', before') ↦ o.apart j k t u v before before' p q
      ]
    ];
    kept = λ t f e. elim (kept t f e) [
      | inl mine ↦ (i, s', get_elem?-set_self ds i s' s there, mine)
      | inr (j, u, other, before, q) ↦ (j, u, (get_elem?-set_other ds i j s' other ∙ before), q)
    ];
  }

  -- The session that holds a live lock is this one or another.
  holder : (t : ℕ) (f : FileInformation) → lock_of t ls ≡ some f → (token s ≡ some t) ⊎ Other t
  unfolding Other
  holder t f e =
      let (j, u, before, q) = o.kept t f e in
      elim (ℕ_discrete i j) [
        | yes same ↦
            inl (ap token (some-injective s u (sym there ∙ ap (get_elem? ds) same ∙ before)) ∙ q)
        | no other ↦ inr (j, u, other, before, q)
      ]

  -- Where the locks stay and the session holds the same stream, or none before and after.
  same-Owned : (s' : Connection) → token s' ≡ token s → Backed ls s' → Owned ls n (set ds i s')
  unfolding Other
  same-Owned s' e own =
      replace-Owned ls n s' o.exclusive o.distinct o.fresh own (λ j u other. o.backed j u)
        (λ t mine (j, u, other, before, q). other (o.apart i j t s u there before (sym e ∙ mine) q))
        λ t f found. elim (holder t f found) [ inl mine ↦ inl (e ∙ mine) | inr x ↦ inr x ]

  -- A new lock: the session held none, and no live lock holds the file.
  takes-Owned :
      (s' : Connection) (p : OfstreamWrapper) (f : FileInformation)
      → token s ≡ none
      → p.write_token ≡ some n
      → held f ls ≡ false
      → Matches s'.requested s'.phase
      → some p ≡ ClientSession.held s'.phase
      → s'.requested.file_info ≡ f
      → Owned
          (ls ++ (record { file_info = f; token = n; active = true } ∷ []))
          (suc n)
          (set ds i s')
  unfolding Other
  takes-Owned s' p f unheld new free matches holds same =
      let m : Lock = record { file_info = f; token = n; active = true } in
      let mine : token s' ≡ some n = sym (ap token_of holds) ∙ new in
      let nobody = o.fresh n (omega arith) in
      let found : lock_of n (ls ++ (m ∷ [])) ≡ some f =
        lock_of-append_none n ls m nobody ∙ ground arith in
      replace-Owned (ls ++ (m ∷ [])) (suc n) s' (append-Exclusive ls m free o.exclusive)
        (append-Distinct ls m nobody o.distinct)
        (λ t above. lock_of-append_none t ls m (o.fresh t (omega arith)) ∙ ground arith)
        (
          matches,
          subst (HasLock (ls ++ (m ∷ [])) s'.requested.file_info) holds
              (n, new, (found ∙ ap some (sym same))),
        )
        (λ j u other before. (
          (o.backed j u before).0,
          append-HasLock ls m u.requested.file_info (ClientSession.held u.phase)
              (o.backed j u before).1,
        ))
        (λ t here (j, u, other, before, q). some-ne-none _ (
          sym (
            lock_of-token ls u.requested.file_info (ClientSession.held u.phase) t
              (o.backed j u before).1 q)
          ∙ o.fresh t (omega (arith, some-injective n t (sym mine ∙ here)))))
        λ t g e. elim (Option-cases (lock_of t ls)) [
          | inl before ↦ inl (mine ∙ ap some (new_token t n f g ls before e))
          | inr (old, e') ↦ elim (holder t old e') [
            | inl was ↦ some-ne-none t (sym was ∙ unheld)
            | inr x ↦ inr x
          ]
        ]

  -- The session gives its lock back. What else goes from the locks is not another session's.
  gives-Owned :
      (base : List Lock) (t : ℕ) (s' : Connection)
      → token s ≡ some t
      → ClientSession.held s'.phase ≡ none
      → Matches s'.requested s'.phase
      → Exclusive base
      → Distinct base
      → ((u : ℕ) → lock_of u ls ≡ none → lock_of u base ≡ none)
      → ((u : ℕ) (f : FileInformation) → t ≢ u → lock_of u ls ≡ some f → lock_of u base ≡ some f)
      → Owned (clear_token t base) n (set ds i s')
  unfolding Other
  gives-Owned base t s' had holds matches x d gone stays =
      replace-Owned (clear_token t base) n s' (clear_token-Exclusive t base x)
        (clear_token-Distinct t base d)
        (λ u above. lock_of-clear_token u t base ∙ ground (arith, gone u (o.fresh u above)))
        (matches, subst (HasLock (clear_token t base) s'.requested.file_info) (sym holds) tt)
        (λ j u other before. (
          (o.backed j u before).0,
          clear-HasLock t ls base u.requested.file_info (ClientSession.held u.phase)
              (λ v. stays v u.requested.file_info)
              (λ q. other (o.apart i j t s u there before had q)) (o.backed j u before).1,
        ))
        (λ u mine. some-ne-none u (sym mine ∙ ap token_of holds))
        λ u g e.
          let (apart, found) = not_cleared t u g base e in
          elim (Option-cases (lock_of u ls)) [
            | inl before ↦ some-ne-none g (sym found ∙ gone u before)
            | inr (old, e') ↦ elim (holder u old e') [
              | inl was ↦ absurd (apart (some-injective t u (sym had ∙ was)))
              | inr other ↦ inr other
            ]
          ]

  drops-Owned :
      (t : ℕ) (s' : Connection)
      → token s ≡ some t
      → ClientSession.held s'.phase ≡ none
      → Matches s'.requested s'.phase
      → Owned (clear_token t ls) n (set ds i s')
  drops-Owned t s' had holds matches =
      gives-Owned ls t s' had holds matches o.exclusive o.distinct (λ u e. e) (λ u f apart e. e)

  finishes-Owned :
      (t : ℕ) (f : FileInformation) (s' : Connection)
      → token s ≡ some t
      → lock_of t ls ≡ some f
      → ClientSession.held s'.phase ≡ none
      → Matches s'.requested s'.phase
      → Owned (clear_token t (unlocked f ls)) n (set ds i s')
  finishes-Owned t f s' had its holds matches =
      gives-Owned (unlocked f ls) t s' had holds matches
        (erase_if-Exclusive (λ l. file_information_eq f l.file_info) ls o.exclusive)
        (erase_if-Distinct (λ l. file_information_eq f l.file_info) ls o.distinct)
        (λ u e. lock_of-erase_if-none u (λ l. file_information_eq f l.file_info) ls e)
        λ u g apart e.
          lock_of-erase_if_other u f g ls e (Exclusive-lock_of t u f g ls o.exclusive its e apart)

pub held_token :
    (ls : List Lock) (s : Connection) (p : OfstreamWrapper)
    → ClientSession.held s.phase ≡ some p
    → Backed ls s
    → (t : ℕ) × (p.write_token ≡ some t)
      × (token s ≡ some t)
      × (lock_of t ls ≡ some s.requested.file_info)
held_token ls s p holds b =
    let (t, e, found) = subst (HasLock ls s.requested.file_info) holds b.1 in
    (t, e, (ap token_of holds ∙ e), found)

pub Same-transport :
    (h h' : FileHandler) (ds : List Connection)
    → Same h h'
    → Owned h.locked_files h.next_token ds
    → Owned h'.locked_files h'.next_token ds
Same-transport h h' ds (l, n) o =
    subst (λ k. Owned h'.locked_files k ds) (sym n) (subst (λ x. Owned x h.next_token ds) (sym l) o)

-- Whatever a callback does to the locks, it does with its own stream.
pub Effect-Owned :
    (h h' : FileHandler) (ds : List Connection) (i : ℕ) (s s' : Connection)
    (x x' : Option OfstreamWrapper)
    → Owned h.locked_files h.next_token ds
    → get_elem? ds i ≡ some s
    → ClientSession.held s.phase ≡ x
    → ClientSession.held s'.phase ≡ x'
    → Matches s'.requested s'.phase
    → Effect h h' s.requested.file_info s'.requested.file_info x x'
    → Owned h'.locked_files h'.next_token (set ds i s')
unfolding is_blocked
Effect-Owned h h' ds i s s' none none o there before after m same =
    Same-transport h h' (set ds i s') same (
      same-Owned h.locked_files h.next_token ds o i s there s'
        (ap token_of after ∙ sym (ap token_of before))
        (m, subst (HasLock h.locked_files s'.requested.file_info) (sym after) tt))
Effect-Owned h h' ds i s s' none (some p) o there before after m (new, free, locks, next) =
    subst (λ k. Owned h'.locked_files k (set ds i s')) (sym next)
      (subst (λ y. Owned y (suc h.next_token) (set ds i s')) (sym locks)
        (takes-Owned h.locked_files h.next_token ds o i s there s' p s'.requested.file_info
          (ap token_of before) new free m (sym after) refl))
Effect-Owned h h' ds i s s' (some p) none o there before after m (next, inl locks) =
    let (t, e, had, found) = held_token h.locked_files s p before (o.backed i s there) in
    subst (λ k. Owned h'.locked_files k (set ds i s')) (sym next)
      (subst (λ y. Owned y h.next_token (set ds i s'))
        (sym (locks ∙ ap (λ w. released w h.locked_files) e))
        (drops-Owned h.locked_files h.next_token ds o i s there t s' had after m))
Effect-Owned h h' ds i s s' (some p) none o there before after m (next, inr locks) =
    let (t, e, had, found) = held_token h.locked_files s p before (o.backed i s there) in
    subst (λ k. Owned h'.locked_files k (set ds i s')) (sym next)
      (subst (λ y. Owned y h.next_token (set ds i s'))
        (sym (locks ∙ ap (λ w. released w (unlocked s.requested.file_info h.locked_files)) e))
        (finishes-Owned h.locked_files h.next_token ds o i s there t s.requested.file_info s' had
          found after m))
Effect-Owned h h' ds i s s' (some p) (some q) o there before after m (same_stream, file, same) =
    let (t, e, had, found) = held_token h.locked_files s p before (o.backed i s there) in
    Same-transport h h' (set ds i s') same (
      same-Owned h.locked_files h.next_token ds o i s there s'
        (ap token_of (after ∙ ap some same_stream) ∙ sym (ap token_of before))
        (
          m,
          subst (HasLock h.locked_files s'.requested.file_info) (sym (after ∙ ap some same_stream))
              (t, e, (found ∙ ap some (sym file))),
        ))
