-- ===== src/Progress/Settling.antt =====
-- When the bars of src/progress_handler.cpp come to rest, and that each file has one.
use mfsync.Common.{
  ℕ, suc, zero, ◌≡◌, refl, ◌∙◌, Bool, true, false, Option, ◌==◌, none, some, List, [], ◌∷◌, Bytes,
  str_eq, str_eq_iff, any_of, arith, Bool-cases, inl, inr,
}
use mfsync.Info.{FileInformation}
use mfsync.Progress.{
  FileProgress, Bar, number_of, update_status, update_progress, update_with, update_bar,
  create_file_progress,
}

-- There is an entry of this name.
abbrev pub has_entry : Bytes → List FileProgress → Bool
has_entry name ps = any_of (λ p. str_eq name p.file_info.file_name) ps

-- No two entries have one name.
abbrev pub Unique : List FileProgress → Type 0
Unique [] = Unit
Unique (p ∷ ps) = (has_entry p.file_info.file_name ps ≡ false) × Unique ps

-- The entry at an index.
abbrev pub entry_at : ℕ → List FileProgress → Option FileProgress
entry_at n [] = none
entry_at zero (p ∷ ps) = some p
entry_at (suc n) (p ∷ ps) = entry_at n ps

abbrev pub name_at : Option FileProgress → Option Bytes
name_at none = none
name_at (some p) = some p.file_info.file_name

str_eq-false : (a b : Bytes) → str_eq a b ≡ false → str_eq b a ≡ false
str_eq-false a b e = ground (arith, str_eq_iff a b, str_eq_iff b a)

has_entry-create :
    (name : Bytes) (ps : List FileProgress) (f : FileInformation)
    → str_eq name f.file_name ≡ false
    → has_entry name (create_file_progress ps f).1 ≡ has_entry name ps
unfolding create_file_progress
has_entry-create name [] f e = ground (arith, e)
has_entry-create name (p ∷ ps) f e = ground (arith, e, has_entry-create name ps f e)

-- Whatever files come, each gets its own entry: the call gives the index of an entry of the file's
-- name, and no two entries have one name if none had before.
pub create_file_progress-Unique :
    (ps : List FileProgress) (f : FileInformation)
    → Unique ps
    → Unique (create_file_progress ps f).1
      × (name_at (entry_at (create_file_progress ps f).0 (create_file_progress ps f).1)
          ≡ some f.file_name)
unfolding create_file_progress
create_file_progress-Unique [] f u = ((refl, tt), refl)
create_file_progress-Unique (p ∷ ps) f u =
    let rest = create_file_progress-Unique ps f u.1 in
    elim (Bool-cases (str_eq f.file_name p.file_info.file_name)) [
      | inl same ↦
          rw (same, create_file_progress)
            (u, ground (arith, same, str_eq_iff f.file_name p.file_info.file_name))
      | inr other ↦
          rw (other, create_file_progress)
            (
              (
                has_entry-create p.file_info.file_name ps f
                      (str_eq-false f.file_name p.file_info.file_name other)
                    ∙ u.0,
                rest.0,
              ),
              rest.1,
            )
    ]

abbrev same_status : FileProgress → Bool
same_status p = number_of p.status == number_of p.old_status

module _ (percent : ℕ → ℕ → ℕ) where
  -- An update keeps what the file has come to, and leaves a bar.
  Kept : FileProgress → FileProgress → Type 0
  Kept p q =
      (q.status ≡ p.status)
      × (q.bytes_transferred ≡ p.bytes_transferred)
      × ((c : Bar) × (q.bar ≡ some c))

  update_bar-status :
      (p : FileProgress) (b : Bar)
      → p.bar ≡ some b
      → Kept p (update_bar percent p).1 × (same_status (update_bar percent p).1 ≡ true)
  unfolding update_bar update_with update_status update_progress Kept
  update_bar-status p b e = elim (Bool-cases (same_status p)) [
    | inl same ↦ elim (Bool-cases (p.bytes_transferred == p.old_bytes_transferred)) [
      | inl still ↦ rw (e, same, still) ((refl, refl, (b, refl)), same)
      | inr moved ↦ rw (e, same, moved) ((refl, refl, (_, refl)), same)
    ]
    | inr other ↦ rw (e, other) ((refl, refl, (_, refl)), ground arith)
  ]

  update_bar-bytes :
      (p : FileProgress) (b : Bar)
      → p.bar ≡ some b
      → same_status p ≡ true
      → Kept p (update_bar percent p).1
        × (same_status (update_bar percent p).1 ≡ true)
        × ((update_bar percent p).1.old_bytes_transferred ≡ p.bytes_transferred)
  unfolding update_bar update_with update_status update_progress Kept
  update_bar-bytes p b e same = elim (Bool-cases (p.bytes_transferred == p.old_bytes_transferred)) [
    | inl still ↦ rw (e, same, still) ((refl, refl, (b, refl)), same, ground (arith, still))
    | inr moved ↦ rw (e, same, moved) ((refl, refl, (_, refl)), same, refl)
  ]

  update_bar_still :
      (p : FileProgress) (b : Bar)
      → p.bar ≡ some b
      → same_status p ≡ true
      → p.bytes_transferred == p.old_bytes_transferred ≡ true
      → (update_bar percent p).0 ≡ false
  unfolding update_bar update_with update_status update_progress
  update_bar_still p b e same still = rw (e, same, still) refl

  -- Once nothing changes any more, a bar comes to rest: after two updates the third reports no change,
  -- and the bytes that the bar was last computed from are those that were transferred.
  pub update_bar-settles :
      (p : FileProgress) (b : Bar)
      → p.bar ≡ some b
      → let q = (update_bar percent (update_bar percent p).1).1 in
        ((update_bar percent q).0 ≡ false)
        × (q.status ≡ p.status)
        × (q.bytes_transferred ≡ p.bytes_transferred)
        × (q.old_bytes_transferred ≡ p.bytes_transferred)
  unfolding Kept
  update_bar-settles p b e =
      let ((s₁, t₁, (b₁, e₁)), same₁) = update_bar-status p b e in
      let ((s₂, t₂, (b₂, e₂)), same₂, at) = update_bar-bytes _ b₁ e₁ same₁ in
      (update_bar_still _ b₂ e₂ same₂ (rw (t₂, at) (ground arith)), (s₂ ∙ s₁), (t₂ ∙ t₁), (at ∙ t₁))
