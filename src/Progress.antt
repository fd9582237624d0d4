-- ===== src/Progress.antt =====
-- src/progress_handler.cpp: the progress of each file and the bar that shows it. The thread that calls
-- `update_bar` every 100 ms and the drawing of the bars stay outside.
pub mod Settling
use mfsync.Common.{
  ℕ, suc, ◌-◌, ◌^◌, Bool, true, false, not, ◌&&◌, Option, none, some, List, [], ◌∷◌, ◌++◌, Bytes,
  codes, str_eq, if◌then◌else◌, ◌==◌,
}
use mfsync.Info.{FileInformation}

-- `STATUS`
pub data Status : Type 0 where
  unknown uploading downloading comparing done initializing initialized : Status

pub data Color : Type 0 where
  yellow red blue green cyan white : Color

-- What a bar shows.
pub record Bar : Type 0 where
  pub prefix : Bytes
  pub color : Color
  pub progress : ℕ
  pub completed : Bool

-- `file_progress_information`; `bar` is a pointer.
pub record FileProgress : Type 0 where
  pub file_info : FileInformation
  pub bytes_transferred : ℕ
  pub status : Status
  pub bar : Option Bar
  pub old_status : Status
  pub old_bytes_transferred : ℕ

unfoldable pub number_of : Status → ℕ
number_of unknown = 0
number_of uploading = 1
number_of downloading = 2
number_of comparing = 3
number_of done = 4
number_of initializing = 5
number_of initialized = 6

abbrev pub color_of : Status → Color
color_of uploading = yellow
color_of downloading = red
color_of comparing = blue
color_of done = green
color_of initializing = cyan
color_of initialized = cyan
color_of unknown = white

abbrev pub message_of : Status → Bytes
message_of uploading = codes "uploading: "
message_of downloading = codes "downloading: "
message_of comparing = codes "comparing: "
message_of done = codes "done: "
message_of initializing = codes "initializing: "
message_of initialized = codes "initialized: "
message_of unknown = codes "unknown: "

-- `update_status`, with the bar that is there.
unfoldable pub update_status : FileProgress → Bar → Bool × FileProgress × Bar
unfolding number_of
update_status p bar = if number_of p.status == number_of p.old_status then (false, p, bar) else (
  true,
  record p { old_status = p.status },
  record bar { prefix = message_of p.status ++ p.file_info.file_name; color = color_of p.status },
)

-- The percentage is computed on doubles; `percent` stands for that, on the bytes and the size.
module _ (percent : ℕ → ℕ → ℕ) where
  abbrev pub percentage : ℕ → ℕ → ℕ
  percentage transferred size = if size == 0 then 100 else percent transferred size

  -- `update_progress`. `set_progress` and `mark_as_completed` are those of the bar's library.
  unfoldable pub update_progress : FileProgress → Bar → Bool × FileProgress × Bar
  update_progress p bar =
      if p.bytes_transferred == p.old_bytes_transferred
      then (false, p, bar)
      else let shown = percentage p.bytes_transferred p.file_info.size in
        (
          true,
          record p { old_bytes_transferred = p.bytes_transferred },
          record bar {
            progress = shown;
            completed = if shown == 100 && not bar.completed then true else bar.completed;
          },
        )

  -- The second test is not reached where the first has changed something.
  abbrev pub then_progress : Bool × FileProgress × Bar → Bool × FileProgress × Bar
  then_progress (true, p, bar) = (true, p, bar)
  then_progress (false, p, bar) = update_progress p bar

  abbrev pub with_bar : Bool × FileProgress × Bar → Bool × FileProgress
  with_bar (changed, p, bar) = (changed, record p { bar = some bar })

  unfoldable pub update_with : FileProgress → Option Bar → Bool × FileProgress
  unfolding update_status update_progress
  update_with p none = (false, p)
  update_with p (some bar) = with_bar (then_progress (update_status p bar))

  -- `update_bar`
  unfoldable pub update_bar : FileProgress → Bool × FileProgress
  unfolding update_with
  update_bar p = update_with p p.bar

-- `create_bar`
abbrev pub new_bar : Bar
new_bar = record { prefix = []; color = red; progress = 0; completed = false }

abbrev pub new_progress : FileInformation → FileProgress
new_progress f = record {
  file_info = f;
  bytes_transferred = 0;
  status = unknown;
  bar = some new_bar;
  old_status = unknown;
  old_bytes_transferred = 2 ^ 64 - 1;
}

-- `create_file_progress`: the index of the file's entry, and the entries after the call.
unfoldable pub create_file_progress : List FileProgress → FileInformation → ℕ × List FileProgress
create_file_progress [] f = (0, new_progress f ∷ [])
create_file_progress (p ∷ ps) f =
    let (i, rest) = create_file_progress ps f in
    if str_eq f.file_name p.file_info.file_name then (0, p ∷ ps) else (suc i, p ∷ rest)
