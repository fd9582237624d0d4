-- ===== src/Protocol/Framing.antt =====
-- What the readers cut out of a framed message, and what happens where a mark is missing.
use mathlib.Core.List.{append_assoc}
use mfsync.Common.{◌≡◌, refl, ap, ◌∙◌, false, none, some}
use mfsync.Common.{[], ◌++◌, Bytes, codes, find, find-append, find-append_none, ok}
use mfsync.Common.{length, length-append, take-append, ltb, arith}
use mfsync.Common.{starts_with}
use mfsync.Json.{JsonLib, IsLawful}
use mfsync.Protocol.{wrap_with_header, payload, mfsync_header_begin, mfsync_header_end}
use mfsync.Protocol.{mfsync_header_size, get_json_from_message, get_message_type}
use mfsync.Protocol.{create_error_message}

-- The text has no end mark.
abbrev pub IsClean : Bytes → Type 0
IsClean t = find mfsync_header_end t ≡ none

find-end :
    (t : Bytes) → IsClean t → find mfsync_header_end (t ++ mfsync_header_end) ≡ some (length t)
find-end t c = find-append b'<' (codes "MFSYNC_HEADER_END>") t [] (omega arith) c

-- A reader gets back exactly the text that was framed, if that holds no end mark.
pub payload-wrap_with_header : (t : Bytes) → IsClean t → payload (wrap_with_header t) ≡ ok t
unfolding payload wrap_with_header
payload-wrap_with_header t c = rw (find-end t c, payload) (ap ok (take-append t mfsync_header_end))

pub wrap_with_header-long :
    (t : Bytes) → ltb (length (wrap_with_header t)) mfsync_header_size ≡ false
unfolding wrap_with_header
wrap_with_header-long t = ground (arith, length-append t mfsync_header_end)

-- What stands behind the end mark is not read.
pub payload-tail : (t tail : Bytes) → IsClean t → payload (wrap_with_header t ++ tail) ≡ ok t
unfolding payload wrap_with_header
payload-tail t tail c =
    let found = find-append b'<' (codes "MFSYNC_HEADER_END>") t tail (omega arith) c in
    ap (λ x. payload (mfsync_header_begin ++ x)) (append_assoc t mfsync_header_end tail)
    ∙ rw (found, payload) (ap ok (take-append t (mfsync_header_end ++ tail)))

pub tail-long :
    (t tail : Bytes) → ltb (length (wrap_with_header t ++ tail)) mfsync_header_size ≡ false
unfolding wrap_with_header
tail-long t tail =
    ground (arith, length-append (t ++ mfsync_header_end) tail, length-append t mfsync_header_end)

-- If its reason holds no end mark, an error message holds none: it ends with a second begin mark.
pub create_error_message-IsClean :
    (reason : Bytes) → IsClean reason → IsClean (create_error_message reason)
unfolding create_error_message find starts_with
create_error_message-IsClean reason c = rw (
    find-append_none b'<' (codes "MFSYNC_HEADER_END>") reason (codes "MFSYNC_HEADER_BEGIN>")
      (omega arith) c refl)

module _ (J : JsonLib) (L : IsLawful J) where
  pub get_json-wrap :
      (j : J.Json) (t : Bytes)
      → J.dump j ≡ ok t
      → IsClean t
      → get_json_from_message J (wrap_with_header t) ≡ ok (some j)
  unfolding get_json_from_message
  get_json-wrap j t d c =
      rw (wrap_with_header-long t, payload-wrap_with_header t c, L.parse-dump j t d)

  pub get_json-tail :
      (t tail : Bytes)
      → IsClean t
      → get_json_from_message J (wrap_with_header t ++ tail)
        ≡ get_json_from_message J (wrap_with_header t)
  unfolding get_json_from_message
  get_json-tail t tail c = rw (
    tail-long t tail,
    payload-tail t tail c,
    wrap_with_header-long t,
    payload-wrap_with_header t c,
  )

  pub get_message_type-tail :
      (t tail : Bytes)
      → IsClean t
      → get_message_type J (wrap_with_header t ++ tail) ≡ get_message_type J (wrap_with_header t)
  unfolding get_message_type
  get_message_type-tail t tail c = rw (
    tail-long t tail,
    payload-tail t tail c,
    wrap_with_header-long t,
    payload-wrap_with_header t c,
  )
