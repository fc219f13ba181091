-- ===== src/Storage/Http/Ranges.antt =====
-- `Content-Range`, and the ways to open a source: by ranges, or whole.
pub mod Laws
use triplet.Common.{
  ℕ, ◌+◌, ◌-◌, ◌≤◌, ◌<◌, Bool, true, false, ◌&&◌, ◌||◌, not, Option, none, some, Result, ok, err,
  ◌>>=◌, List, [], ◌∷◌, ◌++◌, ltb, leb, ◌==◌, length, if◌then◌else◌,
}
use triplet.Common.Int.{ℤ, pos, negsuc, ltb_ℤ, pos_part}
use triplet.Text.{Bytes, codes, bytes_eq, trim_space, trim_prefix, has_prefix, cut, atoi, itoa}
use triplet.Http.{Header, get_header, set_header}
use triplet.Storage.{Meta, OpenError}
use triplet.Storage.Http.{
  Url, Answer, HttpOpener, Upstream, parse_target, http_meta, status_error, too_long,
  request_header,
}

-- The first and the last byte of a range, and the size of the whole.
pub record ContentRange : Type 0 where
  pub start : ℕ
  pub end : ℕ
  pub size : ℕ

unfoldable pub checked_range : (start end size : ℤ) → Option ContentRange
checked_range (pos s) (pos e) (pos n) =
    if ltb e s || leb n e then none else some (record { start = s; end = e; size = n })
checked_range _ _ _ = none

-- `strconv.ParseInt` of the three numbers, then the tests.
unfoldable pub range_of_numbers : Option ℤ → Option ℤ → Option ℤ → Option ContentRange
unfolding checked_range
range_of_numbers (some s) (some e) (some n) = checked_range s e n
range_of_numbers _ _ _ = none

unfoldable pub range_of_ends : Bytes → Option (Bytes × Bytes) → Option ContentRange
unfolding range_of_numbers
range_of_ends size_part none = none
range_of_ends size_part (some (start_part, end_part)) =
    if bytes_eq start_part [] || bytes_eq end_part []
    then none
    else range_of_numbers (atoi start_part) (atoi end_part) (atoi size_part)

unfoldable pub range_of_parts : Option (Bytes × Bytes) → Option ContentRange
unfolding range_of_ends
range_of_parts none = none
range_of_parts (some (range_part, size_part)) =
    if bytes_eq size_part [] || bytes_eq size_part (codes "*")
    then none
    else range_of_ends size_part (cut range_part b'-')

-- `parseContentRange`; `none` is not ok.
unfoldable pub parse_content_range : Bytes → Option ContentRange
unfolding range_of_parts
parse_content_range v =
    let text = trim_space v in
    if has_prefix text (codes "bytes ")
    then range_of_parts (cut (trim_space (trim_prefix text (codes "bytes "))) b'/')
    else none

-- How `openRange` ends: nothing to read by ranges, an error, or a reader over so many bytes.
pub data RangeOpen : Type 0 where
  whole : RangeOpen
  failed : OpenError → RangeOpen
  ranged : (size : ℕ) → Meta → RangeOpen

-- What is read of a source: by ranges of a URL, or the spooled bytes.
pub data Body : Type 0 where
  by_range : (target : Bytes) (size : ℕ) → Body
  spooled : Bytes → Body

-- What the system refuses while a response is spooled.
pub record SpoolFaults : Type 0 where
  pub create : Bool
  pub copy : Bool
  pub seek : Bool

module _ (up : Upstream) (h : HttpOpener) (auth : Header) where
  unfoldable pub range_of_answer : Answer → Option ContentRange → RangeOpen
  unfolding http_meta
  range_of_answer answer none = RangeOpen.whole
  range_of_answer answer (some range) =
      if too_long h range.size
      then RangeOpen.failed OpenError.failed
      else RangeOpen.ranged range.size (http_meta up answer.header range.size)

  unfoldable pub range_opened : Option Answer → RangeOpen
  unfolding range_of_answer parse_content_range status_error
  range_opened none = RangeOpen.failed OpenError.failed
  range_opened (some answer) =
      if answer.status == 206
      then range_of_answer answer
          (parse_content_range (get_header answer.header (codes "Content-Range")))
      else if answer.status == 200
      then RangeOpen.whole
      else RangeOpen.failed (status_error answer.status)

  -- `openRange`.
  unfoldable pub open_range : Url → RangeOpen
  unfolding range_opened request_header
  open_range target = range_opened (
      up.send (codes "GET") target.text
        (set_header (request_header h auth) (codes "Range") (codes "bytes=0-0")))

  -- A response that is read whole; at most one byte more than the limit is copied.
  unfoldable pub spool : SpoolFaults → Option Answer → Result OpenError (Body × Meta)
  unfolding http_meta status_error
  spool faults none = err OpenError.failed
  spool faults (some answer) =
      if not (answer.status == 200)
      then err (status_error answer.status)
      else if faults.create || faults.copy || too_long h (length answer.body) || faults.seek
      then err OpenError.failed
      else ok (Body.spooled answer.body, http_meta up answer.header (length answer.body))

  unfoldable pub open_target : SpoolFaults → Url → RangeOpen → Result OpenError (Body × Meta)
  unfolding spool request_header
  open_target faults target RangeOpen.whole =
      spool faults (up.send (codes "GET") target.text (request_header h auth))
  open_target faults target (RangeOpen.failed e) = err e
  open_target faults target (RangeOpen.ranged size m) = ok (Body.by_range target.text size, m)

  -- `Open`.
  unfoldable pub open_url : SpoolFaults → Bytes → Result OpenError (Body × Meta)
  unfolding parse_target open_range open_target
  open_url faults identifier =
      parse_target up h identifier >>= λ target. open_target faults target (open_range target)

  unfoldable pub meta_of_range : RangeOpen → Result OpenError Meta
  meta_of_range RangeOpen.whole = err OpenError.failed
  meta_of_range (RangeOpen.failed e) = err e
  meta_of_range (RangeOpen.ranged size m) = ok m

  unfoldable pub meta_of_head : Url → Option Answer → Result OpenError Meta
  unfolding meta_of_range open_range http_meta status_error
  meta_of_head target none = err OpenError.failed
  meta_of_head target (some answer) =
      let size = pos_part answer.content_length in
      if answer.status == 200
      then (if too_long h size then err OpenError.failed else ok (http_meta up answer.header size))
      else if answer.status == 405 || answer.status == 501
      then meta_of_range (open_range target)
      else err (status_error answer.status)

  -- `Meta`.
  unfoldable pub meta_of_url : Bytes → Result OpenError Meta
  unfolding parse_target meta_of_head request_header
  meta_of_url identifier = parse_target up h identifier >>= λ target.
      meta_of_head target (up.send (codes "HEAD") target.text (request_header h auth))
