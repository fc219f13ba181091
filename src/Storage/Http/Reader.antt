-- ===== src/Storage/Http/Reader.antt =====
-- `httpRangeReadSeekCloser`, which fetches what is read, and `seekableBytes`. A position is an int64
-- that is not negative.
pub mod Same
pub mod Tests
use triplet.Common.{
  ℕ, ◌+◌, ◌-◌, Bool, true, false, ◌&&◌, ◌||◌, not, Option, none, some, [], ◌∷◌, ◌++◌, ltb, leb,
  ◌==◌, length, take, drop, if◌then◌else◌,
}
use triplet.Common.Int.{ℤ, pos, negsuc}
use triplet.Text.{Bytes, codes, itoa}
use triplet.Pipeline.Wrap.{add64}
use triplet.Http.{Header, get_header, set_header}
use triplet.Storage.Http.{Answer}
use triplet.Storage.Http.Ranges.{ContentRange, parse_content_range}

-- What `Read` returns beside the bytes: no error, `io.EOF`, or another one.
pub data Ending : Type 0 where
  fine eof broken : Ending

pub record RangeReader : Type 0 where
  pub size : ℕ
  pub off : ℕ
  pub closed : Bool

pub record SeekableBytes : Type 0 where
  pub b : Bytes
  pub off : ℕ

-- `io.SeekStart`, `io.SeekCurrent`, `io.SeekEnd`, or another number.
pub data Whence : Type 0 where
  from_start from_current from_end invalid : Whence

-- The position of a seek that is not negative.
abbrev pub not_negative : ℤ → Option ℕ
not_negative (pos n) = some n
not_negative (negsuc n) = none

-- The switch of both `Seek`s: where it leads, from an offset in so many bytes.
unfoldable pub seek_position : (off size : ℕ) → ℤ → Whence → Option ℕ
unfolding add64
seek_position off size offset Whence.from_start = not_negative offset
seek_position off size offset Whence.from_current = not_negative (add64 (pos off) offset)
seek_position off size offset Whence.from_end = not_negative (add64 (pos size) offset)
seek_position off size offset Whence.invalid = none

-- `Seek` of the bytes; `none` is an error.
unfoldable pub seek_to : SeekableBytes → Option ℕ → SeekableBytes × Option ℕ
seek_to s none = (s, none)
seek_to s (some at) = (record s { off = at }, some at)

unfoldable pub seek_bytes : SeekableBytes → ℤ → Whence → SeekableBytes × Option ℕ
unfolding seek_position seek_to
seek_bytes s offset whence = seek_to s (seek_position s.off (length s.b) offset whence)

-- `Read` of the bytes, into a buffer of `want`.
unfoldable pub read_bytes : SeekableBytes → ℕ → SeekableBytes × Bytes × Ending
read_bytes s want =
    let got = take want (drop s.off s.b) in
    if leb (length s.b) s.off
    then (s, [], Ending.eof)
    else (record s { off = s.off + length got }, got, Ending.fine)

unfoldable pub seek_range_to : RangeReader → Option ℕ → RangeReader × Option ℕ
seek_range_to r none = (r, none)
seek_range_to r (some at) = (record r { off = at }, some at)

-- `Seek` of the reader of ranges.
unfoldable pub seek_range : RangeReader → ℤ → Whence → RangeReader × Option ℕ
unfolding seek_position seek_range_to
seek_range r offset whence = seek_range_to r (seek_position r.off r.size offset whence)

-- The text of the header `Range`.
unfoldable pub range_text : (start end : ℕ) → Bytes
range_text start end = codes "bytes=" ++ itoa (pos start) ++ b'-' ∷ itoa (pos end)

abbrev pub same_range : ContentRange → (start end size : ℕ) → Bool
same_range range start end size = range.start == start && range.end == end && range.size == size

-- `io.ReadFull` of `n` bytes of a body; a body that ends before is the end.
unfoldable pub read_full : RangeReader → ℕ → Bytes → RangeReader × Bytes × Ending
read_full r n body =
    if leb n (length body)
    then (record r { off = r.off + n }, take n body, Ending.fine)
    else (record r { off = r.off + length body }, body, Ending.eof)

unfoldable pub read_ranged :
    RangeReader → (n end : ℕ) → Bytes → Option ContentRange → RangeReader × Bytes × Ending
unfolding read_full
read_ranged r n end body none = (r, [], Ending.broken)
read_ranged r n end body (some range) =
    if same_range range r.off end r.size then read_full r n body else (r, [], Ending.broken)

unfoldable pub read_answer :
    RangeReader → (n end : ℕ) → Option Answer → RangeReader × Bytes × Ending
unfolding read_ranged parse_content_range
read_answer r n end none = (r, [], Ending.broken)
read_answer r n end (some answer) =
    if answer.status == 206
    then read_ranged r n end answer.body
        (parse_content_range (get_header answer.header (codes "Content-Range")))
    else (r, [], Ending.broken)

abbrev pub at_most : ℕ → ℕ → ℕ
at_most want left = if ltb left want then left else want

-- `Read` of the reader of ranges; `ask` is what the server answers to a `Range`.
unfoldable pub read_range : (Bytes → Option Answer) → RangeReader → ℕ → RangeReader × Bytes × Ending
unfolding read_answer range_text
read_range ask r want =
    let n = at_most want (r.size - r.off) in
    let end = r.off + n - 1 in
    if r.closed
    then (r, [], Ending.broken)
    else if want == 0
    then (r, [], Ending.fine)
    else if leb r.size r.off
    then (r, [], Ending.eof)
    else read_answer r n end (ask (range_text r.off end))

-- `Close`.
unfoldable pub close_range : RangeReader → RangeReader
close_range r = record r { closed = true }
