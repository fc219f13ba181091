-- ===== src/Storage/Http/Reader/Same.antt =====
-- The reader of ranges, over a server that has the document, against the bytes in memory.
use triplet.Common.{
  ℕ, zero, suc, ◌+◌, ◌-◌, ◌≤◌, ◌<◌, ◌≡◌, refl, sym, ap, ◌∙◌, inl, inr, true, false, Option, none,
  some, List, [], ◌∷◌, arith, ltb, leb, ◌==◌, length, take, drop, length-take, length-drop, All,
  Bool-cases, if_elim,
}
use triplet.Common.Int.{ℤ}
use triplet.Text.{Bytes, codes, max_int64}
use triplet.Http.{get_header}
use triplet.Storage.Http.{Answer}
use triplet.Storage.Http.Ranges.Laws.{content_range_text, parse-content_range_text}
use triplet.Storage.Http.Reader.{
  RangeReader, SeekableBytes, Ending, Whence, seek_position, seek_to, seek_bytes, read_bytes,
  seek_range_to, seek_range, range_text, read_full, read_ranged, read_answer, read_range, at_most,
  same_range,
}

-- The answer to a request of a range of the document: the bytes of it, and where they are.
pub record IsServed (doc : Bytes) (start end : ℕ) (answer : Answer) : Type 0 where
  pub partial : answer.status ≡ 206
  pub named :
      get_header answer.header (codes "Content-Range") ≡ content_range_text start end (length doc)
  pub sent : answer.body ≡ take (end + 1 - start) (drop start doc)

-- A server that has the document serves each range of it.
abbrev pub Serves : (Bytes → Option Answer) → Bytes → Type 0
Serves ask doc =
    (start end : ℕ)
    → start ≤ end
    → end < length doc
    → (answer : Answer) × (ask (range_text start end) ≡ some answer) × IsServed doc start end answer

pub data Operation : Type 0 where
  read : (want : ℕ) → Operation
  seek : ℤ → Whence → Operation

pub data Outcome : Type 0 where
  got : Bytes → Ending → Outcome
  moved : Option ℕ → Outcome

unfoldable pub on_range : (Bytes → Option Answer) → RangeReader → Operation → RangeReader × Outcome
on_range ask r (read want) =
    let (r', bytes, ending) = read_range ask r want in (r', got bytes ending)
on_range ask r (seek offset whence) = let (r', at) = seek_range r offset whence in (r', moved at)

unfoldable pub on_bytes : SeekableBytes → Operation → SeekableBytes × Outcome
on_bytes s (read want) = let (s', bytes, ending) = read_bytes s want in (s', got bytes ending)
on_bytes s (seek offset whence) = let (s', at) = seek_bytes s offset whence in (s', moved at)

-- The outcomes of operations, one after the other.
unfoldable pub run_range : (Bytes → Option Answer) → RangeReader → List Operation → List Outcome
unfolding on_range
run_range ask r [] = []
run_range ask r (o ∷ os) = (on_range ask r o).1 ∷ run_range ask (on_range ask r o).0 os

unfoldable pub run_bytes : SeekableBytes → List Operation → List Outcome
unfolding on_bytes
run_bytes s [] = []
run_bytes s (o ∷ os) = (on_bytes s o).1 ∷ run_bytes (on_bytes s o).0 os

-- A read into a buffer that is not empty.
abbrev pub IsUseful : Operation → Type 0
IsUseful (read want) = 0 < want
IsUseful (seek offset whence) = Unit

-- An open reader at a position.
abbrev pub reader_at : (size off : ℕ) → RangeReader
reader_at size off = record { size = size; off = off; closed = false }

abbrev pub bytes_at : Bytes → ℕ → SeekableBytes
bytes_at doc off = record { b = doc; off = off }

take_all : (n : ℕ) (s : Bytes) → length s ≤ n → take n s ≡ s
take_all zero [] h = refl
take_all (suc n) [] h = refl
take_all zero (c ∷ s) h = absurd (omega arith)
take_all (suc n) (c ∷ s) h = ap (λ r. c ∷ r) (take_all n s (omega arith))

take-at_most : (want : ℕ) (s : Bytes) → take want s ≡ take (at_most want (length s)) s
take-at_most want s =
    if_elim (λ n. take want s ≡ take n s) (ltb (length s) want)
      (λ more. take_all want s (ground arith) ∙ sym (take_all (length s) s (omega arith)))
      (λ fewer. refl)

same_range_refl :
    (start end size : ℕ)
    → same_range (record { start = start; end = end; size = size }) start end size ≡ true
same_range_refl start end size = ground arith

leb_refl : (n : ℕ) → leb n n ≡ true
leb_refl n = ground arith

module _ (ask : Bytes → Option Answer) (doc : Bytes) (small : length doc ≤ max_int64)
    (serves : Serves ask doc) where
  read_full-all :
      (off n : ℕ) (body : Bytes)
      → length body ≡ n
      → read_full (reader_at (length doc) off) n body
        ≡ (reader_at (length doc) (off + n), body, Ending.fine)
  unfolding read_full
  read_full-all off n body e =
      rw (e, leb_refl n, sym e)
        (ap (λ b. (reader_at (length doc) (off + length body), b, Ending.fine))
          (take_all (length body) body (omega arith)))

  length-slice : (off n : ℕ) → off + n ≤ length doc → length (take n (drop off doc)) ≡ n
  length-slice off n h = omega (arith, length-take n (drop off doc), length-drop off doc)

  read_answer-Served :
      (off n end : ℕ) (answer : Answer)
      → end + 1 ≡ off + n
      → 0 < n
      → end < length doc
      → IsServed doc off end answer
      → read_answer (reader_at (length doc) off) n end (some answer)
        ≡ (reader_at (length doc) (off + n), take n (drop off doc), Ending.fine)
  unfolding read_answer read_ranged
  read_answer-Served off n end answer last some_bytes inside served =
      rw
        (
          served.partial,
          served.named,
          parse-content_range_text off end (length doc) (omega (arith, small))
              (omega (arith, small)) small (omega arith) inside,
          read_ranged,
          same_range_refl off end (length doc),
          served.sent,
        )
        (ap (λ k. read_full (reader_at (length doc) off) n (take k (drop off doc)))
            (omega (arith, last))
          ∙ read_full-all off n (take n (drop off doc)) (length-slice off n (omega arith)))

  read-Same :
      (off want : ℕ)
      → 0 < want
      → (next : ℕ) × (out : Bytes × Ending) × (read_range ask (reader_at (length doc) off) want
          ≡ (reader_at (length doc) next, out.0, out.1))
        × (read_bytes (bytes_at doc off) want ≡ (bytes_at doc next, out.0, out.1))
  unfolding read_range read_bytes
  read-Same off want w = elim (Bool-cases (leb (length doc) off)) [
    | inl past ↦ (off, ([], Ending.eof), ground arith, ground arith)
    | inr before ↦
        let n = at_most want (length doc - off) in
        let end = off + n - 1 in
        let (answer, asked, served) = serves off end (ground arith) (ground arith) in
        let read =
          read_answer-Served off n end answer (ground arith) (ground arith) (ground arith) served in
        (
          off + n,
          (take n (drop off doc), Ending.fine),
          rw (want_some want w, before, asked) read,
          rw before (
              held off want n (ap (λ l. at_most want l) (length-drop off doc))
                (length-slice off n (ground arith))),
        )
  ]
    where
      held :
          (off want n : ℕ)
          → at_most want (length (drop off doc)) ≡ n
          → length (take n (drop off doc)) ≡ n
          → (let got_bytes = take want (drop off doc) in
              let after : SeekableBytes × Bytes × Ending =
                (bytes_at doc (off + length got_bytes), got_bytes, Ending.fine) in
              after ≡ (bytes_at doc (off + n), take n (drop off doc), Ending.fine))
      held off want n e l =
          ap (λ (t : Bytes). (bytes_at doc (off + length t), t, Ending.fine))
            (take-at_most want (drop off doc) ∙ ap (λ k. take k (drop off doc)) e)
          ∙ ap (λ k. (bytes_at doc (off + k), take n (drop off doc), Ending.fine)) l

      want_some : (k : ℕ) → 0 < k → (k == 0) ≡ false
      want_some k h = ground arith

  seek-Same :
      (off : ℕ) (offset : ℤ) (whence : Whence)
      → (next : ℕ) × (out : Option ℕ) × (seek_range (reader_at (length doc) off) offset whence
          ≡ (reader_at (length doc) next, out))
        × (seek_bytes (bytes_at doc off) offset whence ≡ (bytes_at doc next, out))
  unfolding seek_range seek_bytes
  seek-Same off offset whence = moves (seek_position off (length doc) offset whence)
    where
      moves :
          (at : Option ℕ)
          → (next : ℕ) × (out : Option ℕ) × (seek_range_to (reader_at (length doc) off) at
              ≡ (reader_at (length doc) next, out))
            × (seek_to (bytes_at doc off) at ≡ (bytes_at doc next, out))
      moves none = (off, none, refl, refl)
      moves (some at) = (at, some at, refl, refl)

  -- Over a server that serves every range of a document, the reader of ranges does what the reader
  -- of its bytes in memory does: every run of seeks, and of reads into a buffer that is not empty,
  -- gives the same bytes, ends, positions and errors.
  pub run-Same :
      (operations : List Operation) (off : ℕ)
      → All IsUseful operations
      → run_range ask (reader_at (length doc) off) operations
        ≡ run_bytes (bytes_at doc off) operations
  unfolding run_range run_bytes
  run-Same [] off useful = refl
  run-Same (read want ∷ os) off useful =
      let (next, out, ranged, held) = read-Same off want useful.0 in
      rw (ranged, held) (ap (λ rest. got out.0 out.1 ∷ rest) (run-Same os next useful.1))
  run-Same (seek offset whence ∷ os) off useful =
      let (next, out, ranged, held) = seek-Same off offset whence in
      rw (ranged, held) (ap (λ rest. moved out ∷ rest) (run-Same os next useful.1))
