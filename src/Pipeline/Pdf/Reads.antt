-- ===== src/Pipeline/Pdf/Reads.antt =====
-- The table of the PDF, as its digits are read back.
use mathlib.Core.Path.{subst}
use triplet.Common.{
  ap, sym, ◌∙◌, ℕ, zero, suc, ◌+◌, ◌<◌, ◌≤◌, ◌≡◌, refl, some, List, [], ◌∷◌, ◌++◌, arith, length,
  length-append, append_assoc,
}
use triplet.Common.Int.{ℤ, pos}
use triplet.Text.{Bytes, codes, itoa, digits_value}
use triplet.Text.Padded.{digits-itoa, digits-zeros, length-itoa, length-zeros}
use triplet.Pipeline.Pdf.{
  StartAt, StartAt-append, IsAtOffset, objects-Adds, object_start, padded, xref_entries, pdf_tail,
  pdf_objects, pdf_bodies, single_image_pdf,
}

-- The row of object `n` in front of a table: ten digits, which are the offset at which its text starts.
pub record Row (text table : Bytes) (n : ℕ) : Type 0 where
  pub offset : ℕ
  pub digits : Bytes
  pub more : Bytes
  pub split : table ≡ digits ++ (codes " 00000 n \n" ++ more)
  pub ten : length digits ≡ 10
  pub value : digits_value 0 digits ≡ some offset
  pub object_there : IsAtOffset text offset (object_start (pos n))

-- So many rows, from that of object `n` on, and what follows them.
abbrev pub HasRows : (text table : Bytes) (count n : ℕ) (rest : Bytes) → Type 0
HasRows text table zero n rest = table ≡ rest
HasRows text table (suc count) n rest =
    (row : Row text table n) × HasRows text row.more count (n + 1) rest

-- What a reader finds behind the objects: the table of five rows, and the place where it starts.
pub record IsIndexed (text : Bytes) : Type 0 where
  pub front : Bytes
  pub table : Bytes
  pub digits : Bytes
  pub split : text ≡ front ++ (codes "xref\n0 6\n0000000000 65535 f \n" ++ table)
  pub rows :
      HasRows text table 5 1
        (codes "trailer\n<< /Size 6 /Root 1 0 R >>\nstartxref\n" ++ (digits ++ codes "\n%%EOF\n"))
  pub start : digits_value 0 digits ≡ some (length front)

padded-digits : (n : ℕ) → n < 10000000000 → digits_value 0 (padded n) ≡ some n
unfolding padded
padded-digits n h = digits-zeros _ (itoa (pos n)) ∙ digits-itoa n (omega (arith, h))

length-padded : (n : ℕ) → n < 10000000000 → length (padded n) ≡ 10
unfolding padded
length-padded n h = length-zeros 10 (itoa (pos n)) (length-itoa n h)

offset-le :
    (text : Bytes) (offset : ℕ) (piece : Bytes)
    → IsAtOffset text offset piece
    → offset ≤ length text
offset-le text offset piece at =
    omega (arith, ap length at.split, length-append at.before (piece ++ at.after), at.place)

entries-HasRows :
    (text : Bytes) (offs : List ℕ) (n : ℕ) (rest : Bytes)
    → length text < 10000000000
    → StartAt text offs n
    → HasRows text (xref_entries offs ++ rest) (length offs) n rest
unfolding xref_entries
entries-HasRows text [] n rest h starts = refl
entries-HasRows text (off ∷ offs) n rest h starts =
    let small : off < 10000000000 =
      omega (arith, h, offset-le text off (object_start (pos n)) starts.0) in
    (
      record {
        offset = off;
        digits = padded off;
        more = xref_entries offs ++ rest;
        split = append_assoc (padded off) (codes " 00000 n \n" ++ xref_entries offs) rest;
        ten = length-padded off small;
        value = padded-digits off small;
        object_there = starts.0;
      },
      entries-HasRows text offs (n + 1) rest h starts.1,
    )

six : itoa (pos 6) ≡ codes "6"
unfolding itoa
six = refl

pdf_tail-five :
    (offsets : List ℕ) (xref : ℕ)
    → length offsets ≡ 5
    → pdf_tail offsets xref
      ≡ codes "xref\n0 6\n0000000000 65535 f \n"
        ++ (xref_entries offsets
            ++ (codes "trailer\n<< /Size 6 /Root 1 0 R >>\nstartxref\n"
                ++ (itoa (pos xref) ++ codes "\n%%EOF\n")))
unfolding pdf_tail
pdf_tail-five offsets xref e = rw (e, six) refl

-- A PDF of fewer than 10^10 bytes is read back: behind its objects stand a table of five rows, whose
-- n-th has the ten digits of the offset at which the text of object n starts, the trailer, and behind
-- startxref the digits of the offset at which the table starts.
pub single_image_pdf-IsIndexed :
    (width height : ℤ) (color_space jpeg : Bytes)
    → length (single_image_pdf width height color_space jpeg) < 10000000000
    → IsIndexed (single_image_pdf width height color_space jpeg)
unfolding single_image_pdf pdf_objects
single_image_pdf-IsIndexed width height color_space jpeg h =
    let w = pdf_objects width height color_space jpeg in
    let all =
      objects-Adds (record { written = codes "%PDF-1.4\n"; offsets = [] }) 1
        (pdf_bodies width height color_space jpeg) in
    let tail = pdf_tail w.offsets (length w.written) in
    let five = ap length all.offsets ∙ all.count in
    let starts =
      StartAt-append w.written tail w.offsets 1
        (subst (λ offs. StartAt w.written offs 1) (sym all.offsets) all.starts) in
    let end =
      codes "trailer\n<< /Size 6 /Root 1 0 R >>\nstartxref\n"
      ++ (itoa (pos (length w.written)) ++ codes "\n%%EOF\n") in
    record {
      front = w.written;
      table = xref_entries w.offsets ++ end;
      digits = itoa (pos (length w.written));
      split = ap (λ t. w.written ++ t) (pdf_tail-five w.offsets (length w.written) five);
      rows =
          subst (λ (k : ℕ). HasRows (w.written ++ tail) (xref_entries w.offsets ++ end) k 1 end)
            five (entries-HasRows (w.written ++ tail) w.offsets 1 end h starts);
      start = digits-itoa (length w.written) (omega (arith, h, length-append w.written tail));
    }
