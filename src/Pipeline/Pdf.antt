-- ===== src/Pipeline/Pdf.antt =====
-- `singleImagePDF`: a PDF of one page with one JPEG, and its table of offsets.
pub mod Reads
use mathlib.Core.Path.{subst}
use triplet.Common.{
  ap, sym, ◌∙◌, ℕ, suc, ◌+◌, ◌-◌, ◌≡◌, refl, List, [], ◌∷◌, ◌++◌, append_assoc, append-nil, length,
  replicate,
}
use triplet.Common.Int.{ℤ, pos}
use triplet.Text.{Bytes, codes, itoa}

-- The buffer and the offsets of the objects so far.
pub record PdfWriter : Type 0 where
  pub written : Bytes
  pub offsets : List ℕ

abbrev pub object_start : ℤ → Bytes
object_start n = itoa n ++ codes " 0 obj\n"

abbrev pub object_end : Bytes
object_end = codes "\nendobj\n"

-- `object`.
unfoldable pub object : PdfWriter → ℤ → Bytes → PdfWriter
object w n body = record {
  written = w.written ++ (object_start n ++ (body ++ object_end));
  offsets = w.offsets ++ length w.written ∷ [];
}

-- `%010d` of a number that is not negative.
unfoldable pub padded : ℕ → Bytes
padded n = let digits = itoa (pos n) in replicate (10 - length digits) b'0' ++ digits

unfoldable pub xref_entries : List ℕ → Bytes
unfolding padded
xref_entries [] = []
xref_entries (off ∷ offs) = padded off ++ (codes " 00000 n \n" ++ xref_entries offs)

abbrev pub page_object : (width height : ℤ) → Bytes
page_object width height =
    codes "<< /Type /Page /Parent 2 0 R /MediaBox [0 0 "
    ++ (itoa width
        ++ b' '
          ∷ (itoa height
              ++ codes "] /Resources << /XObject << /Im0 4 0 R >> >> /Contents 5 0 R >>"))

abbrev pub image_object : (width height : ℤ) (color_space jpeg : Bytes) → Bytes
image_object width height color_space jpeg =
    codes "<< /Type /XObject /Subtype /Image /Width "
    ++ (itoa width
        ++ (codes " /Height "
            ++ (itoa height
                ++ (codes " /ColorSpace /"
                    ++ (color_space
                        ++ (codes " /BitsPerComponent 8 /Filter /DCTDecode /Length "
                            ++ (itoa (pos (length jpeg))
                                ++ (codes " >>\nstream\n" ++ (jpeg ++ codes "\nendstream")))))))))

abbrev pub content_text : (width height : ℤ) → Bytes
content_text width height =
    codes "q\n" ++ (itoa width ++ (codes " 0 0 " ++ (itoa height ++ codes " 0 0 cm\n/Im0 Do\nQ\n")))

abbrev pub content_object : Bytes → Bytes
content_object content =
    codes "<< /Length "
    ++ (itoa (pos (length content)) ++ (codes " >>\nstream\n" ++ (content ++ codes "\nendstream")))

-- The objects from number `n` on, in order.
unfoldable pub objects : PdfWriter → ℕ → List Bytes → PdfWriter
unfolding object
objects w n [] = w
objects w n (body ∷ bodies) = objects (object w (pos n) body) (n + 1) bodies

abbrev pub pdf_bodies : (width height : ℤ) (color_space jpeg : Bytes) → List Bytes
pdf_bodies width height color_space jpeg =
    codes "<< /Type /Catalog /Pages 2 0 R >>"
    ∷ codes "<< /Type /Pages /Kids [3 0 R] /Count 1 >>"
    ∷ page_object width height
    ∷ image_object width height color_space jpeg
    ∷ content_object (content_text width height)
    ∷ []

-- The table and the trailer, for the offsets and the place where the table starts.
unfoldable pub pdf_tail : List ℕ → ℕ → Bytes
unfolding xref_entries
pdf_tail offsets xref =
    codes "xref\n0 "
    ++ (itoa (pos (length offsets + 1))
        ++ (codes "\n0000000000 65535 f \n"
            ++ (xref_entries offsets
                ++ (codes "trailer\n<< /Size "
                    ++ (itoa (pos (length offsets + 1))
                        ++ (codes " /Root 1 0 R >>\nstartxref\n"
                            ++ (itoa (pos xref) ++ codes "\n%%EOF\n")))))))

-- The five objects behind the first line.
unfoldable pub pdf_objects : (width height : ℤ) (color_space jpeg : Bytes) → PdfWriter
unfolding objects
pdf_objects width height color_space jpeg =
    objects (record { written = codes "%PDF-1.4\n"; offsets = [] }) 1
      (pdf_bodies width height color_space jpeg)

-- `singleImagePDF`.
unfoldable pub single_image_pdf : (width height : ℤ) (color_space jpeg : Bytes) → Bytes
unfolding pdf_objects pdf_tail
single_image_pdf width height color_space jpeg =
    let w = pdf_objects width height color_space jpeg in
    w.written ++ pdf_tail w.offsets (length w.written)

-- The text at an offset starts with a piece.
pub record IsAtOffset (text : Bytes) (offset : ℕ) (piece : Bytes) : Type 0 where
  pub before : Bytes
  pub after : Bytes
  pub split : text ≡ before ++ (piece ++ after)
  pub place : length before ≡ offset

-- The objects numbered from `n` on start at the offsets.
abbrev pub StartAt : Bytes → List ℕ → ℕ → Type 0
StartAt text [] n = Unit
StartAt text (off ∷ offs) n = IsAtOffset text off (object_start (pos n)) × StartAt text offs (n + 1)

IsAtOffset-append :
    (text more : Bytes) (offset : ℕ) (piece : Bytes)
    → IsAtOffset text offset piece
    → IsAtOffset (text ++ more) offset piece
IsAtOffset-append text more offset piece h = record {
  before = h.before;
  after = h.after ++ more;
  split =
      ap (λ t. t ++ more) h.split
      ∙ append_assoc h.before (piece ++ h.after) more
      ∙ ap (λ t. h.before ++ t) (append_assoc piece h.after more);
  place = h.place;
}

pub StartAt-append :
    (text more : Bytes) (offs : List ℕ) (n : ℕ)
    → StartAt text offs n
    → StartAt (text ++ more) offs n
StartAt-append text more [] n h = tt
StartAt-append text more (off ∷ offs) n h = (
  IsAtOffset-append text more off (object_start (pos n)) h.0,
  StartAt-append text more offs (n + 1) h.1,
)

-- What a list of objects adds to a buffer.
pub record Adds (w : PdfWriter) (n : ℕ) (bodies : List Bytes) (after : PdfWriter) : Type 0 where
  pub added : List ℕ
  pub text : Bytes
  pub offsets : after.offsets ≡ w.offsets ++ added
  pub starts : StartAt after.written added n
  pub count : length added ≡ length bodies
  pub grows : after.written ≡ w.written ++ text

pub objects-Adds :
    (w : PdfWriter) (n : ℕ) (bodies : List Bytes) → Adds w n bodies (objects w n bodies)
unfolding objects object
objects-Adds w n [] = record {
  added = [];
  text = [];
  offsets = sym (append-nil w.offsets);
  starts = tt;
  count = refl;
  grows = sym (append-nil w.written);
}
objects-Adds w n (body ∷ bodies) =
    let rest = objects-Adds (object w (pos n) body) (n + 1) bodies in
    let start = object_start (pos n) in
    let grown =
      rest.grows
      ∙ append_assoc w.written (start ++ (body ++ object_end)) rest.text
      ∙ ap (λ t. w.written ++ t) (append_assoc start (body ++ object_end) rest.text) in
    record {
      added = length w.written ∷ rest.added;
      text = start ++ ((body ++ object_end) ++ rest.text);
      offsets = rest.offsets ∙ append_assoc w.offsets (length w.written ∷ []) rest.added;
      starts = (
        record {
          before = w.written;
          after = (body ++ object_end) ++ rest.text;
          split = grown;
          place = refl;
        },
        rest.starts,
      );
      count = ap suc rest.count;
      grows = grown;
    }
