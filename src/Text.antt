-- ===== src/Text.antt =====
-- The functions of Go's `strings`, `strconv` and `net/url` that the program calls, on byte lists.
-- A Go string is the list of its bytes; a literal is `codes "..."`.
pub mod Cut
pub mod Decimal
pub mod Padded
pub mod Escape
use Prim.Native.Char.{code}
use Prim.Native.String.{String}
use triplet.Common.{
  ℕ, zero, suc, ◌+◌, ◌-◌, ◌*◌, ◌/◌, ◌%◌, ◌^◌, Bool, true, false, ◌&&◌, ◌||◌, not, List, [], ◌∷◌,
  ◌++◌, Option, none, some, ltb, leb, ◌==◌, if◌then◌else◌, length,
}
use triplet.Common.Int.{ℤ, pos, negsuc}
use mathlib.Core.Option

abbrev pub Bytes : Type 0
Bytes = List ℕ

abbrev pub codes : String → Bytes
codes String.[] = []
codes (String.◌∷◌ c s) = code c ∷ codes s

-- `a == b` on strings.
unfoldable pub bytes_eq : Bytes → Bytes → Bool
bytes_eq [] [] = true
bytes_eq (a ∷ s) (b ∷ t) = a == b && bytes_eq s t
bytes_eq _ _ = false

-- `strings.IndexByte(s, b) >= 0`.
unfoldable pub contains_byte : Bytes → ℕ → Bool
contains_byte [] b = false
contains_byte (c ∷ s) b = c == b || contains_byte s b

-- `strings.ContainsAny(s, chars)`, for ASCII `chars`.
unfoldable pub contains_any : Bytes → Bytes → Bool
unfolding contains_byte
contains_any [] chars = false
contains_any (c ∷ s) chars = contains_byte chars c || contains_any s chars

-- `strings.CutPrefix(s, prefix)`.
unfoldable pub cut_prefix : Bytes → Bytes → Option Bytes
cut_prefix s [] = some s
cut_prefix [] (p ∷ ps) = none
cut_prefix (c ∷ s) (p ∷ ps) = if c == p then cut_prefix s ps else none

unfoldable pub has_prefix : Bytes → Bytes → Bool
unfolding cut_prefix
has_prefix s prefix = elim (cut_prefix s prefix) [ none ↦ false | some _ ↦ true ]

unfoldable pub trim_prefix : Bytes → Bytes → Bytes
unfolding cut_prefix
trim_prefix s prefix = elim (cut_prefix s prefix) [ none ↦ s | some rest ↦ rest ]

-- `strings.Contains(s, sub)`.
unfoldable pub contains : Bytes → Bytes → Bool
unfolding has_prefix
contains [] sub = has_prefix [] sub
contains (c ∷ s) sub = has_prefix (c ∷ s) sub || contains s sub

abbrev pub push : ℕ → List Bytes → List Bytes
push c [] = (c ∷ []) ∷ []
push c (p ∷ ps) = (c ∷ p) ∷ ps

-- `strings.Split(s, sep)` at a one-byte separator.
unfoldable pub split : Bytes → ℕ → List Bytes
split [] sep = [] ∷ []
split (c ∷ s) sep = let rest = split s sep in if c == sep then [] ∷ rest else push c rest

-- `strings.Join(parts, sep)` with a one-byte separator.
unfoldable pub join : List Bytes → ℕ → Bytes
join [] sep = []
join (p ∷ []) sep = p
join (p ∷ q ∷ ps) sep = p ++ sep ∷ join (q ∷ ps) sep

-- `strings.LastIndexByte(s, b)`; `none` is -1.
unfoldable pub last_index_byte : Bytes → ℕ → Option ℕ
last_index_byte [] b = none
last_index_byte (c ∷ s) b = elim (last_index_byte s b) [
  | some i ↦ some (suc i)
  | none ↦ if c == b then some 0 else none
]

-- `strings.ToLower` on ASCII letters.
unfoldable pub lower : ℕ → ℕ
lower c = if leb b'A' c && leb c b'Z' then c + 32 else c

-- The ASCII part of `unicode.IsSpace`.
unfoldable pub is_space : ℕ → Bool
is_space c = leb 9 c && leb c 13 || c == 32

unfoldable pub trim_left : Bytes → Bytes
unfolding is_space
trim_left [] = []
trim_left (c ∷ s) = if is_space c then trim_left s else c ∷ s

unfoldable pub trim_right : Bytes → Bytes
unfolding is_space
trim_right [] = []
trim_right (c ∷ s) = elim (trim_right s) [
  | [] ↦ if is_space c then [] else c ∷ []
  | d ∷ r ↦ c ∷ d ∷ r
]

-- `strings.TrimSpace(s)`, on ASCII space.
unfoldable pub trim_space : Bytes → Bytes
unfolding trim_left trim_right
trim_space s = trim_right (trim_left s)

unfoldable pub is_hex : ℕ → Bool
is_hex c = leb b'0' c && leb c b'9' || leb b'a' c && leb c b'f' || leb b'A' c && leb c b'F'

unfoldable pub unhex : ℕ → ℕ
unhex c = if leb c b'9' then c - b'0' else if leb b'a' c then c - b'a' + 10 else c - b'A' + 10

-- `url.PathUnescape(s)`; `none` is an `EscapeError`.
unfoldable pub path_unescape : Bytes → Option Bytes
unfolding is_hex unhex
path_unescape [] = some []
path_unescape (c ∷ []) = if c == b'%' then none else some (c ∷ [])
path_unescape (c ∷ a ∷ []) =
    let plain = Option.map (λ r. c ∷ r) (path_unescape (a ∷ [])) in
    if c == b'%' then none else plain
path_unescape (c ∷ a ∷ b ∷ s) =
    let escaped = Option.map (λ r. (unhex a * 16 + unhex b) ∷ r) (path_unescape s) in
    let plain = Option.map (λ r. c ∷ r) (path_unescape (a ∷ b ∷ s)) in
    if c == b'%' then (if is_hex a && is_hex b then escaped else none) else plain

unfoldable pub is_digit : ℕ → Bool
is_digit c = leb b'0' c && leb c b'9'

-- `url.PathEscape` leaves these bytes of a path segment as they are.
unfoldable pub is_unreserved : ℕ → Bool
unfolding is_digit contains_byte
is_unreserved c =
    is_digit c
    || leb b'a' c && leb c b'z'
    || leb b'A' c && leb c b'Z'
    || contains_byte (codes "-_.~$&+=:@") c

unfoldable pub upper_hex : ℕ → ℕ
upper_hex d = if ltb d 10 then b'0' + d else b'A' + (d - 10)

unfoldable pub escape_byte : ℕ → Bytes
unfolding upper_hex
escape_byte c = b'%' ∷ upper_hex (c / 16) ∷ upper_hex (c % 16) ∷ []

-- `url.PathEscape(s)`.
unfoldable pub path_escape : Bytes → Bytes
unfolding is_unreserved escape_byte
path_escape [] = []
path_escape (c ∷ s) = (if is_unreserved c then c ∷ [] else escape_byte c) ++ path_escape s

-- `strings.ReplaceAll(s, old, new)` of a single byte.
unfoldable pub replace_byte : ℕ → Bytes → Bytes → Bytes
replace_byte old new [] = []
replace_byte old new (c ∷ s) = (if c == old then new else c ∷ []) ++ replace_byte old new s

-- The number that decimal digits spell behind `n`; `none` on another byte.
unfoldable pub digits_value : ℕ → Bytes → Option ℕ
unfolding is_digit
digits_value n [] = some n
digits_value n (c ∷ s) = if is_digit c then digits_value (n * 10 + (c - b'0')) s else none

unfoldable pub unsigned : Bytes → Option ℕ
unfolding digits_value
unsigned [] = none
unsigned (c ∷ s) = digits_value 0 (c ∷ s)

abbrev pub max_int64 : ℕ
max_int64 = 2 ^ 63 - 1

-- A magnitude with its sign, if it fits an int64.
unfoldable pub signed : Bool → ℕ → Option ℤ
signed false n = if leb n max_int64 then some (pos n) else none
signed true zero = some (pos 0)
signed true (suc n) = if leb n max_int64 then some (negsuc n) else none

-- `strconv.Atoi(s)`, which is `strconv.ParseInt(s, 10, 64)` on a 64-bit machine.
unfoldable pub atoi : Bytes → Option ℤ
unfolding unsigned signed Option.bind
atoi [] = none
atoi (c ∷ s) =
    if c == b'-'
    then Option.bind (unsigned s) (signed true)
    else if c == b'+'
    then Option.bind (unsigned s) (signed false)
    else Option.bind (unsigned (c ∷ s)) (signed false)

-- The digits of `n` in front of `out`, in a buffer with room for `room` more bytes.
unfoldable pub emit : ℕ → ℕ → Bytes → Bytes
emit zero n out = out
emit (suc room) n out = elim (n == 0) [
  | true ↦ out
  | false ↦ emit room (n / 10) ((b'0' + n % 10) ∷ out)
]

-- `strconv.Itoa(n)` at an int64, which has at most 19 digits.
unfoldable pub itoa : ℤ → Bytes
unfolding emit
itoa (pos n) = if n == 0 then codes "0" else emit 20 n []
itoa (negsuc n) = b'-' ∷ emit 20 (suc n) []

-- The bytes of `strconv.FormatFloat`: digits, signs, the point, the exponent, `NaN` and `Inf`.
unfoldable pub is_numeral_byte : ℕ → Bool
unfolding is_digit
is_numeral_byte c =
    is_digit c
    || c == b'+'
    || c == b'-'
    || c == b'.'
    || c == b'e'
    || c == b'N'
    || c == b'a'
    || c == b'I'
    || c == b'n'
    || c == b'f'

-- `strings.Cut(s, sep)` at a one-byte separator; `none` where it is not found.
unfoldable pub cut : Bytes → ℕ → Option (Bytes × Bytes)
cut [] sep = none
cut (c ∷ s) sep =
    let later = Option.map (λ (parts : Bytes × Bytes). (c ∷ parts.0, parts.1)) (cut s sep) in
    if c == sep then some ([], s) else later
