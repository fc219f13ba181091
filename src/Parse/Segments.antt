-- ===== src/Parse/Segments.antt =====
-- `decodeOperationSegment` and `decodeIdentifier`.
use triplet.Common.{List, [], ◌∷◌, none, some, Result, ok, err, ◌>>=◌, if◌then◌else◌}
use triplet.Text.{Bytes, bytes_eq, contains_any, path_unescape}
use triplet.Parse.Types.{SyntaxError}

-- NUL, LF and CR.
abbrev pub control : Bytes
control = 0 ∷ 10 ∷ 13 ∷ []

-- The same and a slash.
abbrev pub control_or_slash : Bytes
control_or_slash = 0 ∷ 10 ∷ 13 ∷ b'/' ∷ []

unfoldable pub decode_operation_segment : Bytes → Result SyntaxError Bytes
decode_operation_segment s = elim (path_unescape s) [
  | none ↦ err SyntaxError.operation_escape
  | some decoded ↦
      if contains_any decoded control_or_slash
      then err SyntaxError.operation_illegal
      else ok decoded
]

-- The loop of `parseImage` over the last four segments.
unfoldable pub decode_all : List Bytes → Result SyntaxError (List Bytes)
decode_all [] = ok []
decode_all (part ∷ parts) = do
  s ← decode_operation_segment part
  rest ← decode_all parts
  ok (s ∷ rest)

unfoldable pub decode_identifier : Bytes → Result SyntaxError Bytes
decode_identifier s =
    if bytes_eq s [] then err SyntaxError.empty_identifier else elim (path_unescape s) [
      | none ↦ err SyntaxError.identifier_escape
      | some id ↦ if contains_any id control then err SyntaxError.identifier_illegal else ok id
    ]
