-- ===== src/Parse/Types.antt =====
-- The types of parse.go. `Quality` and `Format` are Go strings.
use triplet.Common.{ℕ, Bool}
use triplet.Common.Int.{ℤ}
use triplet.Text.{Bytes}

pub data Kind : Type 0 where
  image info base : Kind

pub data RegionKind : Type 0 where
  full square pixels percent : RegionKind

pub record Region (Float : Type 0) : Type 0 where
  pub kind : RegionKind
  pub x : Float
  pub y : Float
  pub w : Float
  pub h : Float

pub data SizeKind : Type 0 where
  max max_up width height percent wh best_fit : SizeKind

pub record Size (Float : Type 0) : Type 0 where
  pub kind : SizeKind
  pub w : ℤ
  pub h : ℤ
  pub percent : Float
  pub upscale : Bool

pub record Rotation (Float : Type 0) : Type 0 where
  pub degrees : Float
  pub mirror : Bool

abbrev pub Quality : Type 0
Quality = Bytes

abbrev pub Format : Type 0
Format = Bytes

pub record Request (Float : Type 0) : Type 0 where
  pub kind : Kind
  pub identifier : Bytes
  pub region : Region Float
  pub size : Size Float
  pub rotation : Rotation Float
  pub quality : Quality
  pub format : Format

-- The causes that are wrapped in `ErrSyntax`, with the text that they quote.
pub data SyntaxError : Type 0 where
  empty_path : SyntaxError
  quality_format : Bytes → SyntaxError
  not_info : Bytes → SyntaxError
  segment_count : ℕ → SyntaxError
  operation_escape operation_illegal : SyntaxError
  empty_identifier identifier_escape identifier_illegal : SyntaxError
  empty_region : SyntaxError
  region_count region_number region_extent region_origin region_percent : Bytes → SyntaxError
  empty_size : SyntaxError
  size_percent size_percent_max : Bytes → SyntaxError
  size_parts size_number : Bytes → SyntaxError
  size_unspecified : SyntaxError
  empty_rotation : SyntaxError
  rotation_number rotation_range : Bytes → SyntaxError
  unknown_quality unknown_format : Bytes → SyntaxError
