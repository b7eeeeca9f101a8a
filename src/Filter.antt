-- ===== src/Filter.antt =====
-- tiledb/common/src/filter: `FilterData` with its parts, the codes of the C interface, and the type
-- of the cells that a filter puts out. A float is its bit pattern.
pub mod Sizes
use tiledb_rs.Base.{
  ℕ, ◌==◌, Bool, true, false, ◌||◌, not, Option, none, some, if◌then◌else◌, Result, ok, err,
}
use tiledb_rs.Base.Int.{ℤ}
use tiledb_rs.Datatype.{Datatype, uint8, int8, int16, int32, int64, eq_datatype}
use tiledb_rs.Datatype.Classes.{
  size, is_integral_type, is_datetime_type, is_time_type, is_byte_type, is_real_type,
}

pub data CompressionType : Type 0 where
  bzip2 dictionary gzip lz4 rle zstd : CompressionType
  delta double_delta : (reinterpret_datatype : Option Datatype) → CompressionType

pub data ChecksumType : Type 0 where
  md5 sha256 : ChecksumType

pub record CompressionData : Type 0 where
  pub kind : CompressionType
  pub level : Option ℤ

-- `CompressionData::new`.
abbrev pub new_compression : CompressionType → CompressionData
new_compression kind = record { kind = kind; level = none }

pub data ScaleFloatByteWidth : Type 0 where
  i8 i16 i32 i64 : ScaleFloatByteWidth

-- `#[default]`.
abbrev pub default_width : ScaleFloatByteWidth
default_width = i64

pub data ScaleFloatByteWidthError : Type 0 where
  invalid_byte_width : ℕ → ScaleFloatByteWidthError

abbrev pub output_datatype : ScaleFloatByteWidth → Datatype
output_datatype i8 = int8
output_datatype i16 = int16
output_datatype i32 = int32
output_datatype i64 = int64

-- `From<ScaleFloatByteWidth> for c_ulonglong`.
unfoldable pub width_code : ScaleFloatByteWidth → ℕ
width_code i8 = 1
width_code i16 = 2
width_code i32 = 4
width_code i64 = 8

-- `TryFrom<c_ulonglong>`.
unfoldable pub width_of_code : ℕ → Result ScaleFloatByteWidthError ScaleFloatByteWidth
width_of_code value =
    if value == 1
    then ok i8
    else if value == 2
    then ok i16
    else if value == 4
    then ok i32
    else if value == 8
    then ok i64
    else err (invalid_byte_width value)

pub data WebPFilterInputFormat : Type 0 where
  rgb bgr rgba bgra : WebPFilterInputFormat

pub data WebPFilterError : Type 0 where
  invalid_discriminant : ℕ → WebPFilterError

abbrev pub pixel_depth : WebPFilterInputFormat → ℕ
pixel_depth rgb = 3
pixel_depth bgr = 3
pixel_depth rgba = 4
pixel_depth bgra = 4

-- `From<WebPFilterInputFormat>` for the constants of tiledb/sys-defs/src/lib.rs, and `TryFrom<u32>`.
unfoldable pub format_code : WebPFilterInputFormat → ℕ
format_code rgb = 1
format_code bgr = 2
format_code rgba = 3
format_code bgra = 4

unfoldable pub format_of_code : ℕ → Result WebPFilterError WebPFilterInputFormat
format_of_code value =
    if value == 1
    then ok rgb
    else if value == 2
    then ok bgr
    else if value == 3
    then ok rgba
    else if value == 4
    then ok bgra
    else err (invalid_discriminant value)

pub data FilterData : Type 0 where
  none_filter bit_shuffle byte_shuffle : FilterData
  bit_width_reduction positive_delta : (max_window : Option ℕ) → FilterData
  checksum : ChecksumType → FilterData
  compression : CompressionData → FilterData
  scale_float : (byte_width : Option ScaleFloatByteWidth) → (factor offset : Option ℕ) → FilterData
  web_p :
      (input_format : WebPFilterInputFormat)
      → (lossless : Option Bool) → (quality : Option ℕ) → FilterData
  xor : FilterData

-- `reinterpret_datatype.map_or(...)`.
abbrev pub reinterpret : Option Datatype → Datatype → Option Datatype
reinterpret none input = some input
reinterpret (some dtype) input = if not (is_real_type dtype) then some dtype else none

-- The branch of a compression.
abbrev pub transform_compression : CompressionType → Datatype → Option Datatype
transform_compression (delta reinterpret_datatype) input = reinterpret reinterpret_datatype input
transform_compression (double_delta reinterpret_datatype) input =
    reinterpret reinterpret_datatype input
transform_compression _ input = some input

abbrev pub unwrap_width : Option ScaleFloatByteWidth → ScaleFloatByteWidth
unwrap_width none = default_width
unwrap_width (some byte_width) = byte_width

-- Whether the window filters take the type.
abbrev pub takes_window : Datatype → Bool
takes_window input =
    is_integral_type input || (is_datetime_type input || (is_time_type input || is_byte_type input))

-- The branch of `Xor`.
abbrev pub xor_datatype : ℕ → Option Datatype
xor_datatype n =
    if n == 1
    then some int8
    else if n == 2
    then some int16
    else if n == 4
    then some int32
    else if n == 8
    then some int64
    else none

unfoldable pub transform_datatype : FilterData → Datatype → Option Datatype
transform_datatype none_filter input = some input
transform_datatype bit_shuffle input = some input
transform_datatype byte_shuffle input = some input
transform_datatype (checksum kind) input = some input
transform_datatype (bit_width_reduction max_window) input =
    if takes_window input then some input else none
transform_datatype (positive_delta max_window) input =
    if takes_window input then some input else none
transform_datatype (compression c) input = transform_compression c.kind input
transform_datatype (scale_float byte_width factor offset) input =
    if size input == 4 || size input == 8
    then some (output_datatype (unwrap_width byte_width))
    else none
transform_datatype (web_p input_format lossless quality) input =
    if eq_datatype input uint8 then some uint8 else none
transform_datatype xor input = xor_datatype (size input)
