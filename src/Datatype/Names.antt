-- ===== src/Datatype/Names.antt =====
-- tiledb/common/src/datatype/mod.rs: `Display` and `FromStr`. A text is the list of its bytes.
use Prim.Native.Char.{code}
use Prim.Native.String.{String}
use tiledb_rs.Base.{
  ℕ, ◌+◌, ◌≡◌, ◌↔◌, refl, ap, ◌∙◌, Bool, true, ◌&&◌, Option, none, some, List, [], ◌∷◌, map, ◌==◌,
  ==_iff, leb, if◌then◌else◌, Result, ok, err, arith,
}
use tiledb_rs.Physical.{slice_eq}
use tiledb_rs.Physical.Order.{slice_eq_iff}
use tiledb_rs.Datatype.{
  Datatype, int32, int64, float32, float64, char, int8, uint8, int16, uint16, uint32, uint64,
  string_ascii, string_utf8, string_utf16, string_utf32, string_ucs2, string_ucs4, any,
  date_time_year, date_time_month, date_time_week, date_time_day, date_time_hour, date_time_minute,
  date_time_second, date_time_millisecond, date_time_microsecond, date_time_nanosecond,
  date_time_picosecond, date_time_femtosecond, date_time_attosecond, time_hour, time_minute,
  time_second, time_millisecond, time_microsecond, time_nanosecond, time_picosecond,
  time_femtosecond, time_attosecond, blob, boolean, geometry_wkb, geometry_wkt,
}

-- The bytes of a text in ASCII.
abbrev pub bytes : String → List ℕ
bytes String.[] = []
bytes (String.◌∷◌ c s) = code c ∷ bytes s

-- `str::to_ascii_lowercase`, for a byte and for a text.
abbrev lower_byte : ℕ → ℕ
lower_byte c = if leb b'A' c && leb c b'Z' then c + 32 else c

unfoldable pub to_ascii_lowercase : List ℕ → List ℕ
to_ascii_lowercase s = map lower_byte s

-- `Display`, by the derived `Debug`: the variant's name in the source.
unfoldable pub to_string : Datatype → List ℕ
to_string int32 = bytes "Int32"
to_string int64 = bytes "Int64"
to_string float32 = bytes "Float32"
to_string float64 = bytes "Float64"
to_string char = bytes "Char"
to_string int8 = bytes "Int8"
to_string uint8 = bytes "UInt8"
to_string int16 = bytes "Int16"
to_string uint16 = bytes "UInt16"
to_string uint32 = bytes "UInt32"
to_string uint64 = bytes "UInt64"
to_string string_ascii = bytes "StringAscii"
to_string string_utf8 = bytes "StringUtf8"
to_string string_utf16 = bytes "StringUtf16"
to_string string_utf32 = bytes "StringUtf32"
to_string string_ucs2 = bytes "StringUcs2"
to_string string_ucs4 = bytes "StringUcs4"
to_string any = bytes "Any"
to_string date_time_year = bytes "DateTimeYear"
to_string date_time_month = bytes "DateTimeMonth"
to_string date_time_week = bytes "DateTimeWeek"
to_string date_time_day = bytes "DateTimeDay"
to_string date_time_hour = bytes "DateTimeHour"
to_string date_time_minute = bytes "DateTimeMinute"
to_string date_time_second = bytes "DateTimeSecond"
to_string date_time_millisecond = bytes "DateTimeMillisecond"
to_string date_time_microsecond = bytes "DateTimeMicrosecond"
to_string date_time_nanosecond = bytes "DateTimeNanosecond"
to_string date_time_picosecond = bytes "DateTimePicosecond"
to_string date_time_femtosecond = bytes "DateTimeFemtosecond"
to_string date_time_attosecond = bytes "DateTimeAttosecond"
to_string time_hour = bytes "TimeHour"
to_string time_minute = bytes "TimeMinute"
to_string time_second = bytes "TimeSecond"
to_string time_millisecond = bytes "TimeMillisecond"
to_string time_microsecond = bytes "TimeMicrosecond"
to_string time_nanosecond = bytes "TimeNanosecond"
to_string time_picosecond = bytes "TimePicosecond"
to_string time_femtosecond = bytes "TimeFemtosecond"
to_string time_attosecond = bytes "TimeAttosecond"
to_string blob = bytes "Blob"
to_string boolean = bytes "Boolean"
to_string geometry_wkb = bytes "GeometryWkb"
to_string geometry_wkt = bytes "GeometryWkt"

abbrev arms : List (List ℕ × Datatype)
arms =
    (bytes "int8", int8)
    ∷ (bytes "int16", int16)
    ∷ (bytes "int32", int32)
    ∷ (bytes "int64", int64)
    ∷ (bytes "float32", float32)
    ∷ (bytes "float64", float64)
    ∷ (bytes "char", char)
    ∷ (bytes "uint8", uint8)
    ∷ (bytes "uint16", uint16)
    ∷ (bytes "uint32", uint32)
    ∷ (bytes "uint64", uint64)
    ∷ (bytes "stringascii", string_ascii)
    ∷ (bytes "stringutf8", string_utf8)
    ∷ (bytes "stringutf16", string_utf16)
    ∷ (bytes "stringutf32", string_utf32)
    ∷ (bytes "stringucs2", string_ucs2)
    ∷ (bytes "stringucs4", string_ucs4)
    ∷ (bytes "any", any)
    ∷ (bytes "datetimeyear", date_time_year)
    ∷ (bytes "datetimemonth", date_time_month)
    ∷ (bytes "datetimeweek", date_time_week)
    ∷ (bytes "datetimeday", date_time_day)
    ∷ (bytes "datetimehour", date_time_hour)
    ∷ (bytes "datetimeminute", date_time_minute)
    ∷ (bytes "datetimesecond", date_time_second)
    ∷ (bytes "datetimemillisecond", date_time_millisecond)
    ∷ (bytes "datetimemicrosecond", date_time_microsecond)
    ∷ (bytes "datetimenanosecond", date_time_nanosecond)
    ∷ (bytes "datetimepicosecond", date_time_picosecond)
    ∷ (bytes "datetimefemtosecond", date_time_femtosecond)
    ∷ (bytes "datetimeattosecond", date_time_attosecond)
    ∷ (bytes "timehour", time_hour)
    ∷ (bytes "timeminute", time_minute)
    ∷ (bytes "timesecond", time_second)
    ∷ (bytes "timemillisecond", time_millisecond)
    ∷ (bytes "timemicrosecond", time_microsecond)
    ∷ (bytes "timenanosecond", time_nanosecond)
    ∷ (bytes "timepicosecond", time_picosecond)
    ∷ (bytes "timefemtosecond", time_femtosecond)
    ∷ (bytes "timeattosecond", time_attosecond)
    ∷ (bytes "blob", blob)
    ∷ (bytes "boolean", boolean)
    ∷ (bytes "geometrywkb", geometry_wkb)
    ∷ (bytes "geometrywkt", geometry_wkt)
    ∷ []

-- The first arm whose text is the value.
match_str : List ℕ → List (List ℕ × Datatype) → Option Datatype
match_str s [] = none
match_str s ((text, d) ∷ table) = if slice_eq ◌==◌ s text then some d else match_str s table

-- The `match` of `from_str`. The error holds the text in lower case.
match_lower : List ℕ → Result (List ℕ) Datatype
unfolding match_str
match_lower s = elim (match_str s arms) [ some d ↦ ok d | none ↦ err s ]

-- `FromStr::from_str`.
pub from_str : List ℕ → Result (List ℕ) Datatype
unfolding match_lower
from_str s = match_lower (to_ascii_lowercase s)

is_keyed : List (List ℕ × Datatype) → Bool
is_keyed [] = true
is_keyed ((text, d) ∷ table) =
    slice_eq ◌==◌ (to_ascii_lowercase (to_string d)) text && is_keyed table

arms_keyed : is_keyed arms ≡ true
unfolding is_keyed slice_eq to_ascii_lowercase to_string
arms_keyed = refl

match_str-keyed :
    (s : List ℕ) (table : List (List ℕ × Datatype)) {d : Datatype}
    → is_keyed table ≡ true
    → match_str s table ≡ some d
    → s ≡ to_ascii_lowercase (to_string d)
unfolding is_keyed match_str
match_str-keyed s [] h e = ground arith
match_str-keyed s ((text, d) ∷ table) {d = c} h e = ground (
  arith,
  slice_eq_iff ◌==◌ ==_iff s text,
  slice_eq_iff ◌==◌ ==_iff (to_ascii_lowercase (to_string d)) text,
  match_str-keyed s table {d = c},
)

from_str-to_string : (d : Datatype) → from_str (to_string d) ≡ ok d
unfolding from_str slice_eq to_ascii_lowercase to_string
from_str-to_string int32 = refl
from_str-to_string _ = refl

from_str_same :
    (s t : List ℕ) → to_ascii_lowercase s ≡ to_ascii_lowercase t → from_str s ≡ from_str t
unfolding from_str
from_str_same s t e = ap match_lower e

-- A text parses as a type exactly if it is the text that the type prints, up to the case of ASCII
-- letters.
pub from_str_iff :
    (s : List ℕ) (d : Datatype)
    → (from_str s ≡ ok d) ↔ (to_ascii_lowercase s ≡ to_ascii_lowercase (to_string d))
unfolding from_str
from_str_iff s d = (
  ground (arith, match_str-keyed (to_ascii_lowercase s) arms {d = d} arms_keyed),
  λ e. from_str_same s (to_string d) e ∙ from_str-to_string d,
)
