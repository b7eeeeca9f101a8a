-- ===== src/Datatype/Classes.antt =====
-- tiledb/common/src/datatype/mod.rs: the methods of `impl Datatype`.
use tiledb_rs.Base.{
  ℕ, ◌-◌, ◌^◌, Bool, true, false, not, ◌&&◌, ◌||◌, Option, none, some, if◌then◌else◌,
}
use tiledb_rs.Physical.{PhysicalType, u8, u16, u32, u64, i8, i16, i32, i64, f32, f64, size_of}
use tiledb_rs.Datatype.{
  Datatype, eq_datatype, physical_type, int32, int64, float32, float64, char, int8, uint8, int16,
  uint16, uint32, uint64, string_ascii, string_utf8, string_utf16, string_utf32, string_ucs2,
  string_ucs4, any, date_time_year, date_time_month, date_time_week, date_time_day, date_time_hour,
  date_time_minute, date_time_second, date_time_millisecond, date_time_microsecond,
  date_time_nanosecond, date_time_picosecond, date_time_femtosecond, date_time_attosecond,
  time_hour, time_minute, time_second, time_millisecond, time_microsecond, time_nanosecond,
  time_picosecond, time_femtosecond, time_attosecond, blob, boolean, geometry_wkb, geometry_wkt,
}

unfoldable pub size : Datatype → ℕ
unfolding physical_type
size d = size_of (physical_type d)

-- `TypeId::of::<A>() == TypeId::of::<B>()` for physical types.
abbrev pub same_type : PhysicalType → PhysicalType → Bool
same_type u8 u8 = true
same_type u16 u16 = true
same_type u32 u32 = true
same_type u64 u64 = true
same_type i8 i8 = true
same_type i16 i16 = true
same_type i32 i32 = true
same_type i64 i64 = true
same_type f32 f32 = true
same_type f64 f64 = true
same_type _ _ = false

-- The `matches!` of each branch of `is_compatible_type`.
abbrev matches_u8 : Datatype → Bool
matches_u8 uint8 = true
matches_u8 string_ascii = true
matches_u8 string_utf8 = true
matches_u8 any = true
matches_u8 blob = true
matches_u8 boolean = true
matches_u8 geometry_wkb = true
matches_u8 geometry_wkt = true
matches_u8 _ = false

abbrev matches_u16 : Datatype → Bool
matches_u16 uint16 = true
matches_u16 string_utf16 = true
matches_u16 string_ucs2 = true
matches_u16 _ = false

abbrev matches_u32 : Datatype → Bool
matches_u32 uint32 = true
matches_u32 string_utf32 = true
matches_u32 string_ucs4 = true
matches_u32 _ = false

abbrev matches_u64 : Datatype → Bool
matches_u64 uint64 = true
matches_u64 _ = false

abbrev matches_i8 : Datatype → Bool
matches_i8 char = true
matches_i8 int8 = true
matches_i8 _ = false

abbrev matches_i16 : Datatype → Bool
matches_i16 int16 = true
matches_i16 _ = false

abbrev matches_i32 : Datatype → Bool
matches_i32 int32 = true
matches_i32 _ = false

abbrev matches_i64 : Datatype → Bool
matches_i64 int64 = true
matches_i64 date_time_year = true
matches_i64 date_time_month = true
matches_i64 date_time_week = true
matches_i64 date_time_day = true
matches_i64 date_time_hour = true
matches_i64 date_time_minute = true
matches_i64 date_time_second = true
matches_i64 date_time_millisecond = true
matches_i64 date_time_microsecond = true
matches_i64 date_time_nanosecond = true
matches_i64 date_time_picosecond = true
matches_i64 date_time_femtosecond = true
matches_i64 date_time_attosecond = true
matches_i64 time_hour = true
matches_i64 time_minute = true
matches_i64 time_second = true
matches_i64 time_millisecond = true
matches_i64 time_microsecond = true
matches_i64 time_nanosecond = true
matches_i64 time_picosecond = true
matches_i64 time_femtosecond = true
matches_i64 time_attosecond = true
matches_i64 _ = false

abbrev matches_f32 : Datatype → Bool
matches_f32 float32 = true
matches_f32 _ = false

abbrev matches_f64 : Datatype → Bool
matches_f64 float64 = true
matches_f64 _ = false

-- `is_compatible_type::<T>`: the chain of tests on the type `T`.
unfoldable pub is_compatible_type : PhysicalType → Datatype → Bool
is_compatible_type t d =
    if same_type t f32
    then matches_f32 d
    else if same_type t f64
    then matches_f64 d
    else if same_type t i8
    then matches_i8 d
    else if same_type t u8
    then matches_u8 d
    else if same_type t i16
    then matches_i16 d
    else if same_type t u16
    then matches_u16 d
    else if same_type t i32
    then matches_i32 d
    else if same_type t u32
    then matches_u32 d
    else if same_type t i64
    then matches_i64 d
    else if same_type t u64
    then matches_u64 d
    else false

abbrev pub is_integral_type : Datatype → Bool
is_integral_type int32 = true
is_integral_type int64 = true
is_integral_type int8 = true
is_integral_type uint8 = true
is_integral_type int16 = true
is_integral_type uint16 = true
is_integral_type uint32 = true
is_integral_type uint64 = true
is_integral_type boolean = true
is_integral_type _ = false

abbrev pub is_real_type : Datatype → Bool
is_real_type float32 = true
is_real_type float64 = true
is_real_type _ = false

abbrev pub is_string_type : Datatype → Bool
is_string_type string_ascii = true
is_string_type string_utf8 = true
is_string_type string_utf16 = true
is_string_type string_utf32 = true
is_string_type string_ucs2 = true
is_string_type string_ucs4 = true
is_string_type _ = false

abbrev pub is_datetime_type : Datatype → Bool
is_datetime_type date_time_year = true
is_datetime_type date_time_month = true
is_datetime_type date_time_week = true
is_datetime_type date_time_day = true
is_datetime_type date_time_hour = true
is_datetime_type date_time_minute = true
is_datetime_type date_time_second = true
is_datetime_type date_time_millisecond = true
is_datetime_type date_time_microsecond = true
is_datetime_type date_time_nanosecond = true
is_datetime_type date_time_picosecond = true
is_datetime_type date_time_femtosecond = true
is_datetime_type date_time_attosecond = true
is_datetime_type _ = false

abbrev pub is_time_type : Datatype → Bool
is_time_type time_hour = true
is_time_type time_minute = true
is_time_type time_second = true
is_time_type time_millisecond = true
is_time_type time_microsecond = true
is_time_type time_nanosecond = true
is_time_type time_picosecond = true
is_time_type time_femtosecond = true
is_time_type time_attosecond = true
is_time_type _ = false

abbrev pub is_byte_type : Datatype → Bool
is_byte_type blob = true
is_byte_type geometry_wkb = true
is_byte_type geometry_wkt = true
is_byte_type _ = false

abbrev pub is_allowed_attribute_type_for_enumeration : Datatype → Bool
is_allowed_attribute_type_for_enumeration d = is_integral_type d

-- `DT::MAX as usize`; the cast of a float saturates.
abbrev pub max_as_usize : PhysicalType → ℕ
max_as_usize u8 = 2 ^ 8 - 1
max_as_usize u16 = 2 ^ 16 - 1
max_as_usize u32 = 2 ^ 32 - 1
max_as_usize u64 = 2 ^ 64 - 1
max_as_usize i8 = 2 ^ 7 - 1
max_as_usize i16 = 2 ^ 15 - 1
max_as_usize i32 = 2 ^ 31 - 1
max_as_usize i64 = 2 ^ 63 - 1
max_as_usize f32 = 2 ^ 64 - 1
max_as_usize f64 = 2 ^ 64 - 1

unfoldable pub max_enumeration_variants : Datatype → Option ℕ
unfolding physical_type
max_enumeration_variants d =
    if eq_datatype d boolean
    then some 2
    else if is_allowed_attribute_type_for_enumeration d
    then some (max_as_usize (physical_type d) - 1)
    else none

unfoldable pub is_allowed_dimension_type_sparse : Datatype → Bool
is_allowed_dimension_type_sparse d =
    not (eq_datatype d boolean)
    && (is_integral_type d
        || (is_datetime_type d
            || (is_time_type d
                || (eq_datatype d float32
                    || (eq_datatype d float64 || eq_datatype d string_ascii)))))

unfoldable pub is_allowed_dimension_type_dense : Datatype → Bool
is_allowed_dimension_type_dense d =
    not (eq_datatype d boolean) && (is_integral_type d || (is_datetime_type d || is_time_type d))

unfoldable pub same_physical_type : Datatype → Datatype → Bool
unfolding physical_type
same_physical_type d e = same_type (physical_type d) (physical_type e)
