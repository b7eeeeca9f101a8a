-- ===== src/Datatype.antt =====
-- tiledb/common/src/datatype/mod.rs and logical.rs: the logical types of dimensions and attributes,
-- the physical type of each, and the classes of types that the crates test for.
pub mod Classes
pub mod Codes
pub mod Compatible
pub mod Names
use tiledb_rs.Base.{
  ℕ, ◌-◌, ◌^◌, Bool, true, false, not, ◌&&◌, ◌||◌, Option, none, some, List, [], ◌∷◌, ◌==◌,
  if◌then◌else◌,
}
use tiledb_rs.Physical.{PhysicalType, u8, u16, u32, u64, i8, i16, i32, i64, f32, f64, size_of}

-- `enum Datatype`, in the order of its declaration.
pub data Datatype : Type 0 where
  int32 int64 float32 float64 char : Datatype
  int8 uint8 int16 uint16 uint32 : Datatype
  uint64 string_ascii string_utf8 string_utf16 string_utf32 : Datatype
  string_ucs2 string_ucs4 any date_time_year date_time_month : Datatype
  date_time_week date_time_day date_time_hour date_time_minute date_time_second : Datatype
  date_time_millisecond date_time_microsecond date_time_nanosecond date_time_picosecond
        date_time_femtosecond :
      Datatype
  date_time_attosecond time_hour time_minute time_second time_millisecond : Datatype
  time_microsecond time_nanosecond time_picosecond time_femtosecond time_attosecond : Datatype
  blob boolean geometry_wkb geometry_wkt : Datatype

-- The discriminant that the order of the declaration gives, by which `==` compares.
abbrev pub discriminant : Datatype → ℕ
discriminant int32 = 0
discriminant int64 = 1
discriminant float32 = 2
discriminant float64 = 3
discriminant char = 4
discriminant int8 = 5
discriminant uint8 = 6
discriminant int16 = 7
discriminant uint16 = 8
discriminant uint32 = 9
discriminant uint64 = 10
discriminant string_ascii = 11
discriminant string_utf8 = 12
discriminant string_utf16 = 13
discriminant string_utf32 = 14
discriminant string_ucs2 = 15
discriminant string_ucs4 = 16
discriminant any = 17
discriminant date_time_year = 18
discriminant date_time_month = 19
discriminant date_time_week = 20
discriminant date_time_day = 21
discriminant date_time_hour = 22
discriminant date_time_minute = 23
discriminant date_time_second = 24
discriminant date_time_millisecond = 25
discriminant date_time_microsecond = 26
discriminant date_time_nanosecond = 27
discriminant date_time_picosecond = 28
discriminant date_time_femtosecond = 29
discriminant date_time_attosecond = 30
discriminant time_hour = 31
discriminant time_minute = 32
discriminant time_second = 33
discriminant time_millisecond = 34
discriminant time_microsecond = 35
discriminant time_nanosecond = 36
discriminant time_picosecond = 37
discriminant time_femtosecond = 38
discriminant time_attosecond = 39
discriminant blob = 40
discriminant boolean = 41
discriminant geometry_wkb = 42
discriminant geometry_wkt = 43

-- The derived `PartialEq::eq`.
abbrev pub eq_datatype : Datatype → Datatype → Bool
eq_datatype a b = discriminant a == discriminant b

-- `const DATATYPES`.
abbrev pub datatypes : List Datatype
datatypes =
    int32 ∷ int64 ∷ float32 ∷ float64 ∷ char ∷ int8 ∷ uint8 ∷ int16 ∷ uint16 ∷ uint32 ∷ uint64
    ∷ string_ascii ∷ string_utf8 ∷ string_utf16 ∷ string_utf32 ∷ string_ucs2 ∷ string_ucs4
    ∷ date_time_year ∷ date_time_month ∷ date_time_week ∷ date_time_day ∷ date_time_hour
    ∷ date_time_minute ∷ date_time_second ∷ date_time_millisecond ∷ date_time_microsecond
    ∷ date_time_nanosecond ∷ date_time_picosecond ∷ date_time_femtosecond ∷ date_time_attosecond
    ∷ time_hour ∷ time_minute ∷ time_second ∷ time_millisecond ∷ time_microsecond ∷ time_nanosecond
    ∷ time_picosecond ∷ time_femtosecond ∷ time_attosecond ∷ blob ∷ boolean ∷ geometry_wkb
    ∷ geometry_wkt ∷ []

-- `const DENSE_DIMENSION_DATATYPES`.
abbrev pub dense_dimension_datatypes : List Datatype
dense_dimension_datatypes =
    int8 ∷ int16 ∷ int32 ∷ int64 ∷ uint8 ∷ uint16 ∷ uint32 ∷ uint64 ∷ date_time_year
    ∷ date_time_month ∷ date_time_week ∷ date_time_day ∷ date_time_hour ∷ date_time_minute
    ∷ date_time_second ∷ date_time_millisecond ∷ date_time_microsecond ∷ date_time_nanosecond
    ∷ date_time_picosecond ∷ date_time_femtosecond ∷ date_time_attosecond ∷ time_hour ∷ time_minute
    ∷ time_second ∷ time_millisecond ∷ time_microsecond ∷ time_nanosecond ∷ time_picosecond
    ∷ time_femtosecond ∷ time_attosecond ∷ []

-- `const SPARSE_DIMENSION_DATATYPES`.
abbrev pub sparse_dimension_datatypes : List Datatype
sparse_dimension_datatypes =
    int8 ∷ int16 ∷ int32 ∷ int64 ∷ uint8 ∷ uint16 ∷ uint32 ∷ uint64 ∷ float32 ∷ float64
    ∷ date_time_year ∷ date_time_month ∷ date_time_week ∷ date_time_day ∷ date_time_hour
    ∷ date_time_minute ∷ date_time_second ∷ date_time_millisecond ∷ date_time_microsecond
    ∷ date_time_nanosecond ∷ date_time_picosecond ∷ date_time_femtosecond ∷ date_time_attosecond
    ∷ time_hour ∷ time_minute ∷ time_second ∷ time_millisecond ∷ time_microsecond ∷ time_nanosecond
    ∷ time_picosecond ∷ time_femtosecond ∷ time_attosecond ∷ string_ascii ∷ []

-- The macro `physical_type_go`: the `PhysicalType` of the `LogicalType` that `logical_type_go`
-- binds.
unfoldable pub physical_type : Datatype → PhysicalType
physical_type int32 = i32
physical_type int64 = i64
physical_type float32 = f32
physical_type float64 = f64
physical_type char = i8
physical_type int8 = i8
physical_type uint8 = u8
physical_type int16 = i16
physical_type uint16 = u16
physical_type uint32 = u32
physical_type uint64 = u64
physical_type string_ascii = u8
physical_type string_utf8 = u8
physical_type string_utf16 = u16
physical_type string_utf32 = u32
physical_type string_ucs2 = u16
physical_type string_ucs4 = u32
physical_type any = u8
physical_type date_time_year = i64
physical_type date_time_month = i64
physical_type date_time_week = i64
physical_type date_time_day = i64
physical_type date_time_hour = i64
physical_type date_time_minute = i64
physical_type date_time_second = i64
physical_type date_time_millisecond = i64
physical_type date_time_microsecond = i64
physical_type date_time_nanosecond = i64
physical_type date_time_picosecond = i64
physical_type date_time_femtosecond = i64
physical_type date_time_attosecond = i64
physical_type time_hour = i64
physical_type time_minute = i64
physical_type time_second = i64
physical_type time_millisecond = i64
physical_type time_microsecond = i64
physical_type time_nanosecond = i64
physical_type time_picosecond = i64
physical_type time_femtosecond = i64
physical_type time_attosecond = i64
physical_type blob = u8
physical_type boolean = u8
physical_type geometry_wkb = u8
physical_type geometry_wkt = u8

-- `enum Error`. A physical type stands for its name.
pub data DatatypeError : Type 0 where
  physical_type_mismatch : PhysicalType → PhysicalType → DatatypeError
  physical_type_incompatible : PhysicalType → Datatype → DatatypeError
  logical_type_mismatch : Datatype → Datatype → DatatypeError
