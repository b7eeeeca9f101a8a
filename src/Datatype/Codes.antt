-- ===== src/Datatype/Codes.antt =====
-- tiledb/common/src/datatype/mod.rs: the conversions to and from `tiledb_datatype_t`, over the
-- constants of tiledb/sys-defs/src/lib.rs.
use tiledb_rs.Base.{
  ℕ, ◌≤◌, ◌<◌, ◌≡◌, ◌↔◌, refl, sym, ap, ◌∙◌, ==_iff, Bool, true, false, none, some, List, [], ◌∷◌,
  Result, ok, err, arith,
}
use tiledb_rs.Base.Table.{
  match_const, is_keyed_by, is_below, match_const-keyed, match_const-beyond, all_below,
  all_below_sound,
}
use tiledb_rs.Datatype.{
  Datatype, discriminant, eq_datatype, int32, int64, float32, float64, char, int8, uint8, int16,
  uint16, uint32, uint64, string_ascii, string_utf8, string_utf16, string_utf32, string_ucs2,
  string_ucs4, any, date_time_year, date_time_month, date_time_week, date_time_day, date_time_hour,
  date_time_minute, date_time_second, date_time_millisecond, date_time_microsecond,
  date_time_nanosecond, date_time_picosecond, date_time_femtosecond, date_time_attosecond,
  time_hour, time_minute, time_second, time_millisecond, time_microsecond, time_nanosecond,
  time_picosecond, time_femtosecond, time_attosecond, blob, boolean, geometry_wkb, geometry_wkt,
}

-- `impl From<Datatype> for ffi::tiledb_datatype_t`.
unfoldable pub to_ffi : Datatype → ℕ
to_ffi int8 = 5
to_ffi int16 = 7
to_ffi int32 = 0
to_ffi int64 = 1
to_ffi float32 = 2
to_ffi float64 = 3
to_ffi char = 4
to_ffi uint8 = 6
to_ffi uint16 = 8
to_ffi uint32 = 9
to_ffi uint64 = 10
to_ffi string_ascii = 11
to_ffi string_utf8 = 12
to_ffi string_utf16 = 13
to_ffi string_utf32 = 14
to_ffi string_ucs2 = 15
to_ffi string_ucs4 = 16
to_ffi any = 17
to_ffi date_time_year = 18
to_ffi date_time_month = 19
to_ffi date_time_week = 20
to_ffi date_time_day = 21
to_ffi date_time_hour = 22
to_ffi date_time_minute = 23
to_ffi date_time_second = 24
to_ffi date_time_millisecond = 25
to_ffi date_time_microsecond = 26
to_ffi date_time_nanosecond = 27
to_ffi date_time_picosecond = 28
to_ffi date_time_femtosecond = 29
to_ffi date_time_attosecond = 30
to_ffi time_hour = 31
to_ffi time_minute = 32
to_ffi time_second = 33
to_ffi time_millisecond = 34
to_ffi time_microsecond = 35
to_ffi time_nanosecond = 36
to_ffi time_picosecond = 37
to_ffi time_femtosecond = 38
to_ffi time_attosecond = 39
to_ffi blob = 40
to_ffi boolean = 41
to_ffi geometry_wkb = 42
to_ffi geometry_wkt = 43

-- `TryFromFFIError::InvalidDiscriminant`.
pub data TryFromFfiError : Type 0 where
  invalid_discriminant : ℕ → TryFromFfiError

-- The arms of the `match`, in their order.
abbrev arms : List (ℕ × Datatype)
arms =
    (5, int8)
    ∷ (7, int16)
    ∷ (0, int32)
    ∷ (1, int64)
    ∷ (2, float32)
    ∷ (3, float64)
    ∷ (4, char)
    ∷ (6, uint8)
    ∷ (8, uint16)
    ∷ (9, uint32)
    ∷ (10, uint64)
    ∷ (11, string_ascii)
    ∷ (12, string_utf8)
    ∷ (13, string_utf16)
    ∷ (14, string_utf32)
    ∷ (15, string_ucs2)
    ∷ (16, string_ucs4)
    ∷ (17, any)
    ∷ (18, date_time_year)
    ∷ (19, date_time_month)
    ∷ (20, date_time_week)
    ∷ (21, date_time_day)
    ∷ (22, date_time_hour)
    ∷ (23, date_time_minute)
    ∷ (24, date_time_second)
    ∷ (25, date_time_millisecond)
    ∷ (26, date_time_microsecond)
    ∷ (27, date_time_nanosecond)
    ∷ (28, date_time_picosecond)
    ∷ (29, date_time_femtosecond)
    ∷ (30, date_time_attosecond)
    ∷ (31, time_hour)
    ∷ (32, time_minute)
    ∷ (33, time_second)
    ∷ (34, time_millisecond)
    ∷ (35, time_microsecond)
    ∷ (36, time_nanosecond)
    ∷ (37, time_picosecond)
    ∷ (38, time_femtosecond)
    ∷ (39, time_attosecond)
    ∷ (40, blob)
    ∷ (41, boolean)
    ∷ (42, geometry_wkb)
    ∷ (43, geometry_wkt)
    ∷ []

-- `impl TryFrom<ffi::tiledb_datatype_t> for Datatype`.
pub try_from_ffi : ℕ → Result TryFromFfiError Datatype
unfolding match_const
try_from_ffi value = elim (match_const value arms) [
  | some d ↦ ok d
  | none ↦ err (invalid_discriminant value)
]

arms_keyed : is_keyed_by to_ffi arms ≡ true
unfolding is_keyed_by to_ffi
arms_keyed = refl

arms_below : is_below 44 arms ≡ true
unfolding is_below
arms_below = refl

try_from_ffi-to_ffi : (d : Datatype) → try_from_ffi (to_ffi d) ≡ ok d
unfolding try_from_ffi to_ffi
try_from_ffi-to_ffi int32 = refl
try_from_ffi-to_ffi _ = refl

-- A code converts to a type exactly if it is the code of that type: each conversion undoes the
-- other.
pub try_from_ffi_iff : (value : ℕ) (d : Datatype) → (try_from_ffi value ≡ ok d) ↔ (to_ffi d ≡ value)
unfolding try_from_ffi
try_from_ffi_iff value d = (
  ground (arith, match_const-keyed to_ffi value arms {a = d} arms_keyed),
  λ e. rw (← e) (try_from_ffi-to_ffi d),
)

-- Whether the code is one of the table.
is_found : ℕ → Bool
unfolding match_const
is_found value = elim (match_const value arms) [ some d ↦ true | none ↦ false ]

all_found : all_below 44 is_found ≡ true
unfolding all_below is_found
all_found = refl

found-lt : (value : ℕ) → value < 44 → is_found value ≡ true
found-lt value h = all_below_sound 44 is_found value all_found h

-- A code is refused exactly if it is 44 or more, and the error holds the code.
pub try_from_ffi-err_iff :
    (value : ℕ) → (try_from_ffi value ≡ err (invalid_discriminant value)) ↔ (44 ≤ value)
unfolding try_from_ffi is_found
try_from_ffi-err_iff value = (
  λ h. ground (arith, found-lt value),
  λ h. rw (match_const-beyond 44 value arms arms_below h, try_from_ffi),
)

discriminant-to_ffi : (d : Datatype) → discriminant d ≡ to_ffi d
unfolding to_ffi
discriminant-to_ffi int32 = refl
discriminant-to_ffi _ = refl

to_ffi_inj : (a b : Datatype) → to_ffi a ≡ to_ffi b → a ≡ b
to_ffi_inj a b h = ground (arith, try_from_ffi-to_ffi a, try_from_ffi-to_ffi b, ap try_from_ffi h)

-- `==` on types, by the discriminants, is equality.
pub eq_datatype_iff : (a b : Datatype) → (eq_datatype a b ≡ true) ↔ (a ≡ b)
eq_datatype_iff a b = (
  λ h. to_ffi_inj a b (
      sym (discriminant-to_ffi a)
      ∙ (==_iff (discriminant a) (discriminant b)).0 h
      ∙ discriminant-to_ffi b),
  λ e. (==_iff (discriminant a) (discriminant b)).1 (ap discriminant e),
)
