-- ===== src/Range/Domain.antt =====
-- tiledb/common/src/range.rs: `NonEmptyDomain` and `TypedNonEmptyDomain`, the lists of the ranges
-- of an array's dimensions.
pub mod Union
use tiledb_rs.Base.{◌==◌, List, [], ◌∷◌, length, Outcome, done, ◌>>=◌, ◌>>◌, assert}
use tiledb_rs.Physical.{FloatOrder}
use tiledb_rs.Range.{Range, union}
use tiledb_rs.Range.Slices.{TypedRange}

-- `struct NonEmptyDomain(Vec<Range>)`.
abbrev pub NonEmptyDomain : Type 0
NonEmptyDomain = List Range

-- `struct TypedNonEmptyDomain(Vec<TypedRange>)`.
abbrev pub TypedNonEmptyDomain : Type 0
TypedNonEmptyDomain = List TypedRange

-- The method `untyped`.
abbrev pub untyped : TypedNonEmptyDomain → NonEmptyDomain
untyped [] = []
untyped (typed_range ∷ rest) = typed_range.range ∷ untyped rest

module _ (fl : FloatOrder) where
  -- `zip`, `map` and `collect`.
  unfoldable pub zip_union : NonEmptyDomain → NonEmptyDomain → Outcome NonEmptyDomain
  zip_union (l ∷ ls) (r ∷ rs) = do range ← union fl l r; rest ← zip_union ls rs; done (range ∷ rest)
  zip_union _ _ = done []

  -- The method `union`.
  unfoldable pub union_domain : NonEmptyDomain → NonEmptyDomain → Outcome NonEmptyDomain
  union_domain self other = do assert (length self == length other); zip_union self other
