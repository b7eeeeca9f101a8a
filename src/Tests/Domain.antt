-- ===== src/Tests/Domain.antt =====
-- Non-empty domains.
use tiledb_rs.Base.{ℕ, zero, suc, ◌≡◌, refl, [], ◌∷◌, get_elem?, some, arith, done, Returns}
use tiledb_rs.Base.Int.{pos, negsuc}
use tiledb_rs.Physical.{u8, i64}
use tiledb_rs.Range.{Range, single, union}
use tiledb_rs.Range.Single
use tiledb_rs.Range.Single.{of_pair}
use tiledb_rs.Range.Domain.{NonEmptyDomain, union_domain, zip_union}
use tiledb_rs.Range.Domain.Union.{IsUnion, union_domain-IsUnion}
use tiledb_rs.Tests.Floats.{floats}

abbrev left : NonEmptyDomain
left = single (of_pair i64 (negsuc 2) (pos 4)) ∷ single (of_pair u8 7 9) ∷ []

abbrev right : NonEmptyDomain
right = single (of_pair i64 (pos 1) (pos 8)) ∷ single (of_pair u8 0 2) ∷ []

abbrev both : NonEmptyDomain
both = single (of_pair i64 (negsuc 2) (pos 8)) ∷ single (of_pair u8 0 9) ∷ []

union_both : union_domain floats left right ≡ done both
unfolding union_domain zip_union union Single.union
union_both = refl

union_domain-IsUnion_example : IsUnion floats left right both
union_domain-IsUnion_example = union_domain-IsUnion floats left right both union_both

unions_return :
    (i : ℕ) (l r : Range)
    → get_elem? left i ≡ some l
    → get_elem? right i ≡ some r
    → Returns (union floats l r)
unfolding union Single.union
unions_return zero l r p q = ground arith
unions_return (suc zero) l r p q = ground arith
unions_return (suc (suc i)) l r p q = absurd (ground arith)
