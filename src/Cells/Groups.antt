-- ===== src/Cells/Groups.antt =====
-- test-utils/cells/src/lib.rs: the methods of `Cells` that compare records for equality at the keys:
-- `identify_groups`, `count_distinct` and `dedup`.
pub mod Dedup
pub mod Leaders
pub mod Runs
pub mod Stable
pub mod Records
use Prim.Native.String.{String}
use tiledb_rs.Base.{
  ℕ, zero, suc, ◌-◌, ◌+◌, ◌<◌, ◌≡◌, leb, Bool, true, false, not, Option, none, some, List, [], ◌∷◌,
  ◌++◌, length, if◌then◌else◌, Outcome, done, ◌>>=◌, ◌==◌,
}
use tiledb_rs.Base.Map.{get, contains, unwrap, index}
use tiledb_rs.Physical.{FloatOrder}
use tiledb_rs.Cells.{Fields, Cells, new, len, is_empty, filter}
use tiledb_rs.Cells.Field.{FieldData, typed_field_data_go, cell_eq}
use tiledb_rs.Cells.Ordered.{sorted, index_comparator, count_from}
use tiledb_rs.Cells.Sorting.{sort_by}

-- `cells[i].bits_ne(&cells[j])`.
unfoldable pub bits_ne_at : FieldData → ℕ → ℕ → Outcome Bool
bits_ne_at d i j =
    typed_field_data_go d
      (λ c cells. do x ← index cells i; y ← index cells j; done (not (cell_eq c x y)))

-- `keys.iter().any(...)`: whether two records differ at a key.
unfoldable pub any_distinct : Fields → List String → ℕ → ℕ → Outcome Bool
any_distinct fields [] i j = done false
any_distinct fields (k ∷ keys) i j = do
  v ← unwrap (get fields k)
  distinct ← bits_ne_at v i j
  let rest = any_distinct fields keys i j
  if distinct then done true else rest

-- The loop of `identify_groups`, `rounds` rounds from `i`.
unfoldable pub groups_loop :
    (ℕ → ℕ → Outcome Bool) → (rounds i icmp : ℕ) → List ℕ → Outcome (List ℕ)
groups_loop any zero i icmp groups = done groups
groups_loop any (suc rounds) i icmp groups = do
  distinct ← any i icmp
  elim distinct [
    | true ↦ groups_loop any rounds (suc i) i (groups ++ (i ∷ []))
    | false ↦ groups_loop any rounds (suc i) icmp groups
  ]

unfoldable pub group_offsets : Cells → List String → Outcome (Option (List ℕ))
group_offsets self keys = do
  n ← len self
  groups ← groups_loop (any_distinct self.fields keys) (n - 1) 1 0 (0 ∷ [])
  done (some (groups ++ (n ∷ [])))

unfoldable pub identify_groups : Cells → List String → Outcome (Option (List ℕ))
identify_groups self keys = do
  empty ← is_empty self
  let offsets = group_offsets self keys
  if empty then done none else offsets

-- The loop of `count_distinct`.
unfoldable pub count_loop : (ℕ → ℕ → Outcome Bool) → (rounds i icmp count : ℕ) → Outcome ℕ
count_loop any zero i icmp count = done count
count_loop any (suc rounds) i icmp count = do
  distinct ← any i icmp
  elim distinct [
    | true ↦ count_loop any rounds (suc i) i (count + 1)
    | false ↦ count_loop any rounds (suc i) icmp count
  ]

-- The fields whose name is one of the keys.
unfoldable pub key_fields : Fields → List String → Fields
key_fields [] keys = []
key_fields ((k, v) ∷ fields) keys =
    let rest = key_fields fields keys in if contains keys k then (k, v) ∷ rest else rest

unfoldable pub count_cells : FloatOrder → Cells → List String → Outcome ℕ
count_cells fl self keys = do
  cells ← new (key_fields self.fields keys)
  key_cells ← sorted fl cells keys
  n ← len key_cells
  count_loop (any_distinct key_cells.fields keys) (n - 1) 1 0 1

unfoldable pub count_distinct : FloatOrder → Cells → List String → Outcome ℕ
count_distinct fl self keys = do
  n ← len self
  let count = count_cells fl self keys
  if leb n 1 then done n else count

-- `VarBitSet` of the crate proptest, by what its documentation says of `BitSetLike`: the set made
-- with a capacity is empty, and setting a bit below the length changes that bit alone.
pub record BitSet : Type 1 where
  pub Set : Type 0
  pub new_bitset : ℕ → Set
  pub size : Set → ℕ
  pub set : Set → ℕ → Set
  pub test : Set → ℕ → Bool
  pub size_new : (n : ℕ) → size (new_bitset n) ≡ n
  pub test_new : (n i : ℕ) → test (new_bitset n) i ≡ false
  pub size_set : (s : Set) (i : ℕ) → i < size s → size (set s i) ≡ size s
  pub test_set :
      (s : Set) (i j : ℕ) → i < size s → test (set s i) j ≡ (if i == j then true else test s j)

module _ (bits : BitSet) where
  -- The loop of `dedup`.
  unfoldable pub dedup_loop :
      (ℕ → ℕ → Outcome Bool) → List ℕ → (rounds i icmp : ℕ) → bits.Set → Outcome bits.Set
  dedup_loop any idx zero i icmp preserve = done preserve
  dedup_loop any idx (suc rounds) i icmp preserve = do
    this ← index idx i
    that ← index idx icmp
    distinct ← any this that
    elim distinct [
      | true ↦ dedup_loop any idx rounds (suc i) i (bits.set preserve this)
      | false ↦ dedup_loop any idx rounds (suc i) icmp preserve
    ]

  unfoldable pub dedup_cells : FloatOrder → Cells → List String → Outcome Cells
  dedup_cells fl self keys = do
    n ← len self
    idx ← sort_by (index_comparator fl self.fields keys) (count_from 0 n)
    first ← index idx 0
    preserve ←
        dedup_loop (any_distinct self.fields keys) idx (length idx - 1) 1 0
          (bits.set (bits.new_bitset (length idx)) first)
    filter self (bits.test preserve)

  unfoldable pub dedup : FloatOrder → Cells → List String → Outcome Cells
  dedup fl self keys = do
    empty ← is_empty self
    let kept = dedup_cells fl self keys
    if empty then done self else kept
