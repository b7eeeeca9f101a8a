-- ===== src/Condition/Tree/Meaning.antt =====
-- tiledb/api/src/query/condition/mod.rs: what the expressions of query conditions say of a cell, and
-- what the documentation of the C library says of the calls that make a condition.
use tiledb_rs.Base.{
  ℕ, ◌+◌, ◌*◌, ◌==◌, ◌≡◌, ◌⊎◌, ◌||◌, ◌&&◌, not, Bool, true, false, Option, none, some, List, [],
  ◌∷◌, ◌++◌, map, length, All, ok, err,
}
use tiledb_rs.Physical.{
  PhysicalType, u8, u16, u32, u64, i8, i16, i32, i64, f32, f64, Elem, InRange, size_of,
}
use tiledb_rs.Range.Slices.{from_raw_parts}
use tiledb_rs.Condition.{
  Literal, uint8, uint16, uint32, uint64, int8, int16, int32, int64, float32, float64, string,
  SetMembers, set_members_go, len, SetArguments,
}
use tiledb_rs.Condition.Tree.{
  ConditionOp, CombinationOp, tiledb_lt, tiledb_le, tiledb_gt, tiledb_ge, tiledb_eq, tiledb_ne,
  tiledb_in, tiledb_not_in, EqualityOp, less, less_equal, equal, not_equal, greater_equal, greater,
  SetMembershipOp, is_in, not_in, NullnessOp, is_null, not_null, and, or, Predicate, equality,
  set_membership, nullness, QueryConditionExpr, cond, comb, negate, ConditionApi, has_zero,
}

-- The type of a field's values.
pub data Kind : Type 0 where
  number : PhysicalType → Kind
  text : Kind

abbrev pub numeral : (t : PhysicalType) → Elem t → Literal
numeral u8 x = uint8 x
numeral u16 x = uint16 x
numeral u32 x = uint32 x
numeral u64 x = uint64 x
numeral i8 x = int8 x
numeral i16 x = int16 x
numeral i32 x = int32 x
numeral i64 x = int64 x
numeral f32 x = float32 x
numeral f64 x = float64 x

-- A value of the type, that the type can hold.
abbrev pub IsValue : Kind → Literal → Type 0
IsValue (number t) v = (x : Elem t) × (v ≡ numeral t x) × InRange t x
IsValue text v = (s : List ℕ) × (v ≡ string s)

-- The members of a set, and their type.
abbrev pub literals : SetMembers → List Literal
literals self = set_members_go self (λ t val. map (numeral t) val) (λ val. map string val)

abbrev pub AreValues : Kind → SetMembers → Type 0
AreValues k self =
    set_members_go self (λ t val. (k ≡ number t) × All (InRange t) val) (λ val. k ≡ text)

-- A set of three members of eight bytes each, or of three texts: for it alone are the sizes, of 24,
-- that the code gives to the library those of the data and of the offsets.
abbrev pub IsSized : SetMembers → Type 0
IsSized self =
    set_members_go self (λ t val. (size_of t ≡ 8) × (length val ≡ 3)) (λ val. length val ≡ 3)

-- How the library compares values, and what it answers where a cell has none.
pub record Comparison : Type 0 where
  pub less_than : Literal → Literal → Bool
  pub equals : Literal → Literal → Bool
  pub null_compares : EqualityOp → Bool
  pub null_belongs : SetMembershipOp → Bool

abbrev pub compares : Comparison → EqualityOp → Option Literal → Literal → Bool
compares c op none v = c.null_compares op
compares c less (some x) v = c.less_than x v
compares c less_equal (some x) v = c.less_than x v || c.equals x v
compares c equal (some x) v = c.equals x v
compares c not_equal (some x) v = not (c.equals x v)
compares c greater_equal (some x) v = c.less_than v x || c.equals x v
compares c greater (some x) v = c.less_than v x

abbrev pub equals_any : Comparison → Literal → List Literal → Bool
equals_any c x [] = false
equals_any c x (v ∷ vs) = c.equals x v || equals_any c x vs

abbrev pub belongs : Comparison → SetMembershipOp → Option Literal → List Literal → Bool
belongs c op none vs = c.null_belongs op
belongs c is_in (some x) vs = equals_any c x vs
belongs c not_in (some x) vs = not (equals_any c x vs)

abbrev pub is_missing : NullnessOp → Option Literal → Bool
is_missing is_null none = true
is_missing is_null (some x) = false
is_missing not_null none = false
is_missing not_null (some x) = true

-- The comparisons that the codes of the library name.
abbrev pub named_comparison : ConditionOp → Option EqualityOp
named_comparison tiledb_lt = some less
named_comparison tiledb_le = some less_equal
named_comparison tiledb_gt = some greater
named_comparison tiledb_ge = some greater_equal
named_comparison tiledb_eq = some equal
named_comparison tiledb_ne = some not_equal
named_comparison _ = none

abbrev pub named_membership : ConditionOp → Option SetMembershipOp
named_membership tiledb_in = some is_in
named_membership tiledb_not_in = some not_in
named_membership _ = none

-- The bytes are those of the value: a number of the type, the least byte first, or a text.
abbrev pub Reads : Kind → List ℕ → Literal → Type 0
Reads (number t) bytes v =
    (length bytes ≡ size_of t)
    × (x : Elem t) × (from_raw_parts t bytes 1 ≡ x ∷ [])
    × (v ≡ numeral t x)
Reads text bytes v = v ≡ string bytes

-- The members lie one after the other in the data, from `start` on, each at its offset, and are the
-- bytes of the values.
abbrev pub LiesIn : Kind → (start : ℕ) → List ℕ → List ℕ → List Literal → Type 0
LiesIn k start bytes [] [] = bytes ≡ []
LiesIn k start bytes (o ∷ offsets) (v ∷ vs) =
    (o ≡ start)
    × (member rest : List ℕ) × (bytes ≡ member ++ rest)
    × Reads k member v
    × LiesIn k (start + length member) rest offsets vs
LiesIn k start bytes _ _ = ⊥

-- The arguments give the values, and the sizes in bytes of the data and of the offsets.
abbrev pub Describes : Kind → SetArguments → List Literal → Type 0
Describes k args vs =
    LiesIn k 0 args.data_bytes args.offsets vs
    × (args.data_size ≡ length args.data_bytes)
    × (args.offsets_size ≡ 8 * length args.offsets)

-- What the documentation of the C library says of the calls that succeed, with cells that have values
-- at fields. A condition on the bytes of a value of the field's type selects the cells whose values
-- compare with it as the code says, one on a null pointer those that have no value or have one, and
-- one on a set of which the arguments give the members those whose values belong to it. `combine` and
-- `negated` make the conjunction, the disjunction and the negation of conditions.
pub record Documented (api : ConditionApi) (Cell : Type 0) : Type 0 where
  pub kind : List ℕ → Kind
  pub at : Cell → List ℕ → Option Literal
  pub comparison : Comparison
  pub selects : api.Handle → Cell → Bool
  pub init_value :
      (raw h : api.Handle) (field bytes : List ℕ) (op : ConditionOp) (o : EqualityOp) (v : Literal)
      → api.init raw field (some bytes) op ≡ ok h
      → named_comparison op ≡ some o
      → Reads (kind field) bytes v
      → (cell : Cell) → selects h cell ≡ compares comparison o (at cell field) v
  pub init_null :
      (raw h : api.Handle) (field : List ℕ)
      → api.init raw field none tiledb_eq ≡ ok h
      → (cell : Cell) → selects h cell ≡ is_missing is_null (at cell field)
  pub init_not_null :
      (raw h : api.Handle) (field : List ℕ)
      → api.init raw field none tiledb_ne ≡ ok h
      → (cell : Cell) → selects h cell ≡ is_missing not_null (at cell field)
  pub set_members :
      (h : api.Handle) (field : List ℕ) (args : SetArguments) (op : ConditionOp)
      (o : SetMembershipOp) (vs : List Literal)
      → api.alloc_set_membership field args op ≡ ok h
      → named_membership op ≡ some o
      → Describes (kind field) args vs
      → (cell : Cell) → selects h cell ≡ belongs comparison o (at cell field) vs
  pub combine_and :
      (l r h : api.Handle)
      → api.combine l r and ≡ ok h
      → (cell : Cell) → selects h cell ≡ (selects l cell && selects r cell)
  pub combine_or :
      (l r h : api.Handle)
      → api.combine l r or ≡ ok h
      → (cell : Cell) → selects h cell ≡ (selects l cell || selects r cell)
  pub negated_not :
      (c h : api.Handle)
      → api.negated c ≡ ok h
      → (cell : Cell) → selects h cell ≡ not (selects c cell)

-- A call of the library fails with the fault.
abbrev pub Reports : (api : ConditionApi) → api.Fault → Type 0
Reports api f =
    (api.alloc ≡ err f)
    ⊎ (((raw : api.Handle) × (field : List ℕ) × (value : Option (List ℕ)) × (op : ConditionOp)
          × (api.init raw field value op ≡ err f))
        ⊎ (((field : List ℕ) × (args : SetArguments) × (op : ConditionOp)
              × (api.alloc_set_membership field args op ≡ err f))
            ⊎ (((l r : api.Handle) × (op : CombinationOp) × (api.combine l r op ≡ err f))
                ⊎ ((c : api.Handle) × (api.negated c ≡ err f)))))

-- A name in the expression has a zero byte.
abbrev pub predicate_name : Predicate → List ℕ
predicate_name (equality field op value) = field
predicate_name (set_membership field op members) = field
predicate_name (nullness field op) = field

abbrev pub has_bad_name : QueryConditionExpr → Bool
has_bad_name (cond p) = has_zero (predicate_name p)
has_bad_name (comb lhs rhs op) = has_bad_name lhs || has_bad_name rhs
has_bad_name (negate expr) = has_bad_name expr

-- A set in the expression is empty.
abbrev pub is_empty_set : Predicate → Bool
is_empty_set (set_membership field op members) = len members == 0
is_empty_set _ = false

abbrev pub has_empty_set : QueryConditionExpr → Bool
has_empty_set (cond p) = is_empty_set p
has_empty_set (comb lhs rhs op) = has_empty_set lhs || has_empty_set rhs
has_empty_set (negate expr) = has_empty_set expr

module _ {api : ConditionApi} {Cell : Type 0} (lib : Documented api Cell) where
  -- The literals and the members of sets are values of the fields' types, and the sets are sized.
  abbrev pub PredicateFits : Predicate → Type 0
  PredicateFits (equality field op value) = IsValue (lib.kind field) value
  PredicateFits (set_membership field op members) =
      (len members ≡ 0) ⊎ (AreValues (lib.kind field) members × IsSized members)
  PredicateFits (nullness field op) = Unit

  abbrev pub Fits : QueryConditionExpr → Type 0
  Fits (cond p) = PredicateFits p
  Fits (comb lhs rhs op) = Fits lhs × Fits rhs
  Fits (negate expr) = Fits expr

  -- What a predicate, and what an expression, says of a cell.
  abbrev pub predicate_holds : Predicate → Cell → Bool
  predicate_holds (equality field op value) cell =
      compares lib.comparison op (lib.at cell field) value
  predicate_holds (set_membership field op members) cell =
      belongs lib.comparison op (lib.at cell field) (literals members)
  predicate_holds (nullness field op) cell = is_missing op (lib.at cell field)

  abbrev pub holds : QueryConditionExpr → Cell → Bool
  holds (cond p) cell = predicate_holds p cell
  holds (comb lhs rhs and) cell = holds lhs cell && holds rhs cell
  holds (comb lhs rhs or) cell = holds lhs cell || holds rhs cell
  holds (negate expr) cell = not (holds expr cell)
