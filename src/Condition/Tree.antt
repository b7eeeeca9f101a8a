-- ===== src/Condition/Tree.antt =====
-- tiledb/api/src/query/condition/mod.rs: the expressions of query conditions, and how `build` makes
-- them by calls of the C library, which are the fields of `ConditionApi`. A handle that a call
-- changes is the handle that it returns. A name is the list of its bytes.
pub mod Arguments
pub mod Build
pub mod Meaning
use tiledb_rs.Base.{
  ℕ, ◌==◌, ◌||◌, Bool, true, false, if◌then◌else◌, Option, none, some, List, [], ◌∷◌, Outcome, done,
  ◌>>=◌, Result, ok, err,
}
use tiledb_rs.Condition.{
  Literal, to_bytes, SetMembers, SetArguments, ConditionError, empty_set, set_arguments,
}

pub data EqualityOp : Type 0 where
  less less_equal equal not_equal greater_equal greater : EqualityOp

pub data SetMembershipOp : Type 0 where
  is_in not_in : SetMembershipOp

pub data NullnessOp : Type 0 where
  is_null not_null : NullnessOp

pub data CombinationOp : Type 0 where
  and or : CombinationOp

-- `tiledb_query_condition_op_t`.
pub data ConditionOp : Type 0 where
  tiledb_lt tiledb_le tiledb_gt tiledb_ge tiledb_eq tiledb_ne tiledb_in tiledb_not_in : ConditionOp

-- The methods `capi_enum`.
abbrev pub equality_code : EqualityOp → ConditionOp
equality_code less = tiledb_lt
equality_code less_equal = tiledb_le
equality_code equal = tiledb_eq
equality_code not_equal = tiledb_ne
equality_code greater_equal = tiledb_ge
equality_code greater = tiledb_gt

abbrev pub membership_code : SetMembershipOp → ConditionOp
membership_code is_in = tiledb_in
membership_code not_in = tiledb_not_in

abbrev pub nullness_code : NullnessOp → ConditionOp
nullness_code is_null = tiledb_eq
nullness_code not_null = tiledb_ne

pub data Predicate : Type 0 where
  equality : (field : List ℕ) → EqualityOp → Literal → Predicate
  set_membership : (field : List ℕ) → SetMembershipOp → SetMembers → Predicate
  nullness : (field : List ℕ) → NullnessOp → Predicate

pub data QueryConditionExpr : Type 0 where
  cond : Predicate → QueryConditionExpr
  comb : QueryConditionExpr → QueryConditionExpr → CombinationOp → QueryConditionExpr
  negate : QueryConditionExpr → QueryConditionExpr

-- The methods of `Field`, which has a name.
module _ (field : List ℕ) where
  abbrev pub field_lt : Literal → QueryConditionExpr
  field_lt value = cond (equality field less value)

  abbrev pub field_le : Literal → QueryConditionExpr
  field_le value = cond (equality field less_equal value)

  abbrev pub field_eq : Literal → QueryConditionExpr
  field_eq value = cond (equality field equal value)

  abbrev pub field_ne : Literal → QueryConditionExpr
  field_ne value = cond (equality field not_equal value)

  abbrev pub field_ge : Literal → QueryConditionExpr
  field_ge value = cond (equality field greater_equal value)

  abbrev pub field_gt : Literal → QueryConditionExpr
  field_gt value = cond (equality field greater value)

  abbrev pub field_is_in : SetMembers → QueryConditionExpr
  field_is_in value = cond (set_membership field is_in value)

  abbrev pub field_not_in : SetMembers → QueryConditionExpr
  field_not_in value = cond (set_membership field not_in value)

  abbrev pub field_is_null : QueryConditionExpr
  field_is_null = cond (nullness field is_null)

  abbrev pub field_not_null : QueryConditionExpr
  field_not_null = cond (nullness field not_null)

-- The operators `&`, `|` and `!`.
abbrev pub bitand : QueryConditionExpr → QueryConditionExpr → QueryConditionExpr
bitand self rhs = comb self rhs and

abbrev pub bitor : QueryConditionExpr → QueryConditionExpr → QueryConditionExpr
bitor self rhs = comb self rhs or

abbrev pub not_expr : QueryConditionExpr → QueryConditionExpr
not_expr self = negate self

-- The functions of the C library. The value of `init` is missing for a null pointer.
pub record ConditionApi : Type 1 where
  pub Handle : Type 0
  pub Fault : Type 0
  pub alloc : Result Fault Handle
  pub init : Handle → List ℕ → Option (List ℕ) → ConditionOp → Result Fault Handle
  pub alloc_set_membership : List ℕ → SetArguments → ConditionOp → Result Fault Handle
  pub combine : Handle → Handle → CombinationOp → Result Fault Handle
  pub negated : Handle → Result Fault Handle

-- `Error`: an invalid argument, a name with a zero byte (`cstring!`), or what the library reports.
pub data BuildError (Fault : Type 0) : Type 0 where
  invalid_argument invalid_cstring : BuildError Fault
  libtiledb : Fault → BuildError Fault

-- `CString::new` accepts a text without a zero byte.
unfoldable pub has_zero : List ℕ → Bool
has_zero [] = false
has_zero (b ∷ bytes) = (b == 0) || has_zero bytes

module _ (api : ConditionApi) where
  abbrev pub Built : Type 0
  Built = Outcome (Result (BuildError api.Fault) api.Handle)

  -- `ctx.capi_call(...)?`.
  abbrev pub capi_call : Result api.Fault api.Handle → (api.Handle → Built) → Built
  capi_call (ok h) go = go h
  capi_call (err e) go = done (err (libtiledb e))

  -- `cstring!(name)`.
  abbrev pub cstring : List ℕ → Built → Built
  cstring name go = if has_zero name then done (err invalid_cstring) else go

  abbrev pub and_build : Built → (api.Handle → Built) → Built
  and_build built go = built >>= λ r. elim r [ ok h ↦ go h | err e ↦ done (err e) ]

  abbrev pub return : api.Handle → Built
  return h = done (ok h)

  -- `EqualityPredicate::build` and `NullnessPredicate::build`, by the value and the code.
  unfoldable pub build_init : List ℕ → Option (List ℕ) → ConditionOp → Built
  build_init field value op =
      capi_call api.alloc (λ raw. cstring field (capi_call (api.init raw field value op) return))

  unfoldable pub build_set : List ℕ → SetMembers → ConditionOp → Built
  build_set field members op = set_arguments members >>= λ r. elim r [
    | ok args ↦ cstring field (capi_call (api.alloc_set_membership field args op) return)
    | err e ↦ done (err invalid_argument)
  ]

  -- `Predicate::build`.
  unfoldable pub build_predicate : Predicate → Built
  build_predicate (equality field op value) =
      build_init field (some (to_bytes value)) (equality_code op)
  build_predicate (set_membership field op members) = build_set field members (membership_code op)
  build_predicate (nullness field op) = build_init field none (nullness_code op)

  -- `QueryConditionExpr::build`.
  unfoldable pub build : QueryConditionExpr → Built
  build (cond predicate) = build_predicate predicate
  build (comb lhs rhs op) =
      and_build (build lhs)
        (λ lhs. and_build (build rhs) (λ rhs. capi_call (api.combine lhs rhs op) return))
  build (negate expr) = and_build (build expr) (λ h. capi_call (api.negated h) return)
