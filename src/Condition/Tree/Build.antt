-- ===== src/Condition/Tree/Build.antt =====
-- tiledb/api/src/query/condition/mod.rs: what the condition that `QueryConditionExpr::build` makes
-- selects.
use tiledb_rs.Base.{
  ℕ, ◌==◌, ◌≡◌, ◌≢◌, inl, inr, refl, ◌∙◌, ap, not, Bool, true, false, Option, none, some, List,
  done, panic, Result, ok, err, arith, Bool-cases,
}
use tiledb_rs.Condition.{SetMembers, len, to_bytes}
use tiledb_rs.Condition.Sets.{refused, arguments_of, set_arguments-arguments_of}
use tiledb_rs.Condition.Tree.{
  ConditionOp, EqualityOp, less, less_equal, equal, not_equal, greater_equal, greater,
  SetMembershipOp, is_in, not_in, is_null, not_null, CombinationOp, and, or, Predicate, equality,
  set_membership, nullness, QueryConditionExpr, cond, comb, negate, equality_code, membership_code,
  nullness_code, ConditionApi, libtiledb, invalid_cstring, invalid_argument, has_zero, Built,
  capi_call, cstring, and_build, return, build_init, build_set, build_predicate, build,
}
use tiledb_rs.Condition.Tree.Meaning.{
  named_comparison, named_membership, Documented, Reports, predicate_name, has_bad_name,
  is_empty_set, has_empty_set, PredicateFits, Fits, predicate_holds, holds,
}
use tiledb_rs.Condition.Tree.Arguments.{to_bytes-Reads, arguments_of-Describes}

named_comparison-equality_code : (op : EqualityOp) → named_comparison (equality_code op) ≡ some op
named_comparison-equality_code less = refl
named_comparison-equality_code less_equal = refl
named_comparison-equality_code equal = refl
named_comparison-equality_code not_equal = refl
named_comparison-equality_code greater_equal = refl
named_comparison-equality_code greater = refl

named_membership-membership_code :
    (op : SetMembershipOp) → named_membership (membership_code op) ≡ some op
named_membership-membership_code is_in = refl
named_membership-membership_code not_in = refl

module _ (api : ConditionApi) (Cell : Type 0) (lib : Documented api Cell) where
  -- What may come of an expression with or without a bad name and an empty set, that says `m` of a
  -- cell: a condition that selects the cells of which `m` holds, if it has neither; the error for
  -- what it has; or a fault that the library reports. It may not panic.
  abbrev pub IsBuilt : (bad empty : Bool) → (Cell → Bool) → Built api → Type 0
  IsBuilt bad empty m (done (ok h)) =
      (bad ≡ false) × (empty ≡ false) × ((cell : Cell) → lib.selects h cell ≡ m cell)
  IsBuilt bad empty m (done (err (libtiledb f))) = Reports api f
  IsBuilt bad empty m (done (err invalid_cstring)) = bad ≡ true
  IsBuilt bad empty m (done (err invalid_argument)) = empty ≡ true
  IsBuilt bad empty m panic = ⊥

  capi_call-IsBuilt :
      (bad empty : Bool) (m : Cell → Bool) (r : Result api.Fault api.Handle)
      (go : api.Handle → Built api)
      → ((f : api.Fault) → r ≡ err f → Reports api f)
      → ((h : api.Handle) → r ≡ ok h → IsBuilt bad empty m (go h))
      → IsBuilt bad empty m (capi_call api r go)
  capi_call-IsBuilt bad empty m (ok h) go fault step = step h refl
  capi_call-IsBuilt bad empty m (err f) go fault step = fault f refl

  cstring-IsBuilt :
      (field : List ℕ) (empty : Bool) (m : Cell → Bool) (go : Built api)
      → (has_zero field ≡ false → IsBuilt (has_zero field) empty m go)
      → IsBuilt (has_zero field) empty m (cstring api field go)
  cstring-IsBuilt field empty m go step = elim (Bool-cases (has_zero field)) [
    | inl z ↦ rw z refl
    | inr z ↦ let made = step z in rw z (rw z at made)
  ]

  and_build-IsBuilt :
      (b e bad empty : Bool) (part m : Cell → Bool) (built : Built api)
      (go : api.Handle → Built api)
      → IsBuilt b e part built
      → (b ≡ true → bad ≡ true)
      → (e ≡ true → empty ≡ true)
      → ((h : api.Handle)
          → b ≡ false
          → e ≡ false
          → ((cell : Cell) → lib.selects h cell ≡ part cell)
          → IsBuilt bad empty m (go h))
      → IsBuilt bad empty m (and_build api built go)
  and_build-IsBuilt b e bad empty part m (done (ok h)) go (p, q, s) name set step = step h p q s
  and_build-IsBuilt b e bad empty part m (done (err (libtiledb f))) go i name set step = i
  and_build-IsBuilt b e bad empty part m (done (err invalid_cstring)) go i name set step = name i
  and_build-IsBuilt b e bad empty part m (done (err invalid_argument)) go i name set step = set i
  and_build-IsBuilt b e bad empty part m panic go i name set step = i

  build_init-IsBuilt :
      (field : List ℕ) (value : Option (List ℕ)) (op : ConditionOp) (m : Cell → Bool)
      → ((raw h : api.Handle)
          → api.init raw field value op ≡ ok h
          → (cell : Cell) → lib.selects h cell ≡ m cell)
      → IsBuilt (has_zero field) false m (build_init api field value op)
  unfolding build_init
  build_init-IsBuilt field value op m selected =
      capi_call-IsBuilt (has_zero field) false m api.alloc _ (λ f e. inl e)
        λ raw a. cstring-IsBuilt field false m _ λ z.
          capi_call-IsBuilt (has_zero field) false m (api.init raw field value op) (return api)
            (λ f e. inr (inl (raw, field, value, op, e))) λ h e. (z, refl, selected raw h e)

  build_set-IsBuilt :
      (field : List ℕ) (members : SetMembers) (op : ConditionOp) (m : Cell → Bool)
      → (len members ≢ 0
          → (h : api.Handle) → api.alloc_set_membership field (arguments_of members) op ≡ ok h
          → (cell : Cell) → lib.selects h cell ≡ m cell)
      → IsBuilt (has_zero field) (len members == 0) m (build_set api field members op)
  unfolding build_set
  build_set-IsBuilt field members op m selected = elim (Bool-cases (len members == 0)) [
    | inl z ↦ rw (refused members (ground (arith, z)), z) refl
    | inr z ↦
        let some_member : len members ≢ 0 = ground (arith, z) in
        rw (set_arguments-arguments_of members some_member, z)
          (cstring-IsBuilt field false m _ λ named.
            capi_call-IsBuilt (has_zero field) false m
              (api.alloc_set_membership field (arguments_of members) op) (return api)
              (λ f e. inr (inr (inl (field, arguments_of members, op, e))))
              λ h e. (named, refl, selected some_member h e))
  ]

  build_predicate-IsBuilt :
      (p : Predicate)
      → PredicateFits lib p
      → IsBuilt
          (has_zero (predicate_name p))
          (is_empty_set p)
          (predicate_holds lib p)
          (build_predicate api p)
  unfolding build_predicate
  build_predicate-IsBuilt (equality field op value) fits =
      build_init-IsBuilt field (some (to_bytes value)) (equality_code op) _ λ raw h e.
        lib.init_value raw h field (to_bytes value) (equality_code op) op value e
          (named_comparison-equality_code op) (to_bytes-Reads (lib.kind field) value fits)
  build_predicate-IsBuilt (set_membership field op members) fits =
      build_set-IsBuilt field members (membership_code op) _ λ n h e. elim fits [
        | inl z ↦ absurd (n z)
        | inr (values, sized) ↦
            lib.set_members h field (arguments_of members) (membership_code op) op _ e
              (named_membership-membership_code op)
              (arguments_of-Describes (lib.kind field) members values sized)
      ]
  build_predicate-IsBuilt (nullness field is_null) fits =
      build_init-IsBuilt field none (nullness_code is_null) _ λ raw h e. lib.init_null raw h field e
  build_predicate-IsBuilt (nullness field not_null) fits =
      build_init-IsBuilt field none (nullness_code not_null) _
        λ raw h e. lib.init_not_null raw h field e

  combine-holds :
      (lhs rhs : QueryConditionExpr) (op : CombinationOp) (l r h : api.Handle)
      → ((cell : Cell) → lib.selects l cell ≡ holds lib lhs cell)
      → ((cell : Cell) → lib.selects r cell ≡ holds lib rhs cell)
      → api.combine l r op ≡ ok h
      → (cell : Cell) → lib.selects h cell ≡ holds lib (comb lhs rhs op) cell
  combine-holds lhs rhs and l r h s t e cell =
      rw (lib.combine_and l r h e cell, s cell, t cell) refl
  combine-holds lhs rhs or l r h s t e cell = rw (lib.combine_or l r h e cell, s cell, t cell) refl

  -- Where the calls of the C library that succeed do what is documented of them, and for an
  -- expression whose literals are values of their fields' types, and each of whose sets is empty, or
  -- is of three values of eight bytes or three texts of its field's type, `build` returns. If no call
  -- fails, it returns an error where a name has a zero byte or a set is empty, and otherwise a
  -- condition that selects a cell exactly if the expression holds of it: its predicates compare the
  -- values at the fields as the library compares values, and `&`, `|` and `!` are the Boolean
  -- operations. Any other error is one that a call reports.
  pub build-IsBuilt :
      (expr : QueryConditionExpr)
      → Fits lib expr
      → IsBuilt (has_bad_name expr) (has_empty_set expr) (holds lib expr) (build api expr)
  unfolding build
  build-IsBuilt (cond p) fits = build_predicate-IsBuilt p fits
  build-IsBuilt (negate expr) fits =
      and_build-IsBuilt _ _ (has_bad_name expr) (has_empty_set expr) _ (holds lib (negate expr))
        (build api expr) _ (build-IsBuilt expr fits) (λ p. p) (λ p. p)
        λ c b e s.
          capi_call-IsBuilt (has_bad_name expr) (has_empty_set expr) _ (api.negated c) (return api)
            (λ f p. inr (inr (inr (inr (c, p)))))
            λ h p. (b, e, λ cell. lib.negated_not c h p cell ∙ ap not (s cell))
  build-IsBuilt (comb lhs rhs op) (fits, fits') =
      and_build-IsBuilt _ _ (has_bad_name (comb lhs rhs op)) (has_empty_set (comb lhs rhs op)) _
        (holds lib (comb lhs rhs op)) (build api lhs) _ (build-IsBuilt lhs fits) (λ p. rw p refl)
        (λ p. rw p refl)
        λ l b e s.
          and_build-IsBuilt _ _ (has_bad_name (comb lhs rhs op)) (has_empty_set (comb lhs rhs op)) _
            (holds lib (comb lhs rhs op)) (build api rhs) _ (build-IsBuilt rhs fits')
            (λ p. rw (b, p) refl) (λ p. rw (e, p) refl)
            λ r b' e' t.
              capi_call-IsBuilt (has_bad_name (comb lhs rhs op)) (has_empty_set (comb lhs rhs op)) _
                (api.combine l r op) (return api) (λ f p. inr (inr (inr (inl (l, r, op, p)))))
                λ h p. (rw (b, b') refl, rw (e, e') refl, combine-holds lhs rhs op l r h s t p)
