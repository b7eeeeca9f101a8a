-- ===== src/Tests/Expressions.antt =====
-- A library of conditions on texts, whose handles are tests, and a condition built with it.
use tiledb_rs.Base.{
  ℕ, ◌+◌, ◌-◌, ◌≡◌, refl, sym, ap, ◌∙◌, ◌==◌, ltb, ◌&&◌, ◌||◌, not, Bool, true, false, Option, none,
  some, List, [], ◌∷◌, length, take, drop, Result, done, ok, err, arith, inr,
}
use tiledb_rs.Condition.{
  Literal, string, string_set, SetArguments, eq_literal, set_arguments, fill, len, as_ptr_and_size,
  to_bytes,
}
use tiledb_rs.Physical.{slice_eq}
use tiledb_rs.Condition.Offsets.{append_nil, take-append, drop-append}
use tiledb_rs.Condition.Tree.{
  ConditionOp, tiledb_eq, tiledb_ne, EqualityOp, SetMembershipOp, is_null, not_null, CombinationOp,
  and, or, QueryConditionExpr, field_lt, field_eq, field_is_in, field_not_null, bitand, bitor,
  not_expr, ConditionApi, build, has_zero, build_predicate, build_init, build_set,
}
use tiledb_rs.Condition.Tree.Meaning.{
  text, Comparison, compares, belongs, is_missing, named_comparison, named_membership, LiesIn,
  Documented, has_bad_name, has_empty_set, holds,
}
use tiledb_rs.Condition.Tree.Build.{IsBuilt, build-IsBuilt}

-- Texts in the order of their bytes. Nothing compares with a cell that has no value.
abbrev text_less : List ℕ → List ℕ → Bool
text_less [] [] = false
text_less [] (b ∷ t) = true
text_less (a ∷ s) [] = false
text_less (a ∷ s) (b ∷ t) = ltb a b || ((a == b) && text_less s t)

abbrev less : Literal → Literal → Bool
less (string s) (string t) = text_less s t
less _ _ = false

abbrev by_bytes : Comparison
by_bytes = record {
  less_than = less;
  equals = eq_literal;
  null_compares = λ op. false;
  null_belongs = λ op. false;
}

-- A cell has a value, or none, whatever the field.
abbrev TextCell : Type 0
TextCell = Option Literal

abbrev Test : Type 0
Test = Result (Unit {0}) (TextCell → Bool)

abbrev comparison_test : Option EqualityOp → List ℕ → Test
comparison_test none bytes = err tt
comparison_test (some o) bytes = ok (λ cell. compares by_bytes o cell (string bytes))

abbrev init_test : Option (List ℕ) → ConditionOp → Test
init_test none tiledb_eq = ok (λ cell. is_missing is_null cell)
init_test none tiledb_ne = ok (λ cell. is_missing not_null cell)
init_test none _ = err tt
init_test (some bytes) op = comparison_test (named_comparison op) bytes

-- The texts between neighbouring offsets.
abbrev members_at : List ℕ → List ℕ → List Literal
members_at [] bytes = []
members_at (o ∷ []) bytes = string bytes ∷ []
members_at (o ∷ p ∷ offsets) bytes =
    string (take (p - o) bytes) ∷ members_at (p ∷ offsets) (drop (p - o) bytes)

abbrev membership_test : Option SetMembershipOp → SetArguments → Test
membership_test none args = err tt
membership_test (some o) args =
    ok (λ cell. belongs by_bytes o cell (members_at args.offsets args.data_bytes))

abbrev combined : (TextCell → Bool) → (TextCell → Bool) → CombinationOp → TextCell → Bool
combined l r and cell = l cell && r cell
combined l r or cell = l cell || r cell

abbrev api : ConditionApi
api = record {
  Handle = TextCell → Bool;
  Fault = Unit;
  alloc = ok (λ cell. false);
  init = λ raw field value op. init_test value op;
  alloc_set_membership = λ field args op. membership_test (named_membership op) args;
  combine = λ l r op. ok (combined l r op);
  negated = λ c. ok (λ cell. not (c cell));
}

members_at-LiesIn :
    (start : ℕ) (bytes offsets : List ℕ) (vs : List Literal)
    → LiesIn text start bytes offsets vs
    → members_at offsets bytes ≡ vs
members_at-LiesIn start bytes [] [] h = refl
members_at-LiesIn start bytes [] (v ∷ vs) h = absurd h
members_at-LiesIn start bytes (o ∷ offsets) [] h = absurd h
members_at-LiesIn start bytes (o ∷ []) (v ∷ []) (e, member, rest, b, r, last) =
    rw (b, last, append_nil member, r) refl
members_at-LiesIn start bytes (o ∷ []) (v ∷ w ∷ vs) (e, member, rest, b, r, last) = absurd last
members_at-LiesIn start bytes (o ∷ p ∷ offsets) (v ∷ []) (e, member, rest, b, r, last) = absurd last
members_at-LiesIn start bytes (o ∷ p ∷ offsets) (v ∷ w ∷ vs) (e, member, rest, b, r, more) =
    let width : p - o ≡ length member = omega (arith, e, more.0) in
    rw
      (
        width,
        b,
        take-append member rest,
        drop-append member rest,
        members_at-LiesIn (start + length member) rest (p ∷ offsets) (w ∷ vs) more,
        r,
      )
      refl

abbrev run : Test → TextCell → Bool
run (ok h) cell = h cell
run (err e) cell = false

run-ok : (r : Test) (h : TextCell → Bool) → r ≡ ok h → (cell : TextCell) → h cell ≡ run r cell
run-ok r h e cell = rw e refl

abbrev api_documented : Documented api TextCell
api_documented = record {
  kind = λ field. text;
  at = λ cell field. cell;
  comparison = by_bytes;
  selects = λ h cell. h cell;
  init_value = λ raw h field bytes op o v e p r cell. rw r (
      run-ok (comparison_test (some o) bytes) h
        (ap (λ named. comparison_test named bytes) (sym p) ∙ e) cell);
  init_null = λ raw h field e cell. run-ok (init_test none tiledb_eq) h e cell;
  init_not_null = λ raw h field e cell. run-ok (init_test none tiledb_ne) h e cell;
  set_members = λ h field args op o vs e p d cell.
      rw (← members_at-LiesIn 0 args.data_bytes args.offsets vs (d.0)) (
        run-ok (membership_test (some o) args) h
          (ap (λ named. membership_test named args) (sym p) ∙ e) cell);
  combine_and = λ l r h e cell. run-ok (ok (combined l r and)) h e cell;
  combine_or = λ l r h e cell. run-ok (ok (combined l r or)) h e cell;
  negated_not = λ c h e cell. run-ok (ok (λ cell. not (c cell))) h e cell;
}

abbrev name : List ℕ
name = 97 ∷ []

-- `a < "m" & !(a = "c" | a IN ("x", "y", "")) & a IS NOT NULL`.
abbrev expr : QueryConditionExpr
expr =
    bitand
      (bitand (field_lt name (string (109 ∷ []))) (
        not_expr (
          bitor (field_eq name (string (99 ∷ [])))
            (field_is_in name (string_set ((120 ∷ []) ∷ (121 ∷ []) ∷ [] ∷ []))))))
      (field_not_null name)

build-IsBuilt_example :
    IsBuilt api TextCell api_documented
      (has_bad_name expr)
      (has_empty_set expr)
      (holds api_documented expr)
      (build api expr)
build-IsBuilt_example =
    build-IsBuilt api TextCell api_documented expr
      (((109 ∷ [], refl), ((99 ∷ [], refl), inr (refl, refl))), tt)

-- The condition is made, and selects the text "d", but not the text "c" or a cell without a value.
built-expr :
    (h : TextCell → Bool) × (build api expr ≡ done (ok h))
    × (h (some (string (100 ∷ []))) ≡ true)
    × (h (some (string (99 ∷ []))) ≡ false)
    × (h none ≡ false)
unfolding build build_predicate build_init build_set set_arguments fill len as_ptr_and_size to_bytes
    eq_literal has_zero slice_eq
built-expr = (_, refl, refl, refl, refl)
