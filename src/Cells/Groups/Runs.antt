-- ===== src/Cells/Groups/Runs.antt =====
-- test-utils/cells/src/lib.rs: the offsets that `Cells::identify_groups` returns.
use tiledb_rs.Base.{
  ℕ, zero, suc, ◌+◌, ◌-◌, ◌<◌, ◌≤◌, ◌≡◌, refl, sym, ap, ◌∙◌, ◌≢◌, ◌⊎◌, Bool, List, [], ◌∷◌, ◌++◌,
  Outcome, done, arith, none, some, inl, inr, Bool-cases, ltb, ◌==◌,
}
use mathlib.Core.List.{append_assoc, append-nil}
use Prim.Native.String.{String}
use tiledb_rs.Cells.{Cells}
use tiledb_rs.Cells.Groups.{groups_loop, group_offsets, identify_groups, any_distinct}
use tiledb_rs.Cells.Groups.Records.{Tells, record_at, any_distinct-Tells}
use tiledb_rs.Cells.Shape.{IsUniform, HasKeys, len-IsUniform, is_empty-IsUniform}

module _ {A : Type 0} (row : ℕ → A) (n : ℕ) where
  -- The records from `a` up to `b` are all equal to record `a`.
  abbrev pub Constant : ℕ → ℕ → Type 0
  Constant a b = (k : ℕ) → a ≤ k → k < b → row a ≡ row k

  -- The offsets that end the groups, of which the first begins at `a`: each group has records, all
  -- of them equal, the first record after it is not equal to them, and the last group ends at `n`.
  abbrev pub Groups : ℕ → List ℕ → Type 0
  Groups a [] = ⊥
  Groups a (b ∷ bs) = elim bs [
    | [] ↦ (a < b) × Constant a b × (b ≡ n)
    | c ∷ cs ↦ (a < b) × Constant a b × (row a ≢ row b) × Groups b bs
  ]

  Groups-cons :
      (a b : ℕ) (bs : List ℕ)
      → a < b
      → Constant a b
      → row a ≢ row b
      → Groups b bs
      → Groups a (b ∷ bs)
  Groups-cons a b [] h k d g = ground arith
  Groups-cons a b (c ∷ cs) h k d g = (h, k, d, g)

  Constant-suc : (a b : ℕ) → Constant a b → row a ≡ row b → Constant a (suc b)
  Constant-suc a b h e m p q = elim (Bool-cases (ltb m b)) [
    | inl l ↦ h m p (ground (arith, l))
    | inr l ↦ e ∙ ap row (ground (arith, l, p, q))
  ]

  module _ (any : ℕ → ℕ → Outcome Bool)
      (tells : (i j : ℕ) → i < n → j < n → Tells (any i j) (row i) (row j)) where
    pub groups_loop-Groups :
        (rounds i icmp : ℕ) (groups : List ℕ)
        → i + rounds ≡ n
        → icmp < i
        → Constant icmp i
        → (ends : List ℕ) × (groups_loop any rounds i icmp groups ≡ done (groups ++ ends))
          × Groups icmp (ends ++ (n ∷ []))
    unfolding groups_loop
    groups_loop-Groups zero i icmp groups e h k =
        ([], ap done (sym (append-nil groups)), (omega arith, (λ m p q. k m p (omega arith)), refl))
    groups_loop-Groups (suc rounds) i icmp groups e h k =
        let (b, eb, (to, from)) = tells i icmp (omega arith) (omega arith) in
        elim (Bool-cases b) [
          | inl p ↦
              let (ends, e', g) =
                groups_loop-Groups rounds (suc i) i (groups ++ (i ∷ [])) (omega arith) (omega arith)
                  (λ m q r. ap row (omega (arith, q, r))) in
              (
                i ∷ ends,
                rw (eb, p) (e' ∙ ap done (append_assoc groups (i ∷ []) ends)),
                Groups-cons icmp i (ends ++ (n ∷ [])) h k (λ q. ground (arith, p, from (sym q))) g,
              )
          | inr p ↦
              let (ends, e', g) =
                groups_loop-Groups rounds (suc i) icmp groups (omega arith) (omega arith)
                  (Constant-suc icmp i k (sym (to p))) in
              (ends, rw (eb, p) e', g)
        ]

module _ (self : Cells) (keys : List String) (n : ℕ) where
  -- On cells that have fields of `n` records each, and keys that are all fields, `identify_groups`
  -- returns: it answers `None` if there are no records, and otherwise the offset 0 followed by the
  -- ends of the groups. A group is a run of one or more records with equal values at the keys,
  -- the record after it has other values, and the last group ends at `n`.
  pub identify_groups-Groups :
      IsUniform self n
      → HasKeys self.fields keys
      → ((n ≡ 0) × (identify_groups self keys ≡ done none))
        ⊎ ((ends : List ℕ) × (identify_groups self keys ≡ done (some (0 ∷ ends)))
            × Groups (record_at self.fields keys) n 0 ends)
  unfolding identify_groups group_offsets
  identify_groups-Groups uniform has = elim (Bool-cases (n == 0)) [
    | inl p ↦ inl (ground (arith, p), rw (is_empty-IsUniform self n uniform, p) refl)
    | inr p ↦
        let (ends, e, g) =
          groups_loop-Groups (record_at self.fields keys) n (any_distinct self.fields keys)
            (λ i j. any_distinct-Tells n self.fields keys i j (uniform.0) has) (n - 1) 1 0 (0 ∷ [])
            (ground (arith, p)) (omega arith)
            (λ m q r. ap (record_at self.fields keys) (omega (arith, q, r))) in
        inr (
          ends ++ (n ∷ []),
          rw (is_empty-IsUniform self n uniform, p, len-IsUniform self n uniform, e) refl,
          g,
        )
  ]
