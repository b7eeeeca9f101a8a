-- ===== src/Cells/Groups/Dedup.antt =====
-- test-utils/cells/src/lib.rs: the records that `Cells::dedup` keeps.
use mathlib.Core.Path.{subst}
use Prim.Native.String.{String}
use tiledb_rs.Base.{
  ℕ, suc, ◌<◌, ◌≤◌, ◌-◌, Ordering, lt, eq, ◌≡◌, refl, sym, ap, ◌∙◌, Bool, true, false, List, [],
  ◌∷◌, length, get_elem?, drop, All, ◌==◌, if◌then◌else◌, done, arith, Bool-cases, inl, inr, some,
}
use tiledb_rs.Physical.{FloatOrder}
use tiledb_rs.Cells.{Cells}
use tiledb_rs.Cells.Field.Methods as Data
use tiledb_rs.Cells.Groups.{BitSet, dedup_loop, dedup_cells, dedup, any_distinct}
use tiledb_rs.Cells.Groups.Leaders.{
  leaders, leaders_new, leaders_same, leaders-member, leaders-KeptFor, KeptFor,
}
use tiledb_rs.Cells.Groups.Records.{record_at, any_distinct-Tells, row_cmp-eq_iff}
use tiledb_rs.Cells.Groups.Stable.{
  member, All-member, InOrder, insertion_sort-InOrder, count_from-Increasing,
}
use tiledb_rs.Cells.Ordered.{count_from}
use tiledb_rs.Cells.Ordered.Move.{drop_cons}
use tiledb_rs.Cells.Ordered.Rows.{row_cmp, row_cmp-IsWeakOrder}
use tiledb_rs.Cells.Ordered.Sort.{
  sorted_indices, sorted_indices-Arranges, sorted_indices-member, sort_by-sorted_indices,
}
use tiledb_rs.Cells.Shape.{
  IsUniform, HasKeys, map_data, len-IsUniform, is_empty-IsUniform, filter-map_data,
}

-- Every field with the cells that pass the test.
abbrev pub kept_cells : Cells → (ℕ → Bool) → Cells
kept_cells self test = record { fields = map_data (λ d. Data.filter d test) self.fields }

-- Of the records with equal values the first passes the test, and no other.
abbrev pub KeepsFirst : {A : Type 0} → (ℕ → A) → ℕ → (ℕ → Bool) → Type 0
KeepsFirst row n test =
    ((i j : ℕ) → test i ≡ true → test j ≡ true → row i ≡ row j → i ≡ j)
    × ((j : ℕ) → j < n → (i : ℕ) × (test i ≡ true) × (row i ≡ row j) × (i ≤ j))

nonempty {ℓ} : {A : Type ℓ} (xs : List A) → 0 < length xs → (c : A) × (js : List A) × (xs ≡ c ∷ js)
nonempty [] h = ground arith
nonempty (c ∷ js) h = (c, js, refl)

module _ (fl : FloatOrder) (bits : BitSet) (self : Cells) (keys : List String) (n : ℕ)
    (uniform : IsUniform self n) (has : HasKeys self.fields keys) where
  abbrev row_order : ℕ → ℕ → Ordering
  row_order = row_cmp fl self.fields keys

  -- What the loop leaves in the set: what was there, and the leaders.
  dedup_loop-leaders :
      (idx js : List ℕ) (i icmp c : ℕ) (s : bits.Set)
      → drop i idx ≡ js
      → get_elem? idx icmp ≡ some c
      → bits.size s ≡ n
      → c < n
      → All (λ j. j < n) js
      → InOrder row_order (c ∷ js)
      → (s' : bits.Set) × (dedup_loop bits (any_distinct self.fields keys) idx (length js) i icmp s
          ≡ done s')
        × ((j : ℕ)
            → bits.test s' j ≡ (if member (leaders row_order c js) j then true else bits.test s j))
  unfolding dedup_loop member
  dedup_loop-leaders idx [] i icmp c s d e z p ps h = (s, refl, λ j. refl)
  dedup_loop-leaders idx (j ∷ js) i icmp c s d e z p (q, qs) ((l, ls), (k, ks)) =
      let (ej, dj) = drop_cons idx i j js d in
      let (b, eb, (to, from)) = any_distinct-Tells n self.fields keys j c (uniform.0) has q p in
      let (cto, cfrom) = row_cmp-eq_iff fl self.fields keys c j in
      elim (Bool-cases b) [
        | inl t ↦
            let less : row_order c j ≡ lt = ground (arith, l, t, to, from, cto, cfrom) in
            let (s', e', spec) =
              dedup_loop-leaders idx js (suc i) i j (bits.set s j) dj ej
                (bits.size_set s j (omega (arith, z, q)) ∙ z) q qs (k, ks) in
            (
              s',
              rw (ej, e, eb, t) e',
              λ m.
                  subst (λ ls. bits.test s' m ≡ (if member ls m then true else bits.test s m))
                    (sym (leaders_new row_order c j js less))
                    (ground (arith, spec m, bits.test_set s j m (omega (arith, z, q)))),
            )
        | inr t ↦
            let same : row_order c j ≡ eq = cfrom (sym (to t)) in
            let (s', e', spec) = dedup_loop-leaders idx js (suc i) icmp c s dj e z p qs (ls, ks) in
            (
              s',
              rw (ej, e, eb, t) e',
              λ m.
                  subst (λ ls. bits.test s' m ≡ (if member ls m then true else bits.test s m))
                    (sym (leaders_same row_order c j js same)) (spec m),
            )
      ]

  row_order-InOrder : InOrder row_order (sorted_indices fl self keys n)
  row_order-InOrder =
      insertion_sort-InOrder row_order (row_cmp-IsWeakOrder fl self.fields keys) (count_from 0 n)
        (count_from-Increasing 0 n)

  dedup-filter :
      (c : ℕ) (js : List ℕ) (s' : bits.Set)
      → sorted_indices fl self keys n ≡ c ∷ js
      → 0 < n
      → dedup_loop bits
          (any_distinct self.fields keys)
          (c ∷ js)
          (length js)
          1
          0
          (bits.set (bits.new_bitset (suc (length js))) c)
        ≡ done s'
      → dedup bits fl self keys ≡ done (kept_cells self (bits.test s'))
  unfolding dedup dedup_cells
  dedup-filter c js s' e positive e' =
      let some_record : (n == 0) ≡ false = ground (arith, positive) in
      let rounds : suc (length js) - 1 ≡ length js = omega arith in
      rw
        (
          is_empty-IsUniform self n uniform,
          some_record,
          len-IsUniform self n uniform,
          sort_by-sorted_indices fl self keys n uniform has,
          e,
          rounds,
          e',
        )
        (filter-map_data self (bits.test s') n (uniform.0))

  from_leaders :
      (c : ℕ) (js : List ℕ)
      → sorted_indices fl self keys n ≡ c ∷ js
      → 0 < n
      → (test : ℕ → Bool) × (dedup bits fl self keys ≡ done (kept_cells self test))
        × KeepsFirst (record_at self.fields keys) n test
  unfolding member
  from_leaders c js e positive =
      let row = record_at self.fields keys in
      let weak = row_cmp-IsWeakOrder fl self.fields keys in
      let same_row = row_cmp-eq_iff fl self.fields keys in
      let unset = bits.new_bitset (suc (length js)) in
      let (l, b, u) = sorted_indices-Arranges fl self keys n in
      let (bc, bs) = subst (All (λ j. j < n)) e b in
      let order = subst (InOrder row_order) e row_order-InOrder in
      let size : bits.size unset ≡ n = bits.size_new (suc (length js)) ∙ ap length (sym e) ∙ l in
      let fresh : c < bits.size unset = omega (arith, size, bc) in
      let start = bits.set unset c in
      let (s', e', spec) =
        dedup_loop-leaders (c ∷ js) js 1 0 c start refl refl (bits.size_set unset c fresh ∙ size) bc
          bs order in
      let tested : (j : ℕ) → bits.test s' j ≡ member (c ∷ leaders row_order c js) j = λ j.
        ground (arith, spec j, bits.test_set unset c j fresh, bits.test_new (suc (length js)) j) in
      (
        bits.test s',
        dedup-filter c js s' e positive e',
        (
          λ i j p q.
              leaders-member row row_order weak same_row c js i j order (sym (tested i) ∙ p)
                (sym (tested j) ∙ q),
          λ j h.
              let (i, m, same, below) =
                All-member (KeptFor row row_order weak same_row (c ∷ leaders row_order c js))
                  (c ∷ js) j (leaders-KeptFor row row_order weak same_row c js order)
                  (subst (λ is. member is j ≡ true) e (sorted_indices-member fl self keys n j h)) in
              (i, tested i ∙ m, same, below),
        ),
      )

  -- On cells that have fields of `n` records each, with `n` above 0, and keys that are all fields,
  -- `dedup` returns: there is a test of indices such that every field is left with the cells that
  -- pass it. Two different records that pass have different values at the keys, and each record
  -- has a record that passes, does not come after it, and has the same values at the keys.
  pub dedup-KeepsFirst :
      0 < n
      → (test : ℕ → Bool) × (dedup bits fl self keys ≡ done (kept_cells self test))
        × KeepsFirst (record_at self.fields keys) n test
  dedup-KeepsFirst positive =
      let (c, js, e) =
        nonempty (sorted_indices fl self keys n)
          (omega (arith, positive, sorted_indices-Arranges fl self keys n)) in
      from_leaders c js e positive
