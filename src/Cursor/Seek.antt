-- ===== src/Cursor/Seek.antt =====
-- src/libchidb/dbm-cursor.c: where the seeks of a cursor bring it.
use chidb.Prelude.{
  ℕ, zero, suc, ◌+◌, ◌≤◌, ◌<◌, ◌≡◌, ◌⊎◌, refl, sym, ap, subst, ◌∙◌, Bool, true, false, none, some,
  List, [], ◌∷◌, inl, inr, leb, ltb, ◌==◌, arith, All, Bool-cases, length, get_elem?, take, drop,
}
use chidb.Cursor.{
  CursorRow, Cursor, first_from, last_below, moved_to, seek_eq, seek_gt, seek_ge, seek_lt, seek_le,
}

-- No key of the rows passes the test.
abbrev pub NonePasses : (ℕ → Bool) → List CursorRow → Type 0
NonePasses test = All (λ r. test r.key ≡ false)

-- An index of the rows whose key passes the test.
abbrev pub PassesAt : (ℕ → Bool) → List CursorRow → ℕ → Type 0
PassesAt test rs i = (r : CursorRow) × (get_elem? rs i ≡ some r) × (test r.key ≡ true)

-- The seek comes to the first row that passes, or no row passes and the cursor stays.
abbrev pub SeeksFirst : (ℕ → Bool) → Cursor → Bool × Cursor → Type 0
SeeksFirst test c result =
    ((result ≡ (false, c)) × NonePasses test c.rows)
    ⊎ ((i : ℕ) × (result ≡ (true, record c { pos = some i }))
        × PassesAt test c.rows i
        × NonePasses test (take i c.rows))

-- The same for the last row that passes.
abbrev pub SeeksLast : (ℕ → Bool) → Cursor → Bool × Cursor → Type 0
SeeksLast test c result =
    ((result ≡ (false, c)) × NonePasses test c.rows)
    ⊎ ((i : ℕ) × (result ≡ (true, record c { pos = some i }))
        × PassesAt test c.rows i
        × NonePasses test (drop (suc i) c.rows))

module _ (test : ℕ → Bool) where
  -- What the upward loop returns.
  first-cases :
      (rs : List CursorRow) (n : ℕ)
      → ((first_from test n rs ≡ none) × NonePasses test rs)
        ⊎ ((i : ℕ) × (first_from test n rs ≡ some (n + i))
            × PassesAt test rs i
            × NonePasses test (take i rs))
  unfolding first_from
  first-cases [] n = inl (refl, tt)
  first-cases (r ∷ rs) n = elim (Bool-cases (test r.key)) [
    | inl hit ↦ inr (0, ground (arith, hit), (r, refl, hit), tt)
    | inr miss ↦ elim (first-cases rs (n + 1)) [
      | inl (e, none_passes) ↦ inl (ground (arith, miss, e), (miss, none_passes))
      | inr (i, e, at, before) ↦ inr (suc i, ground (arith, miss, e), at, (miss, before))
    ]
  ]

  seeks_first : (c : Cursor) → SeeksFirst test c (moved_to c (first_from test 0 c.rows))
  unfolding moved_to
  seeks_first c = elim (first-cases c.rows 0) [
    | inl (e, none_passes) ↦ inl (ap (moved_to c) e, none_passes)
    | inr (i, e, at, before) ↦ inr (i, ap (moved_to c) (e ∙ ap some (omega arith)), at, before)
  ]

  drop-length : (rs : List CursorRow) → drop (length rs) rs ≡ []
  drop-length [] = refl
  drop-length (r ∷ rs) = drop-length rs

  pub drop-row :
      (rs : List CursorRow) (i : ℕ)
      → i < length rs
      → (r : CursorRow) × (get_elem? rs i ≡ some r) × (drop i rs ≡ r ∷ drop (suc i) rs)
  drop-row [] i h = absurd (omega arith)
  drop-row (r ∷ rs) zero h = (r, refl, refl)
  drop-row (r ∷ rs) (suc i) h = drop-row rs i (omega arith)

  -- What the downward loop returns, when no row from `k` on passes.
  last-cases :
      (rs : List CursorRow) (k : ℕ)
      → k ≤ length rs
      → NonePasses test (drop k rs)
      → ((last_below test rs k ≡ none) × NonePasses test rs)
        ⊎ ((i : ℕ) × (last_below test rs k ≡ some i)
            × PassesAt test rs i
            × NonePasses test (drop (suc i) rs))
  unfolding last_below
  last-cases rs zero h passed = inl (refl, passed)
  last-cases rs (suc k) h passed =
      let (r, at, row) = drop-row rs k h in
      elim (Bool-cases (test r.key)) [
        | inl hit ↦ inr (k, ground (arith, at, hit), (r, at, hit), passed)
        | inr miss ↦
            elim (last-cases rs k (omega arith)
              (subst (NonePasses test) (sym row) (miss, passed))) [
                | inl (e, none_passes) ↦ inl (ground (arith, at, miss, e), none_passes)
                | inr (i, e, found, after) ↦ inr (i, ground (arith, at, miss, e), found, after)
              ]
      ]

  seeks_last : (c : Cursor) → SeeksLast test c (moved_to c (last_below test c.rows (length c.rows)))
  unfolding moved_to
  seeks_last c =
      elim (last-cases c.rows (length c.rows) (omega arith) (rw (drop-length c.rows) tt)) [
        | inl (e, none_passes) ↦ inl (ap (moved_to c) e, none_passes)
        | inr (i, e, at, after) ↦ inr (i, ap (moved_to c) e, at, after)
      ]

-- The three seeks upwards come to the first row whose key is equal to the key given, is greater, and is at least
-- it. Where there is no such row they report it and leave the cursor as it was.
pub seek-SeeksFirst :
    (c : Cursor) (key : ℕ)
    → SeeksFirst (λ k. k == key) c (seek_eq c key)
      × SeeksFirst (λ k. ltb key k) c (seek_gt c key)
      × SeeksFirst (λ k. leb key k) c (seek_ge c key)
unfolding seek_eq seek_gt seek_ge
seek-SeeksFirst c key = (seeks_first _ c, seeks_first _ c, seeks_first _ c)

-- The two seeks downwards come to the last row whose key is smaller than the key given, and is at most it. Where
-- there is no such row they report it and leave the cursor as it was.
pub seek-SeeksLast :
    (c : Cursor) (key : ℕ)
    → SeeksLast (λ k. ltb k key) c (seek_lt c key) × SeeksLast (λ k. leb k key) c (seek_le c key)
unfolding seek_lt seek_le
seek-SeeksLast c key = (seeks_last _ c, seeks_last _ c)
