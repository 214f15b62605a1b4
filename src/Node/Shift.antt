-- ===== src/Node/Shift.antt =====
-- src/libchidb/btree.c: the loop of `chidb_Btree_insertCell` that moves the cell offset array.
use chidb.Prelude.{
  ℕ, zero, suc, ◌+◌, ◌*◌, ◌^◌, ◌≤◌, ◌<◌, ◌≡◌, ◌⊎◌, refl, ◌∙◌, inl, inr, arith, le-cases,
}
use chidb.Bytes.{Bytes, get2byte, put2byte}
use chidb.Bytes.Laws.{get2byte-same, get2byte-put2byte, get2byte-put2byte_ne, put2byte-frame}
use chidb.Node.{shift_offsets}

module _ (array ncell : ℕ) where
  -- The first round, for `i = ncell + suc k`.
  abbrev moved : Bytes → ℕ → Bytes
  moved d k = put2byte d (array + (ncell + suc k) * 2) (get2byte d (array + (ncell + k) * 2))

  -- Only the entries behind `ncell` change.
  pub shift_offsets-frame :
      (d : Bytes) (k j : ℕ)
      → (j < array + (ncell + 1) * 2) ⊎ (array + (ncell + k + 1) * 2 ≤ j)
      → shift_offsets d array ncell k j ≡ d j
  unfolding shift_offsets
  shift_offsets-frame d zero j out = refl
  shift_offsets-frame d (suc k) j out =
      shift_offsets-frame (moved d k) k j (omega arith)
      ∙ put2byte-frame d (array + (ncell + suc k) * 2) _ j (omega arith)

  same_place : (k i : ℕ) → k ≤ i → i < suc k → i ≡ k
  same_place k i h g = omega arith

  -- Each entry from `ncell` on moves one place up.
  pub shift_offsets_moves :
      (d : Bytes) (k : ℕ)
      → ((i : ℕ) → i < k → get2byte d (array + (ncell + i) * 2) < 2 ^ 16)
      → (i : ℕ) → i < k
      → get2byte (shift_offsets d array ncell k) (array + (ncell + i + 1) * 2)
        ≡ get2byte d (array + (ncell + i) * 2)
  unfolding shift_offsets
  shift_offsets_moves d zero small i h = absurd (omega arith)
  shift_offsets_moves d (suc k) small i h = elim (le-cases k i) [
    | inl last ↦ ground (
      arith,
      get2byte-same (shift_offsets (moved d k) array ncell k) (moved d k)
          (array + (ncell + i + 1) * 2)
          (λ j l g. shift_offsets-frame (moved d k) k j (omega arith)),
      get2byte-put2byte d (array + (ncell + suc k) * 2) (get2byte d (array + (ncell + k) * 2)),
      small k,
      same_place k i last h,
    )
    | inr below ↦
        shift_offsets_moves (moved d k) k
          (λ m l.
            rw
              (get2byte-put2byte_ne d (array + (ncell + suc k) * 2)
                (get2byte d (array + (ncell + k) * 2)) (array + (ncell + m) * 2) (omega arith))
              (small m (omega arith)))
          i below
        ∙ get2byte-put2byte_ne d (array + (ncell + suc k) * 2)
            (get2byte d (array + (ncell + k) * 2)) (array + (ncell + i) * 2) (omega arith)
  ]
