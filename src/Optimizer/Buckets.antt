-- ===== src/Optimizer/Buckets.antt =====
-- src/libchidb/optimizer.c: what the conjuncts of a condition and the three buckets of them mean together.
use chidb.Prelude.{
  ◌≡◌, ◌⊎◌, inl, inr, refl, sym, ap, ap₂, ◌∙◌, Bool, true, false, ◌&&◌, List, [], ◌∷◌, Bool-cases,
}
use mathlib.Core.Bool.{and_assoc, and-true}
use chidb.Sql.{Condition}
use chidb.Optimizer.{Side, flatten_conjuncts, fold_and, is_side, bucket}
use chidb.Optimizer.Rows.{all_of, all_of-append}

-- A test that a conjunction passes just if both its parts do.
module _ (ev : Condition → Bool)
    (ev-and : (a b : Condition) → ev (Condition.cond_and a b) ≡ (ev a && ev b)) where
  pub ev-flatten : (c : Condition) → ev c ≡ all_of ev (flatten_conjuncts c)
  unfolding flatten_conjuncts
  ev-flatten (Condition.cond_and a b) =
      ev-and a b
      ∙ ap₂ (λ (x y : Bool). x && y) (ev-flatten a) (ev-flatten b)
      ∙ sym (all_of-append ev (flatten_conjuncts a) (flatten_conjuncts b))
  ev-flatten (Condition.cond_comp c e1 e2) = sym (and-true _)
  ev-flatten (Condition.cond_or a b) = sym (and-true _)
  ev-flatten (Condition.cond_not a) = sym (and-true _)
  ev-flatten (Condition.cond_in e ls) = sym (and-true _)

  pub ev-fold_and :
      (c : Condition) (cs : List Condition) → ev (fold_and c cs) ≡ (ev c && all_of ev cs)
  unfolding fold_and
  ev-fold_and c [] = sym (and-true _)
  ev-fold_and c (d ∷ ds) =
      ev-fold_and (Condition.cond_and c d) ds
      ∙ ap (λ (b : Bool). b && all_of ev ds) (ev-and c d)
      ∙ and_assoc (ev c) (ev d) (all_of ev ds)

module _ (classify : Condition → Side) where
  side_cases :
      (c : Condition)
      → (classify c ≡ Side.left) ⊎ ((classify c ≡ Side.right) ⊎ (classify c ≡ Side.top))
  side_cases c = split (classify c) refl
    where
      split :
          (s : Side)
          → classify c ≡ s
          → (classify c ≡ Side.left) ⊎ ((classify c ≡ Side.right) ⊎ (classify c ≡ Side.top))
      split Side.left e = inl e
      split Side.right e = inr (inl e)
      split Side.top e = inr (inr e)

  middle : (a b c : Bool) → (a && (b && c)) ≡ (b && (a && c))
  middle true b c = refl
  middle false true c = refl
  middle false false c = refl

  last : (a b c d : Bool) → (a && (b && (c && d))) ≡ (b && (c && (a && d)))
  last true b c d = refl
  last false true true d = refl
  last false true false d = refl
  last false false c d = refl

  -- Every conjunct is in just one of the buckets.
  pub all_of-bucket :
      (ev : Condition → Bool) (cs : List Condition)
      → all_of ev cs ≡ (
          all_of ev (bucket classify Side.left cs)
          && (all_of ev (bucket classify Side.right cs) && all_of ev (bucket classify Side.top cs)))
  unfolding bucket is_side
  all_of-bucket ev [] = refl
  all_of-bucket ev (c ∷ cs) =
      let l : Bool = all_of ev (bucket classify Side.left cs) in
      let r : Bool = all_of ev (bucket classify Side.right cs) in
      let t : Bool = all_of ev (bucket classify Side.top cs) in
      elim (side_cases c) [
        | inl e ↦ rw (e, all_of-bucket ev cs) (sym (and_assoc (ev c) l (r && t)))
        | inr (inl e) ↦
            rw (e, all_of-bucket ev cs)
              (middle (ev c) l (r && t) ∙ ap (λ (x : Bool). l && x) (sym (and_assoc (ev c) r t)))
        | inr (inr e) ↦ rw (e, all_of-bucket ev cs) (last (ev c) l r t)
      ]

  pub all_of-bucket_congr :
      (ev ev' : Condition → Bool) (side : Side) (cs : List Condition)
      → ((c : Condition) → classify c ≡ side → ev c ≡ ev' c)
      → all_of ev (bucket classify side cs) ≡ all_of ev' (bucket classify side cs)
  unfolding bucket is_side
  all_of-bucket_congr ev ev' side [] same = refl
  all_of-bucket_congr ev ev' side (c ∷ cs) same = elim (Bool-cases (is_side (classify c) side)) [
    | inl e ↦ rw e (
        ap₂ (λ (x y : Bool). x && y) (same c (is_side-eq _ side e))
          (all_of-bucket_congr ev ev' side cs same))
    | inr e ↦ rw e (all_of-bucket_congr ev ev' side cs same)
  ]
    where
      is_side-eq : (a b : Side) → is_side a b ≡ true → a ≡ b
      is_side-eq Side.left Side.left e = refl
      is_side-eq Side.right Side.right e = refl
      is_side-eq Side.top Side.top e = refl
      is_side-eq Side.left Side.right e = absurd cc
      is_side-eq Side.left Side.top e = absurd cc
      is_side-eq Side.right Side.left e = absurd cc
      is_side-eq Side.right Side.top e = absurd cc
      is_side-eq Side.top Side.left e = absurd cc
      is_side-eq Side.top Side.right e = absurd cc
