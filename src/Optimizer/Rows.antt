-- ===== src/Optimizer/Rows.antt =====
-- Selections and joins of lists of rows.
use chidb.Prelude.{
  ◌≡◌, refl, sym, ap, ap₂, ◌∙◌, Bool, true, false, ◌&&◌, List, [], ◌∷◌, ◌++◌, if◌then◌else◌, inl,
  inr, Bool-cases,
}

-- The elements that pass a test.
abbrev pub keep : {A : Type 0} → (A → Bool) → List A → List A
keep p [] = []
keep p (x ∷ xs) = let rest = keep p xs in if p x then x ∷ rest else rest

abbrev pub all_of : {A : Type 0} → (A → Bool) → List A → Bool
all_of p [] = true
all_of p (x ∷ xs) = p x && all_of p xs

module _ {A : Type 0} where
  keep-append : (p : A → Bool) (xs ys : List A) → keep p (xs ++ ys) ≡ keep p xs ++ keep p ys
  keep-append p [] ys = refl
  keep-append p (x ∷ xs) ys = elim (Bool-cases (p x)) [
    | inl e ↦ rw e (ap (λ (zs : List A). x ∷ zs) (keep-append p xs ys))
    | inr e ↦ rw e (keep-append p xs ys)
  ]

  pub keep-true : (xs : List A) → keep (λ x. true) xs ≡ xs
  keep-true [] = refl
  keep-true (x ∷ xs) = ap (λ (zs : List A). x ∷ zs) (keep-true xs)

  pub all_of-append :
      (p : A → Bool) (xs ys : List A) → all_of p (xs ++ ys) ≡ (all_of p xs && all_of p ys)
  all_of-append p [] ys = refl
  all_of-append p (x ∷ xs) ys = elim (Bool-cases (p x)) [
    | inl e ↦ rw e (all_of-append p xs ys)
    | inr e ↦ rw e refl
  ]

module _ {A B : Type 0} where
  -- The pairs of `a` and a row of the list that match.
  abbrev pub pairs : (A → B → Bool) → A → List B → List (A × B)
  pairs p a [] = []
  pairs p a (b ∷ bs) = let rest = pairs p a bs in if p a b then (a, b) ∷ rest else rest

  abbrev pub joined : (A → B → Bool) → List A → List B → List (A × B)
  joined p [] bs = []
  joined p (a ∷ xs) bs = pairs p a bs ++ joined p xs bs

  keep-pairs :
      (p : A → B → Bool) (q : A × B → Bool) (a : A) (bs : List B)
      → keep q (pairs p a bs) ≡ pairs (λ a b. p a b && q (a, b)) a bs
  keep-pairs p q a [] = refl
  keep-pairs p q a (b ∷ bs) = elim (Bool-cases (p a b)) [
    | inl e ↦ elim (Bool-cases (q (a, b))) [
      | inl e' ↦ rw (e, e') (ap (λ (zs : List (A × B)). (a, b) ∷ zs) (keep-pairs p q a bs))
      | inr e' ↦ rw (e, e') (keep-pairs p q a bs)
    ]
    | inr e ↦ rw e (keep-pairs p q a bs)
  ]

  pub keep-joined :
      (p : A → B → Bool) (q : A × B → Bool) (xs : List A) (bs : List B)
      → keep q (joined p xs bs) ≡ joined (λ a b. p a b && q (a, b)) xs bs
  keep-joined p q [] bs = refl
  keep-joined p q (a ∷ xs) bs =
      keep-append q (pairs p a bs) (joined p xs bs)
      ∙ ap₂ ◌++◌ (keep-pairs p q a bs) (keep-joined p q xs bs)

  module _ (p p' : A → B → Bool) where
    pairs-congr : (a : A) (bs : List B) → ((b : B) → p a b ≡ p' a b) → pairs p a bs ≡ pairs p' a bs
    pairs-congr a [] same = refl
    pairs-congr a (b ∷ bs) same = rw (same b, pairs-congr a bs same) refl

    pub joined-congr :
        (xs : List A) (bs : List B)
        → ((a : A) (b : B) → p a b ≡ p' a b)
        → joined p xs bs ≡ joined p' xs bs
    joined-congr [] bs same = refl
    joined-congr (a ∷ xs) bs same = ap₂ ◌++◌ (pairs-congr a bs (same a)) (joined-congr xs bs same)

  pairs-keep :
      (p : A → B → Bool) (g : B → Bool) (a : A) (bs : List B)
      → pairs p a (keep g bs) ≡ pairs (λ a b. g b && p a b) a bs
  pairs-keep p g a [] = refl
  pairs-keep p g a (b ∷ bs) = elim (Bool-cases (g b)) [
    | inl e ↦ rw (e, pairs-keep p g a bs) refl
    | inr e ↦ rw e (pairs-keep p g a bs)
  ]

  pairs-false :
      (p : A → B → Bool) (a : A) (bs : List B) → ((b : B) → p a b ≡ false) → pairs p a bs ≡ []
  pairs-false p a [] misses = refl
  pairs-false p a (b ∷ bs) misses = rw (misses b) (pairs-false p a bs misses)

  -- Selections on the two sides of a join, xs one of the join.
  pub joined-keep :
      (p : A → B → Bool) (f : A → Bool) (g : B → Bool) (xs : List A) (bs : List B)
      → joined p (keep f xs) (keep g bs) ≡ joined (λ a b. f a && (g b && p a b)) xs bs
  joined-keep p f g [] bs = refl
  joined-keep p f g (a ∷ xs) bs = elim (Bool-cases (f a)) [
    | inl e ↦
        let here : (b : B) → (g b && p a b) ≡ (f a && (g b && p a b)) = λ b. rw e refl in
        rw e (
          ap₂ ◌++◌
            (pairs-keep p g a bs
              ∙ pairs-congr (λ a b. g b && p a b) (λ a b. f a && (g b && p a b)) a bs here)
            (joined-keep p f g xs bs))
    | inr e ↦
        let none_here : (b : B) → (f a && (g b && p a b)) ≡ false = λ b. rw e refl in
        rw e (
          joined-keep p f g xs bs
          ∙ ap (λ (zs : List (A × B)). zs ++ joined (λ a b. f a && (g b && p a b)) xs bs)
              (sym (pairs-false (λ a b. f a && (g b && p a b)) a bs none_here)))
  ]
