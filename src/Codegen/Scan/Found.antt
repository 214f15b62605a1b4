-- ===== src/Codegen/Scan/Found.antt =====
-- src/libchidb/codegen.c: the columns and the comparisons of a SELECT are found and taken.
use chidb.Prelude.{
  ℕ, zero, suc, ◌+◌, ◌≤◌, ◌<◌, ◌≡◌, refl, ap, ap₂, ◌∙◌, inl, inr, Bool, true, false, Option, none,
  some, List, [], ◌∷◌, ◌++◌, All, arith, length, length-append, codes, Option-cases, if◌then◌else◌,
}
use chidb.Schema.Lookup.{str_eq-Decided}
use chidb.Sql.{
  DataType, Literal, ColumnReference, Term, Expression, ListedExpression, CompType, Condition,
  Column,
}
use chidb.Optimizer.{flatten_conjuncts}
use chidb.Optimizer.Meaning.{Value, literal_value}
use chidb.Codegen.{literal_matches_type}
use chidb.Codegen.Conjuncts.{
  ResolvedCmp, ColResolver, operands, resolved_with, resolve_comparison, resolve_list,
  resolve_conjuncts, resolve_single_column, negated_op, flip_comp,
}
use chidb.Codegen.Layout.{get_elem?-lt}
use chidb.Codegen.Scan.Asked.{
  IsFirstNamed, AsksNamed, count_up, Asks, asks_all, asks_named, IsOfType, IsSimple, simple_and,
  column_first, literal_first, IsFilter, is_true, is_false, column_index_by_name-first,
}
use chidb.Codegen.Scan.Row.{HasType, int_value, text_value}
use chidb.Codegen.Select.{is_star_term, is_star, indices, output_index, output_indices}

-- The test for `*` is that of the expressions.
abbrev pub Stars : List ListedExpression → Bool → Type 0
Stars es star = is_star es ≡ some star

indices-count_up : (i : ℕ) (cols : List Column) → indices i cols ≡ count_up i (length cols)
unfolding indices
indices-count_up i [] = refl
indices-count_up i (c ∷ cs) = ap (◌∷◌ i) (indices-count_up (suc i) cs)

count_up-lt : (i n bound : ℕ) → i + n ≤ bound → All (λ k. k < bound) (count_up i n)
count_up-lt i zero bound h = tt
count_up-lt i (suc n) bound h = (omega arith, count_up-lt (suc i) n bound (omega arith))

AsksNamed-lt :
    (cols : List Column) (es : List ListedExpression) (out : List ℕ)
    → AsksNamed cols es out
    → All (λ i. i < length cols) out
AsksNamed-lt cols [] [] h = tt
AsksNamed-lt cols [] (i ∷ is) h = absurd h
AsksNamed-lt cols (e ∷ es) [] h = absurd h
AsksNamed-lt cols (e ∷ es) (i ∷ is) ((ref, c, is_ref, no_star, (at, same, before)), h) =
    (get_elem?-lt cols i c at, AsksNamed-lt cols es is h)

pub Asks-lt :
    (cols : List Column) (es : List ListedExpression) (out : List ℕ)
    → Asks cols es out
    → All (λ i. i < length cols) out
Asks-lt cols es out (asks_all e star) = count_up-lt 0 (length cols) (length cols) (omega arith)
Asks-lt cols es out (asks_named {e} {es = es'} h) = AsksNamed-lt cols (e ∷ es') out h

pub output_indices-AsksNamed :
    (cols : List Column) (es : List ListedExpression) (out : List ℕ)
    → AsksNamed cols es out
    → output_indices cols es ≡ some out
unfolding output_indices
output_indices-AsksNamed cols [] [] h = refl
output_indices-AsksNamed cols [] (i ∷ is) h = absurd h
output_indices-AsksNamed cols (e ∷ es) [] h = absurd h
output_indices-AsksNamed cols (e ∷ es) (i ∷ is) ((ref, c, is_ref, no_star, first), h) =
    let index : output_index cols e.expr ≡ some i =
      ap (output_index cols) is_ref ∙ output_index-first ref c first in
    rw (index, output_indices-AsksNamed cols es is h, output_indices) refl
  where
    output_index-first :
        (ref : ColumnReference) (c : Column)
        → IsFirstNamed cols ref.column_name i c
        → output_index cols (Expression.term (Term.column_ref ref)) ≡ some i
    output_index-first ref c first =
        rw (column_index_by_name-first cols ref.column_name i c first, output_index) refl

is_star_term-false :
    (e : Expression) (ref : ColumnReference)
    → e ≡ Expression.term (Term.column_ref ref)
    → ¬ (ref.column_name ≡ codes "*")
    → is_star_term e ≡ false
is_star_term-false e ref is_ref no_star =
    ap is_star_term is_ref ∙ is_false _ _ (str_eq-Decided ref.column_name (codes "*")) no_star

is_star_term-true :
    (e : Expression) (ref : ColumnReference)
    → e ≡ Expression.term (Term.column_ref ref)
    → ref.column_name ≡ codes "*"
    → is_star_term e ≡ true
is_star_term-true e ref is_ref star =
    ap is_star_term is_ref ∙ is_true _ _ (str_eq-Decided ref.column_name (codes "*")) star

pub is_star-AsksNamed :
    (cols : List Column) (e : ListedExpression) (es : List ListedExpression) (out : List ℕ)
    → AsksNamed cols (e ∷ es) out
    → is_star (e ∷ es) ≡ some false
unfolding is_star
is_star-AsksNamed cols e [] [] h = absurd h
is_star-AsksNamed cols e [] (i ∷ is) ((ref, c, is_ref, no_star, first), h) =
    ap (λ (b : Bool). some b) (is_star_term-false e.expr ref is_ref no_star)
is_star-AsksNamed cols e (e' ∷ es) out h = refl

-- `*` gives every column.
pub is_star-all :
    (e : ListedExpression) (ref : ColumnReference)
    → e.expr ≡ Expression.term (Term.column_ref ref)
    → ref.column_name ≡ codes "*"
    → is_star (e ∷ []) ≡ some true
unfolding is_star
is_star-all e ref is_ref star = ap (λ (b : Bool). some b) (is_star_term-true e.expr ref is_ref star)

pub indices-all : (cols : List Column) → indices 0 cols ≡ count_up 0 (length cols)
indices-all cols = indices-count_up 0 cols

int_matches :
    (n : ℕ) (type : DataType) (v : Value)
    → some (Value.int n) ≡ some v
    → HasType type v
    → literal_matches_type (Literal.lit_int n) type ≡ true
unfolding literal_matches_type
int_matches n type v e int_value = refl
int_matches n type v e text_value = absurd cc

text_matches :
    (l : Literal) (s : List ℕ) (type : DataType) (v : Value)
    → some (Value.text s) ≡ some v
    → HasType type v
    → literal_matches_type l DataType.text_type ≡ true
    → literal_matches_type l type ≡ true
text_matches l s type v e int_value matches = absurd cc
text_matches l s type v e text_value matches = matches

literal_matches_type-IsOfType :
    (l : Literal) (type : DataType) → IsOfType l type → literal_matches_type l type ≡ true
unfolding literal_matches_type literal_value
literal_matches_type-IsOfType (Literal.lit_int n) type (v, e, h) = int_matches n type v e h
literal_matches_type-IsOfType (Literal.lit_char n) type (v, e, h) =
    text_matches (Literal.lit_char n) _ type v e h refl
literal_matches_type-IsOfType (Literal.lit_text s) type (v, e, h) =
    text_matches (Literal.lit_text s) s type v e h refl
literal_matches_type-IsOfType (Literal.lit_double n) type (v, e, h) = absurd cc

abbrev both_lists :
    Option (List ResolvedCmp) → Option (List ResolvedCmp) → Option (List ResolvedCmp)
both_lists none ys = none
both_lists (some xs) none = none
both_lists (some xs) (some ys) = some (xs ++ ys)

resolve_list-append :
    (resolve : ColResolver) (cs ds : List Condition)
    → resolve_list resolve (cs ++ ds)
      ≡ both_lists (resolve_list resolve cs) (resolve_list resolve ds)
unfolding resolve_list
resolve_list-append resolve [] ds = elim (Option-cases (resolve_list resolve ds)) [
  | inl e ↦ rw (e, resolve_list) refl
  | inr (ys, e) ↦ rw (e, resolve_list) refl
]
resolve_list-append resolve (c ∷ cs) ds =
    let append : resolve_list resolve (cs ++ ds)
        ≡ both_lists (resolve_list resolve cs) (resolve_list resolve ds) =
      resolve_list-append resolve cs ds in
    elim (Option-cases (resolve_comparison resolve c)) [
      | inl e ↦ rw (e, resolve_list) refl
      | inr (cmp, e) ↦ elim (Option-cases (resolve_list resolve cs)) [
        | inl f ↦ rw (e, append, f, resolve_list) refl
        | inr (xs, f) ↦ elim (Option-cases (resolve_list resolve ds)) [
          | inl g ↦ rw (e, append, f, g, resolve_list) refl
          | inr (ys, g) ↦ rw (e, append, f, g, resolve_list) refl
        ]
      ]
    ]

-- A comparison is taken, whichever way round it is.
module _ (cols : List Column) (op : CompType) (ref : ColumnReference) (l : Literal) (i : ℕ)
    (c : Column) (first : IsFirstNamed cols ref.column_name i c) (typed : IsOfType l c.type) where
  abbrev resolve : ColResolver
  resolve = resolve_single_column cols

  column_found : resolve ref ≡ some (record { side = 0; idx = i }, c.type)
  unfolding resolve_single_column
  column_found = rw (column_index_by_name-first cols ref.column_name i c first) refl

  resolved_with-some :
      (flipped : Bool)
      → (cmp : ResolvedCmp) × (resolved_with resolve op ref
            (Expression.term (Term.literal l))
            flipped
          ≡ some cmp)
  unfolding resolved_with
  resolved_with-some flipped = (
    record {
      col = record { side = 0; idx = i };
      op = negated_op (if flipped then flip_comp op else op);
      lit = l;
    },
    rw (column_found, literal_matches_type-IsOfType l c.type typed, resolved_with) refl,
  )

  column_first-taken :
      (cmp : ResolvedCmp) × (resolve_comparison resolve (
          Condition.cond_comp op
            (Expression.term (Term.column_ref ref))
            (Expression.term (Term.literal l)))
        ≡ some cmp)
  unfolding resolve_comparison operands
  column_first-taken = resolved_with-some false

  literal_first-taken :
      (cmp : ResolvedCmp) × (resolve_comparison resolve (
          Condition.cond_comp op
            (Expression.term (Term.literal l))
            (Expression.term (Term.column_ref ref)))
        ≡ some cmp)
  unfolding resolve_comparison operands
  literal_first-taken = resolved_with-some true

abbrev Taken : List Column → Condition → ℕ → Type 0
Taken cols cond n =
    (cmps : List ResolvedCmp) × (resolve_list (resolve_single_column cols) (flatten_conjuncts cond)
      ≡ some cmps)
    × (length cmps ≡ n)

one-Taken :
    (cols : List Column) (op : CompType) (e1 e2 : Expression) (cmp : ResolvedCmp)
    → resolve_comparison (resolve_single_column cols) (Condition.cond_comp op e1 e2) ≡ some cmp
    → Taken cols (Condition.cond_comp op e1 e2) 1
unfolding resolve_list flatten_conjuncts
one-Taken cols op e1 e2 cmp e = (cmp ∷ [], rw (e, resolve_list) refl, refl)

both-Taken :
    (cols : List Column) (a b : Condition) (m n : ℕ)
    → Taken cols a m
    → Taken cols b n
    → Taken cols (Condition.cond_and a b) (m + n)
unfolding flatten_conjuncts
both-Taken cols a b m n (xs, e, count) (ys, f, count') = (
  xs ++ ys,
  resolve_list-append (resolve_single_column cols) (flatten_conjuncts a) (flatten_conjuncts b)
      ∙ ap₂ both_lists e f,
  omega (arith, length-append xs ys, count, count'),
)

IsSimple-Taken :
    (cols : List Column) (cond : Condition) (n : ℕ) → IsSimple cols cond n → Taken cols cond n
IsSimple-Taken cols cond n (simple_and {a} {b} {m} {n = k} h g) =
    both-Taken cols a b m k (IsSimple-Taken cols a m h) (IsSimple-Taken cols b k g)
IsSimple-Taken cols cond n (column_first {op} {ref} {l} i c first typed) =
    let (cmp, e) = column_first-taken cols op ref l i c first typed in one-Taken cols op _ _ cmp e
IsSimple-Taken cols cond n (literal_first {op} {ref} {l} i c first typed) =
    let (cmp, e) = literal_first-taken cols op ref l i c first typed in one-Taken cols op _ _ cmp e

pub resolve_conjuncts-IsFilter :
    (cols : List Column) (cond : Option Condition) (n : ℕ)
    → IsFilter cols cond n
    → (cmps : List ResolvedCmp) × (resolve_conjuncts (resolve_single_column cols) cond ≡ some cmps)
      × (length cmps ≡ n)
unfolding resolve_conjuncts
resolve_conjuncts-IsFilter cols none n h = ([], refl, h)
resolve_conjuncts-IsFilter cols (some c) n h = IsSimple-Taken cols c n h
