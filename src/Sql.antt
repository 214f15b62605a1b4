-- ===== src/Sql.antt =====
-- include/chisql: the statements that the parser gives. A string is the list of its codes, an integer its 32 bits, a
-- linked list a list.
use chidb.Prelude.{ℕ, Bool, Option, List}

pub data DataType : Type 0 where
  int_type double_type char_type text_type : DataType

-- The value of a `double` is used nowhere; it stands for its bits.
pub data Literal : Type 0 where
  lit_int lit_double lit_char : ℕ → Literal
  lit_text : List ℕ → Literal

pub record ColumnReference : Type 0 where
  pub table_name : Option (List ℕ)
  pub column_name : List ℕ

pub data FuncType : Type 0 where
  max min count avg sum : FuncType

mutual
  pub data Term : Type 0 where
    literal : Literal → Term
    id : List ℕ → Term
    null : Term
    column_ref : ColumnReference → Term
    func : FuncType → Expression → Term

  pub data Expression : Type 0 where
    term : Term → Expression
    plus minus multiply divide concat : Expression → Expression → Expression
    neg : Expression → Expression

-- An expression of a list, with its alias.
pub record ListedExpression : Type 0 where
  pub expr : Expression
  pub alias : Option (List ℕ)

-- The conditions that are comparisons.
pub data CompType : Type 0 where
  cond_eq cond_lt cond_gt cond_leq cond_geq : CompType

pub data Condition : Type 0 where
  cond_comp : CompType → Expression → Expression → Condition
  cond_and cond_or : Condition → Condition → Condition
  cond_not : Condition → Condition
  cond_in : Expression → List Literal → Condition

pub record ForeignKeyRef : Type 0 where
  pub col_name : List ℕ
  pub table_name : List ℕ
  pub table_col_name : List ℕ

pub data Constraint : Type 0 where
  not_null unique primary_key auto_increment : Constraint
  foreign_key : ForeignKeyRef → Constraint
  default_value : Literal → Constraint
  check : Condition → Constraint
  size : ℕ → Constraint

-- The offset in a row is not in the model: nothing in libchidb reads it.
pub record Column : Type 0 where
  pub name : List ℕ
  pub type : DataType
  pub constraints : List Constraint

pub record Table : Type 0 where
  pub name : List ℕ
  pub columns : List Column

pub record TableReference : Type 0 where
  pub table_name : List ℕ
  pub alias : Option (List ℕ)

pub record Index : Type 0 where
  pub name : List ℕ
  pub table_name : List ℕ
  pub column_name : List ℕ
  pub unique : Bool

pub data Create : Type 0 where
  create_table : Table → Create
  create_index : Index → Create

pub record Insert : Type 0 where
  pub table_name : List ℕ
  pub col_names : List (List ℕ)
  pub values : List Literal

pub record Delete : Type 0 where
  pub table_name : List ℕ
  pub where_cond : Option Condition

pub data OrderBy : Type 0 where
  asc desc : OrderBy

-- The fields of a projection beside what it projects.
pub record Projection : Type 0 where
  pub expr_list : List ListedExpression
  pub order_by : List ListedExpression
  pub distinct : Bool
  pub asc_desc : OrderBy
  pub group_by : List ListedExpression

pub data JoinCondition : Type 0 where
  on : Condition → JoinCondition
  using : List (List ℕ) → JoinCondition

pub data Sra : Type 0 where
  table : TableReference → Sra
  project : Sra → Projection → Sra
  select : Sra → Condition → Sra
  natural_join : Sra → Sra → Sra
  join full_outer_join left_outer_join right_outer_join : Sra → Sra → Option JoinCondition → Sra
  union except intersect : Sra → Sra → Sra

pub data StatementKind : Type 0 where
  stmt_create : Create → StatementKind
  stmt_select : Sra → StatementKind
  stmt_insert : Insert → StatementKind
  stmt_delete : Delete → StatementKind

pub record Statement : Type 0 where
  pub explain : Bool
  pub text : List ℕ
  pub stmt : StatementKind

-- `chisql_parser`, which the build generates; `none` is an error.
abbrev pub Parser : Type 0
Parser = List ℕ → Option Statement
