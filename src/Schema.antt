-- ===== src/Schema.antt =====
-- src/libchidb/util.c: the schema of a database, one item for each row of the table in page 1.
pub mod Lookup
mod Tests
use chidb.Prelude.{
  ℕ, ◌+◌, ◌%◌, ◌^◌, Bool, true, false, ◌&&◌, Option, none, some, List, [], ◌∷◌, ltb, leb, ◌==◌,
  if◌then◌else◌, codes,
}
use chidb.Run.{ok, err, fault, out_of_fuel, Cmd}
use chidb.Pager.{Pager}
use chidb.Cursor.{Cursor, CursorRow, CursorType, cursor_open}
use chidb.Record.{DbRecord, get_int32, get_string, get_string_length}
use chidb.Dbm.Ops.{row_record}
use chidb.Dbm.Values.{c_string}

-- The strings are C strings.
pub record SchemaItem : Type 0 where
  pub type : List ℕ
  pub name : List ℕ
  pub table_name : List ℕ
  pub root_page : ℕ
  pub sql : List ℕ
  pub key : ℕ

-- `chidb_DBRecord_getString` without a check of the type: a field that is not there, or that is copied from
-- beyond the record, is undefined.
unfoldable pub string_field : DbRecord → ℕ → Option (List ℕ)
string_field dbr field =
    if ltb field dbr.nfields && leb (dbr.offsets field + get_string_length dbr field) dbr.data_len
    then some (c_string (get_string dbr field))
    else none

unfoldable pub int_field : DbRecord → ℕ → Option ℕ
int_field dbr field =
    if ltb field dbr.nfields && leb (dbr.offsets field + 4) dbr.data_len
    then some (get_int32 dbr field)
    else none

infixl 5 ◌>>=?◌
abbrev ◌>>=?◌ : {A B : Type 0} → Option A → (A → Option B) → Option B
none >>=? k = none
some a >>=? k = k a

unfoldable pub item_of : DbRecord → ℕ → Option SchemaItem
item_of dbr key = string_field dbr 0 >>=? λ type. string_field dbr 1 >>=? λ name.
    string_field dbr 2 >>=? λ table_name. int_field dbr 3 >>=? λ root_page.
    string_field dbr 4 >>=? λ sql. some (record {
      type = type;
      name = name;
      table_name = table_name;
      root_page = root_page;
      sql = sql;
      key = key;
    })

-- The loop over the cursor's rows. The new items go to the end of the list.
unfoldable pub items_of : Cursor → List CursorRow → Option (List SchemaItem)
items_of cur [] = some []
items_of cur (row ∷ rows) = row_record cur row >>=? λ dbr.
    item_of dbr row.key >>=? λ item. items_of cur rows >>=? λ items. some (item ∷ items)

-- The list is freed first, and stays empty if the cursor cannot be opened.
unfoldable pub schema_load : ℕ → Pager → Cmd (List SchemaItem) (Unit {0})
schema_load depth p old = elim (cursor_open depth 1 CursorType.read p) [
  | ok cur p' ↦ elim (items_of cur cur.rows) [ none ↦ fault | some items ↦ ok tt items ]
  | err c p' ↦ err c []
  | fault ↦ fault
  | out_of_fuel ↦ out_of_fuel
]

-- `strcmp (s, t) == 0`
unfoldable pub str_eq : List ℕ → List ℕ → Bool
str_eq [] [] = true
str_eq [] (d ∷ ds) = false
str_eq (c ∷ cs) [] = false
str_eq (c ∷ cs) (d ∷ ds) = (c == d) && str_eq cs ds

-- `tolower` in the C locale.
unfoldable pub to_lower : ℕ → ℕ
to_lower c = if leb b'A' c && leb c b'Z' then c + 32 else c

-- `strcasecmp (s, t) == 0`
unfoldable pub str_case_eq : List ℕ → List ℕ → Bool
unfolding to_lower
str_case_eq [] [] = true
str_case_eq [] (d ∷ ds) = false
str_case_eq (c ∷ cs) [] = false
str_case_eq (c ∷ cs) (d ∷ ds) = (to_lower c == to_lower d) && str_case_eq cs ds

unfoldable pub find_table : List SchemaItem → List ℕ → Option SchemaItem
find_table [] name = none
find_table (item ∷ items) name =
    let rest = find_table items name in
    if str_eq item.type (codes "table") && str_case_eq item.name name then some item else rest

-- `index_column` stands for `chisql_parser`: the column name of the index that a text creates, or `none` where
-- the parser reports an error.
unfoldable pub find_index_on :
    (List ℕ → Option (List ℕ)) → List SchemaItem → List ℕ → List ℕ → Option SchemaItem
find_index_on index_column [] table column = none
find_index_on index_column (item ∷ items) table column =
    let rest = find_index_on index_column items table column in
    let matches : Option SchemaItem = elim (index_column item.sql) [
      | none ↦ rest
      | some name ↦ if str_case_eq name column then some item else rest
    ] in
    if str_eq item.type (codes "index") && str_case_eq item.table_name table then matches else rest

unfoldable pub max_key : ℕ → List SchemaItem → ℕ
max_key max [] = max
max_key max (item ∷ items) = max_key (if ltb max item.key then item.key else max) items

unfoldable pub next_key : List SchemaItem → ℕ
unfolding max_key
next_key items = (max_key 0 items + 1) % 2 ^ 32
