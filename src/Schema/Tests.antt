-- ===== src/Schema/Tests.antt =====
-- src/libchidb/util.c on a schema of a table and an index.
use chidb.Prelude.{ℕ, ◌<◌, Option, some, List, [], ◌∷◌, All, arith, codes, ◌≡◌, refl}
use chidb.Schema.{SchemaItem, find_table, find_index_on, next_key, str_eq, str_case_eq, to_lower}
use chidb.Schema.Lookup.{IsTableNamed, IsIndexOn, FindsFirst, find-FindsFirst, next_key-All}

abbrev courses : SchemaItem
courses = record {
  type = codes "table";
  name = codes "courses";
  table_name = codes "courses";
  root_page = 2;
  sql = codes "CREATE TABLE courses (code INTEGER)";
  key = 1;
}

abbrev by_code : SchemaItem
by_code = record {
  type = codes "index";
  name = codes "by_code";
  table_name = codes "courses";
  root_page = 3;
  sql = codes "CREATE INDEX by_code ON courses (code)";
  key = 2;
}

-- A parser that knows the one column.
abbrev parsed : List ℕ → Option (List ℕ)
parsed sql = some (codes "code")

found_table : find_table (by_code ∷ courses ∷ []) (codes "Courses") ≡ some courses
unfolding find_table str_eq str_case_eq to_lower
found_table = refl

find-FindsFirst_example :
    FindsFirst
      (IsTableNamed (codes "Courses"))
      (courses ∷ by_code ∷ [])
      (find_table (courses ∷ by_code ∷ []) (codes "Courses"))
    × FindsFirst
        (IsIndexOn parsed (codes "Courses") (codes "code"))
        (courses ∷ by_code ∷ [])
        (find_index_on parsed (courses ∷ by_code ∷ []) (codes "Courses") (codes "code"))
find-FindsFirst_example =
    find-FindsFirst parsed (courses ∷ by_code ∷ []) (codes "Courses") (codes "code")

next_key-All_example :
    All (λ item. item.key < next_key (courses ∷ by_code ∷ [])) (courses ∷ by_code ∷ [])
next_key-All_example = next_key-All (courses ∷ by_code ∷ []) (omega arith, (omega arith, tt))
