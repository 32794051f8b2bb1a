-- ===== src/Postgresql/Columns.antt =====
-- The names in an SQL text, and a database that lacks a column.
use Prim.Native.Char.{Char, code}
use hub_of_hubs_status_trans.Base.{
  ◌≡◌, String, Bool, true, ◌&&◌, ◌||◌, List, [], ◌∷◌, some, if◌then◌else◌, elem, leb, ◌==◌,
}
use hub_of_hubs_status_trans.Postgresql.{Driver, Argument, query_failed, unreadable}

-- A letter, a digit or an underscore.
abbrev is_name_char : Char → Bool
is_name_char c =
    let n = code c in
    (leb b'a' n && leb n b'z')
    || ((leb b'A' n && leb n b'Z') || ((leb b'0' n && leb n b'9') || (n == b'_')))

-- The words of a text, cut at every other character: the first and the others.
unfoldable pub words : String → String × List String
words String.[] = ("", [])
words (String.◌∷◌ c s) =
    let (w, ws) = words s in if is_name_char c then (String.◌∷◌ c w, ws) else ("", w ∷ ws)

unfoldable pub names : String → String → Bool
unfolding words
names column sql = let (w, ws) = words sql in elem column (w ∷ ws)

-- What PostgreSQL is documented to do where no table has the column: a statement that names it fails,
-- and changes nothing.
pub record IsWithout {D A : Type 0} (column : String) (driver : Driver D A) : Type 0 where
  pub queries :
      (sql : String) (args : List Argument) (d : D)
      → names column sql ≡ true
      → (m : String) × (driver.query_one sql args d ≡ query_failed m)
  pub row_queries :
      (sql : String) (args : List Argument) (d : D)
      → names column sql ≡ true
      → (m : String) × (driver.query_row sql args d ≡ unreadable m)
  pub executions :
      (sql : String) (args : List Argument) (d : D)
      → names column sql ≡ true
      → (m : String) × (driver.exec sql args d ≡ (d, some m))
