-- ===== src/Batch.antt =====
-- pkg/db/postgresql/batch: base_batch_builder.go and managed_clusters_batch_builder.go. A statement
-- is kept by its parts: the text that the code prints is their concatenation. `A` is the type of
-- the arguments, an empty interface in the code.
pub mod Placeholders
pub mod Gathered
pub mod Chunks
pub mod Inserted
pub mod ManagedClusters
pub mod Policies
use hub_of_hubs_status_trans.Base.{
  ℕ, zero, suc, ◌+◌, ◌-◌, ◌*◌, ◌/◌, String, List, [], ◌∷◌, ◌++◌, Option, none, some, length, ltb,
  if◌then◌else◌,
}

abbrev pub max_args_in_statement : ℕ
max_args_in_statement = 50000

abbrev pub delete_starting_index : ℕ
delete_starting_index = 2

-- A piece of a statement's text: `$i`, or `$i::t` for a column of a special type, or other text.
pub data Piece : Type 0 where
  placeholder : ℕ → Option String → Piece
  text : String → Piece

-- The special columns: a map from column numbers, from 1, to types.
abbrev pub SpecialColumns : Type 0
SpecialColumns = ℕ → Option String

abbrev pub comma : ℕ → ℕ → List Piece
comma i count = if ltb i (count - 1) then text ", " ∷ [] else []

-- The loop of `generateArgsList` from `i` on, with `k` rounds to go.
unfoldable pub args_from : ℕ → ℕ → SpecialColumns → ℕ → ℕ → List Piece
args_from args_count starting_index special i zero = []
args_from args_count starting_index special i (suc k) =
    placeholder (i + starting_index) (special (i + 1)) ∷ comma i args_count
    ++ args_from args_count starting_index special (suc i) k

unfoldable pub generate_args_list : ℕ → ℕ → SpecialColumns → List Piece
generate_args_list args_count starting_index special =
    args_from args_count starting_index special 0 args_count

-- The loop of `generateInsertOrUpdateArgs` from `i` on, with `k` rounds to go.
unfoldable pub rows_from : ℕ → ℕ → SpecialColumns → ℕ → ℕ → List Piece
rows_from rows_count columns_count special i zero = []
rows_from rows_count columns_count special i (suc k) =
    text "("
    ∷ (generate_args_list columns_count (i * columns_count + 1) special
        ++ (text ")"
            ∷ (comma i rows_count ++ rows_from rows_count columns_count special (suc i) k)))

unfoldable pub generate_insert_or_update_args : ℕ → ℕ → SpecialColumns → List Piece
generate_insert_or_update_args rows_count columns_count special =
    rows_from rows_count columns_count special 0 rows_count

-- A statement of a batch, with its arguments.
pub record Statement (A : Type 0) : Type 0 where
  pub sql : List Piece
  pub args : List A

-- `batch` has the statements in the order in which they are queued.
pub record BaseBatchBuilder (A : Type 0) : Type 0 where
  pub batch : List (Statement A)
  pub schema : String
  pub table_name : String
  pub table_special_columns : SpecialColumns
  pub leaf_hub_name : A
  pub insert_args : List A
  pub insert_rows_count : ℕ
  pub update_args : List A
  pub update_rows_count : ℕ
  pub delete_args : List A
  pub delete_rows_count : ℕ
  pub delete_row_key : String

module _ {A : Type 0} where
  unfoldable pub new_base_batch_builder :
      String → String → SpecialColumns → A → String → BaseBatchBuilder A
  new_base_batch_builder schema table_name special leaf_hub_name delete_row_key = record {
    batch = [];
    schema = schema;
    table_name = table_name;
    table_special_columns = special;
    leaf_hub_name = leaf_hub_name;
    insert_args = [];
    insert_rows_count = 0;
    update_args = [];
    update_rows_count = 0;
    delete_args = leaf_hub_name ∷ [];
    delete_rows_count = 0;
    delete_row_key = delete_row_key;
  }

  table_of : BaseBatchBuilder A → List Piece
  table_of b = text b.schema ∷ text "." ∷ text b.table_name ∷ []

  -- The number of columns is the number of arguments divided by that of rows.
  unfoldable pub generate_insert_statement : BaseBatchBuilder A → List Piece
  unfolding table_of
  generate_insert_statement b =
      (text "INSERT into " ∷ table_of b)
      ++ (text " values "
          ∷ generate_insert_or_update_args b.insert_rows_count
              (length b.insert_args / b.insert_rows_count) b.table_special_columns)

  unfoldable pub generate_delete_statement : BaseBatchBuilder A → List Piece
  unfolding table_of
  generate_delete_statement b =
      (text "DELETE from " ∷ table_of b)
      ++ (text " WHERE leaf_hub_name="
          ∷ placeholder 1 none
          ∷ text " AND "
          ∷ text b.delete_row_key
          ∷ text " IN ("
          ∷ (generate_args_list b.delete_rows_count delete_starting_index (λ i. none)
              ++ (text ")" ∷ [])))

  abbrev pub queue : List Piece → List A → BaseBatchBuilder A → BaseBatchBuilder A
  queue sql args b = record b { batch = b.batch ++ (record { sql = sql; args = args } ∷ []) }

  unfoldable pub insert : List A → BaseBatchBuilder A → BaseBatchBuilder A
  insert insert_args b =
      let b1 : BaseBatchBuilder A = record b {
        insert_args = b.insert_args ++ insert_args;
        insert_rows_count = b.insert_rows_count + 1;
      } in
      if ltb max_args_in_statement (length b1.insert_args)
      then record (queue (generate_insert_statement b1) b1.insert_args b1) {
        insert_args = [];
        insert_rows_count = 0;
      }
      else b1

  -- `generate` is the builder's `generateUpdateStatement`.
  unfoldable pub update :
      (BaseBatchBuilder A → List Piece) → List A → BaseBatchBuilder A → BaseBatchBuilder A
  update generate update_args b =
      let b1 : BaseBatchBuilder A = record b {
        update_args = b.update_args ++ update_args;
        update_rows_count = b.update_rows_count + 1;
      } in
      if ltb max_args_in_statement (length b1.update_args)
      then record (queue (generate b1) b1.update_args b1) {
        update_args = [];
        update_rows_count = 0;
      }
      else b1

  unfoldable pub delete : List A → BaseBatchBuilder A → BaseBatchBuilder A
  delete delete_args b =
      let b1 : BaseBatchBuilder A = record b {
        delete_args = b.delete_args ++ delete_args;
        delete_rows_count = b.delete_rows_count + 1;
      } in
      if ltb max_args_in_statement (length b1.delete_args)
      then record (queue (generate_delete_statement b1) b1.delete_args b1) {
        delete_args = b1.leaf_hub_name ∷ [];
        delete_rows_count = 0;
      }
      else b1

  abbrev pub queue_rest : ℕ → List Piece → List A → List (Statement A) → List (Statement A)
  queue_rest count sql args batch =
      if ltb 0 count then batch ++ (record { sql = sql; args = args } ∷ []) else batch

  -- What is left is queued: rows to insert, to update and to delete, in this order.
  unfoldable pub build : (BaseBatchBuilder A → List Piece) → BaseBatchBuilder A → List (Statement A)
  build generate b = queue_rest b.delete_rows_count (generate_delete_statement b) b.delete_args (
      queue_rest b.update_rows_count (generate b) b.update_args
        (queue_rest b.insert_rows_count (generate_insert_statement b) b.insert_args b.batch))
