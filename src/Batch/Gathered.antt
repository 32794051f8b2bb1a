-- ===== src/Batch/Gathered.antt =====
-- The rows that base_batch_builder.go gathers for a statement, and the placeholders of the statement.
use mathlib.Core.List.{append-nil}
use hub_of_hubs_status_trans.Base.{
  ℕ, suc, ◌+◌, ◌*◌, ◌/◌, ◌≤◌, ◌≡◌, ap, sym, ◌∙◌, List, [], ◌∷◌, ◌++◌, none, arith, length,
  length-append,
}
use hub_of_hubs_status_trans.Batch.{
  Piece, text, max_args_in_statement, BaseBatchBuilder, generate_insert_statement,
  generate_delete_statement, generate_args_list,
}
use hub_of_hubs_status_trans.Batch.Placeholders.{
  placeholders, numbers, placeholders-append, generate_args_list-numbers,
  generate_insert_or_update_args-numbers,
}

-- What follows a list of placeholders up to the end of a statement.
pub ids-numbered :
    (count start : ℕ)
    → placeholders (generate_args_list count start (λ i. none) ++ (text ")" ∷ []))
      ≡ numbers start count
ids-numbered count start =
    placeholders-append (generate_args_list count start (λ i. none)) (text ")" ∷ [])
    ∙ append-nil (placeholders (generate_args_list count start (λ i. none)))
    ∙ generate_args_list-numbers count start (λ i. none)

module _ {A : Type 0} where
  pub delete_statement-numbered :
      (b : BaseBatchBuilder A)
      → length b.delete_args ≡ b.delete_rows_count + 1
      → placeholders (generate_delete_statement b) ≡ numbers 1 (length b.delete_args)
  unfolding generate_delete_statement
  delete_statement-numbered b full =
      ap (λ r. 1 ∷ r) (ids-numbered b.delete_rows_count 2)
      ∙ ap (numbers 1) {x = suc b.delete_rows_count} {y = length b.delete_args}
          (omega (arith, full))

module _ {A : Type 0} (columns : ℕ) where
  -- `rows` rows of `columns` arguments each are gathered, no more than the limit.
  pub record IsGathered (rows : ℕ) (args : List A) : Type 0 where
    pub full : length args ≡ rows * columns
    pub room : length args ≤ max_args_in_statement

  -- What a builder's own update statement has to satisfy.
  abbrev pub IsNumbered : (BaseBatchBuilder A → List Piece) → Type 0
  IsNumbered generate =
      (b : BaseBatchBuilder A) (rows : ℕ)
      → b.update_rows_count ≡ suc rows
      → length b.update_args ≡ suc rows * columns
      → placeholders (generate b) ≡ numbers 1 (length b.update_args)

  columns_lem :
      (rows : ℕ) (args : List A)
      → length args ≡ suc rows * columns
      → length args / suc rows ≡ columns
  columns_lem rows args full = rw full (grind arith)

  pub rows_numbered :
      (n rows : ℕ) (args : List A)
      → n ≡ suc rows
      → length args ≡ suc rows * columns
      → numbers 1 (n * (length args / n)) ≡ numbers 1 (length args)
  rows_numbered n rows args count full =
      ap (numbers 1) (rw count (ap (λ c. suc rows * c) (columns_lem rows args full) ∙ sym full))

  pub insert_statement-numbered :
      (b : BaseBatchBuilder A) (rows : ℕ)
      → b.insert_rows_count ≡ suc rows
      → length b.insert_args ≡ suc rows * columns
      → placeholders (generate_insert_statement b) ≡ numbers 1 (length b.insert_args)
  unfolding generate_insert_statement
  insert_statement-numbered b rows count full =
      generate_insert_or_update_args-numbers b.insert_rows_count
        (length b.insert_args / b.insert_rows_count) b.table_special_columns
      ∙ rows_numbered b.insert_rows_count rows b.insert_args count full

  -- One row more is gathered, or a statement is made of all.
  pub gathers :
      (rows : ℕ) (args new : List A)
      → IsGathered rows args
      → length new ≡ columns
      → (length (args ++ new) ≡ suc rows * columns)
        × (length (args ++ new) ≤ max_args_in_statement + columns)
  gathers rows args new g row =
      let full = g.full in
      let room = g.room in
      (
        omega (arith, length-append args new, full, row),
        omega (arith, length-append args new, room, row),
      )

  pub none_gathered : IsGathered 0 []
  none_gathered = record { full = omega arith; room = omega arith }
