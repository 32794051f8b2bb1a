-- ===== src/Batch/Placeholders.antt =====
-- The numbers of the placeholders in a statement's text.
use mathlib.Core.Path.{ap₂}
use hub_of_hubs_status_trans.Base.{
  ℕ, zero, suc, ◌+◌, ◌*◌, ◌≡◌, refl, ap, sym, ◌∙◌, List, [], ◌∷◌, ◌++◌, arith,
}
use hub_of_hubs_status_trans.Batch.{
  Piece, placeholder, text, SpecialColumns, comma, args_from, generate_args_list, rows_from,
  generate_insert_or_update_args,
}

abbrev pub placeholders : List Piece → List ℕ
placeholders [] = []
placeholders (placeholder i t ∷ pieces) = i ∷ placeholders pieces
placeholders (text s ∷ pieces) = placeholders pieces

-- `n` numbers from `start` on.
abbrev pub numbers : ℕ → ℕ → List ℕ
numbers start zero = []
numbers start (suc n) = start ∷ numbers (suc start) n

numbers_eq : {s s' n n' : ℕ} → s ≡ s' → n ≡ n' → numbers s n ≡ numbers s' n'
numbers_eq p q = ap₂ numbers p q

pub placeholders-append :
    (xs ys : List Piece) → placeholders (xs ++ ys) ≡ placeholders xs ++ placeholders ys
placeholders-append [] ys = refl
placeholders-append (placeholder i t ∷ xs) ys = ap (λ r. i ∷ r) (placeholders-append xs ys)
placeholders-append (text s ∷ xs) ys = placeholders-append xs ys

pub numbers-add : (start m n : ℕ) → numbers start (m + n) ≡ numbers start m ++ numbers (start + m) n
numbers-add start zero n = numbers_eq (omega arith) (omega arith)
numbers-add start (suc m) n =
    numbers_eq {s = start} {s' = start} {n = suc m + n} {n' = suc (m + n)} refl (omega arith)
    ∙ ap (λ r. start ∷ r)
        (numbers-add (suc start) m n
          ∙ ap (λ r. numbers (suc start) m ++ r) (numbers_eq (omega arith) refl))

comma_lem :
    (i count : ℕ) (pieces : List Piece)
    → placeholders (comma i count ++ pieces) ≡ placeholders pieces
comma_lem i count pieces = ground arith

args_from-numbers :
    (args_count start : ℕ) (special : SpecialColumns) (i k : ℕ)
    → placeholders (args_from args_count start special i k) ≡ numbers (i + start) k
unfolding args_from
args_from-numbers args_count start special i zero = refl
args_from-numbers args_count start special i (suc k) =
    ap (λ r. (i + start) ∷ r)
      (comma_lem i args_count (args_from args_count start special (suc i) k)
        ∙ args_from-numbers args_count start special (suc i) k
        ∙ numbers_eq {s = suc i + start} {s' = suc (i + start)} (omega arith) refl)

pub generate_args_list-numbers :
    (count start : ℕ) (special : SpecialColumns)
    → placeholders (generate_args_list count start special) ≡ numbers start count
unfolding generate_args_list
generate_args_list-numbers count start special =
    args_from-numbers count start special 0 count ∙ numbers_eq (omega arith) refl

rows_from-numbers :
    (rows_count columns : ℕ) (special : SpecialColumns) (i k : ℕ)
    → placeholders (rows_from rows_count columns special i k)
      ≡ numbers (i * columns + 1) (k * columns)
unfolding rows_from
rows_from-numbers rows_count columns special i zero =
    numbers_eq {s = i * columns + 1} {n = 0} {n' = 0 * columns} refl (omega arith)
rows_from-numbers rows_count columns special i (suc k) =
    let row = generate_args_list columns (i * columns + 1) special in
    let rest = rows_from rows_count columns special (suc i) k in
    placeholders-append row (text ")" ∷ (comma i rows_count ++ rest))
    ∙ ap₂ (λ a b. a ++ b) (generate_args_list-numbers columns (i * columns + 1) special)
        (comma_lem i rows_count rest
          ∙ rows_from-numbers rows_count columns special (suc i) k
          ∙ numbers_eq {s = suc i * columns + 1} {s' = (i * columns + 1) + columns} (omega arith)
              refl)
    ∙ sym (numbers-add (i * columns + 1) columns (k * columns))
    ∙ numbers_eq {s = i * columns + 1} refl (omega arith)

-- The rows of a statement have the placeholders 1, 2 and so on, one for each argument.
pub generate_insert_or_update_args-numbers :
    (rows columns : ℕ) (special : SpecialColumns)
    → placeholders (generate_insert_or_update_args rows columns special)
      ≡ numbers 1 (rows * columns)
unfolding generate_insert_or_update_args
generate_insert_or_update_args-numbers rows columns special =
    rows_from-numbers rows columns special 0 rows ∙ numbers_eq (omega arith) refl
