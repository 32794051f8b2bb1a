-- ===== src/Batch/Inserted.antt =====
-- The arguments of the statements of one kind, which is told by the first piece of their text.
use mathlib.Core.List.{append-nil, append_assoc}
use hub_of_hubs_status_trans.Base.{
  ℕ, zero, suc, ◌*◌, ◌≡◌, refl, ap, sym, ◌∙◌, Bool, true, false, String, List, [], ◌∷◌, ◌++◌, arith,
  length, Bool-cases, ltb, inl, inr, if◌then◌else◌, str_eq,
}
use hub_of_hubs_status_trans.Batch.{
  Piece, text, placeholder, max_args_in_statement, Statement, BaseBatchBuilder, insert, update,
  delete, build, generate_insert_statement, generate_delete_statement, queue_rest,
}

abbrev pub begins : String → List Piece → Bool
begins w [] = false
begins w (placeholder i t ∷ pieces) = false
begins w (text s ∷ pieces) = str_eq s w

module _ {A : Type 0} where
  -- The arguments of the statements whose text begins so, in the order of the batch.
  abbrev pub args_of : String → List (Statement A) → List A
  args_of w [] = []
  args_of w (s ∷ ss) = (if begins w s.sql then s.args else []) ++ args_of w ss

  args_of-queue :
      (w : String) (ss : List (Statement A)) (s : Statement A)
      → args_of w (ss ++ (s ∷ [])) ≡ args_of w ss ++ (if begins w s.sql then s.args else [])
  args_of-queue w [] s = append-nil (if begins w s.sql then s.args else [])
  args_of-queue w (x ∷ ss) s =
      ap (λ r. (if begins w x.sql then x.args else []) ++ r) (args_of-queue w ss s)
      ∙ sym (append_assoc (if begins w x.sql then x.args else []) (args_of w ss) _)

  args_of-other :
      (w : String) (ss : List (Statement A)) (s : Statement A)
      → begins w s.sql ≡ false
      → args_of w (ss ++ (s ∷ [])) ≡ args_of w ss
  args_of-other w ss s other = args_of-queue w ss s ∙ rw other (append-nil (args_of w ss))

  -- The arguments inserted so far: those of the statements, and those gathered.
  abbrev pub inserted : BaseBatchBuilder A → List A
  inserted b = args_of "INSERT into " b.batch ++ b.insert_args

  pub insert-inserted :
      (args : List A) (b : BaseBatchBuilder A) → inserted (insert args b) ≡ inserted b ++ args
  unfolding insert generate_insert_statement
  insert-inserted args b =
      elim (Bool-cases (ltb max_args_in_statement (length (b.insert_args ++ args)))) [
        | inl over ↦ rw over (
            append-nil (args_of "INSERT into " (b.batch ++ (_ ∷ [])))
            ∙ args_of-queue "INSERT into " b.batch _
            ∙ sym (append_assoc (args_of "INSERT into " b.batch) b.insert_args args))
        | inr under ↦
            rw under (sym (append_assoc (args_of "INSERT into " b.batch) b.insert_args args))
      ]

  pub update-inserted :
      (generate : BaseBatchBuilder A → List Piece) (args : List A) (b : BaseBatchBuilder A)
      → ((c : BaseBatchBuilder A) → begins "INSERT into " (generate c) ≡ false)
      → inserted (update generate args b) ≡ inserted b
  unfolding update
  update-inserted generate args b other =
      elim (Bool-cases (ltb max_args_in_statement (length (b.update_args ++ args)))) [
        | inl over ↦
            rw over
              (ap (λ r. r ++ b.insert_args) (args_of-other "INSERT into " b.batch _ (other _)))
        | inr under ↦ rw under refl
      ]

  pub delete-inserted :
      (args : List A) (b : BaseBatchBuilder A) → inserted (delete args b) ≡ inserted b
  unfolding delete generate_delete_statement
  delete-inserted args b =
      elim (Bool-cases (ltb max_args_in_statement (length (b.delete_args ++ args)))) [
        | inl over ↦
            rw over (ap (λ r. r ++ b.insert_args) (args_of-other "INSERT into " b.batch _ refl))
        | inr under ↦ rw under refl
      ]

  queue_rest-other :
      (w : String) (count : ℕ) (sql : List Piece) (args : List A) (batch : List (Statement A))
      → begins w sql ≡ false
      → args_of w (queue_rest count sql args batch) ≡ args_of w batch
  queue_rest-other w count sql args batch other = elim (Bool-cases (ltb 0 count)) [
    | inl some_rows ↦ rw some_rows (args_of-other w batch _ other)
    | inr no_rows ↦ rw no_rows refl
  ]

  length-zero : (xs : List A) → length xs ≡ 0 → xs ≡ []
  length-zero [] h = refl
  length-zero (x ∷ xs) h = absurd (omega (arith, h))

  queue_rest-own :
      (w : String) (count width : ℕ) (sql : List Piece) (args : List A) (batch : List (Statement A))
      → begins w sql ≡ true
      → length args ≡ count * width
      → args_of w (queue_rest count sql args batch) ≡ args_of w batch ++ args
  queue_rest-own w zero width sql args batch own full = sym (
      ap (λ r. args_of w batch ++ r) (length-zero args (omega (arith, full)))
      ∙ append-nil (args_of w batch))
  queue_rest-own w (suc n) width sql args batch own full =
      let over : ltb 0 (suc n) ≡ true = ground arith in
      rw over (args_of-queue w batch _ ∙ rw own refl)

  pub build-inserted :
      (generate : BaseBatchBuilder A → List Piece) (b : BaseBatchBuilder A) (width : ℕ)
      → ((c : BaseBatchBuilder A) → begins "INSERT into " (generate c) ≡ false)
      → length b.insert_args ≡ b.insert_rows_count * width
      → args_of "INSERT into " (build generate b) ≡ inserted b
  unfolding build generate_insert_statement generate_delete_statement
  build-inserted generate b width other full =
      queue_rest-other "INSERT into " b.delete_rows_count _ b.delete_args _ refl
      ∙ queue_rest-other "INSERT into " b.update_rows_count (generate b) b.update_args _ (other b)
      ∙ queue_rest-own "INSERT into " b.insert_rows_count width _ b.insert_args b.batch refl full
