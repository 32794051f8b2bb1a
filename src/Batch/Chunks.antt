-- ===== src/Batch/Chunks.antt =====
-- The statements that base_batch_builder.go makes: their placeholders and their arguments.
use hub_of_hubs_status_trans.Base.{
  ℕ, zero, suc, ◌+◌, ◌*◌, ◌≤◌, ◌<◌, ◌≡◌, refl, ap, ◌∙◌, List, [], ◌∷◌, ◌++◌, arith, length,
  length-append, Bool-cases, ltb, inl, inr, true,
}
use hub_of_hubs_status_trans.Batch.{
  Piece, max_args_in_statement, Statement, BaseBatchBuilder, insert, update, delete, build,
  generate_insert_statement, generate_delete_statement, queue_rest,
}
use hub_of_hubs_status_trans.Batch.Placeholders.{placeholders, numbers}
use hub_of_hubs_status_trans.Batch.Gathered.{
  IsGathered, IsNumbered, insert_statement-numbered, delete_statement-numbered, gathers,
  none_gathered,
}

module _ {A : Type 0} (width : ℕ) where
  -- The placeholders are 1, 2 and so on, one for each argument; there are at most `width` more
  -- arguments than the limit.
  pub record IsFilled (s : Statement A) : Type 0 where
    pub numbered : placeholders s.sql ≡ numbers 1 (length s.args)
    pub bounded : length s.args ≤ max_args_in_statement + width

  abbrev pub AllFilled : List (Statement A) → Type 0
  AllFilled [] = Unit {0}
  AllFilled (s ∷ ss) = IsFilled s × AllFilled ss

  pub AllFilled-append :
      (ss : List (Statement A)) (s : Statement A)
      → AllFilled ss
      → IsFilled s
      → AllFilled (ss ++ (s ∷ []))
  AllFilled-append [] s all one = (one, tt)
  AllFilled-append (x ∷ ss) s (first, all) one = (first, AllFilled-append ss s all one)

  pub queue_rest-AllFilled :
      (count : ℕ) (sql : List Piece) (args : List A) (batch : List (Statement A))
      → AllFilled batch
      → ((rows : ℕ) → count ≡ suc rows → placeholders sql ≡ numbers 1 (length args))
      → length args ≤ max_args_in_statement
      → AllFilled (queue_rest count sql args batch)
  queue_rest-AllFilled zero sql args batch all numbered room = all
  queue_rest-AllFilled (suc n) sql args batch all numbered room =
      let over : ltb 0 (suc n) ≡ true = ground arith in
      rw over (
        AllFilled-append batch (record { sql = sql; args = args }) all
          (record { numbered = numbered n refl; bounded = omega (arith, room) }))

-- The numbers of columns of a builder's rows, and of the widest row: `width`.
pub record Fits (width insert_columns update_columns : ℕ) : Type 0 where
  pub inserts_fit : insert_columns ≤ width
  pub updates_fit : update_columns ≤ width
  pub deletes_fit : 0 < width

module _ {A : Type 0} (width insert_columns update_columns : ℕ) where
  pub record IsSoundBuilder (b : BaseBatchBuilder A) : Type 0 where
    pub inserts : IsGathered insert_columns b.insert_rows_count b.insert_args
    pub updates : IsGathered update_columns b.update_rows_count b.update_args
    pub deletes : length b.delete_args ≡ b.delete_rows_count + 1
    pub deletes_room : length b.delete_args ≤ max_args_in_statement
    pub queued : AllFilled width b.batch

module _ {A : Type 0} {width insert_columns update_columns : ℕ}
    (fits : Fits width insert_columns update_columns) where
  abbrev IsSound : BaseBatchBuilder A → Type 0
  IsSound b = IsSoundBuilder width insert_columns update_columns b

  pub insert-IsSoundBuilder :
      (args : List A) (b : BaseBatchBuilder A)
      → length args ≡ insert_columns
      → IsSound b
      → IsSound (insert args b)
  unfolding insert
  insert-IsSoundBuilder args b row v =
      let (full, bound) =
        gathers insert_columns b.insert_rows_count b.insert_args args v.inserts row in
      let b1 : BaseBatchBuilder A = record b {
        insert_args = b.insert_args ++ args;
        insert_rows_count = b.insert_rows_count + 1;
      } in
      elim (Bool-cases (ltb max_args_in_statement (length (b.insert_args ++ args)))) [
        | inl over ↦ rw over (record {
          inserts = none_gathered insert_columns;
          updates = v.updates;
          deletes = v.deletes;
          deletes_room = v.deletes_room;
          queued = AllFilled-append width b.batch _ v.queued (record {
            numbered =
                insert_statement-numbered insert_columns b1 b.insert_rows_count (omega arith) full;
            bounded = omega (arith, bound, fits.inserts_fit);
          });
        })
        | inr under ↦ rw under (record {
          inserts = record { full = omega (arith, full); room = ground (arith, under) };
          updates = v.updates;
          deletes = v.deletes;
          deletes_room = v.deletes_room;
          queued = v.queued;
        })
      ]

  pub update-IsSoundBuilder :
      (generate : BaseBatchBuilder A → List Piece) (args : List A) (b : BaseBatchBuilder A)
      → IsNumbered update_columns generate
      → length args ≡ update_columns
      → IsSound b
      → IsSound (update generate args b)
  unfolding update
  update-IsSoundBuilder generate args b numbered row v =
      let (full, bound) =
        gathers update_columns b.update_rows_count b.update_args args v.updates row in
      let b1 : BaseBatchBuilder A = record b {
        update_args = b.update_args ++ args;
        update_rows_count = b.update_rows_count + 1;
      } in
      elim (Bool-cases (ltb max_args_in_statement (length (b.update_args ++ args)))) [
        | inl over ↦ rw over (record {
          inserts = v.inserts;
          updates = none_gathered update_columns;
          deletes = v.deletes;
          deletes_room = v.deletes_room;
          queued = AllFilled-append width b.batch _ v.queued (record {
            numbered = numbered b1 b.update_rows_count (omega arith) full;
            bounded = omega (arith, bound, fits.updates_fit);
          });
        })
        | inr under ↦ rw under (record {
          inserts = v.inserts;
          updates = record { full = omega (arith, full); room = ground (arith, under) };
          deletes = v.deletes;
          deletes_room = v.deletes_room;
          queued = v.queued;
        })
      ]

  pub delete-IsSoundBuilder :
      (arg : A) (b : BaseBatchBuilder A) → IsSound b → IsSound (delete (arg ∷ []) b)
  unfolding delete
  delete-IsSoundBuilder arg b v =
      let b1 : BaseBatchBuilder A = record b {
        delete_args = b.delete_args ++ (arg ∷ []);
        delete_rows_count = b.delete_rows_count + 1;
      } in
      let deletes = v.deletes in
      let room = v.deletes_room in
      let longer : length (b.delete_args ++ (arg ∷ [])) ≡ length b.delete_args + 1 =
        length-append b.delete_args (arg ∷ []) in
      elim (Bool-cases (ltb max_args_in_statement (length (b.delete_args ++ (arg ∷ []))))) [
        | inl over ↦ rw over (record {
          inserts = v.inserts;
          updates = v.updates;
          deletes = omega arith;
          deletes_room = omega arith;
          queued = AllFilled-append width b.batch _ v.queued (record {
            numbered = delete_statement-numbered b1 (omega (arith, longer, deletes));
            bounded = omega (arith, longer, room, fits.deletes_fit);
          });
        })
        | inr under ↦ rw under (record {
          inserts = v.inserts;
          updates = v.updates;
          deletes = omega (arith, longer, deletes);
          deletes_room = ground (arith, under);
          queued = v.queued;
        })
      ]

  pub build-AllFilled :
      (generate : BaseBatchBuilder A → List Piece) (b : BaseBatchBuilder A)
      → IsNumbered update_columns generate
      → IsSound b
      → AllFilled width (build generate b)
  unfolding build
  build-AllFilled generate b numbered v =
      queue_rest-AllFilled width b.delete_rows_count (generate_delete_statement b) b.delete_args _
        (queue_rest-AllFilled width b.update_rows_count (generate b) b.update_args _
          (queue_rest-AllFilled width b.insert_rows_count (generate_insert_statement b)
            b.insert_args b.batch v.queued
            (λ rows e.
              insert_statement-numbered insert_columns b rows e
                (v.inserts.full ∙ ap (λ n. n * insert_columns) e))
            v.inserts.room)
          (λ rows e. numbered b rows e (v.updates.full ∙ ap (λ n. n * update_columns) e))
          v.updates.room)
        (λ rows e. delete_statement-numbered b v.deletes) v.deletes_room
