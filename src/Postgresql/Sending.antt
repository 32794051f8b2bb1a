-- ===== src/Postgresql/Sending.antt =====
-- `SendBatch` of postgresql.go: when it reports an error.
use hub_of_hubs_status_trans.Base.{
  ◌≡◌, refl, ◌↔◌, String, Bool, true, false, List, [], ◌∷◌, Option, none, some, str_eq, arith,
  length, ◌==◌, str_append-nonempty,
}
use hub_of_hubs_status_trans.Batch.{Statement}
use hub_of_hubs_status_trans.Postgresql.{
  Driver, pgx_batch, batch_errors, errors_message, send_batch,
}

-- Every statement was executed without an error.
abbrev pub all_executed : List (Option String) → Bool
all_executed [] = true
all_executed (none ∷ results) = all_executed results
all_executed (some message ∷ results) = false

batch_errors-empty :
    (results : List (Option String)) → str_eq (batch_errors results) "" ≡ all_executed results
unfolding batch_errors
batch_errors-empty [] = refl
batch_errors-empty (none ∷ results) = batch_errors-empty results
batch_errors-empty (some message ∷ results) = str_append-nonempty _ _ _

errors_message-none :
    (results : List (Option String))
    → (errors_message (batch_errors results) ≡ none) ↔ (all_executed results ≡ true)
unfolding errors_message
errors_message-none results = ground (arith, batch_errors-empty results)

-- A batch with statements leaves the database as the driver does, and is reported without an error
-- exactly if the driver executed every statement without one.
pub send_batch-none :
    {D A : Type 0} (driver : Driver D A) (b : Statement A) (batch : List (Statement A)) (d : D)
    → let sent = driver.send (b ∷ batch) d in
      let reported = send_batch driver (pgx_batch (b ∷ batch)) d in
      (reported.0 ≡ sent.0) × ((reported.1 ≡ none) ↔ (all_executed sent.1 ≡ true))
unfolding send_batch
send_batch-none driver b batch d =
    let some_length : (length (b ∷ batch) == 0) ≡ false = ground arith in
    rw some_length (refl, errors_message-none (driver.send (b ∷ batch) d).1)
