-- ===== src/Conflator/ReadyQueue.antt =====
-- pkg/conflator/ready_queue.go. A unit is named by the leaf hub under which the manager holds it.
-- The lock makes each call one step; a dequeue that has to wait is `none`.
use hub_of_hubs_status_trans.Base.{
  Bool, true, false, String, List, [], ◌∷◌, ◌++◌, Option, none, some,
}

abbrev pub ConflationReadyQueue : Type 0
ConflationReadyQueue = List String

unfoldable pub new_conflation_ready_queue : ConflationReadyQueue
new_conflation_ready_queue = []

unfoldable pub is_empty : ConflationReadyQueue → Bool
is_empty [] = true
is_empty (cu ∷ rest) = false

unfoldable pub enqueue : ConflationReadyQueue → String → ConflationReadyQueue
enqueue rq cu = rq ++ cu ∷ []

unfoldable pub blocking_dequeue : ConflationReadyQueue → Option (String × ConflationReadyQueue)
blocking_dequeue [] = none
blocking_dequeue (cu ∷ rest) = some (cu, rest)
