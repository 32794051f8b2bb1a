-- ===== src/Bridge/Occurrences.antt =====
-- How often a unit stands in the ready queue, and its flag as a number.
use hub_of_hubs_status_trans.Base.{
  ℕ, suc, ◌+◌, ◌≡◌, refl, Bool, true, false, String, List, [], ◌∷◌, ◌++◌, arith, if◌then◌else◌,
  str_eq, eq_iff,
}
use hub_of_hubs_status_trans.Conflator.ReadyQueue.{enqueue}
use hub_of_hubs_status_trans.Conflator.Unit.Invariant.{QueueStep, stays, joins}

unfoldable pub count : String → List String → ℕ
count hub [] = 0
count hub (x ∷ rest) = if str_eq x hub then suc (count hub rest) else count hub rest

abbrev pub to_nat : Bool → ℕ
to_nat true = 1
to_nat false = 0

count-append_one :
    (hub x : String) (rq : List String)
    → count hub (rq ++ x ∷ []) ≡ count hub rq + to_nat (str_eq x hub)
unfolding count
count-append_one hub x [] = ground arith
count-append_one hub x (y ∷ rq) = ground (arith, count-append_one hub x rq)

-- A call keeps the balance between the flag of its unit and the ready queue.
pub QueueStep-balance :
    (self : String) (was : Bool) (rq : List String) {now : Bool} {rq' : List String}
    → QueueStep self was rq now rq'
    → count self rq' + to_nat was ≡ count self rq + to_nat now
unfolding enqueue
QueueStep-balance self was rq stays = refl
QueueStep-balance self was rq (joins f) =
    ground (arith, count-append_one self self rq, eq_iff self self)

pub QueueStep-other :
    (self other : String) (was : Bool) (rq : List String) {now : Bool} {rq' : List String}
    → str_eq self other ≡ false
    → QueueStep self was rq now rq'
    → count other rq' ≡ count other rq
unfolding enqueue
QueueStep-other self other was rq ne stays = refl
QueueStep-other self other was rq ne (joins f) = ground (arith, count-append_one other self rq)
