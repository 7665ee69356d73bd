-- ===== src/Sandbox/Pool.antt =====
-- internal/sandbox/pool.go: how many requests run at once. A request waits until there is a slot, or
-- its context is done; the slot is given back whichever way the request ends.
use Prim.Native.Nat.{zero, suc}
use agent_exec_engine.Prelude.{ℕ, ◌≤◌, ◌≡◌, refl, Option, none, some, if◌then◌else◌, ltb, arith}
use agent_exec_engine.Prelude.Int.{ℤ, pos, ltb_ℤ, pos_part}

-- The slots, and how many are taken.
pub record Pool : Type 0 where
  pub slots : ℕ
  pub taken : ℕ

unfoldable pub new_pool : ℤ → Pool
new_pool max_concurrent =
    if ltb_ℤ max_concurrent (pos 1)
    then record { slots = 1; taken = 0 }
    else record { slots = pos_part max_concurrent; taken = 0 }

-- `p.sem <- struct{}{}`: `none` while it waits.
unfoldable pub acquire : Pool → Option Pool
acquire p = if ltb p.taken p.slots then some (record p { taken = suc p.taken }) else none

-- `<-p.sem`: `none` where there is nothing to take back.
unfoldable pub release_slot : Pool → Option Pool
release_slot p = elim (p.taken) [ zero ↦ none | suc n ↦ some (record p { taken = n }) ]

-- What requests do with the pool, one after another; one that gives up waiting changes nothing.
pub data Reached (p : Pool) : Pool → Type 0 where
  start : Reached p p
  enter : {q r : Pool} → Reached p q → acquire q ≡ some r → Reached p r
  leave : {q r : Pool} → Reached p q → release_slot q ≡ some r → Reached p r

-- Where the slots are not all taken at first, no more than the slots are ever taken.
pub Reached-taken-le :
    (p : Pool)
    → p.taken ≤ p.slots
    → {q : Pool} → Reached p q
    → (q.slots ≡ p.slots) × (q.taken ≤ p.slots)
unfolding acquire release_slot
Reached-taken-le p room start = (refl, room)
Reached-taken-le p room (enter before step) = (
  ground (arith, Reached-taken-le p room before, step),
  ground (arith, Reached-taken-le p room before, step),
)
Reached-taken-le p room (leave before step) = (
  ground (arith, Reached-taken-le p room before, step),
  ground (arith, Reached-taken-le p room before, step),
)
