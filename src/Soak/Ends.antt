-- ===== src/Soak/Ends.antt =====
-- The soak ends.
use counterparty_sharedos.Prelude.Int.{pos}
use counterparty_sharedos.Prelude.{
  ℕ, ◌+◌, ◌-◌, ◌*◌, ◌/◌, ◌≤◌, ◌<◌, max, ltb, leb, ◌≡◌, ◌⊎◌, Bool, ◌&&◌,
}
use counterparty_sharedos.Soak.{
  SoakArgs, Service, Soaking, Soaked, finished, raised, stuck, out_of_fuel, failed, segment,
  target_of,
}
use counterparty_sharedos.Soak.Turns.{IsSound}

module _ {T : Type 0} (service : Service T) (args : SoakArgs) where
  -- How a soak ended. It finished with a status 200 and a time for each of the `completed` requests: in
  -- accelerated mode these are all the events, in at most one segment more than there are restarts, and in
  -- wall-clock mode at least one request was made and the time is up. Or it raised, when a segment failed that
  -- had a request to make. Or it does not end: its semaphore is 0, and there was a request to make.
  abbrev pub SoakDone : Soaked T → Type 0
  SoakDone (finished s) =
      IsSound service args s
      × (((args.wall_seconds ≡ 0)
            × (s.completed ≡ args.events)
            × (s.cycle ≤ max 1 (args.restarts + 1)))
          ⊎ ((0 < args.wall_seconds)
              × (0 < s.completed)
              × (args.wall_seconds * 1000 ≤ service.elapsed s.cycle)))
  SoakDone raised =
      (cycle : ℕ) × (start : ℕ) × (count : ℕ) × (0 < count)
      × (segment service args cycle start count ≡ failed)
  SoakDone stuck = (args.concurrency ≡ pos 0) × ((0 < args.events) ⊎ (0 < args.wall_seconds))
  SoakDone out_of_fuel = ⊥

  module _ (accelerated : args.wall_seconds ≡ 0) where
    -- the size of a full segment
    abbrev share : ℕ
    share = max 1 ((args.events + target_of service args - 1) / target_of service args)

  module _ (wall : 0 < args.wall_seconds) (ticks : (k : ℕ) → k ≤ service.elapsed k) where
    -- the time is up, and something was asked
    abbrev is_over : Soaking T → Bool
    is_over s = leb (args.wall_seconds * 1000) (service.elapsed s.cycle) && ltb 0 s.completed
