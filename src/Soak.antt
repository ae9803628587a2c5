-- ===== src/Soak.antt =====
-- `scripts/arena_soak.py`: a soak of the service in segments, with a restart between two of them. The numbers
-- of events, restarts and wall-clock seconds are natural numbers: a negative one does what 0 does, but for the
-- seconds that the report repeats.
pub mod Turns
pub mod Ends
pub mod Report
use counterparty_sharedos.Prelude.Int.{ℤ, pos, negsuc}
use counterparty_sharedos.Prelude.{
  ℕ, zero, suc, ◌+◌, ◌-◌, ◌*◌, ◌/◌, ◌^◌, max, min, ltb, leb, ◌==◌, Bool, true, false, ◌&&◌, Option,
  none, some, List, [], ◌∷◌, ◌++◌, map, all, length, String, if◌then◌else◌,
}

-- the counts of the command line
pub record SoakArgs : Type 0 where
  pub events : ℕ
  pub concurrency : ℤ
  pub virtual_seconds : ℤ
  pub restarts : ℕ
  pub wall_seconds : ℕ

-- What the service and the clock answer: the status of the i-th request and the time it took, whether the
-- audit chain is valid after a segment, and the milliseconds since the start when a turn of the loop
-- begins. The requests of a segment run side by side; their statuses are only counted and tested, and
-- their times are sorted, so that they are kept in the order of the requests.
pub record Service (T : Type 0) : Type 0 where
  pub status : ℕ → ℕ
  pub latency : ℕ → T
  pub verify_audit : ℕ → Bool
  pub elapsed : ℕ → ℕ

-- What a segment gives: the statuses and the times, an exception, or nothing, because it waits forever.
pub data Segment (T : Type 0) : Type 0 where
  worked : List ℕ × List T → Segment T
  failed blocked : Segment T

-- `asyncio.Semaphore(concurrency)` around each of the requests: a negative value is a `ValueError`, and no
-- request ever gets past a semaphore of 0
abbrev pub permits : {T : Type 0} → ℤ → ℕ → Segment T → Segment T
permits (negsuc n) count s = failed
permits (pos zero) zero s = s
permits (pos zero) (suc count) s = blocked
permits (pos (suc n)) count s = s

-- `range(start, start + count)`
unfoldable pub range_from : ℕ → ℕ → List ℕ
range_from start zero = []
range_from start (suc count) = start ∷ range_from (suc start) count

abbrev pub is_200 : ℕ → Bool
is_200 status = status == 200

-- the variables of the loop
pub record Soaking (T : Type 0) : Type 0 where
  pub completed : ℕ
  pub cycle : ℕ
  pub target_segments : ℕ
  pub all_statuses : List ℕ
  pub all_latencies : List T

pub data Soaked (T : Type 0) : Type 0 where
  finished : Soaking T → Soaked T
  -- `RuntimeError`
  raised : Soaked T
  -- the run does not end
  stuck : Soaked T
  out_of_fuel : Soaked T

module _ {T : Type 0} (service : Service T) (args : SoakArgs) where
  unfoldable pub segment : ℕ → ℕ → ℕ → Segment T
  unfolding range_from
  segment cycle start count =
      let statuses = map service.status (range_from start count) in
      permits args.concurrency count (
        if all is_200 statuses && service.verify_audit cycle
        then worked (statuses, map service.latency (range_from start count))
        else failed)

  unfoldable pub target_of : ℕ
  target_of = max 1 (args.restarts + 1)

  unfoldable pub first_turn : Soaking T
  unfolding target_of
  first_turn = record {
    completed = 0;
    cycle = 0;
    target_segments = target_of;
    all_statuses = [];
    all_latencies = [];
  }

  -- the size of the next segment, or `none` for `break`
  unfoldable pub batch_of : Soaking T → Option ℕ
  batch_of s =
      if ltb 0 args.wall_seconds
      then (if leb (args.wall_seconds * 1000) (service.elapsed s.cycle) && ltb 0 s.completed
          then none
          else some (min 250 (max 1 args.events)))
      else if leb args.events s.completed
      then none
      else some (
          min (args.events - s.completed)
            (max 1 ((args.events + s.target_segments - 1) / s.target_segments)))

  unfoldable pub advance : Soaking T → ℕ → List ℕ × List T → Soaking T
  advance s batch (status, lat) =
      let completed = s.completed + batch in
      let cycle = s.cycle + 1 in
      record {
        completed = completed;
        cycle = cycle;
        target_segments =
            (if (args.wall_seconds == 0)
                && (leb s.target_segments cycle && ltb completed args.events)
              then 10 ^ 9
              else s.target_segments);
        all_statuses = s.all_statuses ++ status;
        all_latencies = s.all_latencies ++ lat;
      }

  -- the loop
  unfoldable pub soak_loop : ℕ → Soaking T → Soaked T
  unfolding batch_of segment advance
  soak_loop zero s = out_of_fuel
  soak_loop (suc fuel) s = elim (batch_of s) [
    | none ↦ finished s
    | some batch ↦ elim (segment s.cycle s.completed batch) [
      | failed ↦ raised
      | blocked ↦ stuck
      | worked found ↦ soak_loop fuel (advance s batch found)
    ]
  ]

  -- One turn for each segment and one to end. A wall-clock run makes a turn for each millisecond at most.
  unfoldable pub soak : Soaked T
  unfolding soak_loop first_turn target_of
  soak =
      soak_loop
        (if args.wall_seconds == 0 then suc target_of else suc (args.wall_seconds * 1000 + 1))
        first_turn
