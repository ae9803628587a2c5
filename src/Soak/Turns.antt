-- ===== src/Soak/Turns.antt =====
-- The turns of the soak's loop, and what each keeps.
use mathlib.Core.Path.{subst}
use native.Mathlib.Nat.{max-eq_right, zero-mul, mul-suc}
use counterparty_sharedos.Prelude.Int.{ℤ, pos, negsuc}
use counterparty_sharedos.Prelude.{
  ℕ, zero, suc, ◌+◌, ◌-◌, ◌*◌, ◌≤◌, ◌<◌, max, min, ltb, leb, ◌≡◌, ◌⊎◌, inl, inr, refl, Bool, true,
  false, ◌&&◌, none, some, List, [], ◌∷◌, ◌++◌, map, all, length, length-append, if◌then◌else◌,
  arith, and_true,
}
use counterparty_sharedos.Soak.{
  SoakArgs, Service, range_from, is_200, Soaking, Soaked, finished, raised, stuck, Segment, worked,
  failed, blocked, permits, segment, first_turn, batch_of, advance, soak_loop,
}

all-append : (p : ℕ → Bool) (xs ys : List ℕ) → all p (xs ++ ys) ≡ (all p xs && all p ys)
all-append p [] ys = refl
all-append p (x ∷ xs) ys = ground (arith, all-append p xs ys)

map-range_from-length :
    {B : Type 0} (f : ℕ → B) (start count : ℕ) → length (map f (range_from start count)) ≡ count
unfolding range_from
map-range_from-length f start zero = refl
map-range_from-length f start (suc count) = omega (arith, map-range_from-length f (suc start) count)

if-worked :
    {T : Type 0} (b : Bool) (a : List ℕ × List T) {found : List ℕ × List T}
    → ◌≡◌ {A = Segment T} (if b then worked a else failed) (worked found)
    → (b ≡ true) × (a ≡ found)
if-worked true a h = (refl, cc h)
if-worked false a h = absurd (cc h)

not-blocked :
    {T : Type 0} (b : Bool) (a : List ℕ × List T)
    → ¬ ◌≡◌ {A = Segment T} (if b then worked a else failed) blocked
not-blocked true a h = absurd (cc h)
not-blocked false a h = absurd (cc h)

-- some request gets past the semaphore
abbrev pub has_permit : ℤ → Bool
has_permit (pos (suc n)) = true
has_permit _ = false

permits-worked :
    {T : Type 0} (concurrency : ℤ) (count : ℕ) (s : Segment T) {found : List ℕ × List T}
    → permits concurrency count s ≡ worked found
    → (s ≡ worked found) × ((count ≡ 0) ⊎ (has_permit concurrency ≡ true))
permits-worked (negsuc n) count s h = absurd (cc h)
permits-worked (pos zero) zero s h = (h, inl refl)
permits-worked (pos zero) (suc count) s h = absurd (cc h)
permits-worked (pos (suc n)) count s h = (h, inr refl)

permits-blocked :
    {T : Type 0} (concurrency : ℤ) (count : ℕ) (s : Segment T)
    → ¬ (s ≡ blocked)
    → permits concurrency count s ≡ blocked
    → concurrency ≡ pos 0
permits-blocked (negsuc n) count s k h = absurd (cc h)
permits-blocked (pos zero) count s k h = refl
permits-blocked (pos (suc n)) count s k h = absurd (k h)

Segment-cases :
    {T : Type 0} (s : Segment T)
    → (s ≡ failed) ⊎ ((s ≡ blocked) ⊎ ((found : List ℕ × List T) × (s ≡ worked found)))
Segment-cases failed = inl refl
Segment-cases blocked = inr (inl refl)
Segment-cases (worked found) = inr (inr (found, refl))

pub cover : (n t q : ℕ) → 1 ≤ t → n + t - 1 < q * t + t → n ≤ max 1 q * t
cover n t zero some_work h = omega (arith, zero-mul t)
cover n t (suc q) some_work h = rw (max-eq_right {n = 1} {m = suc q} (omega arith)) (omega arith)

-- one more share, of which the last may be smaller
pub one_share :
    (events completed q r : ℕ)
    → 1 ≤ q
    → completed < events
    → events ≤ completed + q * suc r
    → let batch = min (events - completed) q in
      (completed + batch ≤ events) × (events ≤ completed + batch + q * r) × (1 ≤ batch)
one_share events completed q r some_work few many =
    (omega arith, omega (arith, mul-suc q r), omega arith)

-- when the segments are used up, so are the events
pub used_up :
    (r cycle target completed events q : ℕ)
    → cycle + suc r ≡ target
    → events ≤ completed + q * r
    → (leb target (cycle + 1) && ltb completed events) ≡ false
used_up zero cycle target completed events q turns many = ground arith
used_up (suc r) cycle target completed events q turns many = ground arith

module _ {T : Type 0} (service : Service T) (args : SoakArgs) where
  -- what the loop keeps: a status for each request that was made, each 200, a request for each turn, a time for
  -- each request, and a semaphore that lets requests past, if any was made
  abbrev pub IsSound : Soaking T → Type 0
  IsSound s =
      (length s.all_statuses ≡ s.completed)
      × (all is_200 s.all_statuses ≡ true)
      × (s.cycle ≤ s.completed)
      × (length s.all_latencies ≡ s.completed)
      × ((s.completed ≡ 0) ⊎ (has_permit args.concurrency ≡ true))

  pub segment-worked :
      (cycle start count : ℕ) (found : List ℕ × List T)
      → segment service args cycle start count ≡ worked found
      → (length found.0 ≡ count)
        × (all is_200 found.0 ≡ true)
        × (length found.1 ≡ count)
        × ((count ≡ 0) ⊎ (has_permit args.concurrency ≡ true))
  unfolding segment
  segment-worked cycle start count found h =
      let statuses = map service.status (range_from start count) in
      let times = map service.latency (range_from start count) in
      let (inside, permitted) = permits-worked args.concurrency count _ h in
      let (fine, same) =
        if-worked (all is_200 statuses && service.verify_audit cycle) (statuses, times) inside in
      let (good, chain) = and_true (all is_200 statuses) (service.verify_audit cycle) fine in
      subst
        (λ (f : List ℕ × List T).
          (length f.0 ≡ count)
          × (all is_200 f.0 ≡ true)
          × (length f.1 ≡ count)
          × ((count ≡ 0) ⊎ (has_permit args.concurrency ≡ true)))
        same
        (
          map-range_from-length service.status start count,
          good,
          map-range_from-length service.latency start count,
          permitted,
        )

  pub segment-blocked :
      (cycle start count : ℕ)
      → segment service args cycle start count ≡ blocked
      → args.concurrency ≡ pos 0
  unfolding segment
  segment-blocked cycle start count h =
      let statuses = map service.status (range_from start count) in
      permits-blocked args.concurrency count _
        (not-blocked (all is_200 statuses && service.verify_audit cycle)
          (statuses, map service.latency (range_from start count)))
        h

  pub loop-break :
      (fuel : ℕ) (s : Soaking T)
      → batch_of service args s ≡ none
      → soak_loop service args (suc fuel) s ≡ finished s
  unfolding soak_loop
  loop-break fuel s e = rw (soak_loop, e)

  -- to know how the loop ends from a turn that makes a segment, look at what comes after the segment
  pub loop-next :
      (P : Soaked T → Type 0) (fuel : ℕ) (s : Soaking T) (batch : ℕ)
      → batch_of service args s ≡ some batch
      → (segment service args s.cycle s.completed batch ≡ failed → P raised)
      → (segment service args s.cycle s.completed batch ≡ blocked → P stuck)
      → ((found : List ℕ × List T)
          → segment service args s.cycle s.completed batch ≡ worked found
          → P (soak_loop service args fuel (advance service args s batch found)))
      → P (soak_loop service args (suc fuel) s)
  unfolding soak_loop
  loop-next P fuel s batch e on_raise on_stuck on_found =
      elim (Segment-cases (segment service args s.cycle s.completed batch)) [
        | inl f ↦ rw (soak_loop, e, f) (on_raise f)
        | inr (inl f) ↦ rw (soak_loop, e, f) (on_stuck f)
        | inr (inr (found, f)) ↦ rw (soak_loop, e, f) (on_found found f)
      ]

  pub advance-IsSound :
      (s : Soaking T) (batch : ℕ) (found : List ℕ × List T)
      → IsSound s
      → 1 ≤ batch
      → segment service args s.cycle s.completed batch ≡ worked found
      → IsSound (advance service args s batch found)
  unfolding advance
  advance-IsSound s batch found (counted, good, turns, timed, _) some_work h =
      let (many, fine, times, permitted) = segment-worked s.cycle s.completed batch found h in
      (
        rw (length-append s.all_statuses found.0) (omega arith),
        rw (all-append is_200 s.all_statuses found.0, good) fine,
        omega arith,
        rw (length-append s.all_latencies found.1) (omega arith),
        elim permitted [ inl e ↦ absurd (omega (arith, e, some_work)) | inr e ↦ inr e ],
      )

  pub first_turn-IsSound : IsSound (first_turn service args)
  unfolding first_turn
  first_turn-IsSound = (refl, refl, omega arith, refl, inl refl)
