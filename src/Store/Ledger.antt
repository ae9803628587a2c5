-- ===== src/Store/Ledger.antt =====
-- What the table of deliveries promises, with the row ids, the times and the order of the rows
-- forgotten: a bag of counted deliveries.
pub mod Refines
pub mod Runs
use mathlib.Core.List.{Perm, foldr, map}
use mathlib.Core.List.Perm
use mathlib.Core.Quot
use mathlib.Core.Quot.{Quot, Quot-set}
use counterparty_sharedos.Prelude.{
  ℕ, suc, ◌≡◌, refl, ap, Bool, true, false, not, ◌&&◌, ◌||◌, Option, List, [], ◌∷◌, String, str_eq,
  str_eq_refl, str_eq_iff, any, if◌then◌else◌, arith, Bool-cases, inl, inr,
}
use counterparty_sharedos.Reputation.{BayesianReputation, observations}
use counterparty_sharedos.Tables.{decisive}
use counterparty_sharedos.Store.{Verification}
use counterparty_sharedos.Store.Order.{
  Tally, Tally-IsSet, no_rows, tally_row, tally_row_swap, conclude,
}

-- Two lists are the same ledger when one is the other in another order.
abbrev pub Ledger : Type 0
Ledger = Quot (Perm {A = Verification})

abbrev pub of_list : List Verification → Ledger
of_list = Quot.mk

abbrev pub empty_ledger : Ledger
empty_ledger = of_list []

-- one delivery id, or one provider with one evidence hash
abbrev pub repeats : Verification → Verification → Bool
repeats v w =
    str_eq v.delivery_id w.delivery_id
    || (str_eq v.service_id w.service_id && str_eq v.evidence_hash w.evidence_hash)

-- a question for a task type is about the deliveries for it and the general ones
abbrev pub answers : String → String → Verification → Bool
answers service_id task_type v =
    str_eq v.service_id service_id && (str_eq v.task_type task_type || str_eq v.task_type "general")

module _ (v : Verification) where
  abbrev or_repeats : Verification → Bool → Bool
  or_repeats w b = repeats v w || b

  any-foldr : (ws : List Verification) → any (repeats v) ws ≡ foldr or_repeats false ws
  any-foldr [] = refl
  any-foldr (w ∷ ws) = ap (or_repeats w) (any-foldr ws)

  any-perm : (xs ys : List Verification) → Perm xs ys → any (repeats v) xs ≡ any (repeats v) ys
  any-perm xs ys p =
      rw (any-foldr xs, any-foldr ys)
        (Perm.foldr-eq (hlevel) or_repeats (λ a b x. ground arith) p false)

  -- the ledger has the delivery, or one like it
  pub holds : Ledger → Bool
  holds = Quot.lift (hlevel) (any (repeats v)) any-perm

  pub enter : Ledger → Ledger
  enter = Quot.lift Quot-set (λ ws. of_list (v ∷ ws)) (λ xs ys p. Quot.sound (Perm.cons v p))

-- A delivery is entered, and reported as new, when it is eligible, decisive, and no repeat.
pub submit : Verification → Bool → Ledger → Ledger × Bool
submit v eligible ledger =
    if eligible && (decisive v.outcome && not (holds v ledger))
    then (enter v ledger, true)
    else (ledger, false)

pub holds_nothing : (v : Verification) → holds v empty_ledger ≡ false
unfolding holds
holds_nothing v = refl

repeats_self : (v : Verification) → repeats v v ≡ true
repeats_self v = rw (str_eq_refl v.delivery_id)

pub holds-enter : (v : Verification) (ledger : Ledger) → holds v (enter v ledger) ≡ true
unfolding holds enter
holds-enter v = Quot.ind (λ _. hlevel) (λ ws. rw (repeats_self v))

-- the measured latency makes no other delivery
pub holds_latency :
    (v : Verification) (latency_ms : Option ℕ) (ledger : Ledger)
    → holds (record v { latency_ms = latency_ms }) ledger ≡ holds v ledger
unfolding holds
holds_latency v latency_ms = Quot.ind (λ _. hlevel) (λ ws. refl)

pub submit_held :
    (v : Verification) (ledger : Ledger)
    → holds v ledger ≡ true
    → submit v true ledger ≡ (ledger, false)
unfolding submit
submit_held v ledger h = elim (Bool-cases (decisive v.outcome)) [
  | inl d ↦ rw (h, d)
  | inr d ↦ rw (h, d)
]

pub submit_new :
    (v : Verification) (ledger : Ledger)
    → decisive v.outcome ≡ true
    → holds v ledger ≡ false
    → submit v true ledger ≡ (enter v ledger, true)
unfolding submit
submit_new v ledger d h = rw (h, d)

module _ (service_id task_type : String) where
  abbrev tally_delivery : Verification → Tally → Tally
  tally_delivery v = tally_row (answers service_id task_type v) v.outcome v.latency_ms

  tally_delivery_swap :
      (v w : Verification) (t : Tally)
      → tally_delivery v (tally_delivery w t) ≡ tally_delivery w (tally_delivery v t)
  tally_delivery_swap v w =
      tally_row_swap (answers service_id task_type v) (answers service_id task_type w) v.outcome
        w.outcome v.latency_ms w.latency_ms

  -- the counts and the median that the ledger promises
  pub standing : Ledger → BayesianReputation × Option ℕ
  standing =
      Quot.lift (hlevel) (λ vs. conclude (foldr tally_delivery no_rows vs))
        (λ xs ys p.
          ap conclude (Perm.foldr-eq Tally-IsSet tally_delivery tally_delivery_swap p no_rows))

  the_other :
      (outcome : String)
      → str_eq outcome "PASS" ≡ false
      → decisive outcome ≡ true
      → str_eq outcome "FAIL" ≡ true
  the_other outcome e h = rw (e) at h

  tally_row_counts :
      (outcome : String) (latency_ms : Option ℕ) (t : Tally)
      → decisive outcome ≡ true
      → observations (tally_row true outcome latency_ms t).0 ≡ suc (observations t.0)
  unfolding observations
  tally_row_counts outcome latency_ms (r, l) h = elim (Bool-cases (str_eq outcome "PASS")) [
    | inl e ↦ rw ((str_eq_iff outcome "PASS").0 e) (omega arith)
    | inr e ↦ rw (e, the_other outcome e h) (omega arith)
  ]

  pub standing-enter :
      (v : Verification)
      → decisive v.outcome ≡ true
      → answers service_id task_type v ≡ true
      → (ledger : Ledger)
      → observations (standing (enter v ledger)).0 ≡ suc (observations (standing ledger).0)
  unfolding standing enter
  standing-enter v d a =
      Quot.ind (λ _. hlevel)
        (λ ws. rw (a) (tally_row_counts v.outcome v.latency_ms (foldr tally_delivery no_rows ws) d))
