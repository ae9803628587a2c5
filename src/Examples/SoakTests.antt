-- ===== src/Examples/SoakTests.antt =====
-- The soak on a concrete service.
use counterparty_sharedos.Prelude.{ℕ, ◌*◌, ◌≡◌, refl, true, none}
use counterparty_sharedos.Prelude.Int.{ℤ, pos, negsuc}
use counterparty_sharedos.Sorting.{sort}
use counterparty_sharedos.Soak.{SoakArgs, Service}
use counterparty_sharedos.Soak.Report.{Measured, exited, never, ExitsWith, soak_main}
use counterparty_sharedos.Examples.FixedPoint.{fixed_point}

abbrev args : ℕ → SoakArgs
args events = record {
  events = events;
  concurrency = pos 48;
  virtual_seconds = pos 7200;
  restarts = 2;
  wall_seconds = 0;
}

abbrev service : Service ℤ
service = record {
  status = λ i. 200;
  latency = λ i. pos i;
  verify_audit = λ k. true;
  elapsed = λ k. k * 20;
}

abbrev seen : Measured ℤ
seen = record { wall = pos 1; audit_events = 7; floor = λ x. 3 }

-- seven events in three segments pass, and no events end in an exception
seven_pass : ExitsWith 0 (soak_main fixed_point seen service (args 7))
unfolding soak_main sort
seven_pass = refl

none_fail : soak_main fixed_point seen service (args 0) ≡ exited none 1
unfolding soak_main sort
none_fail = refl

-- a semaphore of 0 lets no request past, and one of -1 is an exception
zero_is_never : soak_main fixed_point seen service (record (args 7) { concurrency = pos 0 }) ≡ never
unfolding soak_main sort
zero_is_never = refl

negative_fails :
    soak_main fixed_point seen service (record (args 7) { concurrency = negsuc 0 }) ≡ exited none 1
unfolding soak_main sort
negative_fails = refl
