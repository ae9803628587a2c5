-- ===== src/Demo/Outcome.antt =====
-- What the demonstration shows when no assertion fails.
use counterparty_sharedos.Prelude.{ℕ, ◌≡◌, refl, sym, ap, ◌∙◌, Bool, true, false, some}
use counterparty_sharedos.Floats.{Floats}
use counterparty_sharedos.Json.{Fields, Codec}
use counterparty_sharedos.Probes.{Jsonschema, Printer}
use counterparty_sharedos.Audit.{Stamp, audit_head}
use counterparty_sharedos.Store.{Db}
use counterparty_sharedos.Driver.{
  unless_failed, Session, Script, ◌>>=◌, alpha_seller, post_route, promote, checked_audit,
}
use counterparty_sharedos.Demo.{
  Demo, canary_a_request, canary_b_request, beta_seller, research, bounded_task, is_mature,
  is_verified, demo_of, close, run_demo,
}
use counterparty_sharedos.Driver.Promotion.{
  then_from, Keeps, probe-Keeps, route-Keeps, snapshot-Keeps,
}
use counterparty_sharedos.Driver.Compounds.{Compounds, audit-Keeps, step-Compounds, loop-Compounds}

module _ (fl : Floats) (js : Jsonschema fl.F) (pr : Printer fl.F) (c : Codec fl.F)
    (stamps : ℕ → Stamp) (latency : ℕ → ℕ) where
  -- what holds of the result of the rest holds of the result
  then-result :
      {A B : Type 0} (Q : B → Type 0) (m : Script (Db c.Text) A) (f : A → Script (Db c.Text) B)
      → ((a : A) (s1 s' : Session (Db c.Text)) (b : B) → f a s1 ≡ some (b, s') → Q b)
      → (s s' : Session (Db c.Text)) (b : B) → (m >>= f) s ≡ some (b, s')
      → Q b
  then-result Q m f after s s' b h =
      let (a, s1, first, rest) = then_from (m s) f b s' h in after a s1 s' b rest

  passed_unless_failed :
      {B : Type 0} (test : Bool) (m : Script (Db c.Text) B) (s s' : Session (Db c.Text)) (b : B)
      → unless_failed test m s ≡ some (b, s')
      → (test ≡ true) × (m s ≡ some (b, s'))
  passed_unless_failed false m s s' b h = absurd (cc h)
  passed_unless_failed true m s s' b h = (refl, h)

  close_lem :
      (a0 b0 ca cb a1 b1 route : Fields fl.F) (promoted : ℕ × Fields fl.F)
      (s s' : Session (Db c.Text)) (d : Demo fl.F)
      → close fl js pr c stamps latency a0 b0 ca cb a1 b1 route promoted s ≡ some (d, s')
      → Keeps fl js pr c stamps latency s s'
        × (d.promotion_deliveries ≡ promoted.0)
        × (d.mature_a ≡ promoted.1)
        × (is_mature fl js pr c stamps latency promoted ≡ true)
  unfolding close
  close_lem a0 b0 ca cb a1 b1 route promoted s s' d h =
      let (mature, h1) =
        passed_unless_failed (is_mature fl js pr c stamps latency promoted) _ s s' d h in
      let (verified_route, s1, routed, h2) =
        then_from (post_route fl js pr c stamps latency (bounded_task fl js pr c stamps latency) s)
          _ d s' h1 in
      let (verified, h3) =
        passed_unless_failed (is_verified fl js pr c stamps latency verified_route) _ s1 s' d h2 in
      let (valid, s2, checked, h4) =
        then_from (checked_audit fl js pr c stamps latency s1) _ d s' h3 in
      let (is_valid, last) = passed_unless_failed valid _ s2 s' d h4 in
      let made : demo_of fl js pr c stamps latency a0 b0 ca cb a1 b1 route promoted verified_route
            (audit_head c s2.db.audit_events)
          ≡ d =
        cc last in
      let same : s2 ≡ s' = cc last in
      (
        ap (λ (t : Session (Db c.Text)). t.db.observations) (sym same)
            ∙ audit-Keeps fl js pr c stamps latency s1 s2 valid checked
            ∙ route-Keeps fl js pr c stamps latency (bounded_task fl js pr c stamps latency) s s1
                verified_route routed,
        ap (λ (x : Demo fl.F). x.promotion_deliveries) (sym made),
        ap (λ (x : Demo fl.F). x.mature_a) (sym made),
        mature,
      )

  -- what an assertion, or a step, asks of the rest
  abbrev pub Shown : Demo fl.F → Session (Db c.Text) → Session (Db c.Text) → Type 0
  Shown d s s' =
      Compounds fl js pr c stamps latency d.promotion_deliveries d.mature_a s s'
      × (is_mature fl js pr c stamps latency (d.promotion_deliveries, d.mature_a) ≡ true)

  step-Shown :
      {A : Type 0} (m : Script (Db c.Text) A) (f : A → Script (Db c.Text) (Demo fl.F))
      → ((s s1 : Session (Db c.Text)) (a : A)
          → m s ≡ some (a, s1)
          → Keeps fl js pr c stamps latency s s1)
      → ((a : A) (s1 s' : Session (Db c.Text)) (d : Demo fl.F)
          → f a s1 ≡ some (d, s')
          → Shown d s1 s')
      → (s s' : Session (Db c.Text)) (d : Demo fl.F) → (m >>= f) s ≡ some (d, s')
      → Shown d s s'
  step-Shown m f keeps after s s' d h = (
    step-Compounds fl js pr c stamps latency (λ (d : Demo fl.F). d.promotion_deliveries)
        (λ (d : Demo fl.F). d.mature_a) m f keeps (λ a s1 s' d h. (after a s1 s' d h).0) s s' d h,
    then-result
        (λ (d : Demo fl.F).
          is_mature fl js pr c stamps latency (d.promotion_deliveries, d.mature_a) ≡ true)
        m f (λ a s1 s' d h. (after a s1 s' d h).1) s s' d h,
  )

  assert-Shown :
      (test : Bool) (m : Script (Db c.Text) (Demo fl.F))
      → ((s s' : Session (Db c.Text)) (d : Demo fl.F) → m s ≡ some (d, s') → Shown d s s')
      → (s s' : Session (Db c.Text)) (d : Demo fl.F) → unless_failed test m s ≡ some (d, s')
      → Shown d s s'
  assert-Shown test m after s s' d h = after s s' d (passed_unless_failed test m s s' d h).1

  loop_shown :
      (a0 b0 ca cb a1 b1 route : Fields fl.F) (s s' : Session (Db c.Text)) (d : Demo fl.F)
      → (promote fl js pr c stamps latency "arena-paid-alpha-" "bounded paid task" 32 0 a1
            >>= close fl js pr c stamps latency a0 b0 ca cb a1 b1 route)
          s
        ≡ some (d, s')
      → Shown d s s'
  loop_shown a0 b0 ca cb a1 b1 route s s' d h = (
    loop-Compounds fl js pr c stamps latency (λ (d : Demo fl.F). d.promotion_deliveries)
        (λ (d : Demo fl.F). d.mature_a) "arena-paid-alpha-" "bounded paid task" a1
        (close fl js pr c stamps latency a0 b0 ca cb a1 b1 route)
        (λ promoted s s' d h.
          let (kept, made, last, mature) = close_lem a0 b0 ca cb a1 b1 route promoted s s' d h in
          (kept, made, last))
        s s' d h,
    then-result
        (λ (d : Demo fl.F).
          is_mature fl js pr c stamps latency (d.promotion_deliveries, d.mature_a) ≡ true)
        (promote fl js pr c stamps latency "arena-paid-alpha-" "bounded paid task" 32 0 a1)
        (close fl js pr c stamps latency a0 b0 ca cb a1 b1 route)
        (λ promoted s s' d h.
          let (kept, made, last, mature) = close_lem a0 b0 ca cb a1 b1 route promoted s s' d h in
          rw (made, last) mature)
        s s' d h,
  )

  -- When no assertion of the demonstration fails, the loop has made between 1 and 32 deliveries, the
  -- reputation of `seller-alpha` for general tasks has gained exactly that many successes and no
  -- failure, and the last snapshot shows BUY and VERIFIED.
  pub demo-Compounds :
      (s s' : Session (Db c.Text)) (d : Demo fl.F)
      → run_demo fl js pr c stamps latency s ≡ some (d, s')
      → Compounds fl js pr c stamps latency d.promotion_deliveries d.mature_a s s'
        × (is_mature fl js pr c stamps latency (d.promotion_deliveries, d.mature_a) ≡ true)
  unfolding run_demo
  demo-Compounds =
      step-Shown _ _ (λ s s1 a. snapshot-Keeps fl js pr c stamps latency alpha_seller s s1 a)
        λ a0.
          step-Shown _ _ (λ s s1 a. snapshot-Keeps fl js pr c stamps latency beta_seller s s1 a)
            λ b0. assert-Shown _ _ (
              step-Shown _ _
                (λ s s1 a. probe-Keeps fl js pr c stamps latency canary_a_request s s1 a)
                λ ca. assert-Shown _ _ (
                  step-Shown _ _
                    (λ s s1 a. probe-Keeps fl js pr c stamps latency canary_b_request s s1 a)
                    λ cb. assert-Shown _ _ (
                      step-Shown _ _
                        (λ s s1 a. snapshot-Keeps fl js pr c stamps latency alpha_seller s s1 a)
                        λ a1.
                          step-Shown _ _
                            (λ s s1 a. snapshot-Keeps fl js pr c stamps latency beta_seller s s1 a)
                            λ b1. assert-Shown _ _ (
                              step-Shown _ _
                                (λ s s1 a.
                                  route-Keeps fl js pr c stamps latency
                                    (research fl js pr c stamps latency) s s1 a)
                                λ route. assert-Shown _ _ (loop_shown a0 b0 ca cb a1 b1 route)))))
