-- ===== src/Driver/Compounds.antt =====
-- A script that runs the loop of verified deliveries, from its first request to its last.
use counterparty_sharedos.Prelude.{
  ℕ, ◌≤◌, ◌≡◌, ◌⊎◌, inl, inr, sym, ap, ◌∙◌, Bool, true, false, Option, none, some, String, arith,
}
use counterparty_sharedos.Floats.{Floats}
use counterparty_sharedos.Json.{Fields, get, Codec}
use counterparty_sharedos.Probes.{Jsonschema, Printer}
use counterparty_sharedos.Audit.{Stamp, verify_audit}
use counterparty_sharedos.Store.{Db}
use counterparty_sharedos.Store.Query.{reputation}
use counterparty_sharedos.Driver.{is_text, Session, Script, ◌>>=◌, promote, checked_audit}
use counterparty_sharedos.Driver.{unless_failed}
use counterparty_sharedos.Driver.Promotion.{
  then_from, with_successes, standing_of, Keeps, promote_lem,
}

module _ (fl : Floats) (js : Jsonschema fl.F) (pr : Printer fl.F) (c : Codec fl.F)
    (stamps : ℕ → Stamp) (latency : ℕ → ℕ) where
  -- the deliveries of a loop are what the reputation of `seller-alpha` has gained
  abbrev pub Compounds : ℕ → Fields fl.F → Session (Db c.Text) → Session (Db c.Text) → Type 0
  Compounds made final s s' =
      (made ≤ 32)
      × (standing_of fl js pr c stamps latency s'
          ≡ with_successes made (standing_of fl js pr c stamps latency s))
      × ((made ≡ 32) ⊎ (is_text "BUY" (get "verdict" final) ≡ true))

  pub audit-Keeps :
      (s s' : Session (Db c.Text)) (valid : Bool)
      → checked_audit fl js pr c stamps latency s ≡ some (valid, s')
      → Keeps fl js pr c stamps latency s s'
  audit-Keeps s s' valid h = kept (verify_audit c s.db.audit_events) h
    where
      kept :
          (o : Option Bool)
          → ◌≡◌ {A = Option (Bool × Session (Db c.Text))}
              (elim o [ none ↦ none | some v ↦ some (v, s) ])
              (some (valid, s'))
          → Keeps fl js pr c stamps latency s s'
      kept none h = absurd (cc h)
      kept (some v) h =
          let same : s ≡ s' = cc h in ap (λ (t : Session (Db c.Text)). t.db.observations) (sym same)

  -- for scripts that keep the number of deliveries and the last snapshot
  module _ {B : Type 0} (count : B → ℕ) (last : B → Fields fl.F) where
    -- a first step that leaves the deliveries alone
    pub step-Compounds :
        {A : Type 0} (m : Script (Db c.Text) A) (f : A → Script (Db c.Text) B)
        → ((s s1 : Session (Db c.Text)) (a : A)
            → m s ≡ some (a, s1)
            → Keeps fl js pr c stamps latency s s1)
        → ((a : A) (s1 s' : Session (Db c.Text)) (b : B)
            → f a s1 ≡ some (b, s')
            → Compounds (count b) (last b) s1 s')
        → (s s' : Session (Db c.Text)) (b : B) → (m >>= f) s ≡ some (b, s')
        → Compounds (count b) (last b) s s'
    step-Compounds m f keeps after s s' b h =
        let (a, s1, first, rest) = then_from (m s) f b s' h in
        let (few, gained, why) = after a s1 s' b rest in
        (
          few,
          gained
              ∙ ap (λ table. with_successes (count b) (reputation "seller-alpha" "general" table).0)
                  (keeps s s1 a first),
          why,
        )

    -- a test that must hold
    pub unless_failed-Compounds :
        (test : Bool) (m : Script (Db c.Text) B)
        → ((s s' : Session (Db c.Text)) (b : B)
            → m s ≡ some (b, s')
            → Compounds (count b) (last b) s s')
        → (s s' : Session (Db c.Text)) (b : B) → unless_failed test m s ≡ some (b, s')
        → Compounds (count b) (last b) s s'
    unless_failed-Compounds false m after s s' b h = absurd (cc h)
    unless_failed-Compounds true m after s s' b h = after s s' b h

    -- the loop, and an end that leaves the deliveries alone
    pub loop-Compounds :
        (prefix task : String) (snapshot : Fields fl.F) (f : ℕ × Fields fl.F → Script (Db c.Text) B)
        → ((promoted : ℕ × Fields fl.F) (s s' : Session (Db c.Text)) (b : B)
            → f promoted s ≡ some (b, s')
            → Keeps fl js pr c stamps latency s s' × (count b ≡ promoted.0) × (last b ≡ promoted.1))
        → (s s' : Session (Db c.Text)) (b : B)
        → (promote fl js pr c stamps latency prefix task 32 0 snapshot >>= f) s ≡ some (b, s')
        → Compounds (count b) (last b) s s'
    loop-Compounds prefix task snapshot f ends s s' b h =
        let ((made, final), s1, looped, rest) =
          then_from (promote fl js pr c stamps latency prefix task 32 0 snapshot s) f b s' h in
        let (extra, total, few, gained, why) =
          promote_lem fl js pr c stamps latency prefix task 32 0 snapshot s made final s1 looped in
        let (kept, counted, shown) = ends (made, final) s1 s' b rest in
        let all_new : count b ≡ extra = omega (arith, total, counted) in
        (
          omega (arith, few, all_new),
          ap (λ table. (reputation "seller-alpha" "general" table).0) kept
              ∙ gained
              ∙ ap (λ n. with_successes n (standing_of fl js pr c stamps latency s)) (sym all_new),
          elim why [
            | inl e ↦ inl (all_new ∙ e)
            | inr e ↦ inr (ap (λ fs. is_text "BUY" (get "verdict" fs)) shown ∙ e)
          ],
        )
