-- ===== src/Canaries/Nonce.antt =====
-- A canary passes only with its own nonce.
use mathlib.Core.Path.{subst}
use mathlib.Core.Bool.{false≢true}
use counterparty_sharedos.Prelude.{
  ◌≡◌, refl, sym, ap, ◌∙◌, true, false, Option, none, some, List, [], String, str_eq_iff, is_in,
  All,
}
use counterparty_sharedos.Floats.{Floats}
use counterparty_sharedos.Json.{Json, null, bool, int, float, text, arr, obj, get}
use counterparty_sharedos.Models.{pass, eq, ProbeResult, ProbeObservationRequest}
use counterparty_sharedos.Probes.{Jsonschema, Printer, injection_markers, contradiction_probe}
use counterparty_sharedos.Pointer.{
  resolve_path, step_into, follow, path_parts, index_of, split_slash, replace_tilde,
}
use counterparty_sharedos.Assertions.{holds, same_value}
use counterparty_sharedos.Assertions.Exact.{assertions_probe_lem}
use counterparty_sharedos.Verification.{aggregate}
use counterparty_sharedos.Verification.Verdict.{aggregate_state_pass}
use counterparty_sharedos.Delivery.Proof.{consistency_parts, injection_pass}
use counterparty_sharedos.Canaries.{canary_assertions, canary_probes}

module _ (fl : Floats) where
  -- the text under a key of a dictionary
  abbrev pub HasText : String → String → Json fl.F → Type 0
  HasText key value (obj fs) = get key fs ≡ some (text value)
  HasText key value _ = ⊥

  same_text : (v : Json fl.F) (t : String) → same_value fl v (text t) ≡ true → v ≡ text t
  unfolding same_value
  same_text (text s) t h = ap text ((str_eq_iff s t).0 h)
  same_text null t h = absurd (false≢true h)
  same_text (bool true) t h = absurd (false≢true h)
  same_text (bool false) t h = absurd (false≢true h)
  same_text (int n) t h = absurd (false≢true h)
  same_text (float x) t h = absurd (false≢true h)
  same_text (arr xs) t h = absurd (false≢true h)
  same_text (obj fs) t h = absurd (false≢true h)

  found_text :
      (o : Option (Json fl.F)) (path t : String)
      → holds fl (record { path = path; op = eq; value = text t }) o ≡ true
      → o ≡ some (text t)
  unfolding holds
  found_text none path t h = absurd (false≢true h)
  found_text (some v) path t h = ap some (same_text v t h)

  follow_end : (o : Option (Json fl.F)) → follow o [] ≡ o
  unfolding follow
  follow_end none = refl
  follow_end (some v) = refl

  nonce_path :
      (output : Json fl.F)
      → resolve_path output "/counterparty_probe_id" ≡ step_into output "counterparty_probe_id"
  unfolding resolve_path follow path_parts split_slash replace_tilde
  nonce_path output = follow_end (step_into output "counterparty_probe_id")

  text_at :
      (output : Json fl.F) (t : String)
      → step_into output "counterparty_probe_id" ≡ some (text t)
      → HasText "counterparty_probe_id" t output
  unfolding index_of
  text_at (obj fs) t h = h
  text_at null t h = absurd (cc h)
  text_at (bool b) t h = absurd (cc h)
  text_at (int n) t h = absurd (cc h)
  text_at (float x) t h = absurd (cc h)
  text_at (text s) t h = absurd (cc h)
  text_at (arr xs) t h = absurd (cc h)

  All-pass :
      (probes : List (ProbeResult fl.F))
      → (aggregate fl probes).0 ≡ pass
      → All (λ p. p.state ≡ pass) probes
  unfolding aggregate
  All-pass probes h = (aggregate_state_pass probes).0 h

  module _ (js : Jsonschema fl.F) (pr : Printer fl.F) where
    -- If the verdict on a canary is PASS, its output is a dictionary that has the nonce of this very
    -- request under `counterparty_probe_id`, and every manipulation marker is missing from it.
    pub canary_pass :
        (req : ProbeObservationRequest fl.F) (probes : List (ProbeResult fl.F))
        → canary_probes fl js pr req ≡ some probes
        → (aggregate fl probes).0 ≡ pass
        → HasText "counterparty_probe_id" req.nonce req.output
          × All (λ m. is_in m (pr.lower_dumps req.output) ≡ false) injection_markers
    unfolding canary_probes
    canary_pass req probes e h =
        let (p, same) =
          consistency_parts fl js pr (contradiction_probe fl pr req.output) _ _ probes e in
        let (schema, (assertions, (markers, rest))) =
          subst (All (λ p. p.state ≡ pass)) (sym same) (All-pass probes h) in
        let each =
          ((assertions_probe_lem fl req.output (canary_assertions fl js pr req.nonce)).1.0
            assertions).1 in
        (
          text_at req.output req.nonce (
              sym (nonce_path req.output) ∙ found_text _ "/counterparty_probe_id" req.nonce each.0),
          injection_pass fl js pr req.output markers,
        )
