-- ===== src/App/Laws.antt =====
-- When a hostit.yml is accepted, and what an accepted one runs.
use hostit.Common.{
  ◌≡◌, refl, ◌≢◌, ◌↔◌, ◌⊎◌, inl, inr, String, Option, none, some, arith, str_eq, Bool-cases,
  str_neq, str_eq-false, trim_space,
}
use hostit.Common.Int.{ℤ, pos, negsuc, neg_part}
use hostit.App.{
  Checked, interval_error, Config, mode_app, mode_static, ok, err, interval_of, snapshot_interval,
  validate, command,
}
use text.Mathlib.TextEquality.{eq_iff}
use text.Mathlib.TextLemmas.{append-ne-nil_of_right_ne-nil}

interval_of_nonneg :
    (raw : String) (d : ℤ) (o : Option ℤ) → interval_of raw o ≡ ok d → neg_part d ≡ 0
unfolding interval_of
interval_of_nonneg raw d none h = ground arith
interval_of_nonneg raw d (some (negsuc n)) h = cc
interval_of_nonneg raw d (some (pos n)) h = ground arith

interval_error-eq-none : (r : Checked ℤ) → interval_error r ≡ none → (d : ℤ) × (r ≡ ok d)
unfolding interval_error
interval_error-eq-none (ok d) h = (d, refl)
interval_error-eq-none (err e) h = cc

module _ (parse_duration : String → Option ℤ) where
  -- A snapshot interval is never negative.
  pub snapshot_interval_nonneg :
      (c : Config) (d : ℤ) → snapshot_interval parse_duration c ≡ ok d → neg_part d ≡ 0
  unfolding snapshot_interval
  snapshot_interval_nonneg c d h = elim (Bool-cases (str_eq (trim_space c.snapshot.interval) "")) [
    | inl unset ↦ ground arith
    | inr given ↦ ground (
      arith,
      interval_of_nonneg (trim_space c.snapshot.interval) d
          (parse_duration (trim_space c.snapshot.interval)),
    )
  ]

  abbrev pub IsReady : Config → Type 0
  IsReady c = (c.mode ≡ mode_static) × (c.run ≡ "") ⊎ (c.mode ≡ mode_app) × (c.run ≢ "")

  accepted :
      (c : Config) (d : ℤ)
      → IsReady c
      → snapshot_interval parse_duration c ≡ ok d
      → validate parse_duration c ≡ none
  unfolding validate
  accepted c d (inl (m, r)) e = rw e (rw m (rw r))
  accepted c d (inr (m, r)) e = rw e (rw m (rw (str_neq c.run "" r)))

  -- A config is accepted exactly when it is a static app that runs nothing or an app with a command,
  -- and its snapshot interval can be read.
  pub validate_iff :
      (c : Config)
      → (validate parse_duration c ≡ none)
        ↔ (IsReady c × ((d : ℤ) × (snapshot_interval parse_duration c ≡ ok d)))
  unfolding validate
  validate_iff c = (
    λ h. (
      ground (
        arith,
        eq_iff c.mode "",
        eq_iff c.mode mode_static,
        eq_iff c.mode mode_app,
        eq_iff c.run "",
      ),
      interval_error-eq-none (snapshot_interval parse_duration c)
          (ground (arith, eq_iff c.mode "")),
    ),
    λ (ready, (d, e)). accepted c d ready e,
  )

  -- An accepted config always gives the agent something to run: its command line is not empty,
  -- wherever the hostit binary is.
  pub validate-command :
      (c : Config) (bin : String) → validate parse_duration c ≡ none → command c bin ≢ ""
  unfolding command
  validate-command c bin h = runs ((validate_iff c).0 h).0
    where
      runs : IsReady c → command c bin ≢ ""
      runs (inl (m, r)) =
          rw m (append-ne-nil_of_right_ne-nil bin (λ e. absurd (str_eq-false " static" "" refl e)))
      runs (inr (m, r)) = rw m r
