-- ===== src/App.antt =====
-- app/config.go and app/types.go: what an app's hostit.yml may say. A duration is in nanoseconds.
-- The decoding of YAML is a library's, and Go's `time.ParseDuration` is a parameter: a text to a
-- signed number of nanoseconds, or nothing.
pub mod Laws
mod Tests
use hostit.Common.{
  ℕ, zero, suc, ◌*◌, String, Bool, true, false, List, [], ◌∷◌, Option, none, some, if◌then◌else◌,
  str_eq, trim_space, string_append,
}
use hostit.Common.Int.{ℤ, pos, negsuc}

pub record SnapshotHooks : Type 0 where
  pub pre : String
  pub post : String
  pub interval : String

pub record Config : Type 0 where
  pub description : String
  pub prepare : String
  pub mode : String
  pub run : String
  pub env : List (String × String)
  pub snapshot : SnapshotHooks

abbrev pub mode_app : String
mode_app = "app"

abbrev pub mode_static : String
mode_static = "static"

pub data ConfigError : Type 0 where
  no_mode_configured unknown_mode no_run_command run_without_app bad_snapshot_interval : ConfigError

pub data Checked {ℓ} (A : Type ℓ) : Type ℓ where
  ok : A → Checked A
  err : ConfigError → Checked A

-- 3 hours
abbrev pub default_snapshot_interval : ℕ
default_snapshot_interval = 10800000000000

-- What is made of `ParseDuration`'s answer.
unfoldable pub interval_of : String → Option ℤ → Checked ℤ
interval_of raw none = if str_eq raw "0" then ok (pos 0) else err bad_snapshot_interval
interval_of raw (some (negsuc n)) = err bad_snapshot_interval
interval_of raw (some (pos n)) = ok (pos n)

interval_error : Checked ℤ → Option ConfigError
interval_error (ok d) = none
interval_error (err e) = some e

module _ (parse_duration : String → Option ℤ) where
  unfoldable pub snapshot_interval : Config → Checked ℤ
  unfolding interval_of
  snapshot_interval c =
      let raw = trim_space c.snapshot.interval in
      if str_eq raw ""
      then ok (pos default_snapshot_interval)
      else interval_of raw (parse_duration raw)

  -- `Validate`: the error, if any.
  unfoldable pub validate : Config → Option ConfigError
  unfolding interval_error
  validate c =
      let rest = interval_error (snapshot_interval c) in
      if str_eq c.mode ""
      then some no_mode_configured
      else if str_eq c.mode mode_static
      then (if str_eq c.run "" then rest else some run_without_app)
      else if str_eq c.mode mode_app
      then (if str_eq c.run "" then some no_run_command else rest)
      else some unknown_mode

-- What the agent runs in the container.
unfoldable pub command : Config → String → String
command c hostit_bin =
    if str_eq c.mode mode_static then string_append hostit_bin " static" else c.run
