-- ===== src/App/Tests.antt =====
-- Configs on concrete input, with a clock that reads one duration.
use hostit.Common.{◌≡◌, refl, String, [], Option, none, some, str_eq, if◌then◌else◌}
use hostit.Common.Text.{trim_space}
use hostit.Common.Int.{ℤ, pos}
use hostit.App.{Config, ok, interval_of, interval_error, snapshot_interval, validate}

abbrev half_hour : String → Option ℤ
half_hour s = if str_eq s "30m" then some (pos 1800000000000) else none

abbrev server : Config
server = record {
  description = "";
  prepare = "";
  mode = "app";
  run = "./server";
  env = [];
  snapshot = record { pre = ""; post = ""; interval = "30m" };
}

server_accepted : validate half_hour server ≡ none
unfolding validate interval_error snapshot_interval interval_of trim_space
server_accepted = refl

server_interval : snapshot_interval half_hour server ≡ ok (pos 1800000000000)
unfolding snapshot_interval interval_of trim_space
server_interval = refl
