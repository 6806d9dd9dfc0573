-- ===== src/Config/CommandLine.antt =====
-- core/config/base.go: the flag that each program has.
use beluuga.Prelude.{true, []}
use beluuga.Cli.{Flag, string_flag}

abbrev pub config_file_flag : Flag
config_file_flag = record {
  name = "config";
  aliases = [];
  kind = string_flag;
  required = true;
  env_vars = [];
}
