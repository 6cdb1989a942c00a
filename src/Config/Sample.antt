-- ===== src/Config/Sample.antt =====
-- A configuration with one stanza, for the tests.
use fwknox.Base.{true, false, none, [], ◌∷◌}
use fwknox.Proto.Sample.{ssh, key}
use fwknox.Config.Types.{
  any_source, AccessStanza, DaemonConfig, default_daemon, default_replay, default_rate_limit,
}

abbrev pub home : AccessStanza
home = record {
  name = "home";
  source = any_source ∷ [];
  open_ports = ssh ∷ [];
  master_key = key;
  fw_timeout = none;
  max_fw_timeout = none;
  require_source_match = true;
  require_username = none;
  enable_nat = false;
  nat_destination = none;
  enable_cmd_exec = false;
  cmd_exec_user = none;
  expiration_date = none;
}

abbrev pub config : DaemonConfig
config = record {
  daemon = default_daemon;
  replay = default_replay;
  rate_limit = default_rate_limit;
  access = home ∷ [];
}
