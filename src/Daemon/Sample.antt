-- ===== src/Daemon/Sample.antt =====
-- A daemon with one stanza, and packets for it.
use fwknox.Base.{refl, true, false, none, [], ◌∷◌, arith, nat_eq, list_eq}
use fwknox.Base.Lru.{list_lru, list_lru-IsLru}
use fwknox.Proto.Types.{v4}
use fwknox.Proto.Sample.{toy, wire}
use fwknox.Config.Sample.{config}
use fwknox.Config.Valid.{AreUsable}
use fwknox.Replay.Check.{IsStore}
use fwknox.Firewall.Mock.{mock_backend}
use fwknox.Daemon.Host.{Host, State, Moment, CapturedPacket}

abbrev pub host : Host
host = record { crypto = toy; contains = λ net ip. false; lru = list_lru; firewall = mock_backend }

pub usable : AreUsable [] config.access
usable = (
  refl,
  record { ports = cc; key = refl; no_expiration = refl; no_nat = refl; no_cmd_exec = refl },
  tt,
)

abbrev pub moment : Moment
moment = record {
  unix = 1_700_000_010;
  replay_now = 1_700_000_010;
  writes = record {
    create_dir = true;
    new_temp = true;
    write_lines = true;
    sync = true;
    rename = true;
  };
}

abbrev pub client : CapturedPacket
client = record { source_ip = v4 (192 ∷ 168 ∷ 1 ∷ 5 ∷ []); datagram = wire }

-- Noise, from elsewhere.
abbrev pub stranger : CapturedPacket
stranger = record { source_ip = v4 (203 ∷ 0 ∷ 113 ∷ 9 ∷ []); datagram = 7 ∷ [] }

abbrev pub later : Moment
later = record moment { unix = 1_700_000_050; replay_now = 1_700_000_050 }

abbrev pub started : State host
started = record {
  replay = record { inner = (2, []); persist_path = none; disk = [] };
  rules = record { initialized = true; next_id = 0; rules = [] };
}

pub started-IsStore : IsStore list_lru-IsLru started.replay
started-IsStore = record {
  room = omega arith;
  entries = record { bounded = omega arith; distinct = tt };
}
