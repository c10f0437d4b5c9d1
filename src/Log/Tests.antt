-- ===== src/Log/Tests.antt =====
-- A logger of log/log.go with backends that are their fields.
use passwd_pot.Common.{Bytes, codes, List, [], ◌∷◌, ◌++◌, ◌≡◌}
use passwd_pot.Log.{Zap, entry, write_call}
use passwd_pot.Common.{refl, some, false, bytes_eq}
use passwd_pot.Log.{call_info, info}
use passwd_pot.Log.Setup.{Outside, Config, setup_logger}
use passwd_pot.Log.Started.{setup_logger-writes}

abbrev zap : Zap
zap = record {
  Backend = List Bytes;
  Field = Bytes;
  Arg = Bytes;
  with = λ f b. b ++ f ∷ [];
  sprintf = λ format args. format;
  text = λ msg. msg;
}

abbrev outside : Outside zap
outside = record {
  stdout = codes "stdout" ∷ [];
  dial = λ addr name. some (codes "syslog" ∷ []);
  no_writer = [];
  logz = λ key. some (codes "logz" ∷ []);
  app = λ name. name;
  host = codes "pot1";
}

abbrev with_syslog_flag : Config
with_syslog_flag = record { debug = false; syslog = codes "log:514"; logz = codes "key" }

-- An address of a syslog daemon that answers, and a key.
started_example :
    write_call zap
      (setup_logger zap outside with_syslog_flag (codes "proxy"))
      (call_info (codes "up"))
    ≡ entry zap info (codes "up") (codes "stdout" ∷ codes "proxy" ∷ codes "pot1" ∷ [])
      ∷ entry zap info (codes "up") (codes "logz" ∷ codes "proxy" ∷ codes "pot1" ∷ [])
      ∷ []
unfolding bytes_eq
started_example =
    setup_logger-writes zap outside with_syslog_flag (codes "proxy") refl (call_info (codes "up"))
