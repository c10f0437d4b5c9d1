-- ===== src/Log.antt =====
-- log/log.go: the logger of the program, a list of loggers of a third-party package and a level.
pub mod Levels
pub mod Setup
pub mod Started
mod Tests
use passwd_pot.Common.{ℕ, leb, Bytes, codes, List, [], ◌∷◌, ◌++◌, map, if◌then◌else◌}

-- `Level`, a `uint8`.
abbrev pub Level : Type 0
Level = ℕ

abbrev pub error_level : Level
error_level = 0

abbrev pub warn_level : Level
warn_level = 1

abbrev pub info_level : Level
info_level = 2

abbrev pub debug_level : Level
debug_level = 3

-- The method of a `zap.Logger` that a message is given to.
pub data Severity : Type 0 where
  debug info warn error : Severity

-- `zap.Logger`, and `fmt.Sprintf` with the arguments that it takes. `with` is the method `With`.
pub record Zap : Type 1 where
  pub Backend : Type 0
  pub Field : Type 0
  pub Arg : Type 0
  pub with : Field → Backend → Backend
  pub sprintf : Bytes → List Arg → Bytes
  pub text : Bytes → Arg

module _ (zap : Zap) where
  pub record Logger : Type 0 where
    pub loggers : List zap.Backend
    pub level : Level

  -- A message that a backend is given.
  pub record Entry : Type 0 where
    pub backend : zap.Backend
    pub severity : Severity
    pub message : Bytes

  abbrev pub entry : Severity → Bytes → zap.Backend → Entry
  entry severity message backend = record {
    backend = backend;
    severity = severity;
    message = message;
  }

  -- `for _, l := range logger.loggers`
  unfoldable pub each : Severity → Bytes → List zap.Backend → List Entry
  each severity message [] = []
  each severity message (l ∷ ls) = entry severity message l ∷ each severity message ls

  -- `DefaultLogger`, at the backend that it makes of the writer.
  unfoldable pub default_logger : zap.Backend → Logger
  default_logger stdout = record { loggers = stdout ∷ []; level = info_level }

  unfoldable pub set_level : Level → Logger → Logger
  set_level l logger = record logger { level = l }

  unfoldable pub add_logger : zap.Backend → Logger → Logger
  add_logger l logger = record logger { loggers = logger.loggers ++ l ∷ [] }

  -- `With` changes the logger itself, and returns it.
  unfoldable pub with_field : zap.Field → Logger → Logger
  with_field f logger = record logger { loggers = map (zap.with f) logger.loggers }

  unfoldable pub debugf : Logger → Bytes → List zap.Arg → List Entry
  unfolding each
  debugf logger format args =
      if leb debug_level logger.level
      then each debug (zap.sprintf format args) logger.loggers
      else []

  unfoldable pub infof : Logger → Bytes → List zap.Arg → List Entry
  unfolding each
  infof logger format args =
      if leb info_level logger.level then each info (zap.sprintf format args) logger.loggers else []

  unfoldable pub warnf : Logger → Bytes → List zap.Arg → List Entry
  unfolding each
  warnf logger format args =
      if leb warn_level logger.level then each warn (zap.sprintf format args) logger.loggers else []

  unfoldable pub errorf : Logger → Bytes → List zap.Arg → List Entry
  unfolding each
  errorf logger format args = each error (zap.sprintf format args) logger.loggers

  unfoldable pub debug_msg : Logger → Bytes → List Entry
  unfolding each
  debug_msg logger msg = if leb debug_level logger.level then each debug msg logger.loggers else []

  unfoldable pub info_msg : Logger → Bytes → List Entry
  unfolding each
  info_msg logger msg = if leb info_level logger.level then each info msg logger.loggers else []

  unfoldable pub warn_msg : Logger → Bytes → List Entry
  unfolding each
  warn_msg logger msg = if leb warn_level logger.level then each warn msg logger.loggers else []

  -- The message is any value.
  unfoldable pub error_msg : Logger → zap.Arg → List Entry
  unfolding each
  error_msg logger msg = each error (zap.sprintf (codes "%s") (msg ∷ [])) logger.loggers

  -- A call of one of the methods of `FieldLogger` that write a message. `Fatal` and `Panic` only
  -- write it, as an error.
  pub data Call : Type 0 where
    call_debugf call_infof call_warnf call_errorf call_fatalf call_panicf :
        Bytes → List zap.Arg → Call
    call_debug call_info call_warn call_fatal call_panic : Bytes → Call
    call_error : zap.Arg → Call

  unfoldable pub write_call : Logger → Call → List Entry
  unfolding debugf infof warnf errorf debug_msg info_msg warn_msg error_msg
  write_call logger (call_debugf format args) = debugf logger format args
  write_call logger (call_infof format args) = infof logger format args
  write_call logger (call_warnf format args) = warnf logger format args
  write_call logger (call_errorf format args) = errorf logger format args
  write_call logger (call_fatalf format args) = errorf logger format args
  write_call logger (call_panicf format args) = errorf logger format args
  write_call logger (call_debug msg) = debug_msg logger msg
  write_call logger (call_info msg) = info_msg logger msg
  write_call logger (call_warn msg) = warn_msg logger msg
  write_call logger (call_error msg) = error_msg logger msg
  write_call logger (call_fatal msg) = error_msg logger (zap.text msg)
  write_call logger (call_panic msg) = error_msg logger (zap.text msg)
