-- ===== src/Log/Levels.antt =====
-- log/log.go: which messages are written, and by which backends.
use mathlib.Core.List.{map-append}
use passwd_pot.Common.{
  sym, append-nil, append_assoc, leb, Bytes, codes, List, [], ◌∷◌, ◌++◌, map, if◌then◌else◌, ◌≡◌,
  refl, ap, ◌∙◌, arith,
}
use passwd_pot.Log.{
  Level, info_level, Severity, debug, info, warn, error, Zap, Logger, entry, each, default_logger,
  set_level, add_logger, with_field, debugf, infof, warnf, errorf, debug_msg, info_msg, warn_msg,
  error_msg, Call, call_debugf, call_infof, call_warnf, call_errorf, call_fatalf, call_panicf,
  call_debug, call_info, call_warn, call_error, call_fatal, call_panic, write_call,
}

-- The level from which on a severity is written.
abbrev pub threshold : Severity → Level
threshold debug = 3
threshold info = 2
threshold warn = 1
threshold error = 0

module _ (zap : Zap) where
  abbrev pub severity_of : Call zap → Severity
  severity_of (call_debugf _ _) = debug
  severity_of (call_debug _) = debug
  severity_of (call_infof _ _) = info
  severity_of (call_info _) = info
  severity_of (call_warnf _ _) = warn
  severity_of (call_warn _) = warn
  severity_of (call_errorf _ _) = error
  severity_of (call_error _) = error
  severity_of (call_fatalf _ _) = error
  severity_of (call_fatal _) = error
  severity_of (call_panicf _ _) = error
  severity_of (call_panic _) = error

  abbrev pub text_of : Call zap → Bytes
  text_of (call_debugf format args) = zap.sprintf format args
  text_of (call_infof format args) = zap.sprintf format args
  text_of (call_warnf format args) = zap.sprintf format args
  text_of (call_errorf format args) = zap.sprintf format args
  text_of (call_fatalf format args) = zap.sprintf format args
  text_of (call_panicf format args) = zap.sprintf format args
  text_of (call_debug msg) = msg
  text_of (call_info msg) = msg
  text_of (call_warn msg) = msg
  text_of (call_error msg) = zap.sprintf (codes "%s") (msg ∷ [])
  text_of (call_fatal msg) = zap.sprintf (codes "%s") (zap.text msg ∷ [])
  text_of (call_panic msg) = zap.sprintf (codes "%s") (zap.text msg ∷ [])

  -- Some calls that configure a logger.
  pub data Change : Type 0 where
    to_level : Level → Change
    to_backend : zap.Backend → Change
    to_field : zap.Field → Change

  pub configure : List Change → Logger zap → Logger zap
  configure [] logger = logger
  configure (to_level l ∷ cs) logger = configure cs (set_level zap l logger)
  configure (to_backend b ∷ cs) logger = configure cs (add_logger zap b logger)
  configure (to_field f ∷ cs) logger = configure cs (with_field zap f logger)

  -- The level that is set last.
  abbrev pub last_level : List Change → Level → Level
  last_level [] l = l
  last_level (to_level l ∷ cs) _ = last_level cs l
  last_level (to_backend _ ∷ cs) l = last_level cs l
  last_level (to_field _ ∷ cs) l = last_level cs l

  -- A backend with the fields that are added later.
  abbrev pub with_later : List Change → zap.Backend → zap.Backend
  with_later [] b = b
  with_later (to_level _ ∷ cs) b = with_later cs b
  with_later (to_backend _ ∷ cs) b = with_later cs b
  with_later (to_field f ∷ cs) b = with_later cs (zap.with f b)

  -- The backends that are added, each with the fields that are added behind it.
  abbrev pub added : List Change → List zap.Backend
  added [] = []
  added (to_level _ ∷ cs) = added cs
  added (to_backend b ∷ cs) = with_later cs b ∷ added cs
  added (to_field _ ∷ cs) = added cs

  pub each-map :
      (s : Severity) (m : Bytes) (ls : List zap.Backend) → each zap s m ls ≡ map (entry zap s m) ls
  unfolding each
  each-map s m [] = refl
  each-map s m (l ∷ ls) = ap (λ es. entry zap s m l ∷ es) (each-map s m ls)

  pub write_call-each :
      (logger : Logger zap) (c : Call zap)
      → write_call zap logger c ≡ (
          if leb (threshold (severity_of c)) logger.level
          then each zap (severity_of c) (text_of c) logger.loggers
          else [])
  unfolding write_call debugf infof warnf errorf debug_msg info_msg warn_msg error_msg
  write_call-each logger (call_debugf format args) = refl
  write_call-each logger (call_infof format args) = refl
  write_call-each logger (call_warnf format args) = refl
  write_call-each logger (call_errorf format args) = ground arith
  write_call-each logger (call_fatalf format args) = ground arith
  write_call-each logger (call_panicf format args) = ground arith
  write_call-each logger (call_debug msg) = refl
  write_call-each logger (call_info msg) = refl
  write_call-each logger (call_warn msg) = refl
  write_call-each logger (call_error msg) = ground arith
  write_call-each logger (call_fatal msg) = ground arith
  write_call-each logger (call_panic msg) = ground arith

  configure-level :
      (cs : List Change) (logger : Logger zap)
      → (configure cs logger).level ≡ last_level cs logger.level
  unfolding configure set_level add_logger with_field
  configure-level [] logger = refl
  configure-level (to_level l ∷ cs) logger = configure-level cs _
  configure-level (to_backend b ∷ cs) logger = configure-level cs _
  configure-level (to_field f ∷ cs) logger = configure-level cs _

  map_later-with :
      (cs : List Change) (f : zap.Field) (ls : List zap.Backend)
      → map (with_later cs) (map (zap.with f) ls) ≡ map (with_later (to_field f ∷ cs)) ls
  map_later-with cs f [] = refl
  map_later-with cs f (l ∷ ls) =
      ap (λ bs. with_later cs (zap.with f l) ∷ bs) (map_later-with cs f ls)

  map_later-nil : (ls : List zap.Backend) → map (with_later []) ls ≡ ls
  map_later-nil [] = refl
  map_later-nil (l ∷ ls) = ap (λ bs. l ∷ bs) (map_later-nil ls)

  configure-loggers :
      (cs : List Change) (logger : Logger zap)
      → (configure cs logger).loggers ≡ map (with_later cs) logger.loggers ++ added cs
  unfolding configure set_level add_logger with_field
  configure-loggers [] logger = rw append-nil (sym (map_later-nil logger.loggers))
  configure-loggers (to_level l ∷ cs) logger = configure-loggers cs _
  configure-loggers (to_backend b ∷ cs) logger =
      configure-loggers cs _
      ∙ ap (λ bs. bs ++ added cs) (map-append (with_later cs) logger.loggers (b ∷ []))
      ∙ append_assoc (map (with_later cs) logger.loggers) (with_later cs b ∷ []) (added cs)
  configure-loggers (to_field f ∷ cs) logger =
      configure-loggers cs _ ∙ ap (λ bs. bs ++ added cs) (map_later-with cs f logger.loggers)

  -- A logger that was made by `DefaultLogger` and then configured gives a message to its writer and
  -- to every backend that was added, once each and in that order, with the text of the call and
  -- under its severity, each backend with exactly the fields that were added since it was there;
  -- that is, if the level that was set last reaches the severity of the call, and to none else. An
  -- error reaches them at every level, and so do `Fatal` and `Panic`, which are errors.
  pub write_call-configured :
      (stdout : zap.Backend) (cs : List Change) (c : Call zap)
      → write_call zap (configure cs (default_logger zap stdout)) c ≡ (
          if leb (threshold (severity_of c)) (last_level cs info_level)
          then map (entry zap (severity_of c) (text_of c)) (with_later cs stdout ∷ added cs)
          else [])
  unfolding default_logger
  write_call-configured stdout cs c =
      let logger = configure cs (default_logger zap stdout) in
      write_call-each logger c
      ∙ rw (configure-level cs (default_logger zap stdout)) (
          rw (each-map (severity_of c) (text_of c) logger.loggers)
            (rw (configure-loggers cs (default_logger zap stdout))))
