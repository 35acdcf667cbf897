-- ===== src/Logger.antt =====
-- Logger.h and Logger.cpp: the levels, and which records the files get; AdManager.cpp: the names of the
-- levels in the configuration.
use ad_manager.Base.{ℕ, Option, none, some, if◌then◌else◌}
use ad_manager.Wire.{Bytes, text, bytes_eq}

pub data SeverityLevel : Type 0 where
  trace debug notify info warn error fatal : SeverityLevel

-- The number of a level.
abbrev pub severity_code : SeverityLevel → ℕ
severity_code trace = 0
severity_code debug = 1
severity_code notify = 2
severity_code info = 3
severity_code warn = 4
severity_code error = 5
severity_code fatal = 6

-- What the operator << writes for a level; the table has an entry for each.
abbrev pub severity_string : SeverityLevel → Bytes
severity_string trace = text "TRACE"
severity_string debug = text "DEBUG"
severity_string notify = text "NTFY "
severity_string info = text "INFO "
severity_string warn = text "WARN "
severity_string error = text "ERROR"
severity_string fatal = text "FATAL"

-- The level that a name in the configuration stands for.
unfoldable pub severity_of : Bytes → SeverityLevel
severity_of name =
    if bytes_eq name (text "trace")
    then trace
    else if bytes_eq name (text "debug")
    then debug
    else if bytes_eq name (text "notify")
    then notify
    else if bytes_eq name (text "info")
    then info
    else if bytes_eq name (text "warn")
    then warn
    else if bytes_eq name (text "error")
    then error
    else if bytes_eq name (text "fatal")
    then fatal
    else debug

-- The log is set up once; the level is that of the first time.
unfoldable pub init_logger : SeverityLevel → Option SeverityLevel → Option SeverityLevel
init_logger lvl none = some lvl
init_logger lvl (some old) = some old
