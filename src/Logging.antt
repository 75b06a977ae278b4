-- ===== src/Logging.antt =====
-- The logger glue of aiolibdatachannel/__init__.py: levels of the standard logging module against
-- libdatachannel's, and the adapter that forwards a line.
pub mod Install
use aiolibdatachannel.Prelude.{ℕ, ◌≤◌, ◌≡◌, arith, leb, ◌&&◌, ◌==◌, if◌then◌else◌}
use aiolibdatachannel.Errors.{Result, ok, raises, value_error}

-- enums.LogLevel.
pub data LogLevel : Type 0 where
  off fatal error warning info debug verbose : LogLevel

-- The numbers of the IntEnum.
unfoldable pub log_level_int : LogLevel → ℕ
log_level_int LogLevel.off = 0
log_level_int LogLevel.fatal = 1
log_level_int LogLevel.error = 2
log_level_int LogLevel.warning = 3
log_level_int LogLevel.info = 4
log_level_int LogLevel.debug = 5
log_level_int LogLevel.verbose = 6

-- `LogLevel(n)`.
unfoldable pub to_log_level : ℕ → Result LogLevel
to_log_level n =
    if n == 0
    then ok LogLevel.off
    else if n == 1
    then ok LogLevel.fatal
    else if n == 2
    then ok LogLevel.error
    else if n == 3
    then ok LogLevel.warning
    else if n == 4
    then ok LogLevel.info
    else if n == 5
    then ok LogLevel.debug
    else if n == 6
    then ok LogLevel.verbose
    else raises value_error

-- The levels of the logging module.
abbrev pub debug_level : ℕ
debug_level = 10

abbrev pub info_level : ℕ
info_level = 20

abbrev pub warning_level : ℕ
warning_level = 30

abbrev pub error_level : ℕ
error_level = 40

abbrev pub critical_level : ℕ
critical_level = 50

-- `_RTC_TO_PY_LEVEL.get(rtc_lvl, logging.info_level)`, on the number that libdatachannel hands over.
unfoldable pub rtc_to_py_level : ℕ → ℕ
rtc_to_py_level n =
    if n == 1
    then critical_level
    else if n == 2
    then error_level
    else if n == 3
    then warning_level
    else if n == 4
    then info_level
    else if n == 5
    then debug_level
    else if n == 6
    then debug_level
    else info_level

unfoldable pub py_level_to_rtc : ℕ → LogLevel
py_level_to_rtc l =
    if leb l debug_level
    then LogLevel.debug
    else if leb l info_level
    then LogLevel.info
    else if leb l warning_level
    then LogLevel.warning
    else if leb l error_level
    then LogLevel.error
    else LogLevel.fatal

pub derived_level_exact :
    (threshold n : ℕ)
    → 1 ≤ n
    → n ≤ 5
    → leb threshold (rtc_to_py_level n)
      ≡ (leb n (log_level_int (py_level_to_rtc threshold)) && leb threshold critical_level)
unfolding rtc_to_py_level log_level_int py_level_to_rtc
derived_level_exact t n low high = ground arith
