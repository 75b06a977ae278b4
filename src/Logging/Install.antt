-- ===== src/Logging/Install.antt =====
-- The functions of aiolibdatachannel/__init__.py: `init_logger` and `install_python_logger`, which
-- set the log callback of _core.py, and those that pass on a call. The logging module is a
-- parameter: how it finds a logger by its name and what its effective level is.
pub mod Named
use Prim.Native.String.{String}
use aiolibdatachannel.Prelude.{ℕ, ◌<◌, ◌≡◌, refl, ◌∙◌, true, arith, [], ◌∷◌, ◌++◌, Option, some}
use aiolibdatachannel.Errors.{Result, ok, raises, value_error}
use aiolibdatachannel.Native.{Native, Value, Emission, int, str}
use aiolibdatachannel.Core.Machine.{Core, deliver}
use aiolibdatachannel.Core.Machine.Frame.{deliver-fires, call-SameTables}
use aiolibdatachannel.Core.Calls
use aiolibdatachannel.Core.Dispatch.{cb_log}
use aiolibdatachannel.Core.Dispatch.Lines.{log_fires}
use aiolibdatachannel.Logging.{
  LogLevel, log_level_int, to_log_level, rtc_to_py_level, py_level_to_rtc,
}

-- The `logger` argument: a name, None, or a logger.
pub data LoggerArg (L : Type 0) : Type 0 where
  by_name : String → LoggerArg L
  by_default : LoggerArg L
  given : L → LoggerArg L

-- The `level` argument: None, a LogLevel, or another int.
pub data LevelArg : Type 0 where
  derived : LevelArg
  level : LogLevel → LevelArg
  number : ℕ → LevelArg

-- A call of `log.log`.
pub record Logged (L : Type 0) : Type 0 where
  pub logger : L
  pub py_level : ℕ
  pub message : String

-- `_adapter`; `rstrip` is Python's.
unfoldable pub adapter : {L : Type 0} → (String → String) → L → ℕ → String → Logged L
adapter rstrip log rtc_lvl message = record {
  logger = log;
  py_level = rtc_to_py_level rtc_lvl;
  message = rstrip message;
}

unfoldable pub chosen_logger : {L : Type 0} → (String → L) → LoggerArg L → L
chosen_logger get_logger (by_name name) = get_logger name
chosen_logger get_logger by_default = get_logger "aiolibdatachannel"
chosen_logger get_logger (given logger) = logger

unfoldable pub chosen_level : {L : Type 0} → (L → ℕ) → LevelArg → L → Result LogLevel
chosen_level get_effective_level derived log = ok (py_level_to_rtc (get_effective_level log))
chosen_level get_effective_level (level l) log = ok l
chosen_level get_effective_level (number n) log = to_log_level n

module _ (N : Native) {C : Type 0} (to_str : Value → String) where
  open N use {World}

  -- `int(level)` of a LogLevel is its number; any other int is passed on as it is.
  unfoldable pub init_logger : ℕ → Option C → Core World C → Result (Unit {0}) × Core World C
  init_logger rtc_level callback c = Calls.init_logger N to_str rtc_level callback c

  dropped_value : Result ℕ × Core World C → Result (Unit {0}) × Core World C
  dropped_value (ok n, c) = (ok tt, c)
  dropped_value (raises e, c) = (raises e, c)

  -- The package's function drops the value.
  unfoldable pub set_thread_pool_size : ℕ → Core World C → Result (Unit {0}) × Core World C
  unfolding dropped_value
  set_thread_pool_size count c = dropped_value (Calls.set_thread_pool_size N to_str count c)

  unfoldable pub preload : Core World C → Result (Unit {0}) × Core World C
  preload c = Calls.preload N to_str c

  -- `adapt` makes the callback that closes over the logger.
  module _ {L : Type 0} (get_logger : String → L) (get_effective_level : L → ℕ)
      (adapt : L → C) where
    returned : L → Result (Unit {0}) × Core World C → Result L × Core World C
    returned log (ok u, c) = (ok log, c)
    returned log (raises e, c) = (raises e, c)

    with_level : L → Result LogLevel → Core World C → Result L × Core World C
    unfolding returned
    with_level log (raises e) c = (raises e, c)
    with_level log (ok l) c =
        returned log (Calls.init_logger N to_str (log_level_int l) (some (adapt log)) c)

    unfoldable pub install_python_logger :
        LoggerArg L → LevelArg → Core World C → Result L × Core World C
    unfolding with_level
    install_python_logger logger l c =
        let log = chosen_logger get_logger logger in
        with_level log (chosen_level get_effective_level l log) c

-- A line of the extension's log with its level.
abbrev pub log_line : ℕ → Value → Emission
log_line n message = record { kind = cb_log; handle = n; payload = message ∷ [] }

module _ (N : Native) {C : Type 0} (to_str : Value → String) where
  open N use {World}

  log_line-fires :
      (c : Core World C) (f : C) (n : ℕ) (v : Value)
      → c.installed ≡ true
      → c.log_callback ≡ some f
      → deliver to_str c (log_line n v) ≡ record c {
        fired = c.fired ++ record { callback = f; args = int n ∷ str (to_str v) ∷ [] } ∷ [];
      }
  log_line-fires c f n v on there =
      deliver-fires to_str c (log_line n v) _ on
        (log_fires to_str c.pcs c.dcs c.log_callback f n v there)

  module _ {L : Type 0} (get_logger : String → L) (get_effective_level : L → ℕ)
      (adapt : L → C) where
    -- The logger that is returned, and the state.
    returned_lem :
        (log l : L) (r : Result (Unit {0}) × Core World C)
        → (returned N to_str get_logger get_effective_level adapt log r).0 ≡ ok l
        → (l ≡ log) × ((returned N to_str get_logger get_effective_level adapt log r).1 ≡ r.1)
    unfolding returned
    returned_lem log l (ok u, c) h = (ground arith, refl)
    returned_lem log l (raises e, c) h = absurd (cc)

    -- The lines of the log go to the callback of the logger.
    abbrev pub IsRouted : L → Core World C → Type 0
    IsRouted log c =
        (n : ℕ) (v : Value)
        → deliver to_str c (log_line n v) ≡ record c {
          fired =
              c.fired ++ record { callback = adapt log; args = int n ∷ str (to_str v) ∷ [] } ∷ [];
        }

    call-IsRouted :
        (k : LogLevel) (log : L) (c : Core World C)
        → c.installed ≡ true
        → IsRouted log (Calls.init_logger N to_str (log_level_int k) (some (adapt log)) c).1
    unfolding Calls.init_logger
    call-IsRouted k log c on n v =
        let same =
          call-SameTables to_str (N.init_logger (log_level_int k) true)
            (record c { log_callback = some (adapt log) }) in
        log_line-fires _ (adapt log) n v (same.same_installed ∙ on) same.same_log

    with_level-IsRouted :
        (log l : L) (r : Result LogLevel) (c : Core World C)
        → c.installed ≡ true
        → (with_level N to_str get_logger get_effective_level adapt log r c).0 ≡ ok l
        → (l ≡ log)
          × IsRouted l (with_level N to_str get_logger get_effective_level adapt log r c).1
    unfolding with_level
    with_level-IsRouted log l (raises e) c on h = absurd (cc)
    with_level-IsRouted log l (ok k) c on h =
        let (same, state) =
          returned_lem log l (Calls.init_logger N to_str (log_level_int k) (some (adapt log)) c)
            h in
        (same, rw (same, state) (call-IsRouted k log c on))

    -- The logger that is returned is the chosen one, and gets the lines.
    pub install_python_logger-IsRouted :
        (logger : LoggerArg L) (lvl : LevelArg) (c : Core World C) (l : L)
        → c.installed ≡ true
        → (install_python_logger N to_str get_logger get_effective_level adapt logger lvl c).0
          ≡ ok l
        → (l ≡ chosen_logger get_logger logger)
          × IsRouted l
              (install_python_logger N to_str get_logger get_effective_level adapt logger lvl c).1
    unfolding install_python_logger
    install_python_logger-IsRouted logger lvl c l on h =
        let log = chosen_logger get_logger logger in
        with_level-IsRouted log l (chosen_level get_effective_level lvl log) c on h

    -- A level that is no LogLevel is refused before anything has changed.
    pub install_python_logger-refused :
        (logger : LoggerArg L) (n : ℕ) (c : Core World C)
        → 6 < n
        → install_python_logger N to_str get_logger get_effective_level adapt logger (number n) c
          ≡ (raises value_error, c)
    unfolding install_python_logger chosen_level to_log_level with_level
    install_python_logger-refused logger n c big = ground arith
