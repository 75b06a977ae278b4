-- ===== src/Logging/Install/Named.antt =====
-- What `install_python_logger` of aiolibdatachannel/__init__.py sets up when it derives the level: the
-- logger, the way of a line to it, and the lines that the extension lets through.
use Prim.Native.String.{String}
use aiolibdatachannel.Prelude.{ℕ, ◌≡◌, ap, sym, ◌∙◌, true, leb, ◌&&◌, [], ◌∷◌, arith, some, All}
use aiolibdatachannel.Errors.{ok}
use aiolibdatachannel.Native.{Native, Value}
use aiolibdatachannel.Core.Machine.{Core}
use aiolibdatachannel.Core.Calls
use aiolibdatachannel.Logging.{
  log_level_int, rtc_to_py_level, py_level_to_rtc, critical_level, derived_level_exact,
}
use aiolibdatachannel.Logging.Install.{
  LoggerArg, by_name, by_default, given, derived, chosen_logger, chosen_level,
  install_python_logger, with_level, returned_lem, IsRouted, install_python_logger-IsRouted,
}

-- The logger that the argument asks for.
abbrev pub IsNamed : {L : Type 0} → (String → L) → LoggerArg L → L → Type 0
IsNamed get_logger (by_name name) l = l ≡ get_logger name
IsNamed get_logger by_default l = l ≡ get_logger "aiolibdatachannel"
IsNamed get_logger (given g) l = l ≡ g

-- The number lets a line of one of the levels FATAL to DEBUG through exactly if a logger with the
-- threshold takes the level that the adapter gives the line, as long as the threshold is at most
-- CRITICAL.
abbrev pub IsFilter : ℕ → ℕ → Type 0
IsFilter threshold k =
    All (λ n. leb threshold (rtc_to_py_level n) ≡ (leb n k && leb threshold critical_level))
      (1 ∷ 2 ∷ 3 ∷ 4 ∷ 5 ∷ [])

derived-IsFilter : (threshold : ℕ) → IsFilter threshold (log_level_int (py_level_to_rtc threshold))
derived-IsFilter t = (
  derived_level_exact t 1 (omega arith) (omega arith),
  (
    derived_level_exact t 2 (omega arith) (omega arith),
    (
      derived_level_exact t 3 (omega arith) (omega arith),
      (
        derived_level_exact t 4 (omega arith) (omega arith),
        (derived_level_exact t 5 (omega arith) (omega arith), tt),
      ),
    ),
  ),
)

module _ (N : Native) {C : Type 0} (to_str : Value → String) {L : Type 0} (get_logger : String → L)
    (get_effective_level : L → ℕ) (adapt : L → C) where
  open N use {World}

  chosen-IsNamed :
      (logger : LoggerArg L) (l : L)
      → l ≡ chosen_logger get_logger logger
      → IsNamed get_logger logger l
  unfolding chosen_logger
  chosen-IsNamed (by_name name) l e = e
  chosen-IsNamed by_default l e = e
  chosen-IsNamed (given g) l e = e

  installed_state :
      (logger : LoggerArg L) (c : Core World C) (l : L)
      → (install_python_logger N to_str get_logger get_effective_level adapt logger derived c).0
        ≡ ok l
      → (install_python_logger N to_str get_logger get_effective_level adapt logger derived c).1
        ≡ (Calls.init_logger N to_str
            (log_level_int (py_level_to_rtc (get_effective_level l)))
            (some (adapt l))
            c).1
  unfolding install_python_logger chosen_level with_level
  installed_state logger c l h =
      let log = chosen_logger get_logger logger in
      let (same, state) =
        returned_lem N to_str get_logger get_effective_level adapt log l
          (Calls.init_logger N to_str (log_level_int (py_level_to_rtc (get_effective_level log)))
            (some (adapt log)) c)
          h in
      state
      ∙ ap
          (λ g.
            (Calls.init_logger N to_str (log_level_int (py_level_to_rtc (get_effective_level g)))
              (some (adapt g)) c).1)
          (sym same)

  -- With the dispatcher installed, and the level to be derived from the logger: when
  -- `install_python_logger` returns a logger, it is the one of the name that is given, the one named
  -- aiolibdatachannel if none is given, or the very logger that is given; in the state that it leaves
  -- each line that the extension reports calls the adapter of that logger and nothing else; and it
  -- leaves what a call of the extension's `init_logger` leaves with that adapter and with a level
  -- which lets a line of one of the levels FATAL to DEBUG through exactly if that logger takes the
  -- level that the adapter gives the line, as long as its threshold is at most CRITICAL (the logger
  -- takes no line beyond that).
  pub install_python_logger-IsNamed :
      (logger : LoggerArg L) (c : Core World C) (l : L)
      → c.installed ≡ true
      → (install_python_logger N to_str get_logger get_effective_level adapt logger derived c).0
        ≡ ok l
      → let e =
          (install_python_logger N to_str get_logger get_effective_level adapt logger derived
            c).1 in
        IsNamed get_logger logger l
        × IsRouted N to_str get_logger get_effective_level adapt l e
        × (k : ℕ) × (e ≡ (Calls.init_logger N to_str k (some (adapt l)) c).1)
        × IsFilter (get_effective_level l) k
  install_python_logger-IsNamed logger c l on h =
      let (same, routed) =
        install_python_logger-IsRouted N to_str get_logger get_effective_level adapt logger derived
          c l on h in
      (
        chosen-IsNamed logger l same,
        routed,
        log_level_int (py_level_to_rtc (get_effective_level l)),
        installed_state logger c l h,
        derived-IsFilter (get_effective_level l),
      )
