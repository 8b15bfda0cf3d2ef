-- ===== src/Session/AtEnd.antt =====
-- What is asked for during a session is done at its end (cwmp_set_end_session, run_session_end_func of cwmp.c).
use icwmp.Prelude.{
  ℕ, ◌+◌, Bool, true, false, ◌&&◌, ◌||◌, not, List, [], ◌∷◌, ◌++◌, ◌≡◌, map, if◌then◌else◌,
}
use icwmp.Session.{Session, EndSession, no_end_session}
use icwmp.Session.Schedule.{
  ExecuteEndSession, EndAction, call, external_end_session, external_factory_reset, ip_ping,
  download_diagnostic, upload_diagnostic, external_reboot, apply_acs_changes, exit,
  run_session_end_func,
}

-- The flags of END_SESSION_*.
pub data Flag : Type 0 where
  reboot external_action reload factory_reset ipping download upload : Flag

abbrev pub is_set : EndSession → Flag → Bool
is_set f reboot = f.reboot
is_set f external_action = f.external_action
is_set f reload = f.reload
is_set f factory_reset = f.factory_reset
is_set f ipping = f.ipping_diagnostic
is_set f download = f.download_diagnostic
is_set f upload = f.upload_diagnostic

-- Whether an action is what a flag stands for.
abbrev pub does : Flag → EndAction → Bool
does reboot external_reboot = true
does external_action external_end_session = true
does reload apply_acs_changes = true
does factory_reset external_factory_reset = true
does ipping ip_ping = true
does download download_diagnostic = true
does upload upload_diagnostic = true
does _ _ = false

abbrev pub is_exit : EndAction → Bool
is_exit exit = true
is_exit _ = false

abbrev pub count_of : (EndAction → Bool) → List EndAction → ℕ
count_of f [] = 0
count_of f (a ∷ as') = (if f a then 1 else 0) + count_of f as'

-- Whether the flag's action is reached: a factory reset comes before all but the external action, and a reboot before
-- the reload of the configuration.
abbrev pub reached : EndSession → Flag → Bool
reached f external_action = true
reached f factory_reset = true
reached f reload = not (f.factory_reset || f.reboot)
reached f flag = not f.factory_reset

-- What the end of the session `t` does, with the functions of `list` and with the flags `asked`.
pub record Done (list : List ExecuteEndSession) (asked : Flag → Bool) (t : Session) : Type 0 where
  pub after : List EndAction
  pub calls : (run_session_end_func list t).0 ≡ map {A = ExecuteEndSession} call list ++ after
  pub emptied : (run_session_end_func list t).1 ≡ []
  pub once :
      (flag : Flag)
      → count_of (does flag) after ≡ (if asked flag && reached t.end_session flag then 1 else 0)
  pub ends : count_of is_exit after ≡ (if asked factory_reset || asked reboot then 1 else 0)
  pub cleared :
      (run_session_end_func list t).2.end_session
      ≡ (if asked factory_reset || asked reboot then t.end_session else no_end_session)

-- The flags of the session are or-ed with those that are asked for.
or_flags : EndSession → EndSession → EndSession
or_flags e f = record {
  reboot = e.reboot || f.reboot;
  external_action = e.external_action || f.external_action;
  reload = e.reload || f.reload;
  factory_reset = e.factory_reset || f.factory_reset;
  ipping_diagnostic = e.ipping_diagnostic || f.ipping_diagnostic;
  download_diagnostic = e.download_diagnostic || f.download_diagnostic;
  upload_diagnostic = e.upload_diagnostic || f.upload_diagnostic;
}
