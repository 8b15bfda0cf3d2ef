-- ===== src/Session/Counts.antt =====
-- The counts of tries, failures and successes over a run of the scheduler (cwmp_schedule_session of cwmp.c).
use icwmp.Prelude.{ℕ, suc, ◌+◌, Bool, true, false, ◌&&◌, not, List, [], ◌∷◌, ◌≡◌}
use icwmp.Prelude.Text.{Text}
use icwmp.Event.{EventIdx}
use icwmp.Session.{Session, Cwmp}
use icwmp.Session.Causes.{add_and_save}
use icwmp.Session.Invariant.{Inv}
use icwmp.Session.Order.{SortedFrom}
use icwmp.Session.Queue.{cwmp_add_event_container}
use icwmp.Session.Retry.{cwmp_prepare_value_change}
use icwmp.Session.Schedule.{is_retry, is_empty, begin_session, end_session}

-- A session fails where its error asks for another try, except that one without events, which a connection request
-- of the server opened, is given up.
abbrev pub fails : Cwmp → Session → Bool
fails c s = is_retry s.error && not (is_empty s.head_event_container && c.cwmp_cr_event)

-- A run, with the outcomes of the sessions that ended in it, the last one first: true is a failure.
pub data Run (c : Cwmp) : List Bool → Cwmp → Type 0 where
  here : Run c [] c
  adds_event :
      {o : List Bool} {d : Cwmp}
      → Run c o d
      → (code : EventIdx) (key : Text) → Run c o (cwmp_add_event_container d code key).1
  saves_event :
      {o : List Bool} {d : Cwmp}
      → Run c o d
      → (code : EventIdx) (key : Text) → Run c o (add_and_save d code key).1
  prepares : {o : List Bool} {d : Cwmp} → Run c o d → Run c o (cwmp_prepare_value_change d)
  begins : {o : List Bool} {d : Cwmp} → Run c o d → (now : ℕ) → Run c o (begin_session d now).1
  ends_session :
      {o : List Bool} {d : Cwmp}
      → Run c o d
      → (s : Session) (now wait : ℕ) → SortedFrom 0 s.head_event_container
      → Run c (fails d s ∷ o) (end_session d s now wait)

abbrev pub failures : List Bool → ℕ
failures [] = 0
failures (true ∷ o) = suc (failures o)
failures (false ∷ o) = failures o

abbrev pub successes : List Bool → ℕ
successes [] = 0
successes (true ∷ o) = successes o
successes (false ∷ o) = suc (successes o)

-- The failures since the last success, and `n` from before the run.
abbrev pub streak : ℕ → List Bool → ℕ
streak n [] = n
streak n (true ∷ o) = suc (streak n o)
streak n (false ∷ o) = 0

pub record Counted (c : Cwmp) (o : List Bool) (d : Cwmp) : Type 0 where
  pub keeps : Inv d
  pub retries : d.retry_count_session ≡ streak c.retry_count_session o
  pub failed : d.session_status.failure_session ≡ c.session_status.failure_session + failures o
  pub succeeded : d.session_status.success_session ≡ c.session_status.success_session + successes o

-- What leaves the three counts alone.
pub record SameCounts (c d : Cwmp) : Type 0 where
  pub retries : d.retry_count_session ≡ c.retry_count_session
  pub failed : d.session_status.failure_session ≡ c.session_status.failure_session
  pub succeeded : d.session_status.success_session ≡ c.session_status.success_session
