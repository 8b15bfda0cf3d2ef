-- ===== src/Session/Schedule.antt =====
-- One round of cwmp_schedule_session (cwmp.c): before and after the RPCs are exchanged, and the actions of
-- run_session_end_func. The times are arguments.
use icwmp.Prelude.{
  ℕ, ◌+◌, Bool, true, false, ◌&&◌, ◌||◌, not, none, some, List, [], ◌∷◌, ◌++◌, if◌then◌else◌,
}
use icwmp.Session.{
  Session, Cwmp, CwmpRet, cwmp_ok, cwmp_retry_session, no_end_session, session_running,
  session_failure, session_success, EndSession,
}
use icwmp.Session.Retry.{
  cwmp_prepare_value_change, cwmp_move_session_to_session_send, cwmp_move_session_to_session_queue,
}

-- From cwmp_move_session_to_session_send up to `Start session`.
unfoldable pub begin_session : Cwmp → ℕ → CwmpRet × Cwmp
unfolding cwmp_move_session_to_session_send
begin_session c now =
    let (e, c') = cwmp_move_session_to_session_send c in
    elim e [
      | cwmp_ok ↦ (
        cwmp_ok,
        record c' {
          session_status = record (c'.session_status) {
            last_end_time = 0;
            last_start_time = now;
            last_status = session_running;
            next_retry = 0;
          };
        },
      )
      | other ↦ (other, c')
    ]

-- Up to `Start session`. Between the two calls mutex_session_queue is free.
unfoldable pub start_session : Cwmp → ℕ → CwmpRet × Cwmp
unfolding cwmp_prepare_value_change begin_session
start_session c now = begin_session (cwmp_prepare_value_change c) now

abbrev pub is_retry : CwmpRet → Bool
is_retry cwmp_retry_session = true
is_retry _ = false

abbrev pub is_empty {ℓ} : {A : Type ℓ} → List A → Bool
is_empty [] = true
is_empty (x ∷ xs) = false

-- The test for another try.
unfoldable pub must_retry : Cwmp → Session → Bool
must_retry c s =
    is_retry s.error
    && (not (is_empty s.head_event_container)
        || (is_empty s.head_event_container && not c.cwmp_cr_event))

-- The session has failed and goes back to the queue. `wait` is cwmp_get_retry_interval.
unfoldable pub failed_session : Cwmp → Session → ℕ → ℕ → Cwmp
unfolding cwmp_move_session_to_session_queue
failed_session c s now wait =
    let c' = (cwmp_move_session_to_session_queue c s).1 in
    record c' {
      session_status = record (c'.session_status) {
        last_end_time = now;
        last_status = session_failure;
        next_retry = now + wait;
        failure_session = c'.session_status.failure_session + 1;
      };
    }

unfoldable pub succeeded_session : Cwmp → ℕ → Cwmp
succeeded_session c now = record c {
  session_send = none;
  retry_count_session = 0;
  session_status = record (c.session_status) {
    last_end_time = now;
    last_status = session_success;
    next_retry = 0;
    success_session = c.session_status.success_session + 1;
  };
}

-- From `End session` on, behind run_session_end_func.
unfoldable pub end_session : Cwmp → Session → ℕ → ℕ → Cwmp
unfolding must_retry
end_session c s now wait =
    if must_retry c s then failed_session c s now wait else succeeded_session c now

-- A function that the data model asks for at the end of the session: `function` stands for the pointer, `data_` for
-- what it is called with.
pub record ExecuteEndSession : Type 0 where
  pub function : ℕ
  pub action : ℕ
  pub data_ : ℕ

-- list_execute_end_session, with memory for the entry.
unfoldable pub dm_add_end_session :
    List ExecuteEndSession → ExecuteEndSession → List ExecuteEndSession
dm_add_end_session list e = list ++ e ∷ []

pub data EndAction : Type 0 where
  call : ExecuteEndSession → EndAction
  external_end_session external_factory_reset ip_ping download_diagnostic : EndAction
  upload_diagnostic external_reboot apply_acs_changes restart_services exit : EndAction

-- The calls in their order, and the list that is left.
unfoldable pub apply_end_session : List ExecuteEndSession → List EndAction × List ExecuteEndSession
apply_end_session [] = ([], [])
apply_end_session (e ∷ es) = let (actions, rest) = apply_end_session es in (call e ∷ actions, rest)

abbrev pub when {ℓ} : {A : Type ℓ} → Bool → List A → List A
when b xs = if b then xs else []

-- The actions behind apply_end_session, in their order; `exit` ends the process, and what stands behind it is not run.
unfoldable pub flag_actions : EndSession → List EndAction
flag_actions f =
    let reload = when f.reload (apply_acs_changes ∷ []) ++ restart_services ∷ [] in
    let reboot = if f.reboot then external_reboot ∷ exit ∷ [] else reload in
    let diagnostics =
      when f.ipping_diagnostic (ip_ping ∷ [])
      ++ (when f.download_diagnostic (download_diagnostic ∷ [])
          ++ (when f.upload_diagnostic (upload_diagnostic ∷ []) ++ reboot)) in
    let reset = if f.factory_reset then external_factory_reset ∷ exit ∷ [] else diagnostics in
    when f.external_action (external_end_session ∷ []) ++ reset

-- The actions, the list that is left, and the session.
unfoldable pub run_session_end_func :
    List ExecuteEndSession → Session → List EndAction × List ExecuteEndSession × Session
unfolding apply_end_session flag_actions
run_session_end_func list s =
    let f = s.end_session in
    let (calls, rest) = apply_end_session list in
    (
      calls ++ flag_actions f,
      rest,
      if f.factory_reset || f.reboot then s else record s { end_session = no_end_session },
    )

-- cwmp_set_end_session: the flags are or-ed into those of the session that is sent.
unfoldable pub cwmp_set_end_session : Cwmp → EndSession → Cwmp
cwmp_set_end_session c f = elim c.session_send [
  | none ↦ c
  | some s ↦ record c {
    session_send = some (record s {
      end_session = record {
        reboot = s.end_session.reboot || f.reboot;
        external_action = s.end_session.external_action || f.external_action;
        reload = s.end_session.reload || f.reload;
        factory_reset = s.end_session.factory_reset || f.factory_reset;
        ipping_diagnostic = s.end_session.ipping_diagnostic || f.ipping_diagnostic;
        download_diagnostic = s.end_session.download_diagnostic || f.download_diagnostic;
        upload_diagnostic = s.end_session.upload_diagnostic || f.upload_diagnostic;
      };
    });
  }
]
