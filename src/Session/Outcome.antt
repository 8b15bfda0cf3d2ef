-- ===== src/Session/Outcome.antt =====
-- A session that failed is the next one that starts (cwmp_schedule_session of cwmp.c).
use icwmp.Prelude.{ℕ, true, none, some, [], ◌∷◌, ◌≡◌, inl, inr, refl, sym, subst, ◌∙◌, Bool-cases}
use icwmp.Session.{Session, Cwmp, live, session_running}
use icwmp.Session.Retry.{
  cwmp_move_session_to_session_queue, requeue, starts_with_inform, cwmp_prepare_value_change,
  cwmp_move_session_to_session_send,
}
use icwmp.Session.Schedule.{must_retry, failed_session, end_session, start_session, begin_session}
use icwmp.Session.Invariant.{idle}

-- A state with one session queued, none being sent and no changed value starts that session.
starts :
    (d : Cwmp) (t : Session) (later : ℕ)
    → d.list_value_change ≡ []
    → d.session_send ≡ none
    → d.head_session_queue ≡ live t ∷ []
    → ((start_session d later).1.session_send ≡ some t)
      × ((start_session d later).1.session_status.last_status ≡ session_running)
unfolding start_session begin_session cwmp_prepare_value_change cwmp_move_session_to_session_send
starts d t later n e q =
    subst
      (λ d.
        ((start_session d later).1.session_send ≡ some t)
        × ((start_session d later).1.session_status.last_status ≡ session_running))
      (λ i. record d {
        list_value_change = sym n i;
        session_send = sym e i;
        head_session_queue = sym q i;
      })
      (refl, refl)

requeued :
    (c : Cwmp) (s : Session)
    → let d = (cwmp_move_session_to_session_queue (idle c) s).1 in
      (t : Session) × (d.head_session_queue ≡ live t ∷ [])
      × (t.head_event_container ≡ s.head_event_container)
      × (starts_with_inform t.head_rpc_acs ≡ true)
      × (d.session_send ≡ none)
      × (d.list_value_change ≡ c.list_value_change)
unfolding cwmp_move_session_to_session_queue requeue starts_with_inform
requeued c s = elim (Bool-cases (starts_with_inform s.head_rpc_acs)) [
  | inl h ↦ rw (h, requeue) (_, refl, refl, h, refl, refl)
  | inr h ↦ rw (h, requeue) (_, refl, refl, refl, refl, refl)
]

-- Where the queue is empty, memory suffices and no changed value waits, a session that has to be
-- tried again is the next one that starts: it has the events it had and an Inform as its first RPC,
-- and the status says that a session runs.
pub resend :
    (c : Cwmp) (s : Session) (now wait later : ℕ)
    → c.list_value_change ≡ []
    → must_retry c s ≡ true
    → let d = (start_session (end_session (idle c) s now wait) later).1 in
      (t : Session) × (d.session_send ≡ some t)
      × (t.head_event_container ≡ s.head_event_container)
      × (starts_with_inform t.head_rpc_acs ≡ true)
      × (d.session_status.last_status ≡ session_running)
unfolding end_session failed_session must_retry
resend c s now wait later n h =
    let (t, q, events, informs, e, l) = requeued c s in
    let (sends, runs) = starts (failed_session (idle c) s now wait) t later (l ∙ n) e q in
    rw (h, end_session) (t, sends, events, informs, runs)
