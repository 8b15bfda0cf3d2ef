-- ===== src/Session/Steps.antt =====
-- Every interleaving of the threads that use the queue, as steps under mutex_session_queue: events are
-- put in, a session is started, in two steps, fails or succeeds.
use icwmp.Prelude.{
  ℕ, ◌≡◌, refl, Option, none, some, List, [], ◌∷◌, arith, ◌==◌, Bool-cases, inl, inr, ◌⊎◌,
  Option-cases,
}
use icwmp.Prelude.Text.{Text, str_eq}
use icwmp.Event.{EventIdx, periodic, boot, value_change, diagnostics_complete, connection_request}
use icwmp.Event.Params.{DmParameter}
use icwmp.Session.{Session, Cwmp}
use icwmp.Session.Queue.{cwmp_add_event_container}
use icwmp.Session.Causes.{
  add_and_save, get_rpc_methods, two_events_and_rpc, cwmp_root_cause_event_boot,
  cwmp_root_cause_get_rpc_method, cwmp_root_cause_transfer_complete,
  cwmp_root_cause_dustatechange_complete, LoadType, sotfware_version_value_change,
  cwmp_root_cause_event_ipdiagnostic, http_success_cr,
}
use icwmp.Session.Retry.{
  splice_parameters, cwmp_prepare_value_change, cwmp_move_session_to_session_send,
}
use icwmp.Session.Schedule.{
  begin_session, end_session, must_retry, failed_session, succeeded_session,
}
use icwmp.Session.Order.{SortedFrom}
use icwmp.Session.Invariant.{Inv, Inv-elim, add_event-Added}
use icwmp.Session.Preserve.{add_and_save_lem, add_rpc-Inv, save_at-Inv, splice-Inv}
use icwmp.Session.Merge.{move_to_queue-Requeued}

-- One event, an event without a save, one with two events and a report, and the start and the end of a
-- session. While a session is sent its events can only be taken out (event_remove_*), so `ends` takes
-- any session whose events are in order.
pub data Step : Cwmp → Cwmp → Type 0 where
  saves : (c : Cwmp) (code : EventIdx) (key : Text) → Step c (add_and_save c code key).1
  adds : (c : Cwmp) (code : EventIdx) (key : Text) → Step c (cwmp_add_event_container c code key).1
  boots : (c : Cwmp) → Step c (cwmp_root_cause_event_boot c).1
  asks_methods : (c : Cwmp) → Step c (cwmp_root_cause_get_rpc_method c).1
  transfers :
      (c : Cwmp) (type : LoadType) (key : Option Text) (p : ℕ)
      → Step c (cwmp_root_cause_transfer_complete c type key p).1
  changes_du :
      (c : Cwmp) (key : Option Text) (p : ℕ)
      → Step c (cwmp_root_cause_dustatechange_complete c key p).1
  connects : (c : Cwmp) → Step c (http_success_cr c)
  diagnoses : (c : Cwmp) → Step c (cwmp_root_cause_event_ipdiagnostic c)
  updates : (c : Cwmp) (old new : Option Text) → Step c (sotfware_version_value_change c old new)
  prepares : (c : Cwmp) → Step c (cwmp_prepare_value_change c)
  begins : (c : Cwmp) (now : ℕ) → Step c (begin_session c now).1
  ends :
      (c : Cwmp) (s : Session) (now wait : ℕ)
      → SortedFrom 0 s.head_event_container
      → Step c (end_session c s now wait)

pub data Reach (c : Cwmp) : Cwmp → Type 0 where
  here : Reach c c
  next : {d e : Cwmp} → Reach c d → Step d e → Reach c e

pub list_cases :
    (ps : List DmParameter)
    → (ps ≡ []) ⊎ ((p : DmParameter) × (qs : List DmParameter) × (ps ≡ p ∷ qs))
list_cases [] = inl refl
list_cases (p ∷ ps) = inr (p, ps, refl)

get_rpc_methods-Inv : (c : Cwmp) → Inv c → Inv (get_rpc_methods c).1
unfolding get_rpc_methods
get_rpc_methods-Inv c v =
    let (ok, keeps, same) = add_and_save_lem c periodic [] v in
    rw (ok, get_rpc_methods) (add_rpc-Inv _ _ none keeps)

two_events_and_rpc-Inv :
    (c : Cwmp) (first second : EventIdx) (key : Text) (rpc p : ℕ)
    → Inv c
    → Inv (two_events_and_rpc c first second key rpc p).1
unfolding two_events_and_rpc
two_events_and_rpc-Inv c first second key rpc p v =
    let a = add_event-Added c first [] v in
    let b = add_event-Added _ second key a.keeps in
    rw (a.returned, two_events_and_rpc)
      (rw (b.returned, two_events_and_rpc) (add_rpc-Inv _ rpc (some p) b.keeps))

boot-Inv : (c : Cwmp) → Inv c → Inv (cwmp_root_cause_event_boot c).1
unfolding cwmp_root_cause_event_boot
boot-Inv c v = elim (Bool-cases (c.env_boot == 1)) [
  | inl h ↦
      rw (h, cwmp_root_cause_event_boot)
        (add_and_save_lem (record c { env_boot = 0 }) boot []
          (record { memory = v.memory; queued = v.queued; sending = v.sending; ids = v.ids })).1
  | inr h ↦ rw (h, cwmp_root_cause_event_boot) v
]

asks-Inv : (c : Cwmp) → Inv c → Inv (cwmp_root_cause_get_rpc_method c).1
unfolding cwmp_root_cause_get_rpc_method
asks-Inv c v = elim (Bool-cases (c.env_periodic == 2)) [
  | inl h ↦
      rw (h, cwmp_root_cause_get_rpc_method)
        (get_rpc_methods-Inv (record c { env_periodic = 0 })
          (record { memory = v.memory; queued = v.queued; sending = v.sending; ids = v.ids }))
  | inr h ↦ rw (h, cwmp_root_cause_get_rpc_method) v
]

updates-Inv :
    (c : Cwmp) (old new : Option Text) → Inv c → Inv (sotfware_version_value_change c old new)
unfolding sotfware_version_value_change
updates-Inv c none new v = v
updates-Inv c (some []) new v = v
updates-Inv c (some (b ∷ old)) none v = v
updates-Inv c (some (b ∷ old)) (some w) v = elim (Bool-cases (str_eq (b ∷ old) w)) [
  | inl h ↦ rw (h, sotfware_version_value_change) v
  | inr h ↦ rw (h, sotfware_version_value_change) (add_event-Added c value_change [] v).keeps
]

pub prepare-Inv : (c : Cwmp) → Inv c → Inv (cwmp_prepare_value_change c)
unfolding cwmp_prepare_value_change
prepare-Inv c v = elim (list_cases c.list_value_change) [
  | inl h ↦ rw (h, cwmp_prepare_value_change) v
  | inr (p, ps, h) ↦
      let a = add_event-Added c value_change [] v in
      let c' = splice_parameters (cwmp_add_event_container c value_change []).1 a.n (p ∷ ps) in
      let w = splice-Inv _ a.n (p ∷ ps) a.keeps in
      rw (h, cwmp_prepare_value_change)
        (rw (a.returned, cwmp_prepare_value_change)
          (save_at-Inv (record c' { list_value_change = [] }) a.n
            (record { memory = w.memory; queued = w.queued; sending = w.sending; ids = w.ids })))
]

pub move_to_send-Inv : (c : Cwmp) → Inv c → Inv (cwmp_move_session_to_session_send c).1
unfolding cwmp_move_session_to_session_send
move_to_send-Inv c v = elim (Option-cases c.session_send) [
  | inr (s, h) ↦ rw (h, cwmp_move_session_to_session_send) v
  | inl h ↦
      Inv-elim (λ c. c.session_send ≡ none → Inv (cwmp_move_session_to_session_send c).1) c v
        (λ w l e.
          rw (e, cwmp_move_session_to_session_send)
            (record { memory = refl; queued = tt; sending = w; ids = l }))
        (λ s i w l e.
          rw (e, cwmp_move_session_to_session_send)
            (record { memory = refl; queued = tt; sending = i.sorted; ids = l }))
        h
]

pub begin-Inv : (c : Cwmp) (now : ℕ) → Inv c → Inv (begin_session c now).1
unfolding begin_session
begin-Inv c now v = let w = move_to_send-Inv c v in ground arith

pub end-Inv :
    (c : Cwmp) (s : Session) (now wait : ℕ)
    → SortedFrom 0 s.head_event_container
    → Inv c
    → Inv (end_session c s now wait)
unfolding end_session failed_session succeeded_session
end-Inv c s now wait o v = elim (Bool-cases (must_retry c s)) [
  | inl h ↦
      let r = (move_to_queue-Requeued c s v o).keeps in
      rw (h, end_session)
        (record { memory = r.memory; queued = r.queued; sending = r.sending; ids = r.ids })
  | inr h ↦
      rw (h, end_session)
        (record { memory = v.memory; queued = v.queued; sending = tt; ids = v.ids })
]

-- Each step keeps the state well-formed.
pub Step-Inv : {c d : Cwmp} → Step c d → Inv c → Inv d
unfolding http_success_cr cwmp_root_cause_event_ipdiagnostic cwmp_root_cause_transfer_complete
    cwmp_root_cause_dustatechange_complete
Step-Inv (saves c code key) v = (add_and_save_lem c code key v).1
Step-Inv (adds c code key) v = (add_event-Added c code key v).keeps
Step-Inv (boots c) v = boot-Inv c v
Step-Inv (asks_methods c) v = asks-Inv c v
Step-Inv (transfers c type key p) v = two_events_and_rpc-Inv c _ _ _ _ p v
Step-Inv (changes_du c key p) v = two_events_and_rpc-Inv c _ _ _ _ p v
Step-Inv (connects c) v = (add_event-Added c connection_request [] v).keeps
Step-Inv (diagnoses c) v = (add_and_save_lem c diagnostics_complete [] v).1
Step-Inv (updates c old new) v = updates-Inv c old new v
Step-Inv (prepares c) v = prepare-Inv c v
Step-Inv (begins c now) v = begin-Inv c now v
Step-Inv (ends c s now wait o) v = end-Inv c s now wait o v

-- While memory suffices, whatever the threads do to the queue from a well-formed state on, in
-- whatever order, the state stays well-formed: at most one session waits in the queue,
-- `head_event_container` points to it, its events are in order with those of type SINGLE at most
-- once, its first RPC is an Inform, it has no request of the ACS left, the events being sent are in
-- order too, and the identifiers stay in range. A step that ends a session may take any session
-- whose events are in order.
pub Reach-Inv : {c d : Cwmp} → Inv c → Reach c d → Inv d
Reach-Inv v here = v
Reach-Inv v (next r s) = Step-Inv s (Reach-Inv v r)
