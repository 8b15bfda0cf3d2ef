-- ===== src/Session/Merge.antt =====
-- What a failed session becomes: cwmp_move_session_to_session_queue and
-- event_remove_noretry_event_container keep the queue well-formed.
use icwmp.Prelude.{
  Option, ℕ, ◌+◌, ◌≤◌, ◌≡◌, refl, Bool, true, none, List, [], ◌∷◌, ◌++◌, arith, Bool-cases, inl,
  inr,
}
use icwmp.Event.{EventIdx, EventContainer, idx, is_noretry}
use icwmp.Session.{Rpc, Session, Cwmp, CwmpRet, cwmp_ok}
use icwmp.Session.Queue.{max_int_id, on_head_session, cwmp_add_event_container, save_at}
use icwmp.Session.Retry.{
  starts_with_inform, splice_parameters, merge_events, merge_rpcs, is_dup, requeue, merge_session,
  cwmp_move_session_to_session_queue, remove_noretry,
}
use icwmp.Session.Order.{SortedFrom, after}
use icwmp.Session.Invariant.{SendInv, Inv, Inv-elim, SameSend, add_event-Added, waiting, idle}
use icwmp.Session.Preserve.{
  save_at-SameButBackup, SameButBackup-SameSend, SameSend-trans, save_at-Inv, splice-Inv,
  splice-SameSend,
}

-- The events of another session can always be added.
pub merge_events_lem :
    (olds : List EventContainer) (c : Cwmp)
    → Inv c
    → ((merge_events olds c).0 ≡ cwmp_ok)
      × Inv (merge_events olds c).1
      × SameSend c (merge_events olds c).1
unfolding merge_events
merge_events_lem [] c v = (refl, v, record { send = refl; retries = refl; status = refl })
merge_events_lem (old ∷ olds) c v =
    let a = add_event-Added c old.code old.command_key v in
    let c1 = (cwmp_add_event_container c old.code old.command_key).1 in
    let c2 = splice_parameters c1 a.n old.head_dm_parameter in
    let c3 = save_at c2 a.n in
    let (ok, keeps, same) =
      merge_events_lem olds c3
        (save_at-Inv c2 a.n (splice-Inv c1 a.n old.head_dm_parameter a.keeps)) in
    let step : SameSend c c3 = SameSend-trans c c1 c3 a.apart (
      SameSend-trans c1 c2 c3 (splice-SameSend c1 a.n old.head_dm_parameter)
        (SameButBackup-SameSend c2 c3 (save_at-SameButBackup c2 a.n))) in
    rw (a.returned, merge_events) (ok, keeps, SameSend-trans c c3 _ step same)

merge_rpcs-informs :
    (queued rs : List Rpc)
    → starts_with_inform queued ≡ true
    → starts_with_inform (merge_rpcs queued rs) ≡ true
unfolding merge_rpcs starts_with_inform
merge_rpcs-informs queued [] h = h
merge_rpcs-informs [] (r ∷ rs) h = cc
merge_rpcs-informs (q ∷ qs) (r ∷ rs) h = elim (Bool-cases (is_dup r (q ∷ qs))) [
  | inl d ↦ rw (d, merge_rpcs) (merge_rpcs-informs (q ∷ qs) rs h)
  | inr d ↦ rw (d, merge_rpcs) (merge_rpcs-informs (q ∷ (qs ++ r ∷ [])) rs h)
]

merged_rpcs-Inv :
    (c : Cwmp) (rs : List Rpc)
    → Inv c
    → Inv (on_head_session c (λ q. record q { head_rpc_acs = merge_rpcs q.head_rpc_acs rs }))
unfolding on_head_session
merged_rpcs-Inv c rs v =
    Inv-elim
      (λ c. Inv (on_head_session c (λ q. record q { head_rpc_acs = merge_rpcs q.head_rpc_acs rs })))
      c v (λ w l. record { memory = refl; queued = tt; sending = w; ids = l })
      (λ s i w l. record {
        memory = refl;
        queued = record {
          sorted = i.sorted;
          informs = merge_rpcs-informs s.head_rpc_acs rs i.informs;
          no_cpe = i.no_cpe;
          not_held = i.not_held;
        };
        sending = w;
        ids = l;
      })

on_head-SameSend : (c : Cwmp) (f : Session → Session) → SameSend c (on_head_session c f)
unfolding on_head_session
on_head-SameSend c f = ground arith

merge_session_lem :
    (c : Cwmp) (s : Session)
    → Inv c
    → ((merge_session c s).0 ≡ cwmp_ok)
      × Inv (merge_session c s).1
      × SameSend c (merge_session c s).1
unfolding merge_session
merge_session_lem c s v =
    let (ok, keeps, same) = merge_events_lem s.head_event_container c v in
    let c' = (merge_events s.head_event_container c).1 in
    rw (ok, merge_session)
      (
        refl,
        merged_rpcs-Inv c' s.head_rpc_acs keeps,
        SameSend-trans c c' _ same (on_head-SameSend c' _),
      )

requeue_lem :
    (c : Cwmp) (s : Session)
    → SortedFrom 0 s.head_event_container
    → SendInv c.session_send
    → c.static_id ≤ max_int_id
    → ((requeue (idle c) s).0 ≡ cwmp_ok)
      × Inv (requeue (idle c) s).1
      × SameSend c (requeue (idle c) s).1
unfolding requeue
requeue_lem c s o w l = elim (Bool-cases (starts_with_inform s.head_rpc_acs)) [
  | inl h ↦
      rw (h, requeue)
        (
          refl,
          record {
            memory = refl;
            queued = record { sorted = o; informs = h; no_cpe = refl; not_held = refl };
            sending = w;
            ids = l;
          },
          record { send = refl; retries = refl; status = refl },
        )
  | inr h ↦
      rw (h, requeue)
        (
          refl,
          record {
            memory = refl;
            queued = record { sorted = o; informs = refl; no_cpe = refl; not_held = refl };
            sending = w;
            ids = l;
          },
          record { send = refl; retries = refl; status = refl },
        )
]

-- What a failed session leads to: nothing is sent any more, one more try is counted.
pub record Requeued (c : Cwmp) (r : CwmpRet × Cwmp) : Type 0 where
  pub succeeds : r.0 ≡ cwmp_ok
  pub keeps : Inv r.1
  pub no_send : r.1.session_send ≡ none
  pub counted : r.1.retry_count_session ≡ c.retry_count_session + 1
  pub status : r.1.session_status ≡ c.session_status

-- In a well-formed state a failed session whose events are in order goes back to the queue: the
-- call succeeds, the state is well-formed again, no session is being sent, the count of tries grows
-- by one, and the status is untouched.
pub move_to_queue-Requeued :
    (c : Cwmp) (s : Session)
    → Inv c
    → SortedFrom 0 s.head_event_container
    → Requeued c (cwmp_move_session_to_session_queue c s)
unfolding cwmp_move_session_to_session_queue
move_to_queue-Requeued c s v o =
    Inv-elim (λ c. Requeued c (cwmp_move_session_to_session_queue c s)) c v
      (λ w l.
        let (ok, keeps, same) =
          requeue_lem
            (record c { retry_count_session = c.retry_count_session + 1; session_send = none }) s o
            tt l in
        record {
          succeeds = ok;
          keeps = keeps;
          no_send = same.send;
          counted = same.retries;
          status = same.status;
        })
      (λ q i w l.
        let c' = record (waiting c q) {
          retry_count_session = c.retry_count_session + 1;
          session_send = none;
        } in
        let (ok, keeps, same) =
          merge_session_lem c' s (record { memory = refl; queued = i; sending = tt; ids = l }) in
        record {
          succeeds = ok;
          keeps = keeps;
          no_send = same.send;
          counted = same.retries;
          status = same.status;
        })

SortedFrom-mono : (es : List EventContainer) (m n : ℕ) → m ≤ n → SortedFrom n es → SortedFrom m es
SortedFrom-mono [] m n h s = tt
SortedFrom-mono (e ∷ es) m n h s = (omega arith, s.1)

idx-le-after : (code : EventIdx) → idx code ≤ after code
idx-le-after code = ground arith

-- Leaving events out keeps the order.
pub remove_noretry-SortedFrom :
    (stale : EventIdx → Option EventIdx) (es : List EventContainer) (cr : Bool) (n : ℕ)
    → SortedFrom n es
    → SortedFrom n (remove_noretry stale es cr).0
unfolding remove_noretry
remove_noretry-SortedFrom stale [] cr n s = tt
remove_noretry-SortedFrom stale (e ∷ es) cr n s = elim (Bool-cases (is_noretry e.code)) [
  | inl h ↦
      rw (h, remove_noretry)
        (SortedFrom-mono _ n (after e.code) (omega (arith, s.0, idx-le-after e.code))
          (remove_noretry-SortedFrom stale es _ (after e.code) s.1))
  | inr h ↦ rw (h, remove_noretry) (s.0, remove_noretry-SortedFrom stale es _ (after e.code) s.1)
]
