-- ===== src/Session/Lossless.antt =====
-- Merging a failed session into the queue loses no event and doubles none
-- (cwmp_move_session_to_session_queue, cwmp.c).
use icwmp.Prelude.{
  ℕ, zero, suc, ◌+◌, ◌≤◌, ◌<◌, ◌≡◌, refl, sym, ap, true, none, some, List, [], ◌∷◌, arith, ◌==◌,
  if◌then◌else◌, Bool-cases, inl, inr, min, get_elem?, insert_at, modify, ◌∙◌, ◌++◌,
}
use icwmp.Prelude.Text.{Text}
use icwmp.Event.{EventIdx, EventContainer, idx, is_single, idx_injective}
use icwmp.Event.Params.{DmParameter}
use icwmp.Session.{Session, Cwmp, head_session, Rpc}
use icwmp.Session.Queue.{cwmp_add_event_container, save_at, on_head_session, container_at}
use icwmp.Session.Retry.{
  splice_parameters, merge_events, merge_rpcs, requeue, starts_with_inform, merge_session,
  cwmp_move_session_to_session_queue,
}
use icwmp.Session.Order.{SortedFrom, after}
use icwmp.Session.Invariant.{Inv, Inv-elim, add_event-Added, pending, idle, waiting}
use icwmp.Session.Merge.{merge_events_lem}
use icwmp.Session.Preserve.{save_at-SameButBackup, SameButBackup, splice-Inv, save_at-Inv}

abbrev pub one : EventIdx → EventIdx → ℕ
one a b = if idx a == idx b then 1 else 0

-- How often a code occurs.
unfoldable pub count : EventIdx → List EventContainer → ℕ
count code [] = 0
count code (e ∷ es) = one e.code code + count code es

-- What two lists of events make together: an event of type SINGLE once, any other as often as both.
abbrev pub joined : EventIdx → ℕ → ℕ → ℕ
joined code a b = if is_single code then min 1 (a + b) else a + b

count-insert_at :
    (code : EventIdx) (es : List EventContainer) (n : ℕ) (x : EventContainer)
    → count code (insert_at n x es) ≡ one x.code code + count code es
unfolding count
count-insert_at code [] n x = refl
count-insert_at code (e ∷ es) zero x = refl
count-insert_at code (e ∷ es) (suc n) x = omega (arith, count-insert_at code es n x)

count-modify :
    (code : EventIdx) (es : List EventContainer) (n : ℕ) (ps : List DmParameter)
    → count code (modify es n (λ e. record e { head_dm_parameter = ps ++ e.head_dm_parameter }))
      ≡ count code es
unfolding count
count-modify code [] n ps = refl
count-modify code (e ∷ es) zero ps = refl
count-modify code (e ∷ es) (suc n) ps = omega (arith, count-modify code es n ps)

count-get_elem? :
    (code : EventIdx) (es : List EventContainer) (n : ℕ) (e : EventContainer)
    → get_elem? es n ≡ some e
    → e.code ≡ code
    → 1 ≤ count code es
unfolding count
count-get_elem? code [] n e h k = cc
count-get_elem? code (d ∷ es) zero e h k = ground arith
count-get_elem? code (d ∷ es) (suc n) e h k = omega (arith, count-get_elem? code es n e h k)

count_below :
    (code : EventIdx) (es : List EventContainer) (m : ℕ)
    → SortedFrom m es
    → idx code < m
    → count code es ≡ 0
unfolding count
count_below code [] m s h = refl
count_below code (e ∷ es) m s h = ground (arith, count_below code es (after e.code) s.1)

-- In order, an event of type SINGLE occurs at most once.
count_single :
    (code : EventIdx) (es : List EventContainer) (m : ℕ)
    → SortedFrom m es
    → is_single code ≡ true
    → count code es ≤ 1
unfolding count
count_single code [] m s h = omega arith
count_single code (e ∷ es) m s h = elim (Bool-cases (idx e.code == idx code)) [
  | inr p ↦ ground (arith, count_single code es (after e.code) s.1 h)
  | inl p ↦ ground (
    arith,
    count_below code es (after e.code) s.1,
    ap is_single (idx_injective e.code code (ground arith)),
  )
]

pending-SortedFrom : (c : Cwmp) → Inv c → SortedFrom 0 (pending c)
unfolding head_session
pending-SortedFrom c v =
    Inv-elim (λ c. SortedFrom 0 (pending c)) c v (λ w l. tt) (λ s i w l. i.sorted)

container_at-pending : (c : Cwmp) (n : ℕ) → container_at c n ≡ get_elem? (pending c) n
unfolding container_at
container_at-pending c n = ground arith

-- In a well-formed state adding an event changes how often each code waits by the new event alone:
-- an event of type SINGLE waits at most once, any other once more than before.
pub add_event-count :
    (c : Cwmp) (new code : EventIdx) (key : Text)
    → Inv c
    → count code (pending (cwmp_add_event_container c new key).1)
      ≡ joined code (count code (pending c)) (one new code)
add_event-count c new code key v =
    let a = add_event-Added c new key v in
    let c' = (cwmp_add_event_container c new key).1 in
    let at : get_elem? (pending c') a.n ≡ some a.e = sym (container_at-pending c' a.n) ∙ a.there in
    let has = count-get_elem? new (pending c') a.n a.e at a.same_code in
    let most = count_single code (pending c) 0 (pending-SortedFrom c v) in
    let most' = count_single code (pending c') 0 (pending-SortedFrom c' a.keeps) in
    elim a.grows [
      | inl (single, same) ↦ elim (Bool-cases (idx new == idx code)) [
        | inl p ↦
            let e : new ≡ code = idx_injective new code (ground arith) in
            ground (
              arith,
              most,
              ap is_single e,
              ap (λ k. count k (pending c')) e,
              ap (count code) same,
              has,
            )
        | inr p ↦ ground (arith, most, ap (count code) same)
      ]
      | inr (k, put) ↦ ground (
        arith,
        most',
        most,
        ap (count code) put,
        count-insert_at code (pending c) a.n a.e,
        ap idx a.same_code,
      )
    ]

splice-count :
    (c : Cwmp) (n : ℕ) (ps : List DmParameter) (code : EventIdx)
    → Inv c
    → count code (pending (splice_parameters c n ps)) ≡ count code (pending c)
unfolding splice_parameters head_session
splice-count c n ps code v =
    Inv-elim (λ c. count code (pending (splice_parameters c n ps)) ≡ count code (pending c)) c v
      (λ w l. refl) (λ s i w l. count-modify code s.head_event_container n ps)

backup-pending : (c c' : Cwmp) → SameButBackup c c' → pending c' ≡ pending c
unfolding head_session
backup-pending c c' (t, f, e) = rw e refl

-- The events of a failed session join those that wait: afterwards an event of type SINGLE waits exactly
-- once where it occurs on either side, and any other event as often as on both sides together.
pub merge_events-count :
    (olds : List EventContainer) (c : Cwmp) (code : EventIdx)
    → Inv c
    → count code (pending (merge_events olds c).1)
      ≡ joined code (count code (pending c)) (count code olds)
unfolding merge_events count
merge_events-count [] c code v =
    let most = count_single code (pending c) 0 (pending-SortedFrom c v) in ground (arith, most)
merge_events-count (old ∷ olds) c code v =
    let a = add_event-Added c old.code old.command_key v in
    let c1 = (cwmp_add_event_container c old.code old.command_key).1 in
    let c2 = splice_parameters c1 a.n old.head_dm_parameter in
    let c3 = save_at c2 a.n in
    let w = splice-Inv c1 a.n old.head_dm_parameter a.keeps in
    let ih = merge_events-count olds c3 code (save_at-Inv c2 a.n w) in
    let e3 = ap (count code) (backup-pending c2 c3 (save_at-SameButBackup c2 a.n)) in
    let e2 = splice-count c1 a.n old.head_dm_parameter code a.keeps in
    let e1 = add_event-count c old.code code old.command_key v in
    rw (a.returned, merge_events) (ground (arith, ih, e1, e2, e3))

merged_rpcs-pending :
    (c : Cwmp) (rs : List Rpc)
    → Inv c
    → pending (on_head_session c (λ q. record q { head_rpc_acs = merge_rpcs q.head_rpc_acs rs }))
      ≡ pending c
unfolding on_head_session head_session
merged_rpcs-pending c rs v =
    Inv-elim
      (λ c.
        pending (on_head_session c (λ q. record q { head_rpc_acs = merge_rpcs q.head_rpc_acs rs }))
        ≡ pending c)
      c v (λ w l. refl) (λ s i w l. refl)

merge_session-count :
    (c : Cwmp) (s : Session) (code : EventIdx)
    → Inv c
    → count code (pending (merge_session c s).1)
      ≡ joined code (count code (pending c)) (count code s.head_event_container)
unfolding merge_session
merge_session-count c s code v =
    let (ok, keeps, same) = merge_events_lem s.head_event_container c v in
    rw (ok, merge_session)
      (ap (count code) (merged_rpcs-pending _ s.head_rpc_acs keeps)
        ∙ merge_events-count s.head_event_container c code v)

requeue-pending : (c : Cwmp) (s : Session) → pending (requeue (idle c) s).1 ≡ s.head_event_container
unfolding requeue head_session
requeue-pending c s = elim (Bool-cases (starts_with_inform s.head_rpc_acs)) [
  | inl h ↦ rw (h, requeue) refl
  | inr h ↦ rw (h, requeue) refl
]

-- A session that failed goes back to the queue with all its events: afterwards an event of type
-- SINGLE waits exactly once where it was waiting or belonged to the failed session, and any other
-- event as often as on both sides together. The state is well-formed, so memory suffices, and the
-- events of the failed session are in order.
pub move_to_queue-count :
    (c : Cwmp) (s : Session) (code : EventIdx)
    → Inv c
    → SortedFrom 0 s.head_event_container
    → count code (pending (cwmp_move_session_to_session_queue c s).1)
      ≡ joined code (count code (pending c)) (count code s.head_event_container)
unfolding cwmp_move_session_to_session_queue head_session count
move_to_queue-count c s code v o =
    Inv-elim
      (λ c.
        count code (pending (cwmp_move_session_to_session_queue c s).1)
        ≡ joined code (count code (pending c)) (count code s.head_event_container))
      c v
      (λ w l.
        let c' = record c {
          retry_count_session = c.retry_count_session + 1;
          session_send = none;
        } in
        ground (
          arith,
          ap (count code) (requeue-pending c' s),
          count_single code s.head_event_container 0 o,
        ))
      (λ q i w l.
        merge_session-count
          (record (waiting c q) {
            retry_count_session = c.retry_count_session + 1;
            session_send = none;
          })
          s code (record { memory = refl; queued = i; sending = tt; ids = l }))
