-- ===== src/Session/Memory.antt =====
-- What cwmp_add_event_container (event.c) leaves behind when calloc gives NULL.
use icwmp.Prelude.{
  Bool, true, false, Option, none, some, List, [], ◌∷◌, ◌++◌, ◌≡◌, refl, ◌⊎◌, inl, inr, ℕ, length,
}
use icwmp.Prelude.Text.{Text}
use icwmp.Event.{EventIdx}
use icwmp.Session.{
  Slot, live, freed, Session, Cwmp, calloc, head_session, empty_session, rpc_acs_inform,
}
use icwmp.Session.Queue.{
  cwmp_add_event_container, cwmp_add_queue_session, cwmp_add_session_rpc_acs_head,
  add_to_head_session, insert_container, Place, found, before, walk_events,
}

-- Only the coming outcomes of calloc differ.
abbrev SameState : Cwmp → Cwmp → Type 0
SameState c d = (m : List Bool) × (d ≡ record c { callocs = m })

insert_fails :
    (c : Cwmp) (m : List Bool) (code : EventIdx) (key : Text) (n : ℕ)
    → (insert_container (record c { callocs = m }) code key n).0 ≡ none
    → SameState c (insert_container (record c { callocs = m }) code key n).1
unfolding insert_container calloc
insert_fails c [] code key n h = cc
insert_fails c (true ∷ m) code key n h = cc
insert_fails c (false ∷ m) code key n h = (m, refl)

add_to_head_fails :
    (c : Cwmp) (code : EventIdx) (key : Text)
    → (add_to_head_session c code key).0 ≡ none
    → SameState c (add_to_head_session c code key).1
unfolding add_to_head_session
add_to_head_fails c code key = by_head (head_session c)
  where
    by_place :
        (p : Place)
        → let r : Option ℕ × Cwmp = elim p [
          | found n ↦ (some n, c)
          | before n ↦ insert_container c code key n
        ] in
          r.0 ≡ none → SameState c r.1
    by_place (found n) h = cc
    by_place (before n) h = insert_fails c c.callocs code key n h

    by_head :
        (o : Option Session)
        → let r : Option ℕ × Cwmp = elim o [
          | none ↦ (none, c)
          | some s ↦ elim (walk_events code s.head_event_container) [
            | found n ↦ (some n, c)
            | before n ↦ insert_container c code key n
          ]
        ] in
          r.0 ≡ none → SameState c r.1
    by_head none h = (c.callocs, refl)
    by_head (some s) h = by_place (walk_events code s.head_event_container) h

-- The session that cwmp_add_queue_session makes.
abbrev pub with_inform : Session
with_inform = record empty_session {
  head_rpc_acs = record { type = rpc_acs_inform; extra_data = none } ∷ [];
}

-- The links of the queue and `head_event_container` after a call that failed: as before; or, where no session was
-- queued, with a link to freed memory; or with a session that has an Inform and no event.
abbrev pub Left : Cwmp → List Slot → Option ℕ → Type 0
Left c q h =
    ((q ≡ c.head_session_queue) × (h ≡ c.head_event_container))
    ⊎ ((c.head_event_container ≡ none) × (h ≡ none) × (q ≡ c.head_session_queue ++ freed ∷ []))
    ⊎ ((c.head_event_container ≡ none)
        × (h ≡ some (length c.head_session_queue))
        × (q ≡ c.head_session_queue ++ live with_inform ∷ []))

abbrev pub FailedAdd : Cwmp → Cwmp → Type 0
FailedAdd c d =
    (m : List Bool) × (q : List Slot) × (h : Option ℕ) × (d
      ≡ record c { callocs = m; head_session_queue = q; head_event_container = h })
    × Left c q h

queued :
    (c : Cwmp) (m : List Bool) (code : EventIdx) (key : Text)
    → let q = c.head_session_queue ++ live with_inform ∷ [] in
      let h = some (length c.head_session_queue) in
      let d = record c { callocs = m; head_session_queue = q; head_event_container = h } in
      (add_to_head_session d code key).0 ≡ none
      → FailedAdd (record c { head_event_container = none }) (add_to_head_session d code key).1
queued c m code key e =
    let q = c.head_session_queue ++ live with_inform ∷ [] in
    let h = some (length c.head_session_queue) in
    let d : Cwmp = record c { callocs = m; head_session_queue = q; head_event_container = h } in
    let (m', same) = add_to_head_fails d code key e in
    (m', q, h, same, inr (inr (refl, refl, refl)))

failed_add :
    (c : Cwmp) (h : Option ℕ) (m : List Bool) (code : EventIdx) (key : Text)
    → let c' = record c { head_event_container = h; callocs = m } in
      (cwmp_add_event_container c' code key).0 ≡ none
      → FailedAdd c' (cwmp_add_event_container c' code key).1
unfolding cwmp_add_event_container cwmp_add_queue_session calloc cwmp_add_session_rpc_acs_head
failed_add c (some p) m code key e =
    let (m', same) =
      add_to_head_fails (record c { head_event_container = some p; callocs = m }) code key e in
    (m', c.head_session_queue, some p, same, inl (refl, refl))
failed_add c none (false ∷ m) code key e = (m, c.head_session_queue, none, refl, inl (refl, refl))
failed_add c none (true ∷ false ∷ m) code key e =
    (m, c.head_session_queue ++ freed ∷ [], none, refl, inr (inl (refl, refl, refl)))
failed_add c none [] code key e = queued c [] code key e
failed_add c none (true ∷ []) code key e = queued c [] code key e
failed_add c none (true ∷ true ∷ m) code key e = queued c m code key e

-- Where cwmp_add_event_container returns NULL, from any state and whatever calloc answered, nothing
-- of the state has changed but the outcomes of calloc that are left, the queue and
-- `head_event_container`; and these are as before, or, where no head session was set, a link to
-- freed memory is at the end of the queue and still none is set, or a session with an Inform and no
-- event is there and is the head session.
pub add_event-fails :
    (c : Cwmp) (code : EventIdx) (key : Text)
    → (cwmp_add_event_container c code key).0 ≡ none
    → FailedAdd c (cwmp_add_event_container c code key).1
add_event-fails c code key e = failed_add c c.head_event_container c.callocs code key e
