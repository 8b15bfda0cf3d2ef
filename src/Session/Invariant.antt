-- ===== src/Session/Invariant.antt =====
-- Well-formedness of the queue of sessions: at most one session waits, `head_event_container` points to
-- it, its events are in order and its first RPC is an Inform.
use icwmp.Prelude.{
  ℕ, zero, suc, ◌≤◌, ◌≡◌, refl, sym, true, false, Option, none, some, List, [], ◌∷◌, arith,
  insert_at, inl, inr, ◌⊎◌, subst,
}
use icwmp.Prelude.Text.{Text}
use icwmp.Event.{EventIdx, EventContainer, is_single}
use icwmp.Session.{Session, Slot, live, freed, Cwmp, head_session}
use icwmp.Session.Queue.{
  walk_events, max_int_id, next_id, new_container, add_to_head_session, cwmp_add_event_container,
  container_at,
}
use icwmp.Session.Retry.{starts_with_inform}
use icwmp.Session.Order.{
  SortedFrom, before-SortedFrom, before-get_elem?, found-get_elem?, Place-cases,
}

pub record SessionInv (s : Session) : Type 0 where
  pub sorted : SortedFrom 0 s.head_event_container
  pub informs : starts_with_inform s.head_rpc_acs ≡ true
  pub no_cpe : s.head_rpc_cpe ≡ []
  pub not_held : s.hold_request ≡ false

abbrev pub QueueInv : List Slot → Option ℕ → Type 0
QueueInv [] none = Unit {0}
QueueInv (live s ∷ []) (some zero) = SessionInv s
QueueInv _ _ = ⊥

-- The session that is being sent need only keep its events in order.
abbrev pub SendInv : Option Session → Type 0
SendInv none = Unit {0}
SendInv (some s) = SortedFrom 0 s.head_event_container

pub record Inv (c : Cwmp) : Type 0 where
  pub memory : c.callocs ≡ []
  pub queued : QueueInv c.head_session_queue c.head_event_container
  pub sending : SendInv c.session_send
  pub ids : c.static_id ≤ max_int_id

-- What an operation on the queue leaves alone.
pub record SameSend (c c' : Cwmp) : Type 0 where
  pub send : c'.session_send ≡ c.session_send
  pub retries : c'.retry_count_session ≡ c.retry_count_session
  pub status : c'.session_status ≡ c.session_status

QueueInv-cases :
    (q : List Slot) (h : Option ℕ)
    → QueueInv q h
    → ((q ≡ []) × (h ≡ none)) ⊎ ((s : Session) × (q ≡ live s ∷ []) × (h ≡ some 0) × SessionInv s)
QueueInv-cases [] none v = inl (refl, refl)
QueueInv-cases [] (some p) v = absurd v
QueueInv-cases (live s ∷ []) none v = absurd v
QueueInv-cases (live s ∷ []) (some zero) v = inr (s, refl, refl, v)
QueueInv-cases (live s ∷ []) (some (suc p)) v = absurd v
QueueInv-cases (live s ∷ t ∷ q) h v = absurd v
QueueInv-cases (freed ∷ q) h v = absurd v

next_id-le : (n : ℕ) → (1 ≤ next_id n) × (next_id n ≤ max_int_id)
unfolding next_id
next_id-le n = ground arith

-- The events that wait for the next session.
abbrev pub pending : Cwmp → List EventContainer
pending c = elim (head_session c) [ none ↦ [] | some s ↦ s.head_event_container ]

-- What cwmp_add_event_container promises: a container of the head session with the code asked for, in
-- a well-formed state. Either the code is of type SINGLE and the events are as they were, or one
-- container is put where the result points.
pub record Added (c : Cwmp) (code : EventIdx) (key : Text) (r : Option ℕ × Cwmp) : Type 0 where
  pub n : ℕ
  pub e : EventContainer
  pub returned : r.0 ≡ some n
  pub there : container_at r.1 n ≡ some e
  pub same_code : e.code ≡ code
  pub grows :
      ((is_single code ≡ true) × (pending r.1 ≡ pending c))
      ⊎ ((e.command_key ≡ key) × (pending r.1 ≡ insert_at n e (pending c)))
  pub keeps : Inv r.1
  pub apart : SameSend c r.1

-- A state that is known to be well-formed, with the fields that the queue's code branches on written
-- out, so that the code computes on it.
abbrev pub waiting : Cwmp → Session → Cwmp
waiting c s = record c {
  head_session_queue = live s ∷ [];
  head_event_container = some 0;
  callocs = [];
}

abbrev pub idle : Cwmp → Cwmp
idle c = record c { head_session_queue = []; head_event_container = none; callocs = [] }

-- To prove something of every well-formed state, prove it of those two forms.
pub Inv-elim {ℓ} :
    (P : Cwmp → Type ℓ) (c : Cwmp)
    → Inv c
    → (SendInv c.session_send → c.static_id ≤ max_int_id → P (idle c))
    → ((s : Session)
        → SessionInv s
        → SendInv c.session_send
        → c.static_id ≤ max_int_id
        → P (waiting c s))
    → P c
Inv-elim P c v f g = elim (QueueInv-cases c.head_session_queue c.head_event_container v.queued) [
  | inl (q, h) ↦
      subst P
        (λ i. record c {
          head_session_queue = sym q i;
          head_event_container = sym h i;
          callocs = sym v.memory i;
        })
        (f v.sending v.ids)
  | inr (s, q, h, k) ↦
      subst P
        (λ i. record c {
          head_session_queue = sym q i;
          head_event_container = sym h i;
          callocs = sym v.memory i;
        })
        (g s k v.sending v.ids)
]

waiting-Added :
    (c : Cwmp) (s : Session) (code : EventIdx) (key : Text)
    → SessionInv s
    → SendInv c.session_send
    → c.static_id ≤ max_int_id
    → Added (waiting c s) code key (add_to_head_session (waiting c s) code key)
unfolding add_to_head_session container_at head_session
waiting-Added c s code key i v l = elim (Place-cases (walk_events code s.head_event_container)) [
  | inl (n, w) ↦
      let (e, at, same, one) = found-get_elem? code s.head_event_container n w in
      rw (w, add_to_head_session)
        (record {
          n = n;
          e = e;
          returned = refl;
          there = at;
          same_code = same;
          grows = inl (one, refl);
          keeps = record { memory = refl; queued = i; sending = v; ids = l };
          apart = record { send = refl; retries = refl; status = refl };
        })
  | inr (n, w) ↦
      rw (w, add_to_head_session)
        (record {
          n = n;
          e = new_container code key (next_id c.static_id);
          returned = refl;
          there = before-get_elem? code s.head_event_container n _ w;
          same_code = refl;
          grows = inr (refl, refl);
          keeps = record {
            memory = refl;
            queued = record {
              sorted = before-SortedFrom code s.head_event_container n _ w refl i.sorted;
              informs = i.informs;
              no_cpe = i.no_cpe;
              not_held = i.not_held;
            };
            sending = v;
            ids = (next_id-le c.static_id).1;
          };
          apart = record { send = refl; retries = refl; status = refl };
        })
]

-- In a well-formed state cwmp_add_event_container returns a container of the head session that has
-- the code asked for. Either the code is of type SINGLE and the waiting events are as they were, or
-- one container with the key asked for is put where the result points. The state stays well-formed,
-- and the session that is sent, the count of tries and the status are untouched.
pub add_event-Added :
    (c : Cwmp) (code : EventIdx) (key : Text)
    → Inv c
    → Added c code key (cwmp_add_event_container c code key)
unfolding cwmp_add_event_container container_at starts_with_inform head_session
add_event-Added c code key v =
    Inv-elim (λ c. Added c code key (cwmp_add_event_container c code key)) c v
      (λ w l. record {
        n = 0;
        e = new_container code key (next_id c.static_id);
        returned = refl;
        there = refl;
        same_code = refl;
        grows = inr (refl, refl);
        keeps = record {
          memory = refl;
          queued = record {
            sorted = (omega arith, tt);
            informs = refl;
            no_cpe = refl;
            not_held = refl;
          };
          sending = w;
          ids = (next_id-le c.static_id).1;
        };
        apart = record { send = refl; retries = refl; status = refl };
      })
      (λ s i w l. waiting-Added c s code key i w l)
