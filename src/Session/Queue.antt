-- ===== src/Session/Queue.antt =====
-- Sessions and events are added to the queue: cwmp_add_session_rpc_*, cwmp_add_queue_session
-- (cwmp.c), cwmp_add_event_container and cwmp_save_event_container (event.c).
use icwmp.Prelude.{
  ℕ, suc, ◌+◌, Bool, ◌&&◌, Option, none, some, List, [], ◌∷◌, ◌++◌, length, get_elem?, modify,
  insert_at, ◌==◌, ltb, leb, if◌then◌else◌,
}
use icwmp.Prelude.Text.{Text}
use icwmp.Event.{EventIdx, EventContainer, idx, is_single, survives_reboot}
use icwmp.Event.Params.{DmParameter}
use icwmp.Session.{
  Rpc, Session, live, freed, Cwmp, calloc, head_session, empty_session, rpc_acs_inform,
}
use icwmp.Session.Backup.{BkpEvent, queue, bkp_session_insert_event, bkp_session_insert_parameter}

abbrev new_rpc : ℕ → Rpc
new_rpc t = record { type = t; extra_data = none }

-- NULL is `none`. The second part holds the coming outcomes of calloc.
unfoldable pub cwmp_add_session_rpc_acs : List Bool → Session → ℕ → Option Session × List Bool
unfolding calloc
cwmp_add_session_rpc_acs m s type =
    let (ok, m') = calloc m in
    if ok
    then (some (record s { head_rpc_acs = s.head_rpc_acs ++ new_rpc type ∷ [] }), m')
    else (none, m')

unfoldable pub cwmp_add_session_rpc_cpe : List Bool → Session → ℕ → Option Session × List Bool
unfolding calloc
cwmp_add_session_rpc_cpe m s type =
    let (ok, m') = calloc m in
    if ok
    then (some (record s { head_rpc_cpe = s.head_rpc_cpe ++ new_rpc type ∷ [] }), m')
    else (none, m')

unfoldable pub cwmp_add_session_rpc_acs_head : List Bool → Session → ℕ → Option Session × List Bool
unfolding calloc
cwmp_add_session_rpc_acs_head m s type =
    let (ok, m') = calloc m in
    if ok
    then (some (record s { head_rpc_acs = new_rpc type ∷ s.head_rpc_acs }), m')
    else (none, m')

-- The new session is linked before its first RPC is made; where that fails it is freed, and stays
-- linked.
unfoldable pub cwmp_add_queue_session : Cwmp → Option ℕ × Cwmp
unfolding calloc cwmp_add_session_rpc_acs_head
cwmp_add_queue_session c =
    let (ok, m) = calloc c.callocs in
    let (session, m') = cwmp_add_session_rpc_acs_head m empty_session rpc_acs_inform in
    if ok
    then elim session [
      | some s ↦ (
        some (length c.head_session_queue),
        record c { head_session_queue = c.head_session_queue ++ live s ∷ []; callocs = m' },
      )
      | none ↦
          (none, record c { head_session_queue = c.head_session_queue ++ freed ∷ []; callocs = m' })
    ]
    else (none, record c { callocs = m })

-- Where the walk over the events of the session stops: at a container to return, or at the one to
-- insert before.
pub data Place : Type 0 where
  found before : ℕ → Place

abbrev pub later : Place → Place
later (found n) = found (suc n)
later (before n) = before (suc n)

unfoldable pub walk_events : EventIdx → List EventContainer → Place
walk_events code [] = before 0
walk_events code (e ∷ es) =
    let rest = walk_events code es in
    if idx e.code == idx code && is_single code
    then found 0
    else if ltb (idx code) (idx e.code)
    then before 0
    else later rest

abbrev pub max_int_id : ℕ
max_int_id = 2147483646

-- `if (id < 0 || id >= MAX_INT_ID) id = 0; id++;`
unfoldable pub next_id : ℕ → ℕ
next_id id = (if leb max_int_id id then 0 else id) + 1

abbrev pub new_container : EventIdx → Text → ℕ → EventContainer
new_container code key n = record { code = code; command_key = key; head_dm_parameter = []; id = n }

-- Changes the session that `head_event_container` points to.
unfoldable pub on_head_session : Cwmp → (Session → Session) → Cwmp
on_head_session c f = elim c.head_event_container [
  | none ↦ c
  | some p ↦ record c {
    head_session_queue =
        modify c.head_session_queue p (λ slot. elim slot [ live s ↦ live (f s) | freed ↦ freed ]);
  }
]

-- The part after the walk: `n` is the position to insert at.
unfoldable pub insert_container : Cwmp → EventIdx → Text → ℕ → Option ℕ × Cwmp
unfolding calloc on_head_session next_id
insert_container c code key n =
    let (ok, m) = calloc c.callocs in
    let id = next_id c.static_id in
    if ok
    then (
      some n,
      on_head_session (record c { callocs = m; static_id = id })
          (λ s. record s {
            head_event_container = insert_at n (new_container code key id) s.head_event_container;
          }),
    )
    else (none, record c { callocs = m })

-- The part of cwmp_add_event_container after a session is there.
unfoldable pub add_to_head_session : Cwmp → EventIdx → Text → Option ℕ × Cwmp
unfolding head_session walk_events insert_container
add_to_head_session c code key = elim (head_session c) [
  | none ↦ (none, c)
  | some s ↦ elim (walk_events code s.head_event_container) [
    | found n ↦ (some n, c)
    | before n ↦ insert_container c code key n
  ]
]

unfoldable pub cwmp_add_event_container : Cwmp → EventIdx → Text → Option ℕ × Cwmp
unfolding cwmp_add_queue_session add_to_head_session
cwmp_add_event_container c code key = elim c.head_event_container [
  | some p ↦ add_to_head_session c code key
  | none ↦
      let (session, c') = cwmp_add_queue_session c in
      elim session [
        | none ↦ (none, c')
        | some p ↦ add_to_head_session (record c' { head_event_container = some p }) code key
      ]
]

-- The container that a position in the list of the head session stands for.
unfoldable pub container_at : Cwmp → ℕ → Option EventContainer
unfolding head_session
container_at c n = elim (head_session c) [
  | none ↦ none
  | some s ↦ get_elem? s.head_event_container n
]

unfoldable pub bkp_session_save : Cwmp → Cwmp
bkp_session_save c = record c { bkp_file = c.bkp_tree }

unfoldable pub insert_parameters : List BkpEvent → ℕ → List DmParameter → List BkpEvent
unfolding bkp_session_insert_parameter
insert_parameters t b [] = t
insert_parameters t b (p ∷ ps) = insert_parameters (bkp_session_insert_parameter t b p.name) b ps

unfoldable pub cwmp_save_event_container : Cwmp → EventContainer → Cwmp
unfolding bkp_session_insert_event insert_parameters bkp_session_save
cwmp_save_event_container c e =
    let (t, b) = bkp_session_insert_event c.bkp_tree e.code e.command_key e.id queue in
    if survives_reboot e.code
    then bkp_session_save (record c { bkp_tree = insert_parameters t b e.head_dm_parameter })
    else c

-- The same, for a pointer that cwmp_add_event_container returned.
unfoldable pub save_at : Cwmp → ℕ → Cwmp
unfolding container_at cwmp_save_event_container
save_at c n = elim (container_at c n) [ none ↦ c | some e ↦ cwmp_save_event_container c e ]
