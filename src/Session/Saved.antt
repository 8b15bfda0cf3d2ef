-- ===== src/Session/Saved.antt =====
-- An event that is saved is in the backup file (cwmp_save_event_container of event.c, backupSession.c).
use icwmp.Prelude.{
  map, append_assoc, append-nil, All, sym, subst, ◌≢◌, if_elim, ==_iff, ℕ, zero, suc, true, Option,
  none, some, List, [], ◌∷◌, ◌++◌, ◌≡◌, refl, ◌∙◌, ap, length, get_elem?, modify, ◌==◌,
  if◌then◌else◌,
}
use icwmp.Event.{EventContainer, survives_reboot}
use icwmp.Event.Params.{DmParameter}
use icwmp.Session.{Cwmp}
use icwmp.Session.Backup.{
  BkpStatus, BkpEvent, queue, same_status, bkp_with_id, bkp_session_node_found,
  bkp_session_insert_event, bkp_session_insert_parameter,
}
use icwmp.Session.Queue.{cwmp_save_event_container, insert_parameters, bkp_session_save}
use mathlib.Core.Option

-- A node with this id stands at this place of the tree.
abbrev pub Stored : List BkpEvent → ℕ → ℕ → Type 0
Stored t p id = (b : BkpEvent) × (get_elem? t p ≡ some b) × (b.id ≡ id)

-- What a search for an id gives.
abbrev Found : List BkpEvent → ℕ → Option ℕ → Type 0
Found t id none = Unit {0}
Found t id (some p) = Stored t p id

Found-later :
    (b : BkpEvent) (t : List BkpEvent) (id : ℕ) (o : Option ℕ)
    → Found t id o
    → Found (b ∷ t) id (Option.map suc o)
Found-later b t id none h = tt
Found-later b t id (some p) h = h

bkp_with_id-Found : (t : List BkpEvent) (id : ℕ) → Found t id (bkp_with_id t id)
unfolding bkp_with_id
bkp_with_id-Found [] id = tt
bkp_with_id-Found (b ∷ t) id =
    let rest = Found-later b t id (bkp_with_id t id) (bkp_with_id-Found t id) in
    if_elim (Found (b ∷ t) id) (b.id == id) (some 0) (Option.map suc (bkp_with_id t id))
      (λ e. (b, refl, (==_iff b.id id).0 e)) (λ _. rest)

bkp_session_node-Found :
    (t : List BkpEvent) (st : BkpStatus) (id : ℕ) → Found t id (bkp_session_node_found t st id)
unfolding bkp_session_node_found
bkp_session_node-Found [] st id = tt
bkp_session_node-Found (b ∷ t) st id =
    let rest =
      Found-later b t id (bkp_session_node_found t st id) (bkp_session_node-Found t st id) in
    if_elim (Found (b ∷ t) id) (same_status b.status st) (bkp_with_id (b ∷ t) id)
      (Option.map suc (bkp_session_node_found t st id)) (λ _. bkp_with_id-Found (b ∷ t) id)
      (λ _. rest)

get_elem?-All :
    (P : BkpEvent → Type 0) (t : List BkpEvent) (p : ℕ) (b : BkpEvent)
    → All P t
    → get_elem? t p ≡ some b
    → P b
get_elem?-All P [] p b h e = cc
get_elem?-All P (a ∷ t) zero b (h, hs) e = subst P (some_inj e) h
  where
    some_inj : {x y : BkpEvent} → some x ≡ some y → x ≡ y
    some_inj e = ap (λ o. elim o [ some z ↦ z | none ↦ a ]) e
get_elem?-All P (a ∷ t) (suc p) b (h, hs) e = get_elem?-All P t p b hs e

-- Where no node has the id, the search finds none.
node_found-new :
    (t : List BkpEvent) (st : BkpStatus) (id : ℕ)
    → All (λ b. b.id ≢ id) t
    → bkp_session_node_found t st id ≡ none
node_found-new t st id h =
    by_result (bkp_session_node_found t st id) (bkp_session_node-Found t st id)
  where
    by_result : (o : Option ℕ) → Found t id o → o ≡ none
    by_result none f = refl
    by_result (some p) (b, at, i) = absurd (get_elem?-All (λ b. b.id ≢ id) t p b h at i)

-- The node of an event that waits.
abbrev pub node_of : EventContainer → BkpEvent
node_of e = record {
  status = queue;
  index = e.code;
  id = e.id;
  command_key = e.command_key;
  parameter = map {A = DmParameter} (λ q. q.name) e.head_dm_parameter;
}

modify-last :
    (t : List BkpEvent) (b : BkpEvent) (f : BkpEvent → BkpEvent)
    → modify (t ++ b ∷ []) (length t) f ≡ t ++ f b ∷ []
modify-last [] b f = refl
modify-last (a ∷ t) b f = ap (λ r. a ∷ r) (modify-last t b f)

insert_parameters-last :
    (ps : List DmParameter) (t : List BkpEvent) (b : BkpEvent)
    → insert_parameters (t ++ b ∷ []) (length t) ps
      ≡ t ++ record b { parameter = b.parameter ++ map {A = DmParameter} (λ q. q.name) ps } ∷ []
unfolding insert_parameters bkp_session_insert_parameter
insert_parameters-last [] t b =
    ap (λ ns. t ++ record b { parameter = ns } ∷ []) (sym (append-nil b.parameter))
insert_parameters-last (q ∷ ps) t b =
    let b' : BkpEvent = record b { parameter = b.parameter ++ q.name ∷ [] } in
    ap (λ u. insert_parameters u (length t) ps)
      (modify-last t b (λ b. record b { parameter = b.parameter ++ q.name ∷ [] }))
    ∙ insert_parameters-last ps t b'
    ∙ ap (λ ns. t ++ record b { parameter = ns } ∷ [])
        (append_assoc b.parameter (q.name ∷ []) (map {A = DmParameter} (λ q. q.name) ps))

insert_event-new :
    (t : List BkpEvent) (e : EventContainer)
    → All (λ b. b.id ≢ e.id) t
    → bkp_session_insert_event t e.code e.command_key e.id queue
      ≡ (t ++ record (node_of e) { parameter = [] } ∷ [], length t)
unfolding bkp_session_insert_event
insert_event-new t e new = rw (node_found-new t queue e.id new, bkp_session_insert_event) refl

-- Once cwmp_save_event_container has run on an event of a code that is tried again after a reboot,
-- where no node of the backup tree has the identifier of the event, the tree and the file are the
-- tree from before with one node at the end: it waits, and has the code, the identifier and the key
-- of the event and the names of its parameters in their order.
pub save_event-node :
    (c : Cwmp) (e : EventContainer)
    → survives_reboot e.code ≡ true
    → All (λ b. b.id ≢ e.id) c.bkp_tree
    → let d = cwmp_save_event_container c e in
      (d.bkp_tree ≡ c.bkp_tree ++ node_of e ∷ []) × (d.bkp_file ≡ c.bkp_tree ++ node_of e ∷ [])
unfolding cwmp_save_event_container bkp_session_save
save_event-node c e h new =
    let b : BkpEvent = record (node_of e) { parameter = [] } in
    let saved =
      ap (λ (r : List BkpEvent × ℕ). insert_parameters r.0 r.1 e.head_dm_parameter)
        (insert_event-new c.bkp_tree e new)
      ∙ insert_parameters-last e.head_dm_parameter c.bkp_tree b in
    rw (h, if◌then◌else◌) (saved, saved)
