-- ===== src/Session/Preserve.antt =====
-- Every call of event.c and cwmp.c on the queue keeps it well-formed.
use icwmp.Prelude.{
  ℕ, ◌≤◌, ◌≡◌, refl, true, Option, none, some, List, [], ◌∷◌, ◌++◌, arith, Bool-cases, inl, inr,
  Option-cases,
}
use icwmp.Prelude.Text.{Text}
use icwmp.Event.{EventIdx, EventContainer, survives_reboot}
use icwmp.Event.Params.{DmParameter}
use icwmp.Session.{Rpc, Session, Cwmp, cwmp_ok}
use icwmp.Session.Backup.{BkpEvent}
use icwmp.Session.Queue.{
  max_int_id, cwmp_add_event_container, container_at, save_at, cwmp_save_event_container,
}
use icwmp.Session.Causes.{add_and_save, add_rpc, set_last_extra_data}
use icwmp.Session.Retry.{starts_with_inform, splice_parameters}
use icwmp.Session.Order.{modify-SortedFrom}
use icwmp.Session.Invariant.{SessionInv, SendInv, Inv, Inv-elim, SameSend, add_event-Added, waiting}

-- Two states that differ in the backup only.
abbrev pub SameButBackup : Cwmp → Cwmp → Type 0
SameButBackup c c' =
    (t : List BkpEvent) × (f : List BkpEvent) × (c' ≡ record c { bkp_tree = t; bkp_file = f })

save-SameButBackup :
    (c : Cwmp) (e : EventContainer) → SameButBackup c (cwmp_save_event_container c e)
unfolding cwmp_save_event_container
save-SameButBackup c e = elim (Bool-cases (survives_reboot e.code)) [
  | inl h ↦ rw (h, cwmp_save_event_container) (_, _, refl)
  | inr h ↦ (c.bkp_tree, c.bkp_file, rw h refl)
]

pub save_at-SameButBackup : (c : Cwmp) (n : ℕ) → SameButBackup c (save_at c n)
unfolding save_at
save_at-SameButBackup c n = elim (Option-cases (container_at c n)) [
  | inl h ↦ (c.bkp_tree, c.bkp_file, rw (h, save_at) refl)
  | inr (e, h) ↦ rw (h, save_at) (save-SameButBackup c e)
]

pub SameButBackup-Inv : (c c' : Cwmp) → SameButBackup c c' → Inv c → Inv c'
SameButBackup-Inv c c' (t, f, e) v =
    rw e (record { memory = v.memory; queued = v.queued; sending = v.sending; ids = v.ids })

pub SameButBackup-SameSend : (c c' : Cwmp) → SameButBackup c c' → SameSend c c'
SameButBackup-SameSend c c' (t, f, e) = rw e (record { send = refl; retries = refl; status = refl })

pub SameSend-trans : (a b c : Cwmp) → SameSend a b → SameSend b c → SameSend a c
SameSend-trans a b c p q = ground arith

pub save_at-Inv : (c : Cwmp) (n : ℕ) → Inv c → Inv (save_at c n)
save_at-Inv c n = SameButBackup-Inv c (save_at c n) (save_at-SameButBackup c n)

pub splice-Inv : (c : Cwmp) (n : ℕ) (ps : List DmParameter) → Inv c → Inv (splice_parameters c n ps)
unfolding splice_parameters
splice-Inv c n ps v =
    Inv-elim (λ c. Inv (splice_parameters c n ps)) c v
      (λ w l. record { memory = refl; queued = tt; sending = w; ids = l })
      (λ s i w l. record {
        memory = refl;
        queued = record {
          sorted = modify-SortedFrom s.head_event_container n 0 _ (λ e. refl) i.sorted;
          informs = i.informs;
          no_cpe = i.no_cpe;
          not_held = i.not_held;
        };
        sending = w;
        ids = l;
      })

pub splice-SameSend :
    (c : Cwmp) (n : ℕ) (ps : List DmParameter) → SameSend c (splice_parameters c n ps)
unfolding splice_parameters
splice-SameSend c n ps = ground arith

informs_append :
    (rs qs : List Rpc) → starts_with_inform rs ≡ true → starts_with_inform (rs ++ qs) ≡ true
unfolding starts_with_inform
informs_append [] qs h = cc
informs_append (r ∷ rs) qs h = h

informs_set :
    (rs : List Rpc) (p : ℕ)
    → starts_with_inform rs ≡ true
    → starts_with_inform (set_last_extra_data rs p) ≡ true
unfolding starts_with_inform
informs_set [] p h = cc
informs_set (r ∷ []) p h = h
informs_set (r ∷ q ∷ rs) p h = h

module _ (c : Cwmp) (s : Session) (i : SessionInv s) (w : SendInv c.session_send)
    (l : c.static_id ≤ max_int_id) where
  waiting-Inv_rpcs :
      (rs : List Rpc)
      → starts_with_inform rs ≡ true
      → Inv (waiting c (record s { head_rpc_acs = rs }))
  waiting-Inv_rpcs rs h = record {
    memory = refl;
    queued = record { sorted = i.sorted; informs = h; no_cpe = i.no_cpe; not_held = i.not_held };
    sending = w;
    ids = l;
  }

  waiting-add_rpc : (type : ℕ) (extra : Option ℕ) → Inv (add_rpc (waiting c s) type extra).1
  unfolding add_rpc
  waiting-add_rpc type none = waiting-Inv_rpcs _ (informs_append s.head_rpc_acs _ i.informs)
  waiting-add_rpc type (some p) =
      waiting-Inv_rpcs _ (informs_set _ p (informs_append s.head_rpc_acs _ i.informs))

-- An RPC that is added to the waiting session goes behind its Inform.
pub add_rpc-Inv : (c : Cwmp) (type : ℕ) (extra : Option ℕ) → Inv c → Inv (add_rpc c type extra).1
unfolding add_rpc
add_rpc-Inv c type extra v =
    Inv-elim (λ c. Inv (add_rpc c type extra).1) c v
      (λ w l. record { memory = refl; queued = tt; sending = w; ids = l })
      (λ s i w l. waiting-add_rpc c s i w l type extra)

pub add_rpc-SameSend :
    (c : Cwmp) (type : ℕ) (extra : Option ℕ) → Inv c → SameSend c (add_rpc c type extra).1
unfolding add_rpc
add_rpc-SameSend c type extra v =
    Inv-elim (λ c. SameSend c (add_rpc c type extra).1) c v
      (λ w l. record { send = refl; retries = refl; status = refl })
      (λ s i w l. record { send = refl; retries = refl; status = refl })

-- In a well-formed state the event is added, and the call succeeds.
pub add_and_save_lem :
    (c : Cwmp) (code : EventIdx) (key : Text)
    → Inv c
    → ((add_and_save c code key).0 ≡ cwmp_ok)
      × Inv (add_and_save c code key).1
      × SameSend c (add_and_save c code key).1
unfolding add_and_save
add_and_save_lem c code key v =
    let a = add_event-Added c code key v in
    let c' = (cwmp_add_event_container c code key).1 in
    rw (a.returned, add_and_save)
      (
        refl,
        save_at-Inv c' a.n a.keeps,
        SameSend-trans c c' _ a.apart (SameButBackup-SameSend c' _ (save_at-SameButBackup c' a.n)),
      )
