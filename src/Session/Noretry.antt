-- ===== src/Session/Noretry.antt =====
-- What event_remove_noretry_event_container (event.c) keeps of a failed session.
use icwmp.Prelude.{
  Option, some, ◌+◌, Bool, ◌||◌, List, [], ◌∷◌, ◌≡◌, refl, ap, if_elim, ◌⊎◌, inl, inr, Bool-cases,
  if◌then◌else◌, arith, ==_iff, ◌==◌,
}
use icwmp.Event.{EventIdx, EventContainer, idx, idx_injective, is_noretry}
use icwmp.Session.{Session, Cwmp}
use icwmp.Session.Retry.{reads_six, remove_noretry, event_remove_noretry_event_container}
use icwmp.Session.Lossless.{count, one}

-- Events of different kinds have different codes.
one_noretry : (a b : EventIdx) → (is_noretry a ≡ is_noretry b) ⊎ (one a b ≡ 0)
one_noretry a b = elim (Bool-cases (idx a == idx b)) [
  | inl e ↦ inl (ap is_noretry (idx_injective a b ((==_iff (idx a) (idx b)).0 e)))
  | inr e ↦ inr (rw (e, one) refl)
]

remove_noretry-count :
    (stale : EventIdx → Option EventIdx) (es : List EventContainer) (cr : Bool) (code : EventIdx)
    → count code (remove_noretry stale es cr).0 ≡ (if is_noretry code then 0 else count code es)
unfolding remove_noretry count
remove_noretry-count stale [] cr code = ground arith
remove_noretry-count stale (e ∷ es) cr code =
    let kind = one_noretry e.code code in
    let rest =
      remove_noretry stale es
        (cr || reads_six (if is_noretry e.code then stale e.code else some e.code)) in
    let kept : count code rest.0 ≡ (if is_noretry code then 0 else count code es) =
      remove_noretry-count stale es _ code in
    if_elim
      (λ (r : List EventContainer × Bool).
        count code r.0 ≡ (if is_noretry code then 0 else one e.code code + count code es))
      (is_noretry e.code) rest (e ∷ rest.0, rest.1) (λ h. ground arith) (λ h. ground arith)

-- Whatever the read after free gives, event_remove_noretry_event_container leaves the session as
-- many events of each code that may be tried again as it had, and none of a code that may not.
pub remove_noretry_lem :
    (stale : EventIdx → Option EventIdx) (c : Cwmp) (s : Session) (code : EventIdx)
    → count code (event_remove_noretry_event_container stale c s).1.head_event_container
      ≡ (if is_noretry code then 0 else count code s.head_event_container)
unfolding event_remove_noretry_event_container
remove_noretry_lem stale c s code =
    remove_noretry-count stale s.head_event_container c.cwmp_cr_event code
