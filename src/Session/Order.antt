-- ===== src/Session/Order.antt =====
-- The order of the events of a session: what the walk of cwmp_add_event_container finds and where it
-- inserts (event.c).
use icwmp.Prelude.{
  ℕ, zero, suc, ◌≤◌, ◌≡◌, refl, ap, Bool, true, false, ◌&&◌, some, List, [], ◌∷◌, arith, get_elem?,
  insert_at, ◌==◌, ltb, if◌then◌else◌, Bool-cases, inl, inr, modify, ◌⊎◌, subst,
}
use icwmp.Event.{EventIdx, EventContainer, idx, idx_injective, is_single}
use icwmp.Session.Queue.{Place, found, before, later, walk_events}

-- The least value that may follow: an event of type SINGLE occurs once.
abbrev pub after : EventIdx → ℕ
after code = if is_single code then suc (idx code) else idx code

abbrev pub SortedFrom : ℕ → List EventContainer → Type 0
SortedFrom n [] = Unit {0}
SortedFrom n (e ∷ es) = (n ≤ idx e.code) × SortedFrom (after e.code) es

abbrev pub pos : Place → ℕ
pos (found n) = n
pos (before n) = n

abbrev pub is_before : Place → Bool
is_before (found n) = false
is_before (before n) = true

pos-later : (p : Place) → pos (later p) ≡ suc (pos p)
pos-later (found n) = refl
pos-later (before n) = refl

is_before-later : (p : Place) → is_before (later p) ≡ is_before p
is_before-later (found n) = refl
is_before-later (before n) = refl

single_of_idx : (a b : EventIdx) → idx a ≡ idx b → is_single a ≡ is_single b
single_of_idx a b h = ap is_single (idx_injective a b h)

-- Inserting where the walk stops keeps the order.
pub insert_at-SortedFrom :
    (code : EventIdx) (es : List EventContainer) (m : ℕ) (x : EventContainer)
    → is_before (walk_events code es) ≡ true
    → x.code ≡ code
    → m ≤ idx code
    → SortedFrom m es
    → SortedFrom m (insert_at (pos (walk_events code es)) x es)
unfolding walk_events
insert_at-SortedFrom code [] m x w h l s = rw h (l, tt)
insert_at-SortedFrom code (e ∷ es) m x w h l s =
    elim (Bool-cases (idx e.code == idx code && is_single code)) [
      | inl p ↦ ground arith
      | inr p ↦ elim (Bool-cases (ltb (idx code) (idx e.code))) [
        | inl q ↦ rw (p, q) (ground arith)
        | inr q ↦
            rw (p, q, pos-later)
              (
                s.0,
                insert_at-SortedFrom code es (after e.code) x
                    (ground (arith, is_before-later (walk_events code es))) h
                    (ground (arith, single_of_idx e.code code)) s.1,
              )
      ]
    ]

-- Where the walk stops at a container, that container has the code.
pub walk_events-found :
    (code : EventIdx) (es : List EventContainer)
    → is_before (walk_events code es) ≡ false
    → (e : EventContainer) × (get_elem? es (pos (walk_events code es)) ≡ some e)
      × (e.code ≡ code)
      × (is_single code ≡ true)
unfolding walk_events
walk_events-found code [] w = cc
walk_events-found code (e ∷ es) w = elim (Bool-cases (idx e.code == idx code && is_single code)) [
  | inl p ↦ (e, ground arith, idx_injective e.code code (ground arith), ground arith)
  | inr p ↦ elim (Bool-cases (ltb (idx code) (idx e.code))) [
    | inl q ↦ ground arith
    | inr q ↦
        let (d, at, same, one) =
          walk_events-found code es (ground (arith, is_before-later (walk_events code es))) in
        (d, rw (p, q, pos-later) at, same, one)
  ]
]

-- The position to insert at lies within the list, so the new container is found there.
pub get_elem?-insert_at :
    (code : EventIdx) (es : List EventContainer) (x : EventContainer)
    → get_elem? (insert_at (pos (walk_events code es)) x es) (pos (walk_events code es)) ≡ some x
      ⊎ (is_before (walk_events code es) ≡ false)
unfolding walk_events
get_elem?-insert_at code [] x = inl refl
get_elem?-insert_at code (e ∷ es) x = ground (
  arith,
  get_elem?-insert_at code es x,
  pos-later (walk_events code es),
  is_before-later (walk_events code es),
)

-- The same, by the place that the walk returns.
module _ (code : EventIdx) (es : List EventContainer) (n : ℕ) where
  pub before-SortedFrom :
      (x : EventContainer)
      → walk_events code es ≡ before n
      → x.code ≡ code
      → SortedFrom 0 es
      → SortedFrom 0 (insert_at n x es)
  before-SortedFrom x w h s =
      subst (λ p. is_before p ≡ true → SortedFrom 0 (insert_at (pos p) x es)) w
        (λ b. insert_at-SortedFrom code es 0 x b h (omega arith) s) refl

  pub before-get_elem? :
      (x : EventContainer)
      → walk_events code es ≡ before n
      → get_elem? (insert_at n x es) n ≡ some x
  before-get_elem? x w =
      elim (subst
        (λ p. (get_elem? (insert_at (pos p) x es) (pos p) ≡ some x) ⊎ (is_before p ≡ false)) w
        (get_elem?-insert_at code es x)) [ inl e ↦ e | inr e ↦ cc ]

  pub found-get_elem? :
      walk_events code es ≡ found n
      → (e : EventContainer) × (get_elem? es n ≡ some e) × (e.code ≡ code) × (is_single code ≡ true)
  found-get_elem? w =
      subst
        (λ p.
          is_before p ≡ false
          → (e : EventContainer) × (get_elem? es (pos p) ≡ some e)
            × (e.code ≡ code)
            × (is_single code ≡ true))
        w (walk_events-found code es) refl

pub Place-cases : (p : Place) → ((n : ℕ) × (p ≡ found n)) ⊎ ((n : ℕ) × (p ≡ before n))
Place-cases (found n) = inl (n, refl)
Place-cases (before n) = inr (n, refl)

-- Only the order of the codes matters.
pub modify-SortedFrom :
    (es : List EventContainer) (n m : ℕ) (f : EventContainer → EventContainer)
    → ((e : EventContainer) → (f e).code ≡ e.code)
    → SortedFrom m es
    → SortedFrom m (modify es n f)
modify-SortedFrom [] n m f h s = s
modify-SortedFrom (e ∷ es) zero m f h s = rw (h e) s
modify-SortedFrom (e ∷ es) (suc n) m f h s = (s.0, modify-SortedFrom es n (after e.code) f h s.1)
