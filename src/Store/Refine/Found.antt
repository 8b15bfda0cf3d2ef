-- ===== src/Store/Refine/Found.antt =====
-- The tree that holds a list of events, and the search for an event in it.
use icwmp.Prelude.{
  arith, ℕ, suc, some, List, [], ◌∷◌, ◌==◌, ==_iff, if◌then◌else◌, if_elim, ◌≡◌, refl, sym, ap, ◌∙◌,
  Bool-cases, inl, inr,
}
use icwmp.Prelude.Decimal.{ℤ, pos, negsuc, sprintf_d, atoi, atoi-sprintf_d}
use icwmp.Prelude.Text.{Text, codes, strcmp, str_eq, str_eq_self, str_eq_sound}
use icwmp.Event.{idx}
use icwmp.Session.Backup
use icwmp.Session.Backup.{BkpEvent, BkpStatus, queue, send, same_status, bkp_with_id}
use icwmp.Store.Events.{event_name, id_keys, event_keys}
use icwmp.Store.Node.{
  Node, null, element, text, keys_left, is_nil, insert_all, bkp_session_insert, node_with_keys,
  bkp_session_node_found,
}
use icwmp.Store.Written.{keys_left-behind}
use icwmp.Store.Search.{keys_left-add_last}
use mathlib.Core.Option

abbrev pub parameters : Node → List Text → Node
parameters c [] = c
parameters c (n ∷ ns) = parameters (bkp_session_insert c (codes "parameter") (some n)) ns

-- The children of the node of an event.
abbrev pub fields : BkpEvent → Node
fields b = parameters (insert_all null (event_keys (idx b.index) b.command_key b.id)) b.parameter

-- The tree that holds these events and nothing else.
abbrev pub nodes : List BkpEvent → Node
nodes [] = null
nodes (b ∷ bs) = element (event_name b.status) (fields b) (nodes bs)

pos_injective : (m n : ℕ) → pos m ≡ pos n → m ≡ n
pos_injective m n e = ap (λ (z : ℤ). elim z [ pos k ↦ k | negsuc k ↦ 0 ]) e

sprintf_d_injective : (m n : ℕ) → sprintf_d (pos m) ≡ sprintf_d (pos n) → m ≡ n
sprintf_d_injective m n e =
    pos_injective m n (sym (atoi-sprintf_d (pos m)) ∙ ap atoi e ∙ atoi-sprintf_d (pos n))

str_eq-sprintf_d : (m n : ℕ) → str_eq (sprintf_d (pos m)) (sprintf_d (pos n)) ≡ (n == m)
str_eq-sprintf_d m n = elim (Bool-cases (n == m)) [
  | inl e ↦
      ap (λ k. str_eq (sprintf_d (pos m)) (sprintf_d (pos k))) ((==_iff n m).0 e)
      ∙ str_eq_self (sprintf_d (pos m))
      ∙ sym e
  | inr e ↦ elim (Bool-cases (str_eq (sprintf_d (pos m)) (sprintf_d (pos n)))) [
    | inl h ↦
        let same =
          sprintf_d_injective m n (str_eq_sound (sprintf_d (pos m)) (sprintf_d (pos n)) h) in
        ground arith
    | inr h ↦ h ∙ sym e
  ]
]

-- The parameters, which follow, change nothing of the search for an id.
found_before :
    (c : Node) (ns : List Text) (id : ℕ)
    → keys_left c (id_keys id) ≡ []
    → keys_left (parameters c ns) (id_keys id) ≡ []
unfolding bkp_session_insert
found_before c [] id e = e
found_before c (n ∷ ns) id e =
    found_before (bkp_session_insert c (codes "parameter") (some n)) ns id
      (keys_left-behind c (text n null) (codes "parameter") (id_keys id) e)

not_found :
    (c : Node) (ns : List Text) (id : ℕ)
    → keys_left c (id_keys id) ≡ id_keys id
    → keys_left (parameters c ns) (id_keys id) ≡ id_keys id
unfolding bkp_session_insert keys_left strcmp
not_found c [] id e = e
not_found c (n ∷ ns) id e = not_found (bkp_session_insert c (codes "parameter") (some n)) ns id (
    keys_left-add_last c (element (codes "parameter") (text n null) null) (id_keys id)
    ∙ ap (keys_left (element (codes "parameter") (text n null) null)) e)

-- The search for an id in the children that are written first.
id_in_event :
    (b : BkpEvent) (id : ℕ)
    → keys_left (insert_all null (event_keys (idx b.index) b.command_key b.id)) (id_keys id)
      ≡ (if b.id == id then [] else id_keys id)
unfolding keys_left bkp_session_insert strcmp
id_in_event b id =
    ap
      (λ x.
        keys_left (element (codes "command_key") (text b.command_key null) null)
          (if x then [] else id_keys id))
      (str_eq-sprintf_d id b.id)
    ∙ if_elim
        (λ ks. keys_left (element (codes "command_key") (text b.command_key null) null) ks ≡ ks)
        (b.id == id) [] (id_keys id) (λ _. refl) (λ _. refl)

keys_left-fields :
    (b : BkpEvent) (id : ℕ) → is_nil (keys_left (fields b) (id_keys id)) ≡ (b.id == id)
keys_left-fields b id =
    let first : Node = insert_all null (event_keys (idx b.index) b.command_key b.id) in
    elim (Bool-cases (b.id == id)) [
      | inl e ↦
          ap is_nil (
            found_before first b.parameter id
              (id_in_event b id ∙ ap (λ x. if x then [] else id_keys id) e))
          ∙ sym e
      | inr e ↦
          ap is_nil (
            not_found first b.parameter id
              (id_in_event b id ∙ ap (λ x. if x then [] else id_keys id) e))
          ∙ sym e
    ]

node_with_keys-nodes :
    (t : List BkpEvent) (id : ℕ) → node_with_keys (nodes t) (id_keys id) ≡ bkp_with_id t id
unfolding node_with_keys bkp_with_id
node_with_keys-nodes [] id = refl
node_with_keys-nodes (b ∷ bs) id =
    λ i. if keys_left-fields b id i then some 0 else Option.map suc (node_with_keys-nodes bs id i)

str_eq-event_name : (s t : BkpStatus) → str_eq (event_name s) (event_name t) ≡ same_status s t
unfolding strcmp
str_eq-event_name queue queue = refl
str_eq-event_name queue send = refl
str_eq-event_name send queue = refl
str_eq-event_name send send = refl

pub node_found-nodes :
    (t : List BkpEvent) (st : BkpStatus) (id : ℕ)
    → bkp_session_node_found (nodes t) (event_name st) (id_keys id)
      ≡ Backup.bkp_session_node_found t st id
unfolding bkp_session_node_found Backup.bkp_session_node_found
node_found-nodes [] st id = refl
node_found-nodes (b ∷ bs) st id = λ i.
    if str_eq-event_name b.status st i
    then node_with_keys-nodes (b ∷ bs) id i
    else Option.map suc (node_found-nodes bs st id i)
