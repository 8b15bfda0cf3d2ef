-- ===== src/Store/Search.antt =====
-- The search for a request finds the node that was written for it, behind a tree without such a node.
use icwmp.Prelude.{
  arith, ℕ, suc, true, false, Option, none, some, List, [], ◌∷◌, ◌≡◌, refl, sym, ap, ◌∙◌,
}
use icwmp.Prelude.Text.{Text, str_eq_self}
use icwmp.Store.Node.{
  Node, null, element, text, add_last, new_text, bkp_session_insert, SearchKeywords, value_matches,
  keys_left, is_nil, node_with_keys, bkp_session_node_found, delete_at, insert_all, insert_node,
}

-- How many siblings begin with this node.
abbrev pub count : Node → ℕ
count null = 0
count (element m c n) = suc (count n)
count (text v n) = suc (count n)

pub add_last_assoc : (a b c : Node) → add_last (add_last a b) c ≡ add_last a (add_last b c)
add_last_assoc null b c = refl
add_last_assoc (element m d n) b c = ap (element m d) (add_last_assoc n b c)
add_last_assoc (text v n) b c = ap (text v) (add_last_assoc n b c)

insert_all-add_last :
    (b : Node) (ks : List SearchKeywords) → insert_all b ks ≡ add_last b (insert_all null ks)
unfolding bkp_session_insert
insert_all-add_last b [] = end b
  where
    end : (b : Node) → b ≡ add_last b null
    end null = refl
    end (element m c n) = ap (element m c) (end n)
    end (text v n) = ap (text v) (end n)
insert_all-add_last b (k ∷ ks) =
    let e : Node = element k.name (new_text k.value) null in
    insert_all-add_last (add_last b e) ks
    ∙ add_last_assoc b e (insert_all null ks)
    ∙ ap (add_last b) (sym (insert_all-add_last e ks))

pub keys_left_nil : (c : Node) → keys_left c [] ≡ []
unfolding keys_left
keys_left_nil null = refl
keys_left_nil (element m d c) = refl
keys_left_nil (text v c) = keys_left_nil c

pub keys_left-add_last :
    (c d : Node) (ks : List SearchKeywords)
    → keys_left (add_last c d) ks ≡ keys_left d (keys_left c ks)
unfolding keys_left
keys_left-add_last null d ks = refl
keys_left-add_last (text v c) d ks = keys_left-add_last c d ks
keys_left-add_last (element m e c) d [] = sym (keys_left_nil d)
keys_left-add_last (element m e c) d (k ∷ ks) = keys_left-add_last c d _

pub value_matches_self : (v : Option Text) → value_matches v (new_text v) ≡ true
value_matches_self none = refl
value_matches_self (some v) = str_eq_self v

-- The children that were written for the keys, in their order, have the keys.
pub keys_left-insert_all : (ks : List SearchKeywords) → keys_left (insert_all null ks) ks ≡ []
unfolding keys_left bkp_session_insert
keys_left-insert_all [] = refl
keys_left-insert_all (k ∷ ks) =
    let rest : keys_left (element k.name (new_text k.value) (insert_all null ks)) (k ∷ ks) ≡ [] =
      ground (arith, str_eq_self k.name, value_matches_self k.value, keys_left-insert_all ks) in
    ap (λ c. keys_left c (k ∷ ks)) (insert_all-add_last (element k.name (new_text k.value) null) ks)
    ∙ rest

-- A node behind the others does not change what is found among them; where nothing is, it is found itself.
node_with_keys-last :
    (t c : Node) (m : Text) (ks : List SearchKeywords)
    → keys_left c ks ≡ []
    → node_with_keys t ks ≡ none
    → node_with_keys (insert_node t m c) ks ≡ some (count t)
unfolding node_with_keys
node_with_keys-last null c m ks h e = rw h refl
node_with_keys-last (text v n) c m ks h e = ground (arith, node_with_keys-last n c m ks)
node_with_keys-last (element x d n) c m ks h e = ground (arith, node_with_keys-last n c m ks)

pub bkp_session_node_found-last :
    (t c : Node) (m : Text) (ks : List SearchKeywords)
    → keys_left c ks ≡ []
    → bkp_session_node_found t m ks ≡ none
    → bkp_session_node_found (insert_node t m c) m ks ≡ some (count t)
unfolding bkp_session_node_found node_with_keys
bkp_session_node_found-last null c m ks h e = ground (arith, str_eq_self m)
bkp_session_node_found-last (text v n) c m ks h e =
    ground (arith, bkp_session_node_found-last n c m ks)
bkp_session_node_found-last (element x d n) c m ks h e =
    ground (arith, bkp_session_node_found-last n c m ks, node_with_keys-last (element x d n) c m ks)

-- A node without the keys, behind the others, is not found.
node_with_keys-not_last :
    (t c : Node) (m : Text) (ks : List SearchKeywords)
    → is_nil (keys_left c ks) ≡ false
    → node_with_keys t ks ≡ none
    → node_with_keys (insert_node t m c) ks ≡ none
unfolding node_with_keys
node_with_keys-not_last null c m ks h e = rw h refl
node_with_keys-not_last (text v n) c m ks h e = ground (arith, node_with_keys-not_last n c m ks)
node_with_keys-not_last (element x d n) c m ks h e =
    ground (arith, node_with_keys-not_last n c m ks)

pub bkp_session_node_found-not_last :
    (t c : Node) (m : Text) (ks : List SearchKeywords)
    → is_nil (keys_left c ks) ≡ false
    → bkp_session_node_found t m ks ≡ none
    → bkp_session_node_found (insert_node t m c) m ks ≡ none
unfolding bkp_session_node_found node_with_keys
bkp_session_node_found-not_last null c m ks h e = ground (arith, str_eq_self m)
bkp_session_node_found-not_last (text v n) c m ks h e =
    ground (arith, bkp_session_node_found-not_last n c m ks)
bkp_session_node_found-not_last (element x d n) c m ks h e = ground (
  arith,
  bkp_session_node_found-not_last n c m ks,
  node_with_keys-not_last (element x d n) c m ks,
)

pub delete_at-last : (t c : Node) (m : Text) → delete_at (insert_node t m c) (count t) ≡ t
delete_at-last null c m = refl
delete_at-last (element x d n) c m = ap (element x d) (delete_at-last n c m)
delete_at-last (text v n) c m = ap (text v) (delete_at-last n c m)
