-- ===== src/Store/Node.antt =====
-- The XML tree of the backup file, and the functions of backupSession.c that search and change it. A node has
-- the two pointers of mxml_node_t that the code follows, to its first child and to its next sibling;
-- so a node also stands for the list of siblings it begins. The tree `bkp_tree` is given by the first child of its
-- element `cwmp`. mxmlNewElement and mxmlNewText put a node behind its siblings; mxmlWalkNext goes no further
-- than the descendants of its second argument.
use icwmp.Prelude.{
  ℕ, zero, suc, Bool, true, false, Option, none, some, List, [], ◌∷◌, ◌&&◌, if◌then◌else◌,
}
use icwmp.Prelude.Text.{Text, codes, str_eq}
use Prim.Native.String.{String}
use mathlib.Core.Option

pub data Node : Type 0 where
  null : Node
  element : Text → Node → Node → Node
  text : Text → Node → Node

-- mxmlAdd at the end of the siblings.
abbrev pub add_last : Node → Node → Node
add_last null b = b
add_last (element m c n) b = element m c (add_last n b)
add_last (text s n) b = text s (add_last n b)

abbrev pub new_text : Option Text → Node
new_text none = null
new_text (some v) = text v null

-- The children of the node `tree`, with the new one.
unfoldable pub bkp_session_insert : Node → Text → Option Text → Node
bkp_session_insert tree name value = add_last tree (element name (new_text value) null)

pub record SearchKeywords : Type 0 where
  pub name : Text
  pub value : Option Text

abbrev pub key : String → Option Text → SearchKeywords
key n v = record { name = codes n; value = v }

-- `keys[i].value == NULL || d is a text and strcmp says that it is the value`
abbrev pub value_matches : Option Text → Node → Bool
value_matches none d = true
value_matches (some v) (text w n) = str_eq v w
value_matches (some v) d = false

-- The inner loop: the keys from `i` on, for the children from `c` on.
unfoldable pub keys_left : Node → List SearchKeywords → List SearchKeywords
keys_left null ks = ks
keys_left (text v c) ks = keys_left c ks
keys_left (element n d c) [] = []
keys_left (element n d c) (k ∷ ks) =
    keys_left c (if str_eq k.name n && value_matches k.value d then ks else k ∷ ks)

abbrev pub is_nil {ℓ} : {A : Type ℓ} → List A → Bool
is_nil [] = true
is_nil (x ∷ xs) = false

-- The outer loop, which does not look at the name again: the place of the node it ends at.
unfoldable pub node_with_keys : Node → List SearchKeywords → Option ℕ
node_with_keys null ks = none
node_with_keys (text v n) ks = Option.map suc (node_with_keys n ks)
node_with_keys (element m c n) ks =
    let rest = node_with_keys n ks in
    if is_nil (keys_left c ks) then some 0 else Option.map suc rest

unfoldable pub bkp_session_node_found : Node → Text → List SearchKeywords → Option ℕ
bkp_session_node_found null name ks = none
bkp_session_node_found (text v n) name ks = Option.map suc (bkp_session_node_found n name ks)
bkp_session_node_found (element m c n) name ks =
    let rest = bkp_session_node_found n name ks in
    if str_eq m name then node_with_keys (element m c n) ks else Option.map suc rest

-- mxmlDelete of the node at a place among the siblings.
abbrev pub delete_at : Node → ℕ → Node
delete_at null p = null
delete_at (element m c n) zero = n
delete_at (element m c n) (suc p) = element m c (delete_at n p)
delete_at (text v n) zero = n
delete_at (text v n) (suc p) = text v (delete_at n p)

-- One call of bkp_session_insert for each name and value.
abbrev pub insert_all : Node → List SearchKeywords → Node
insert_all b [] = b
insert_all b (k ∷ ks) = insert_all (bkp_session_insert b k.name k.value) ks

-- The new last child of the tree, with these children.
abbrev pub insert_node : Node → Text → Node → Node
insert_node tree name children = add_last tree (element name children null)

-- What the functions that insert a request share: nothing is added where the keys are found.
unfoldable pub insert_unless_found : Node → Text → List SearchKeywords → List SearchKeywords → Node
insert_unless_found tree name keys fields = elim (bkp_session_node_found tree name keys) [
  | some p ↦ tree
  | none ↦ insert_node tree name (insert_all null fields)
]

-- What the functions that delete a request share.
unfoldable pub delete_found : Node → Text → List SearchKeywords → Node
delete_found tree name keys = elim (bkp_session_node_found tree name keys) [
  | some p ↦ delete_at tree p
  | none ↦ tree
]
