-- ===== src/Dm/Notify.antt =====
-- The notification settings of parameters (dm/dmcwmp.c): the lists of the section `notifications` of the
-- configuration, one for each kind. libuci stands outside the repository: dmuci_add_list_value appends a value to
-- a list, dmuci_del_list_value takes out those that are equal.
pub mod Found
pub mod Setting
pub mod Others
use icwmp.Prelude.{
  ℕ, zero, suc, ◌+◌, Bool, true, false, ◌&&◌, ◌||◌, not, Option, none, some, List, [], ◌∷◌, ◌++◌,
  length, get_or, if◌then◌else◌, ltb, leb, ◌==◌,
}
use icwmp.Prelude.Text.{Text, codes, str_eq, strstr}
use icwmp.Dm.{ends_with_dot, Notifications}

abbrev pub no_notifications : Notifications
no_notifications = record {
  disabled = [];
  passive = [];
  active = [];
  passive_lw = [];
  passive_passive_lw = [];
  active_lw = [];
  passive_active_lw = [];
}

abbrev with_part : Text → List Text → List Text
with_part [] ts = ts
with_part (a ∷ s) ts = (a ∷ s) ∷ ts

-- The loop of strtok_r with ".": the parts between the dots that are not empty. `part` is the text since
-- the last dot.
unfoldable pub strtok : Text → Text → List Text
strtok part [] = with_part part []
strtok part (a ∷ s) =
    let longer = strtok (part ++ a ∷ []) s in
    let next = strtok [] s in if a == b'.' then with_part part next else longer

abbrev pub is_instance : Text → Bool
is_instance [] = false
is_instance (a ∷ s) = leb b'0' a && leb a b'9'

abbrev pub is_alias : Text → Bool
is_alias [] = false
is_alias (a ∷ s) = a == b'['

-- `i` counts the instances; `first` is `j == 0`. An instance that is missing in `inst_buf` is NULL in C.
unfoldable pub append_parts : List Text → List Text → ℕ → Bool → Text
append_parts inst_buf [] i first = []
append_parts inst_buf (pch ∷ ps) i first =
    let after_instance = append_parts inst_buf ps (suc i) first in
    let after_name = append_parts inst_buf ps i false in
    if is_instance pch
    then b'.' ∷ pch ++ after_instance
    else if is_alias pch
    then b'.' ∷ get_or inst_buf i [] ++ after_instance
    else if first
    then pch ++ after_name
    else b'.' ∷ pch ++ after_name

unfoldable pub update_param_instance_alias : List Text → Text → Text
unfolding strtok append_parts
update_param_instance_alias inst_buf param =
    append_parts inst_buf (strtok [] param) 0 true
    ++ (if ends_with_dot param then b'.' ∷ [] else [])

-- Where the search in get_parameter_notification stands: an entry that is the parameter, or the longest
-- path so far, with its setting.
pub data Scan : Type 0 where
  exact : Text → Scan
  best : ℕ → Text → Scan

-- The entries of one list, whose setting is `value`.
unfoldable pub scan_list : Text → List Text → Text → Scan → Scan
scan_list value es param (exact v) = exact v
scan_list value [] param (best maxlen v) = best maxlen v
scan_list value (pch ∷ es) param (best maxlen v) =
    let longer = scan_list value es param (best (length pch) value) in
    let same = scan_list value es param (best maxlen v) in
    if str_eq pch param
    then exact value
    else if ends_with_dot pch && (strstr param pch && ltb maxlen (length pch))
    then longer
    else same

-- The lists in the order of the loop, with their settings.
abbrev pub rows : Notifications → List (Text × List Text)
rows n =
    (codes "6", n.passive_active_lw)
    ∷ (codes "5", n.active_lw)
    ∷ (codes "4", n.passive_passive_lw)
    ∷ (codes "3", n.passive_lw)
    ∷ (codes "2", n.active)
    ∷ (codes "1", n.passive)
    ∷ (codes "0", n.disabled)
    ∷ []

unfoldable pub scan_rows : List (Text × List Text) → Text → Scan → Scan
unfolding scan_list
scan_rows [] param s = s
scan_rows ((value, es) ∷ rs) param s = scan_rows rs param (scan_list value es param s)

abbrev pub scanned : Scan → Text
scanned (exact v) = v
scanned (best m v) = v

unfoldable pub get_parameter_notification : List Text → Notifications → Text → Text
unfolding scan_rows update_param_instance_alias
get_parameter_notification inst_buf n param =
    scanned (scan_rows (rows n) (update_param_instance_alias inst_buf param) (best 0 (codes "0")))

abbrev pub remove : (Text → Bool) → List Text → List Text
remove f [] = []
remove f (e ∷ es) = if f e then remove f es else e ∷ remove f es

-- What is taken out of each list: below an object, every entry with the name of the object in it.
abbrev pub removed : Text → Text → Bool
removed param e = if ends_with_dot param then strstr e param else str_eq e param

unfoldable pub remove_parameter_notification : Notifications → Text → Notifications
remove_parameter_notification n param = record {
  disabled = remove (removed param) n.disabled;
  passive = remove (removed param) n.passive;
  active = remove (removed param) n.active;
  passive_lw = remove (removed param) n.passive_lw;
  passive_passive_lw = remove (removed param) n.passive_passive_lw;
  active_lw = remove (removed param) n.active_lw;
  passive_active_lw = remove (removed param) n.passive_active_lw;
}

-- Whether a list has the path of an object in which the parameter is.
unfoldable pub has_path : List Text → Text → Bool
has_path [] param = false
has_path (pch ∷ es) param =
    let rest = has_path es param in if ends_with_dot pch && strstr param pch then true else rest

unfoldable pub any_path : List (Text × List Text) → Text → Bool
unfolding has_path
any_path [] param = false
any_path ((value, es) ∷ rs) param = has_path es param || any_path rs param

-- The chain of tests on the setting; `none` is the result -1.
unfoldable pub add_notification : Notifications → Text → Text → Option Notifications
unfolding any_path
add_notification n param value =
    if str_eq value (codes "1")
    then some (record n { passive = n.passive ++ param ∷ [] })
    else if str_eq value (codes "2")
    then some (record n { active = n.active ++ param ∷ [] })
    else if str_eq value (codes "3")
    then some (record n { passive_lw = n.passive_lw ++ param ∷ [] })
    else if str_eq value (codes "4")
    then some (record n { passive_passive_lw = n.passive_passive_lw ++ param ∷ [] })
    else if str_eq value (codes "5")
    then some (record n { active_lw = n.active_lw ++ param ∷ [] })
    else if str_eq value (codes "6")
    then some (record n { passive_active_lw = n.passive_active_lw ++ param ∷ [] })
    else if str_eq value (codes "0")
    then some (
        if any_path (rows (record n { disabled = [] })) param
        then record n { disabled = n.disabled ++ param ∷ [] }
        else n)
    else none

-- A missing section is added empty: then all the lists are empty, and there is nothing to remove. The first part
-- is the result, `false` for -1.
unfoldable pub set_parameter_notification :
    List Text → Notifications → Text → Text → Bool × Notifications
unfolding get_parameter_notification remove_parameter_notification add_notification
    update_param_instance_alias
set_parameter_notification inst_buf n param value =
    let new_param = update_param_instance_alias inst_buf param in
    let n1 = remove_parameter_notification n new_param in
    if str_eq (get_parameter_notification inst_buf n1 new_param) value
    then (true, n1)
    else elim (add_notification n1 new_param value) [ none ↦ (false, n1) | some n2 ↦ (true, n2) ]
