-- ===== src/Dm.antt =====
-- The walk over the data model (dm/dmcwmp.h, dm/dmcwmp.c): the context, its list of parameters, and what
-- the macros IF_MATCH, DMOBJECT, DMPARAM and SUBENTRY run. The tree of the device (dm/dmtree) is data here:
-- a `Code` is the body of an entry method, written with those macros. `D` is the state of the device that
-- the functions of the tree read and write.
pub mod Value
pub mod Name
pub mod Entry
pub mod Walk
pub mod Listing
pub mod Single
pub mod Commit
pub mod Partial
pub mod Apply
pub mod Notify
pub mod Attributes
pub mod Objects
use icwmp.Prelude.{
  ℕ, Bool, true, false, ◌&&◌, ◌||◌, not, Option, none, some, List, [], ◌∷◌, ◌++◌, length, drop,
  ◌==◌, if◌then◌else◌,
}
use icwmp.Prelude.Text.{or_empty, Text, less, same, greater, strcmp, str_eq, strstr}
use icwmp.Event.Params.{DmParameter}

pub data SetAction : Type 0 where
  value_check value_set : SetAction

-- struct set_tmp and struct param_fault
pub record SetTmp : Type 0 where
  pub name : Text
  pub value : Text

pub record ParamFault : Type 0 where
  pub name : Text
  pub fault : ℕ

-- struct dm_enabled_notify
pub record EnabledNotify : Type 0 where
  pub name : Text
  pub notification : Text
  pub value : Text

abbrev pub fault_9003 : ℕ
fault_9003 = 9003

abbrev pub fault_9005 : ℕ
fault_9005 = 9005

abbrev pub fault_9008 : ℕ
fault_9008 = 9008

-- The lists of the section `notifications` of the configuration, one for each kind.
pub record Notifications : Type 0 where
  pub disabled : List Text
  pub passive : List Text
  pub active : List Text
  pub passive_lw : List Text
  pub passive_passive_lw : List Text
  pub active_lw : List Text
  pub passive_active_lw : List Text

-- The last lists are global in C: those of the changes to report, the section of the configuration, and whether
-- cwmp_set_end_session was called for END_SESSION_RELOAD. `inst_buf` holds the instances of the current path.
pub record DmCtx (D : Type 0) : Type 0 where
  pub stop : Bool
  pub tree : Bool
  pub nextlevel : Bool
  pub faultcode : ℕ
  pub setaction : SetAction
  pub in_param : Text
  pub in_value : Text
  pub current_obj : Text
  pub list_parameter : List DmParameter
  pub set_list_tmp : List SetTmp
  pub list_fault_param : List ParamFault
  pub in_notification : Text
  pub addobj_instance : Option Text
  pub linker : Option Text
  pub linker_param : Option Text
  pub alias_register : ℕ
  pub nbrof_instance : ℕ
  pub inst_buf : List Text
  pub list_enabled_notify : List EnabledNotify
  pub list_enabled_lw_notify : List EnabledNotify
  pub notifications : Notifications
  pub end_session_reload : Bool
  pub device : D

-- The arguments of DMOBJECT and DMPARAM. `none` is NULL, and UNDEF for `forced_notify`.
pub record DmObject (D : Type 0) : Type 0 where
  pub permission : Text
  pub notif_permission : Bool
  pub addobj : Option (D → (ℕ × Text) × D)
  pub delobj : Option (D → ℕ × D)
  pub linker : Option Text

pub record DmParam (D : Type 0) : Type 0 where
  pub lastname : Text
  pub permission : Text
  pub get_cmd : Text → D → Text
  pub set_cmd : Option (Text → D → SetAction → Text → ℕ × D)
  pub type : Option Text
  pub forced_inform : Bool
  pub notif_permission : Bool
  pub forced_notify : Option ℕ
  pub linker : Option Text

pub data Guard : Type 0 where
  if_match if_match_root : Text → Guard

-- A method ends in `return 0`; `subentry g body rest` calls the method whose guard is `g`.
pub data Code (D : Type 0) : Type 0 where
  return_0 : Code D
  dm_object : Text → DmObject D → Code D → Code D
  dm_param : DmParam D → Code D → Code D
  subentry : Guard → Code D → Code D → Code D

pub record PrefixMethod (D : Type 0) : Type 0 where
  pub prefix_name : Text
  pub enable : Bool
  pub forced_inform : Bool
  pub guard : Guard
  pub body : Code D

abbrev pub contains_dot : Text → Bool
contains_dot [] = false
contains_dot (a ∷ s) = a == b'.' || contains_dot s

abbrev pub ends_with_dot : Text → Bool
ends_with_dot [] = false
ends_with_dot (a ∷ []) = a == b'.'
ends_with_dot (a ∷ b ∷ s) = ends_with_dot (b ∷ s)

abbrev pub is_nil : Text → Bool
is_nil [] = true
is_nil (a ∷ s) = false

unfoldable pub add_list_paramameter :
    List DmParameter → Text → Option Text → Option Text → List DmParameter
add_list_paramameter [] n d t = record { name = n; data_ = some (or_empty d); type = t } ∷ []
add_list_paramameter (p ∷ ps) n d t =
    let rest = add_list_paramameter ps n d t in
    elim (strcmp p.name n) [
      | same ↦ p ∷ ps
      | greater ↦ record { name = n; data_ = some (or_empty d); type = t } ∷ p ∷ ps
      | less ↦ p ∷ rest
    ]

unfoldable pub dm_update_enabled_notify_byname :
    List EnabledNotify → Text → Text → List EnabledNotify
dm_update_enabled_notify_byname [] name new_value = []
dm_update_enabled_notify_byname (p ∷ ps) name new_value =
    (if str_eq p.name name then record p { value = new_value } else p)
    ∷ dm_update_enabled_notify_byname ps name new_value

module _ {D : Type 0} where
  -- Whether a method runs its body.
  unfoldable pub matches : Guard → DmCtx D → Bool × DmCtx D
  matches (if_match prefix) c =
      let c' = if c.tree then c else record c { current_obj = prefix } in
      (
        c.tree
            || (strstr c.in_param prefix || (strstr prefix c.in_param && ends_with_dot c.in_param)),
        c',
      )
  matches (if_match_root root) c =
      (c.tree || (strstr c.in_param root && not (contains_dot (drop (length root) c.in_param))), c)

  -- `method_obj` and `method_param` are the fields of the context of the same names. The first part is
  -- what the entry method returns.
  unfoldable pub run :
      (DmObject D → DmCtx D → ℕ × DmCtx D)
      → (DmParam D → DmCtx D → ℕ × DmCtx D)
      → Code D
      → DmCtx D
      → ℕ × DmCtx D
  unfolding matches
  run obj par return_0 c = (0, c)
  run obj par (dm_object name o rest) c =
      let (error, c1) = obj o (record c { current_obj = name }) in
      let later = run obj par rest c1 in if c1.stop then (error, c1) else later
  run obj par (dm_param p rest) c =
      let (error, c1) = par p c in
      let later = run obj par rest c1 in if c1.stop then (error, c1) else later
  run obj par (subentry g body rest) c =
      let (is_match, c1) = matches g c in
      let inner = run obj par body c1 in
      let (error, c2) = if is_match then inner else (fault_9005, c1) in
      let later = run obj par rest c2 in if c2.stop then (error, c2) else later

  -- `prefix_methods[i].method(ctx)` is one call of a method.
  abbrev pub call :
      (DmObject D → DmCtx D → ℕ × DmCtx D)
      → (DmParam D → DmCtx D → ℕ × DmCtx D)
      → PrefixMethod D
      → DmCtx D
      → ℕ × DmCtx D
  call obj par m c =
      let (is_match, c1) = matches m.guard c in
      if is_match then run obj par m.body c1 else (fault_9005, c1)

  -- The loop over prefix_methods. `none` is a loop that ran to its end.
  unfoldable pub for_methods :
      (DmObject D → DmCtx D → ℕ × DmCtx D)
      → (DmParam D → DmCtx D → ℕ × DmCtx D)
      → List (PrefixMethod D)
      → DmCtx D
      → Option ℕ × DmCtx D
  unfolding run matches
  for_methods obj par [] c = (none, c)
  for_methods obj par (m ∷ ms) c =
      let (ret, c1) = if m.enable then call obj par m c else (0, c) in
      let later = for_methods obj par ms c1 in if m.enable && c1.stop then (some ret, c1) else later

  unfoldable pub check_param_prefix : List (PrefixMethod D) → Text → Bool
  check_param_prefix [] p = false
  check_param_prefix (m ∷ ms) p = str_eq p m.prefix_name || check_param_prefix ms p
