-- ===== src/Event/Params.antt =====
-- Parameter lists of event.c: add_dm_parameter_tolist keeps a list sorted by name.
pub mod Order
use icwmp.Prelude.{Option, none, some, List, [], ◌∷◌, if◌then◌else◌}
use icwmp.Prelude.Text.{Text, less, same, greater, strcmp, str_eq}

pub record DmParameter : Type 0 where
  pub name : Text
  pub data_ : Option Text
  pub type : Option Text

-- `if (param_data && strcmp(data, param_data) != 0) data = strdup(param_data)`. The test reads the stored
-- data: the result is none where that is NULL and new data is given.
unfoldable pub new_data : Option Text → Option Text → Option (Option Text)
new_data old none = some old
new_data none (some d) = none
new_data (some o) (some d) = some (if str_eq o d then some o else some d)

-- The result is none where strcmp reads a NULL pointer.
unfoldable pub add_dm_parameter_tolist :
    List DmParameter → Text → Option Text → Option Text → Option (List DmParameter)
unfolding new_data
add_dm_parameter_tolist [] n d t = some (record { name = n; data_ = d; type = t } ∷ [])
add_dm_parameter_tolist (p ∷ ps) n d t =
    let rest = add_dm_parameter_tolist ps n d t in
    elim (strcmp p.name n) [
      | same ↦ elim (new_data p.data_ d) [
        | none ↦ none
        | some x ↦ some (record p { data_ = x } ∷ ps)
      ]
      | greater ↦ some (record { name = n; data_ = d; type = t } ∷ p ∷ ps)
      | less ↦ elim rest [ none ↦ none | some qs ↦ some (p ∷ qs) ]
    ]
