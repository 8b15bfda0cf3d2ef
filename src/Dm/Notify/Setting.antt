-- ===== src/Dm/Notify/Setting.antt =====
-- A setting that was made is the one that is found, and the settings of other parameters stay
-- (set_parameter_notification and get_parameter_notification of dm/dmcwmp.c).
use icwmp.Prelude.{
  arith, ℕ, Bool, true, false, Option, none, some, List, [], ◌∷◌, ◌++◌, ◌≡◌, refl, ap, ◌∙◌, sym,
  All, if_elim, length,
}
use icwmp.Prelude.Text.{Text, codes, str_eq, str_eq_sound}
use icwmp.Dm.{Notifications}
use icwmp.Dm.Notify.{
  best, scan_list, scan_rows, scanned, any_path, rows, remove_parameter_notification,
  add_notification, get_parameter_notification, set_parameter_notification,
  update_param_instance_alias,
}
use icwmp.Dm.Notify.Found.{Absent, scan_rows-found, scan_rows-no_path, remove-Absent}

-- The setting that the lists hold for a parameter.
abbrev pub found_in : Notifications → Text → Text
found_in n p = scanned (scan_rows (rows n) p (best 0 (codes "0")))

abbrev Sets : Text → Text → Option Notifications → Type 0
Sets p value none = Unit
Sets p value (some n) = found_in n p ≡ value

-- The parameter at the end of one of the lists, and the lists before it.
listed :
    (before after : List (Text × List Text)) (k value : Text) (es : List Text) (p : Text)
    → All (λ (r : Text × List Text). Absent p r.1) before
    → Absent p es
    → str_eq value k ≡ true
    → scanned (scan_rows (before ++ (k, es ++ p ∷ []) ∷ after) p (best 0 (codes "0"))) ≡ value
listed before after k value es p h hs e =
    ap scanned (scan_rows-found before after k es p 0 (codes "0") h hs)
    ∙ sym (str_eq_sound value k e)

-- A list of the setting that is there already does not change it.
scan_list-same :
    (v : Text) (es : List Text) (p : Text) (m : ℕ)
    → Absent p es
    → scanned (scan_list v es p (best m v)) ≡ v
unfolding scan_list
scan_list-same v [] p m h = refl
scan_list-same v (e ∷ es) p m (h, hs) =
    ground (arith, scan_list-same v es p (length e) hs, scan_list-same v es p m hs)

add_notification-Sets :
    (n : Notifications) (p value : Text)
    → (a6 : Absent p n.passive_active_lw) → (a5 : Absent p n.active_lw)
    → (a4 : Absent p n.passive_passive_lw) → (a3 : Absent p n.passive_lw) → (a2 : Absent p n.active)
    → (a1 : Absent p n.passive) → (a0 : Absent p n.disabled)
    → Sets p value (add_notification n p value)
unfolding add_notification any_path scan_rows
add_notification-Sets n p value a6 a5 a4 a3 a2 a1 a0 =
    let r6 : Text × List Text = (codes "6", n.passive_active_lw) in
    let r5 : Text × List Text = (codes "5", n.active_lw) in
    let r4 : Text × List Text = (codes "4", n.passive_passive_lw) in
    let r3 : Text × List Text = (codes "3", n.passive_lw) in
    let r2 : Text × List Text = (codes "2", n.active) in
    let r1 : Text × List Text = (codes "1", n.passive) in
    let r0 : Text × List Text = (codes "0", n.disabled) in
    if_elim (Sets p value) (str_eq value (codes "1")) _ _
      (listed (r6 ∷ r5 ∷ r4 ∷ r3 ∷ r2 ∷ []) (r0 ∷ []) (codes "1") value n.passive p
        (a6, (a5, (a4, (a3, (a2, tt))))) a1)
      (λ _.
        if_elim (Sets p value) (str_eq value (codes "2")) _ _
          (listed (r6 ∷ r5 ∷ r4 ∷ r3 ∷ []) (r1 ∷ r0 ∷ []) (codes "2") value n.active p
            (a6, (a5, (a4, (a3, tt)))) a2)
          (λ _.
            if_elim (Sets p value) (str_eq value (codes "3")) _ _
              (listed (r6 ∷ r5 ∷ r4 ∷ []) (r2 ∷ r1 ∷ r0 ∷ []) (codes "3") value n.passive_lw p
                (a6, (a5, (a4, tt))) a3)
              (λ _.
                if_elim (Sets p value) (str_eq value (codes "4")) _ _
                  (listed (r6 ∷ r5 ∷ []) (r3 ∷ r2 ∷ r1 ∷ r0 ∷ []) (codes "4") value
                    n.passive_passive_lw p (a6, (a5, tt)) a4)
                  (λ _.
                    if_elim (Sets p value) (str_eq value (codes "5")) _ _
                      (listed (r6 ∷ []) (r4 ∷ r3 ∷ r2 ∷ r1 ∷ r0 ∷ []) (codes "5") value n.active_lw
                        p (a6, tt) a5)
                      (λ _.
                        if_elim (Sets p value) (str_eq value (codes "6")) _ _
                          (listed [] (r5 ∷ r4 ∷ r3 ∷ r2 ∷ r1 ∷ r0 ∷ []) (codes "6") value
                            n.passive_active_lw p tt a6)
                          (λ _.
                            if_elim (Sets p value) (str_eq value (codes "0")) _ _
                              (λ e.
                                if_elim (λ x. found_in x p ≡ value)
                                  (any_path (rows (record n { disabled = [] })) p)
                                  (record n { disabled = n.disabled ++ p ∷ [] }) n
                                  (λ _.
                                    listed (r6 ∷ r5 ∷ r4 ∷ r3 ∷ r2 ∷ r1 ∷ []) [] (codes "0") value
                                      n.disabled p (a6, (a5, (a4, (a3, (a2, (a1, tt)))))) a0 e)
                                  (λ k.
                                    ap scanned (
                                      scan_rows-no_path (r6 ∷ r5 ∷ r4 ∷ r3 ∷ r2 ∷ r1 ∷ []) (r0 ∷ [])
                                        p 0 (codes "0") (a6, (a5, (a4, (a3, (a2, (a1, tt)))))) k)
                                    ∙ scan_list-same (codes "0") n.disabled p 0 a0
                                    ∙ sym (str_eq_sound value (codes "0") e)))
                              (λ _. tt)))))))

-- A result that is 0 makes the setting the one asked for.
abbrev MadeSo : Text → Text → Bool × Notifications → Type 0
MadeSo q value r = r.0 ≡ true → found_in r.1 q ≡ value

Sets-MadeSo :
    (q value : Text) (n : Notifications) (o : Option Notifications)
    → Sets q value o
    → MadeSo q value (elim o [ none ↦ (false, n) | some n2 ↦ (true, n2) ])
Sets-MadeSo q value n none s h = ground arith
Sets-MadeSo q value n (some n2) s h = s

-- Where set_parameter_notification answers 0 for a parameter or an object and a setting,
-- get_parameter_notification then answers that setting for it, whatever the lists of notifications
-- held before: no entry of an object above it and no older entry hides the new one. The name with
-- its aliases replaced by instance numbers is one that this replacement leaves as it is.
pub get_parameter_notification-set :
    (inst_buf : List Text) (n : Notifications) (param value : Text)
    → update_param_instance_alias inst_buf (update_param_instance_alias inst_buf param)
      ≡ update_param_instance_alias inst_buf param
    → (set_parameter_notification inst_buf n param value).0 ≡ true
    → get_parameter_notification inst_buf
        (set_parameter_notification inst_buf n param value).1
        param
      ≡ value
unfolding set_parameter_notification get_parameter_notification remove_parameter_notification
get_parameter_notification-set inst_buf n param value fixed h =
    let q : Text = update_param_instance_alias inst_buf param in
    let n1 : Notifications = remove_parameter_notification n q in
    if_elim (MadeSo q value) (str_eq (get_parameter_notification inst_buf n1 q) value) (true, n1)
      (elim (add_notification n1 q value) [ none ↦ (false, n1) | some n2 ↦ (true, n2) ])
      (λ e _.
        ap (found_in n1) (sym fixed)
        ∙ str_eq_sound (get_parameter_notification inst_buf n1 q) value e)
      (λ _. Sets-MadeSo q value n1 (add_notification n1 q value) (
        add_notification-Sets n1 q value (remove-Absent q n.passive_active_lw)
          (remove-Absent q n.active_lw) (remove-Absent q n.passive_passive_lw)
          (remove-Absent q n.passive_lw) (remove-Absent q n.active) (remove-Absent q n.passive)
          (remove-Absent q n.disabled)))
      h
