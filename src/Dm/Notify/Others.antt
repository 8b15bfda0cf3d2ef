-- ===== src/Dm/Notify/Others.antt =====
-- To set the notification of a parameter leaves the other parameters alone (set_parameter_notification of
-- dm/dmcwmp.c).
use icwmp.Prelude.{
  arith, Bool, true, false, ◌&&◌, Option, none, some, List, [], ◌∷◌, ◌++◌, ◌≡◌, refl, ap, ◌∙◌, sym,
  if◌then◌else◌, if_elim, length, ltb,
}
use icwmp.Prelude.Text.{Text, codes, str_eq, str_eq_sound, strstr}
use icwmp.Dm.{ends_with_dot, Notifications}
use icwmp.Dm.Notify.{
  Scan, best, exact, scan_list, scan_rows, scanned, any_path, rows, remove, removed,
  remove_parameter_notification, add_notification, get_parameter_notification,
  set_parameter_notification, update_param_instance_alias,
}
use icwmp.Dm.Notify.Setting.{found_in}

-- `p` is the parameter that is set, no object; `q` is another one.
module _ (p q : Text) (is_param : ends_with_dot p ≡ false) (other : str_eq p q ≡ false) where
  scan_list-skip :
      (v : Text) (es : List Text) (s : Scan) → scan_list v (p ∷ es) q s ≡ scan_list v es q s
  unfolding scan_list
  scan_list-skip v es (exact w) = refl
  scan_list-skip v es (best m w) = rw (other, is_param) refl

  scan_list-tail :
      (v e : Text) (es fs : List Text)
      → ((s : Scan) → scan_list v es q s ≡ scan_list v fs q s)
      → (s : Scan) → scan_list v (e ∷ es) q s ≡ scan_list v (e ∷ fs) q s
  unfolding scan_list
  scan_list-tail v e es fs h (exact w) = refl
  scan_list-tail v e es fs h (best m w) = λ i.
      if str_eq e q
      then exact v
      else if ends_with_dot e && (strstr q e && ltb m (length e))
      then h (best (length e) v) i
      else h (best m w) i

  scan_list-remove :
      (v : Text) (es : List Text) (s : Scan)
      → scan_list v (remove (removed p) es) q s ≡ scan_list v es q s
  scan_list-remove v [] s = refl
  scan_list-remove v (e ∷ es) s =
      if_elim (λ x. scan_list v x q s ≡ scan_list v (e ∷ es) q s) (removed p e)
        (remove (removed p) es) (e ∷ remove (removed p) es)
        (λ k.
          scan_list-remove v es s
          ∙ sym (scan_list-skip v es s)
          ∙ ap (λ x. scan_list v (x ∷ es) q s) (sym (equal e k)))
        (λ _. scan_list-tail v e (remove (removed p) es) es (scan_list-remove v es) s)
    where
      equal : (e : Text) → removed p e ≡ true → e ≡ p
      equal e k = str_eq_sound e p (ground arith)

  scan_list-concat :
      (v : Text) (es : List Text) (s : Scan) → scan_list v (es ++ p ∷ []) q s ≡ scan_list v es q s
  scan_list-concat v [] s = scan_list-skip v [] s
  scan_list-concat v (e ∷ es) s = scan_list-tail v e (es ++ p ∷ []) es (scan_list-concat v es) s

  -- Lists that agree one by one give the same setting.
  scan_rows-agree :
      (v : Text) (es fs : List Text) (rs rs' : List (Text × List Text))
      → ((s : Scan) → scan_list v es q s ≡ scan_list v fs q s)
      → ((s : Scan) → scan_rows rs q s ≡ scan_rows rs' q s)
      → (s : Scan) → scan_rows ((v, es) ∷ rs) q s ≡ scan_rows ((v, fs) ∷ rs') q s
  unfolding scan_rows
  scan_rows-agree v es fs rs rs' h k s = ap (scan_rows rs q) (h s) ∙ k (scan_list v fs q s)

  scan_rows-listed :
      (before after : List (Text × List Text)) (v : Text) (es : List Text) (s : Scan)
      → scan_rows (before ++ (v, es ++ p ∷ []) ∷ after) q s
        ≡ scan_rows (before ++ (v, es) ∷ after) q s
  unfolding scan_rows
  scan_rows-listed [] after v es s = ap (scan_rows after q) (scan_list-concat v es s)
  scan_rows-listed ((w, fs) ∷ before) after v es s =
      scan_rows-listed before after v es (scan_list w fs q s)

  remove-same : (n : Notifications) → found_in (remove_parameter_notification n p) q ≡ found_in n q
  unfolding remove_parameter_notification
  remove-same n =
      let same : (v : Text) (es : List Text) (rs rs' : List (Text × List Text))
          → ((s : Scan) → scan_rows rs q s ≡ scan_rows rs' q s)
          → (s : Scan)
          → scan_rows ((v, remove (removed p) es) ∷ rs) q s ≡ scan_rows ((v, es) ∷ rs') q s =
        λ v es rs rs' k s.
          scan_rows-agree v (remove (removed p) es) es rs rs' (scan_list-remove v es) k s in
      ap scanned (
        same (codes "6") n.passive_active_lw _ _
          (same (codes "5") n.active_lw _ _ (
            same (codes "4") n.passive_passive_lw _ _ (
              same (codes "3") n.passive_lw _ _ (
                same (codes "2") n.active _ _ (
                  same (codes "1") n.passive _ _
                    (same (codes "0") n.disabled [] [] (λ s. refl)))))))
          (best 0 (codes "0")))

  abbrev Leaves : Text → Option Notifications → Type 0
  Leaves w none = Unit
  Leaves w (some n) = found_in n q ≡ w

  add-same : (n : Notifications) (value : Text) → Leaves (found_in n q) (add_notification n p value)
  unfolding add_notification
  add-same n value =
      let r6 : Text × List Text = (codes "6", n.passive_active_lw) in
      let r5 : Text × List Text = (codes "5", n.active_lw) in
      let r4 : Text × List Text = (codes "4", n.passive_passive_lw) in
      let r3 : Text × List Text = (codes "3", n.passive_lw) in
      let r2 : Text × List Text = (codes "2", n.active) in
      let r1 : Text × List Text = (codes "1", n.passive) in
      let r0 : Text × List Text = (codes "0", n.disabled) in
      let start : Scan = best 0 (codes "0") in
      let P = Leaves (found_in n q) in
      if_elim P (str_eq value (codes "1")) _ _
        (λ _.
          ap scanned
            (scan_rows-listed (r6 ∷ r5 ∷ r4 ∷ r3 ∷ r2 ∷ []) (r0 ∷ []) (codes "1") n.passive start))
        (λ _.
          if_elim P (str_eq value (codes "2")) _ _
            (λ _.
              ap scanned (
                scan_rows-listed (r6 ∷ r5 ∷ r4 ∷ r3 ∷ []) (r1 ∷ r0 ∷ []) (codes "2") n.active
                  start))
            (λ _.
              if_elim P (str_eq value (codes "3")) _ _
                (λ _. ap scanned (
                  scan_rows-listed (r6 ∷ r5 ∷ r4 ∷ []) (r2 ∷ r1 ∷ r0 ∷ []) (codes "3") n.passive_lw
                    start))
                (λ _.
                  if_elim P (str_eq value (codes "4")) _ _
                    (λ _. ap scanned (
                      scan_rows-listed (r6 ∷ r5 ∷ []) (r3 ∷ r2 ∷ r1 ∷ r0 ∷ []) (codes "4")
                        n.passive_passive_lw start))
                    (λ _.
                      if_elim P (str_eq value (codes "5")) _ _
                        (λ _. ap scanned (
                          scan_rows-listed (r6 ∷ []) (r4 ∷ r3 ∷ r2 ∷ r1 ∷ r0 ∷ []) (codes "5")
                            n.active_lw start))
                        (λ _.
                          if_elim P (str_eq value (codes "6")) _ _
                            (λ _. ap scanned (
                              scan_rows-listed [] (r5 ∷ r4 ∷ r3 ∷ r2 ∷ r1 ∷ r0 ∷ []) (codes "6")
                                n.passive_active_lw start))
                            (λ _.
                              if_elim P (str_eq value (codes "0")) _ _
                                (λ _.
                                  if_elim (λ x. found_in x q ≡ found_in n q)
                                    (any_path (rows (record n { disabled = [] })) p)
                                    (record n { disabled = n.disabled ++ p ∷ [] }) n
                                    (λ _. ap scanned (
                                      scan_rows-listed (r6 ∷ r5 ∷ r4 ∷ r3 ∷ r2 ∷ r1 ∷ []) []
                                        (codes "0") n.disabled start))
                                    (λ _. refl))
                                (λ _. tt)))))))

  after_add :
      (w : Text) (n : Notifications) (o : Option Notifications)
      → found_in n q ≡ w
      → Leaves w o
      → let r : Bool × Notifications = elim o [ none ↦ (false, n) | some n2 ↦ (true, n2) ] in
        found_in r.1 q ≡ w
  after_add w n none h k = h
  after_add w n (some n2) h k = k

-- set_parameter_notification for a parameter, a name that does not end in a dot once its aliases
-- are replaced, leaves what get_parameter_notification answers for every other name as it was,
-- whatever the setting and whatever it answers.
pub set_parameter_notification_others :
    (inst_buf : List Text) (n : Notifications) (param value param' : Text)
    → ends_with_dot (update_param_instance_alias inst_buf param) ≡ false
    → str_eq
        (update_param_instance_alias inst_buf param)
        (update_param_instance_alias inst_buf param')
      ≡ false
    → get_parameter_notification inst_buf
        (set_parameter_notification inst_buf n param value).1
        param'
      ≡ get_parameter_notification inst_buf n param'
unfolding set_parameter_notification get_parameter_notification
set_parameter_notification_others inst_buf n param value param' is_param other =
    let p : Text = update_param_instance_alias inst_buf param in
    let q : Text = update_param_instance_alias inst_buf param' in
    let n1 : Notifications = remove_parameter_notification n p in
    let same = remove-same p q is_param other n in
    if_elim (λ (r : Bool × Notifications). found_in r.1 q ≡ found_in n q)
      (str_eq (get_parameter_notification inst_buf n1 p) value) (true, n1)
      (elim (add_notification n1 p value) [ none ↦ (false, n1) | some n2 ↦ (true, n2) ]) (λ _. same)
      (λ _.
        after_add p q is_param other (found_in n1 q) n1 (add_notification n1 p value) refl
          (add-same p q is_param other n1 value)
        ∙ same)
