-- ===== src/Dm/Notify/Found.antt =====
-- What the search for a setting finds (get_parameter_notification of dm/dmcwmp.c).
use icwmp.Prelude.{
  arith, ℕ, Bool, true, false, ◌||◌, ◌&&◌, List, [], ◌∷◌, ◌++◌, ◌≡◌, refl, ap, ◌∙◌, All, if_elim,
  Bool-cases, inl, inr, length, ltb,
}
use icwmp.Prelude.Text.{Text, str_eq, str_eq_self, str_eq_sound, strstr, is_prefix}
use icwmp.Dm.{ends_with_dot}
use icwmp.Dm.Notify.{Scan, exact, best, scan_list, scan_rows, has_path, any_path, remove, removed}

-- The parameter is no entry of the list.
abbrev pub Absent : Text → List Text → Type 0
Absent param es = All (λ e. str_eq e param ≡ false) es

abbrev pub IsBest : Scan → Type 0
IsBest s = (m : ℕ) × (v : Text) × (s ≡ best m v)

pub scan_rows-exact :
    (rs : List (Text × List Text)) (param v : Text) → scan_rows rs param (exact v) ≡ exact v
unfolding scan_rows scan_list
scan_rows-exact [] param v = refl
scan_rows-exact ((value, es) ∷ rs) param v = scan_rows-exact rs param v

pub scan_list-Absent :
    (value : Text) (es : List Text) (param : Text) (m : ℕ) (v : Text)
    → Absent param es
    → IsBest (scan_list value es param (best m v))
unfolding scan_list
scan_list-Absent value [] param m v h = (m, v, refl)
scan_list-Absent value (e ∷ es) param m v (h, hs) =
    if_elim IsBest (str_eq e param) _ _ (λ k. ground arith)
      (λ _.
        if_elim IsBest (ends_with_dot e && (strstr param e && ltb m (length e))) _ _
          (λ _. scan_list-Absent value es param (length e) value hs)
          (λ _. scan_list-Absent value es param m v hs))

pub scan_list-last :
    (value : Text) (es : List Text) (param : Text) (m : ℕ) (v : Text)
    → Absent param es
    → scan_list value (es ++ param ∷ []) param (best m v) ≡ exact value
unfolding scan_list
scan_list-last value [] param m v h = ground (arith, str_eq_self param)
scan_list-last value (e ∷ es) param m v (h, hs) =
    ground (
      arith,
      scan_list-last value es param (length e) value hs,
      scan_list-last value es param m v hs,
    )

-- The first list that has the parameter as its last entry gives the setting.
pub scan_rows-found :
    (before after : List (Text × List Text)) (value : Text) (es : List Text) (param : Text) (m : ℕ)
    (v : Text)
    → All (λ (r : Text × List Text). Absent param r.1) before
    → Absent param es
    → scan_rows (before ++ (value, es ++ param ∷ []) ∷ after) param (best m v) ≡ exact value
unfolding scan_rows
scan_rows-found [] after value es param m v h k =
    ap (scan_rows after param) (scan_list-last value es param m v k)
    ∙ scan_rows-exact after param value
scan_rows-found ((w, fs) ∷ before) after value es param m v (h, hs) k =
    let (m', v', e) = scan_list-Absent w fs param m v h in
    ap (scan_rows (before ++ (value, es ++ param ∷ []) ∷ after) param) e
    ∙ scan_rows-found before after value es param m' v' hs k

-- Without the parameter and without a path to it a list changes nothing.
scan_list-no_path :
    (value : Text) (es : List Text) (param : Text) (m : ℕ) (v : Text)
    → Absent param es
    → has_path es param ≡ false
    → scan_list value es param (best m v) ≡ best m v
unfolding scan_list has_path
scan_list-no_path value [] param m v h k = refl
scan_list-no_path value (e ∷ es) param m v (h, hs) k =
    ground (arith, scan_list-no_path value es param m v hs)

or_false : (a b : Bool) → (a || b) ≡ false → (a ≡ false) × (b ≡ false)
or_false true b h = ground arith
or_false false b h = (refl, h)

pub scan_rows-no_path :
    (rs after : List (Text × List Text)) (param : Text) (m : ℕ) (v : Text)
    → All (λ (r : Text × List Text). Absent param r.1) rs
    → any_path rs param ≡ false
    → scan_rows (rs ++ after) param (best m v) ≡ scan_rows after param (best m v)
unfolding scan_rows any_path
scan_rows-no_path [] after param m v h k = refl
scan_rows-no_path ((w, es) ∷ rs) after param m v (h, hs) k =
    let (none_here, none_later) = or_false (has_path es param) (any_path rs param) k in
    ap (scan_rows (rs ++ after) param) (scan_list-no_path w es param m v h none_here)
    ∙ scan_rows-no_path rs after param m v hs none_later

is_prefix_self : (s : Text) → is_prefix s s ≡ true
unfolding is_prefix
is_prefix_self [] = refl
is_prefix_self (a ∷ s) = ground (arith, is_prefix_self s)

strstr_self : (s : Text) → strstr s s ≡ true
unfolding strstr
strstr_self [] = is_prefix_self []
strstr_self (a ∷ s) = ground (arith, is_prefix_self (a ∷ s))

-- What is equal to the parameter is taken out.
removed_itself : (param : Text) → removed param param ≡ true
removed_itself param =
    if_elim (λ b. b ≡ true) (ends_with_dot param) (strstr param param) (str_eq param param)
      (λ _. strstr_self param) (λ _. str_eq_self param)

removed_equal : (param e : Text) → removed param e ≡ false → str_eq e param ≡ false
removed_equal param e h = elim (Bool-cases (str_eq e param)) [
  | inr k ↦ k
  | inl k ↦
      let both = ap (removed param) (str_eq_sound e param k) ∙ removed_itself param in
      ap (λ b. b) (cc (h, both))
]

pub remove-Absent : (param : Text) (es : List Text) → Absent param (remove (removed param) es)
remove-Absent param [] = tt
remove-Absent param (e ∷ es) =
    if_elim (Absent param) (removed param e) (remove (removed param) es)
      (e ∷ remove (removed param) es) (λ _. remove-Absent param es)
      (λ k. (removed_equal param e k, remove-Absent param es))
