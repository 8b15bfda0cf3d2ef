-- ===== src/Event/Params/Order.antt =====
-- What add_dm_parameter_tolist of event.c does to a sorted list.
use icwmp.Prelude.{
  ◌≡◌, ◌≢◌, refl, sym, ap, ◌∙◌, Option, none, some, List, [], ◌∷◌, arith, if◌then◌else◌, ◌⊎◌, inl,
  inr,
}
use icwmp.Prelude.Text.{
  Text, Sign, less, same, greater, strcmp, str_eq, strcmp-same, strcmp_self, strcmp_flip,
  strcmp_trans,
}
use icwmp.Event.Params.{DmParameter, new_data, add_dm_parameter_tolist}

-- Every name of the list comes after `n`.
abbrev pub Above : Text → List DmParameter → Type 0
Above n [] = Unit {0}
Above n (p ∷ ps) = (strcmp n p.name ≡ less) × Above n ps

-- Names strictly rise, so no name occurs twice.
abbrev pub IsSorted : List DmParameter → Type 0
IsSorted [] = Unit {0}
IsSorted (p ∷ ps) = Above p.name ps × IsSorted ps

-- The data stored under a name.
unfoldable pub find : Text → List DmParameter → Option (Option Text)
find m [] = none
find m (p ∷ ps) = if str_eq p.name m then some p.data_ else find m ps

-- What a list holds for a name once `d` was added to it: none where NULL is read.
abbrev pub merged : Option (Option Text) → Option Text → Option (Option Text)
merged none d = some d
merged (some old) none = some old
merged (some none) (some d) = none
merged (some (some o)) (some d) = some (some d)

pub Sign-cases : (s : Sign) → (s ≡ less) ⊎ (s ≡ same) ⊎ (s ≡ greater)
Sign-cases less = inl refl
Sign-cases same = inr (inl refl)
Sign-cases greater = inr (inr refl)

pub Above-trans : (n m : Text) (ps : List DmParameter) → strcmp n m ≡ less → Above m ps → Above n ps
Above-trans n m [] h a = tt
Above-trans n m (p ∷ ps) h a = (strcmp_trans n m p.name h a.0, Above-trans n m ps h a.1)

find-Above : (m : Text) (ps : List DmParameter) → Above m ps → find m ps ≡ none
unfolding find
find-Above m [] a = refl
find-Above m (p ∷ ps) a = ground (arith, strcmp_flip m p.name, find-Above m ps a.1)

-- The list after the call: `x` is the data under the name.
pub record Merged (ps : List DmParameter) (n : Text) (d : Option Text) (qs : List DmParameter)
    : Type 0 where
  pub sorted : IsSorted qs
  pub x : Option Text
  pub stored : find n qs ≡ some x
  pub is_merged : merged (find n ps) d ≡ some x
  pub others : (m : Text) → n ≢ m → find m qs ≡ find m ps
  pub above : (m : Text) → strcmp m n ≡ less → Above m ps → Above m qs

abbrev pub AddedParameter :
    List DmParameter → Text → Option Text → Option (List DmParameter) → Type 0
AddedParameter ps n d none = merged (find n ps) d ≡ none
AddedParameter ps n d (some qs) = Merged ps n d qs

less-≢ : (a b : Text) → strcmp a b ≡ less → a ≢ b
less-≢ a b e h = ground (arith, strcmp_self b)

find_first :
    (p : DmParameter) (ps : List DmParameter) (n : Text)
    → strcmp p.name n ≡ same
    → find n (p ∷ ps) ≡ some p.data_
unfolding find
find_first p ps n e = ground arith

find_rest :
    (p : DmParameter) (ps : List DmParameter) (n : Text) → p.name ≢ n → find n (p ∷ ps) ≡ find n ps
unfolding find
find_rest p ps n h = ground (arith, strcmp-same p.name n)

rest_lem :
    (p : DmParameter) (ps : List DmParameter) (n : Text) (d : Option Text)
    → strcmp p.name n ≡ less
    → IsSorted (p ∷ ps)
    → (o : Option (List DmParameter)) → AddedParameter ps n d o
    → AddedParameter (p ∷ ps) n d (elim o [ none ↦ none | some qs ↦ some (p ∷ qs) ])
unfolding find
rest_lem p ps n d e s none h = rw (find_rest p ps n (less-≢ p.name n e)) h
rest_lem p ps n d e s (some qs) h = record {
  sorted = (h.above p.name e s.0, h.sorted);
  x = h.x;
  stored = find_rest p qs n (less-≢ p.name n e) ∙ h.stored;
  is_merged = rw (find_rest p ps n (less-≢ p.name n e)) h.is_merged;
  others = λ m ne. ground (arith, h.others m ne);
  above = λ m l a. (a.0, h.above m l a.1);
}

same_Merged :
    (p : DmParameter) (ps : List DmParameter) (n : Text) (d x : Option Text)
    → strcmp p.name n ≡ same
    → IsSorted (p ∷ ps)
    → merged (some p.data_) d ≡ some x
    → Merged (p ∷ ps) n d (record p { data_ = x } ∷ ps)
same_Merged p ps n d x e s h = record {
  sorted = s;
  x = x;
  stored = find_first (record p { data_ = x }) ps n e;
  is_merged = rw (find_first p ps n e) h;
  others = λ m ne.
      let off : p.name ≢ m = λ (q : p.name ≡ m). ne (sym (strcmp-same p.name n e) ∙ q) in
      find_rest (record p { data_ = x }) ps m off ∙ sym (find_rest p ps m off);
  above = λ m l a. a;
}

same_lem :
    (p : DmParameter) (ps : List DmParameter) (n : Text) (d : Option Text)
    → strcmp p.name n ≡ same
    → IsSorted (p ∷ ps)
    → AddedParameter
        (p ∷ ps)
        n
        d
        (elim (new_data p.data_ d) [ none ↦ none | some x ↦ some (record p { data_ = x } ∷ ps) ])
unfolding new_data
same_lem p ps n d e s = by_data p.data_ d refl
  where
    equal : (o d : Text) → (if str_eq o d then some o else some d) ≡ some d
    equal o d = ground (arith, strcmp-same o d)

    by_data :
        (old d : Option Text)
        → p.data_ ≡ old
        → AddedParameter
            (p ∷ ps)
            n
            d
            (elim (new_data old d) [ none ↦ none | some x ↦ some (record p { data_ = x } ∷ ps) ])
    by_data old none q = same_Merged p ps n none old e s (ap some q)
    by_data none (some d) q = rw (find_first p ps n e, q) refl
    by_data (some o) (some d) q =
        same_Merged p ps n (some d) (if str_eq o d then some o else some d) e s
          (rw (q, equal o d) refl)

first_lem :
    (p : DmParameter) (ps : List DmParameter) (n : Text) (d t : Option Text)
    → strcmp p.name n ≡ greater
    → IsSorted (p ∷ ps)
    → Merged (p ∷ ps) n d (record { name = n; data_ = d; type = t } ∷ p ∷ ps)
unfolding find
first_lem p ps n d t e s =
    let below : strcmp n p.name ≡ less = strcmp_flip p.name n ∙ (rw e) in
    let above = Above-trans n p.name ps below s.0 in
    record {
      sorted = ((below, above), s);
      x = d;
      stored = ground (arith, strcmp_self n);
      is_merged = rw (find-Above n (p ∷ ps) (below, above)) refl;
      others = λ m ne. find_rest (record { name = n; data_ = d; type = t }) (p ∷ ps) m ne;
      above = λ m l a. (l, a);
    }

-- Adding a parameter to a list that is sorted by name either reads a NULL pointer, and then the
-- name stands there without data and new data is given; or it gives a list that is sorted by name,
-- which holds under that name the new data, or without new data the old, and under every other name
-- what it held before, and whose names all come after any name that those of the list and the new
-- name come after.
pub add_dm_parameter_tolist_lem :
    (ps : List DmParameter) (n : Text) (d t : Option Text)
    → IsSorted ps
    → AddedParameter ps n d (add_dm_parameter_tolist ps n d t)
unfolding add_dm_parameter_tolist find
add_dm_parameter_tolist_lem [] n d t s = record {
  sorted = (tt, tt);
  x = d;
  stored = ground (arith, strcmp_self n);
  is_merged = refl;
  others = λ m ne. find_rest (record { name = n; data_ = d; type = t }) [] m ne;
  above = λ m l a. (l, tt);
}
add_dm_parameter_tolist_lem (p ∷ ps) n d t s = elim (Sign-cases (strcmp p.name n)) [
  | inl e ↦
      rw (e, add_dm_parameter_tolist)
        (rest_lem p ps n d e s (add_dm_parameter_tolist ps n d t)
          (add_dm_parameter_tolist_lem ps n d t s.1))
  | inr (inl e) ↦ rw (e, add_dm_parameter_tolist) (same_lem p ps n d e s)
  | inr (inr e) ↦ rw (e, add_dm_parameter_tolist) (first_lem p ps n d t e s)
]
