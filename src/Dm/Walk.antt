-- ===== src/Dm/Walk.antt =====
-- What a walk over the data model does, from what its two methods do (the macros of dm/dmcwmp.h).
use icwmp.Prelude.{
  ℕ, Bool, true, false, ◌&&◌, Option, none, some, if_elim, arith, List, [], ◌∷◌, ◌≡◌, ◌⊎◌, inl, inr,
  refl, if◌then◌else◌, arith,
}
use icwmp.Prelude.Text.{Text}
use icwmp.Dm.{
  DmCtx, DmObject, DmParam, PrefixMethod, Code, return_0, dm_object, dm_param, subentry, Guard,
  if_match, if_match_root, matches, run, call, for_methods, fault_9005,
}

-- What the test of the loop excludes.
not_stopped : (enable stop : Bool) → stop ≡ false → (enable && stop) ≡ true → ⊥
not_stopped enable stop e t = ground arith

not_passed :
    (enable stop : Bool)
    → stop ≡ true
    → (enable && stop) ≡ false
    → (enable ≡ false → stop ≡ false)
    → ⊥
not_passed true stop e t off = ground arith
not_passed false stop e t off = ground (arith, off refl)

module _ {D : Type 0} (obj : DmObject D → DmCtx D → ℕ × DmCtx D)
    (par : DmParam D → DmCtx D → ℕ × DmCtx D) where
  -- A property of the context that each of its steps keeps is kept by the walk.
  pub record Keeps (P : DmCtx D → Type 0) : Type 0 where
    pub object : (o : DmObject D) (c : DmCtx D) → P c → P (obj o c).1
    pub param : (p : DmParam D) (c : DmCtx D) → P c → P (par p c).1
    pub at_obj : (name : Text) (c : DmCtx D) → P c → P (record c { current_obj = name })

  matches-keeps :
      (P : DmCtx D → Type 0) → Keeps P → (g : Guard) (c : DmCtx D) → P c → P (matches g c).1
  unfolding matches
  matches-keeps P k (if_match prefix) c h =
      if_elim P c.tree c (record c { current_obj = prefix }) (λ _. h) (λ _. k.at_obj prefix c h)
  matches-keeps P k (if_match_root root) c h = h

  pub run-keeps :
      (P : DmCtx D → Type 0)
      → Keeps P
      → (code : Code D) (c : DmCtx D) → P c
      → P (run obj par code c).1
  unfolding run
  run-keeps P k return_0 c h = h
  run-keeps P k (dm_object name o rest) c h =
      let c0 = record c { current_obj = name } in
      let w = k.object o c0 (k.at_obj name c h) in
      let later = run-keeps P k rest (obj o c0).1 w in
      if_elim (λ r. P r.1) (obj o c0).1.stop (obj o c0) (run obj par rest (obj o c0).1) (λ _. w)
        (λ _. later)
  run-keeps P k (dm_param p rest) c h =
      let w = k.param p c h in
      let later = run-keeps P k rest (par p c).1 w in
      if_elim (λ r. P r.1) (par p c).1.stop (par p c) (run obj par rest (par p c).1) (λ _. w)
        (λ _. later)
  run-keeps P k (subentry g body rest) c h =
      let c1 = (matches g c).1 in
      let inner = run obj par body c1 in
      let called = if (matches g c).0 then inner else (fault_9005, c1) in
      let v = matches-keeps P k g c h in
      let w : P called.1 =
        if_elim (λ r. P r.1) (matches g c).0 inner (fault_9005, c1) (λ _. run-keeps P k body c1 v)
          (λ _. v) in
      let later = run-keeps P k rest called.1 w in
      if_elim (λ r. P r.1) called.1.stop called (run obj par rest called.1) (λ _. w) (λ _. later)

  pub call-keeps :
      (P : DmCtx D → Type 0)
      → Keeps P
      → (m : PrefixMethod D) (c : DmCtx D) → P c
      → P (call obj par m c).1
  call-keeps P k m c h =
      let c1 = (matches m.guard c).1 in
      let v = matches-keeps P k m.guard c h in
      if_elim (λ r. P r.1) (matches m.guard c).0 (run obj par m.body c1) (fault_9005, c1)
        (λ _. run-keeps P k m.body c1 v) (λ _. v)

  pub for_methods-keeps :
      (P : DmCtx D → Type 0)
      → Keeps P
      → (ms : List (PrefixMethod D)) (c : DmCtx D) → P c
      → P (for_methods obj par ms c).1
  unfolding for_methods
  for_methods-keeps P k [] c h = h
  for_methods-keeps P k (m ∷ ms) c h =
      let c1 = (matches m.guard c).1 in
      let v = matches-keeps P k m.guard c h in
      let w =
        if_elim (λ r. P r.1) (matches m.guard c).0 (run obj par m.body c1) (fault_9005, c1)
          (λ _. run-keeps P k m.body c1 v) (λ _. v) in
      let r = if m.enable then call obj par m c else (0, c) in
      let u : P r.1 = if_elim (λ r. P r.1) m.enable (call obj par m c) (0, c) (λ _. w) (λ _. h) in
      let later = for_methods-keeps P k ms r.1 u in
      if_elim (λ r. P r.1) (m.enable && r.1.stop) (some r.0, r.1) (for_methods obj par ms r.1)
        (λ _. u) (λ _. later)

  -- A walk that looks for one parameter: it goes on in contexts of `Q`, and what stops it is in `R`.
  abbrev pub Searched : (DmCtx D → Type 0) → (ℕ × DmCtx D → Type 0) → ℕ × DmCtx D → Type 0
  Searched Q R r = ((r.1.stop ≡ false) × Q r.1) ⊎ ((r.1.stop ≡ true) × R r)

  pub record Searches (Q : DmCtx D → Type 0) (R : ℕ × DmCtx D → Type 0) : Type 0 where
    pub object : (o : DmObject D) (c : DmCtx D) → c.stop ≡ false → Q c → Searched Q R (obj o c)
    pub param : (p : DmParam D) (c : DmCtx D) → c.stop ≡ false → Q c → Searched Q R (par p c)
    pub at_obj : (name : Text) (c : DmCtx D) → Q c → Q (record c { current_obj = name })

  matches-goes_on :
      (Q : DmCtx D → Type 0) (R : ℕ × DmCtx D → Type 0)
      → Searches Q R
      → (g : Guard) (c : DmCtx D) → c.stop ≡ false
      → Q c
      → ((matches g c).1.stop ≡ false) × Q (matches g c).1
  unfolding matches
  matches-goes_on Q R k (if_match prefix) c f h =
      if_elim (λ d. (d.stop ≡ false) × Q d) c.tree c (record c { current_obj = prefix })
        (λ _. (f, h)) (λ _. (f, k.at_obj prefix c h))
  matches-goes_on Q R k (if_match_root root) c f h = (f, h)

  -- One step of a walk, and the rest of it if the step does not stop.
  then_rest :
      (Q : DmCtx D → Type 0) (R : ℕ × DmCtx D → Type 0) (r later : ℕ × DmCtx D)
      → Searched Q R r
      → (r.1.stop ≡ false → Q r.1 → Searched Q R later)
      → Searched Q R (if r.1.stop then r else later)
  then_rest Q R r later (inl (e, h)) f = rw (e, if◌then◌else◌) (f e h)
  then_rest Q R r later (inr (e, h)) f =
      if_elim (Searched Q R) r.1.stop r later (λ _. inr (e, h)) (λ e'. cc)

  pub run-searches :
      (Q : DmCtx D → Type 0) (R : ℕ × DmCtx D → Type 0)
      → Searches Q R
      → (code : Code D) (c : DmCtx D) → c.stop ≡ false
      → Q c
      → Searched Q R (run obj par code c)
  unfolding run
  run-searches Q R k return_0 c f h = inl (f, h)
  run-searches Q R k (dm_object name o rest) c f h =
      let c0 = record c { current_obj = name } in
      let later = run-searches Q R k rest (obj o c0).1 in
      then_rest Q R (obj o c0) (run obj par rest (obj o c0).1) (k.object o c0 f (k.at_obj name c h))
        later
  run-searches Q R k (dm_param p rest) c f h =
      let later = run-searches Q R k rest (par p c).1 in
      then_rest Q R (par p c) (run obj par rest (par p c).1) (k.param p c f h) later
  run-searches Q R k (subentry g body rest) c f h =
      let c1 = (matches g c).1 in
      let (f1, h1) = matches-goes_on Q R k g c f h in
      let inner = run obj par body c1 in
      let body_searches = run-searches Q R k body c1 f1 h1 in
      let called = if (matches g c).0 then inner else (fault_9005, c1) in
      let later = run-searches Q R k rest called.1 in
      then_rest Q R called (run obj par rest called.1)
        (if_elim (Searched Q R) (matches g c).0 inner (fault_9005, c1) (λ _. body_searches)
          (λ _. inl (f1, h1)))
        later

  -- The loop over the methods ends with a result of `R`, or runs to its end in a context of `Q`.
  abbrev pub Ended : (DmCtx D → Type 0) → (ℕ × DmCtx D → Type 0) → Option ℕ × DmCtx D → Type 0
  Ended Q R r =
      ((r.0 ≡ none) × (r.1.stop ≡ false) × Q r.1)
      ⊎ ((ret : ℕ) × (r.0 ≡ some ret) × (r.1.stop ≡ true) × R (ret, r.1))

  loop_step :
      (Q : DmCtx D → Type 0) (R : ℕ × DmCtx D → Type 0) (enable : Bool) (r : ℕ × DmCtx D)
      (later : Option ℕ × DmCtx D)
      → Searched Q R r
      → (enable ≡ false → r.1.stop ≡ false)
      → (r.1.stop ≡ false → Q r.1 → Ended Q R later)
      → Ended Q R (if enable && r.1.stop then (some r.0, r.1) else later)
  loop_step Q R enable r later (inl (e, h)) off f =
      if_elim (Ended Q R) (enable && r.1.stop) (some r.0, r.1) later
        (λ t. absurd (not_stopped enable r.1.stop e t)) (λ _. f e h)
  loop_step Q R enable r later (inr (e, h)) off f =
      if_elim (Ended Q R) (enable && r.1.stop) (some r.0, r.1) later (λ _. inr (r.0, refl, e, h))
        (λ t. absurd (not_passed enable r.1.stop e t off))

  pub for_methods-searches :
      (Q : DmCtx D → Type 0) (R : ℕ × DmCtx D → Type 0)
      → Searches Q R
      → (ms : List (PrefixMethod D)) (c : DmCtx D) → c.stop ≡ false
      → Q c
      → Ended Q R (for_methods obj par ms c)
  unfolding for_methods
  for_methods-searches Q R k [] c f h = inl (refl, f, h)
  for_methods-searches Q R k (m ∷ ms) c f h =
      let c1 = (matches m.guard c).1 in
      let (f1, h1) = matches-goes_on Q R k m.guard c f h in
      let body = run obj par m.body c1 in
      let r = if m.enable then call obj par m c else (0, c) in
      let searched : Searched Q R r =
        if_elim (Searched Q R) m.enable (call obj par m c) (0, c)
          (λ _.
            if_elim (Searched Q R) (matches m.guard c).0 body (fault_9005, c1)
              (λ _. run-searches Q R k m.body c1 f1 h1) (λ _. inl (f1, h1)))
          (λ _. inl (f, h)) in
      let later = for_methods-searches Q R k ms r.1 in
      loop_step Q R m.enable r (for_methods obj par ms r.1) searched (λ e. rw e f) later
