-- ===== src/Rpc/Ordered.antt =====
-- Lists in the order of the times, where a request is added or some are taken (xml.c).
use icwmp.Prelude.{arith, ℕ, ◌+◌, ◌≤◌, Bool, false, List, [], ◌∷◌, if_elim, ◌≡◌, refl, All}
use icwmp.Prelude.Decimal.{ℤ, pos, negsuc, gt}
use icwmp.Rpc.Remove.{uncounted, cancel_in}
use icwmp.Rpc.Transfer.{add_before}
use icwmp.Store.Loading.{counted}
use icwmp.Store.Node.{Node}
use icwmp.Store.Sorted.{SortedBy, timed, gt_asym}

gt_chain : (a b c : ℤ) → gt a b ≡ false → gt b c ≡ false → gt a c ≡ false
gt_chain (pos a) (pos b) (pos c) h k = ground arith
gt_chain (pos a) (pos b) (negsuc c) h k = ground arith
gt_chain (pos a) (negsuc b) c h k = ground arith
gt_chain (negsuc a) b (pos c) h k = ground arith
gt_chain (negsuc a) (pos b) (negsuc c) h k = ground arith
gt_chain (negsuc a) (negsuc b) (negsuc c) h k = ground arith

module _ {A : Type 0} (time : A → ℤ) where
  All-add_before :
      (P : A → Type 0) (a : A) (bs : List A) → P a → All P bs → All P (add_before time a bs)
  unfolding add_before
  All-add_before P a [] p h = (p, tt)
  All-add_before P a (b ∷ bs) p (q, h) =
      if_elim (All P) (gt (time a) (time b)) (b ∷ add_before time a bs) (a ∷ b ∷ bs)
        (λ _. (q, All-add_before P a bs p h)) (λ _. (p, (q, h)))

  later_too :
      (a b : A) (cs : List A)
      → gt (time a) (time b) ≡ false
      → All (λ c. gt (time b) (time c) ≡ false) cs
      → All (λ c. gt (time a) (time c) ≡ false) cs
  later_too a b [] e h = tt
  later_too a b (c ∷ cs) e (h, hs) =
      (gt_chain (time a) (time b) (time c) e h, later_too a b cs e hs)

  pub add_before-SortedBy :
      (a : A) (bs : List A) → SortedBy time bs → SortedBy time (add_before time a bs)
  unfolding add_before
  add_before-SortedBy a [] h = (tt, tt)
  add_before-SortedBy a (b ∷ bs) (h, hs) =
      if_elim (SortedBy time) (gt (time a) (time b)) (b ∷ add_before time a bs) (a ∷ b ∷ bs)
        (λ e. (
          All-add_before (λ c. gt (time b) (time c) ≡ false) a bs (gt_asym (time b) (time a) e) h,
          add_before-SortedBy a bs hs,
        ))
        (λ e. ((e, later_too a b bs e h), (h, hs)))

  pub timed-add_before :
      (a : A) (bs : List A) → timed time (add_before time a bs) ≡ counted (time a) (timed time bs)
  unfolding add_before
  timed-add_before a [] = refl
  timed-add_before a (b ∷ bs) = ground (arith, timed-add_before a bs)

  module _ (chosen : A → Bool) (delete : Node → A → Node) where
    All-cancel_in :
        (P : A → Type 0) (bs : List A) (n : ℕ) (t : Node)
        → All P bs
        → All P (cancel_in chosen time delete bs n t).0
    unfolding cancel_in
    All-cancel_in P [] n t h = tt
    All-cancel_in P (b ∷ bs) n t (h, hs) =
        if_elim (λ (r : List A × ℕ × Node). All P r.0) (chosen b) _ _
          (λ _. All-cancel_in P bs (uncounted (time b) n) (delete t b) hs)
          (λ _. (h, All-cancel_in P bs n t hs))

    pub cancel_in-SortedBy :
        (bs : List A) (n : ℕ) (t : Node)
        → SortedBy time bs
        → SortedBy time (cancel_in chosen time delete bs n t).0
    unfolding cancel_in
    cancel_in-SortedBy [] n t h = tt
    cancel_in-SortedBy (b ∷ bs) n t (h, hs) =
        if_elim (λ (r : List A × ℕ × Node). SortedBy time r.0) (chosen b) _ _
          (λ _. cancel_in-SortedBy bs (uncounted (time b) n) (delete t b) hs)
          (λ _. (
            All-cancel_in (λ c. gt (time b) (time c) ≡ false) bs n t h,
            cancel_in-SortedBy bs n t hs,
          ))

    -- The counter goes down by the requests with a time that leave; `k` counts those of other queues.
    pub cancel_in-timed :
        (bs : List A) (n k : ℕ) (t : Node)
        → n ≡ timed time bs + k
        → let r = cancel_in chosen time delete bs n t in (r.1 ≡ timed time r.0 + k) × (r.1 ≤ n)
    unfolding cancel_in
    cancel_in-timed [] n k t h = (h, omega arith)
    cancel_in-timed (b ∷ bs) n k t h =
        let out : uncounted (time b) n ≡ timed time bs + k = ground arith in
        let stays : n ≡ timed time bs + counted (time b) k = ground arith in
        if_elim (λ (r : List A × ℕ × Node). (r.1 ≡ timed time r.0 + k) × (r.1 ≤ n)) (chosen b) _ _
          (λ _.
            let (e, le) = cancel_in-timed bs (uncounted (time b) n) k (delete t b) out in
            (e, ground (arith, le)))
          (λ _.
            let (e, le) = cancel_in-timed bs n (counted (time b) k) t stays in
            (ground (arith, e), le))
