-- ===== src/Store/Sorted.antt =====
-- The order of the queues after the loading, and the counter of the downloads, whatever the file holds.
use icwmp.Prelude.{arith, ℕ, ◌+◌, true, false, Option, List, [], ◌∷◌, ◌++◌, if_elim, ◌≡◌, refl, All}
use icwmp.Prelude.Decimal.{ℤ, pos, negsuc, gt}
use icwmp.Prelude.Text.{Text}
use icwmp.Store.Loading.{
  inform_time, download_time, schedule_time, apply_time, upload_time, Queues, add_by_time, counted,
  add_schedule_inform, add_download, add_schedule_download, add_apply_schedule_download, add_upload,
  add_change_du_state, add_du_state_change_complete, add_transfer_complete,
}
use icwmp.Store.Node.{Node}
use icwmp.Store.Keeps.{Keeps, load_requests-keeps}
use icwmp.Store.Reload.{load_requests}

pub gt_asym : (a b : ℤ) → gt b a ≡ true → gt a b ≡ false
gt_asym (pos a) (pos b) h = ground arith
gt_asym (pos a) (negsuc b) h = ground arith
gt_asym (negsuc a) (pos b) h = ground arith
gt_asym (negsuc a) (negsuc b) h = ground arith

pub gt_trans : (a b c : ℤ) → gt b a ≡ true → gt b c ≡ false → gt a c ≡ false
gt_trans (pos a) (pos b) (pos c) h k = ground arith
gt_trans (pos a) (pos b) (negsuc c) h k = ground arith
gt_trans (pos a) (negsuc b) c h k = ground arith
gt_trans (negsuc a) b (pos c) h k = ground arith
gt_trans (negsuc a) (pos b) (negsuc c) h k = ground arith
gt_trans (negsuc a) (negsuc b) (negsuc c) h k = ground arith

module _ {ℓ} {A : Type ℓ} (time : A → ℤ) where
  -- No request stands before one with an earlier time.
  abbrev pub SortedBy : List A → Type ℓ
  SortedBy [] = Unit
  SortedBy (a ∷ bs) = All (λ b. gt (time a) (time b) ≡ false) bs × SortedBy bs

  All-add_by_time :
      (P : A → Type 0) (a : A) (bs : List A) → P a → All P bs → All P (add_by_time time a bs)
  unfolding add_by_time
  All-add_by_time P a [] p h = (p, tt)
  All-add_by_time P a (b ∷ bs) p (q, h) =
      if_elim (All P) (gt (time b) (time a)) (a ∷ b ∷ bs) (b ∷ add_by_time time a bs)
        (λ _. (p, (q, h))) (λ _. (q, All-add_by_time P a bs p h))

  later_too :
      (a b : A) (cs : List A)
      → gt (time b) (time a) ≡ true
      → All (λ c. gt (time b) (time c) ≡ false) cs
      → All (λ c. gt (time a) (time c) ≡ false) cs
  later_too a b [] e h = tt
  later_too a b (c ∷ cs) e (h, hs) =
      (gt_trans (time a) (time b) (time c) e h, later_too a b cs e hs)

  add_by_time-SortedBy : (a : A) (bs : List A) → SortedBy bs → SortedBy (add_by_time time a bs)
  unfolding add_by_time
  add_by_time-SortedBy a [] h = (tt, tt)
  add_by_time-SortedBy a (b ∷ bs) (h, hs) =
      if_elim SortedBy (gt (time b) (time a)) (a ∷ b ∷ bs) (b ∷ add_by_time time a bs)
        (λ e. ((gt_asym (time a) (time b) e, later_too a b bs e h), (h, hs)))
        (λ e. (
          All-add_by_time (λ c. gt (time b) (time c) ≡ false) a bs e h,
          add_by_time-SortedBy a bs hs,
        ))

  -- How many requests have a time.
  abbrev pub timed : List A → ℕ
  timed [] = 0
  timed (a ∷ bs) = counted (time a) (timed bs)

  timed-add_by_time :
      (a : A) (bs : List A) → timed (add_by_time time a bs) ≡ counted (time a) (timed bs)
  unfolding add_by_time
  timed-add_by_time a [] = refl
  timed-add_by_time a (b ∷ bs) = ground (arith, timed-add_by_time a bs)

  timed-concat : (bs : List A) (a : A) → timed (bs ++ a ∷ []) ≡ counted (time a) (timed bs)
  timed-concat [] a = refl
  timed-concat (b ∷ bs) a = ground (arith, timed-concat bs a)

abbrev pub InOrder : Queues → Type 0
InOrder s =
    SortedBy inform_time s.list_schedule_inform
    × SortedBy download_time s.list_download
    × SortedBy schedule_time s.list_schedule_download
    × SortedBy upload_time s.list_upload

InOrder-keeps : (v : Option Text) → Keeps v InOrder
unfolding add_schedule_inform add_download add_schedule_download add_apply_schedule_download
    add_upload add_change_du_state add_du_state_change_complete add_transfer_complete
InOrder-keeps v = record {
  event = λ s c h. h;
  schedule_inform =
      λ s r (a, b, c, d). (add_by_time-SortedBy inform_time r s.list_schedule_inform a, b, c, d);
  download = λ s r (a, b, c, d). (a, add_by_time-SortedBy download_time r s.list_download b, c, d);
  schedule_download = λ s r (a, b, c, d).
      (a, b, add_by_time-SortedBy schedule_time r s.list_schedule_download c, d);
  apply = λ s r h. h;
  upload = λ s r (a, b, c, d). (a, b, c, add_by_time-SortedBy upload_time r s.list_upload d);
  change_du_state = λ s r h. h;
  du_complete = λ s r h. h;
  transfer = λ s r h. h;
}

-- Whatever the backup tree holds, the loading keeps the lists of scheduled informs, downloads,
-- scheduled downloads and uploads in the order of their times: no request stands before one with an
-- earlier time.
pub load_requests-InOrder :
    (v : Option Text) (s : Queues) (t : Node) → InOrder s → InOrder (load_requests v s t)
load_requests-InOrder v s t h = load_requests-keeps v InOrder (InOrder-keeps v) s t h

-- The downloads and uploads of the queues that have a time.
abbrev pub waiting : Queues → ℕ
waiting s =
    timed download_time s.list_download
    + timed schedule_time s.list_schedule_download
    + timed apply_time s.list_apply_schedule_download
    + timed upload_time s.list_upload

abbrev pub Counted : Queues → Type 0
Counted s = s.count_download_queue ≡ waiting s

Counted-keeps : (v : Option Text) → Keeps v Counted
unfolding add_schedule_inform add_download add_schedule_download add_apply_schedule_download
    add_upload add_change_du_state add_du_state_change_complete add_transfer_complete
Counted-keeps v = record {
  event = λ s c h. h;
  schedule_inform = λ s r h. h;
  download = λ s r h. ground (arith, timed-add_by_time download_time r s.list_download);
  schedule_download =
      λ s r h. ground (arith, timed-add_by_time schedule_time r s.list_schedule_download);
  apply = λ s r h. ground (arith, timed-concat apply_time s.list_apply_schedule_download r);
  upload = λ s r h. ground (arith, timed-add_by_time upload_time r s.list_upload);
  change_du_state = λ s r h. h;
  du_complete = λ s r h. h;
  transfer = λ s r h. h;
}

-- Whatever the backup tree holds, the loading keeps `count_download_queue` equal to the number of
-- downloads, scheduled downloads, applied downloads and uploads in the queues whose time is not 0.
pub load_requests-Counted :
    (v : Option Text) (s : Queues) (t : Node) → Counted s → Counted (load_requests v s t)
load_requests-Counted v s t h = load_requests-keeps v Counted (Counted-keeps v) s t h
