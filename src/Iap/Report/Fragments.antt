-- ===== src/Iap/Report/Fragments.antt =====
-- `tx_frame` queues the fragments of its frame, in order, as many as the queue has room for.
use esp32_s3_car_adapter.Common.{
  ℕ, zero, suc, ◌-◌, ◌≤◌, ◌<◌, ◌≡◌, refl, ◌∙◌, sym, Bool, true, false, List, [], ◌∷◌, ◌++◌, arith,
  append-nil, append_assoc, inl, inr,
}
use esp32_s3_car_adapter.Common.{leb, length, take, drop, Bool-cases, length-take}
use esp32_s3_car_adapter.Iap.Queue.{TxQueue, TxReport, txq_size}
use esp32_s3_car_adapter.Iap.Queue.Inv.{IsValid}
use esp32_s3_car_adapter.Iap.Queue.Refine.{contents, txq_push_full, txq_push_room}
use esp32_s3_car_adapter.Iap.Report.{tx_defs, pick_def, next_report, tx_loop, tx_frame}

-- How many bytes of `frame` the next report carries at most.
abbrev pub room_for : List ℕ → ℕ
room_for frame = (pick_def tx_defs (length frame)).max_payload

-- The reports that carry a frame; `first` is `offset == 0`.
unfoldable pub fragments : ℕ → Bool → List ℕ → List TxReport
fragments zero first frame = []
fragments (suc fuel) first [] = []
fragments (suc fuel) first (x ∷ xs) =
    next_report first (x ∷ xs) ∷ fragments fuel false (drop (room_for (x ∷ xs)) (x ∷ xs))

-- The chosen definition holds 1 to 62 bytes, and 62 where the rest does not fit.
pub pick_def_bounds :
    (len : ℕ)
    → let d = pick_def tx_defs len in
      (1 ≤ d.max_payload) × (d.max_payload ≤ 62) × (d.max_payload < len → d.max_payload ≡ 62)
unfolding pick_def
pick_def_bounds len = ground arith

pub length-next_report :
    (first : Bool) (frame : List ℕ) → length (next_report first frame).bytes ≤ 63
unfolding next_report
length-next_report first frame =
    omega (arith, pick_def_bounds (length frame), length-take (room_for frame) frame)

record Queued (q out : TxQueue) (reports : List TxReport) : Type 0 where
  pub valid : IsValid out
  pub added : contents out ≡ contents q ++ take (txq_size - q.count) reports

take-nil : (n : ℕ) → take {A = TxReport} n [] ≡ []
take-nil zero = refl
take-nil (suc n) = refl

none_added : (q : TxQueue) → contents q ≡ contents q ++ take (txq_size - q.count) []
none_added q = rw (take-nil, append-nil)

-- One more report goes in front of those that the room left by it takes.
one_added :
    (front : List TxReport) (r : TxReport) (rest : List TxReport) (n : ℕ)
    → n < txq_size
    → front ++ r ∷ [] ++ take (txq_size - suc n) rest ≡ front ++ take (txq_size - n) (r ∷ rest)
one_added front r rest n h =
    let e : txq_size - n ≡ suc (txq_size - suc n) = omega arith in rw (e, append_assoc)

tx_loop-Queued :
    (fuel : ℕ) (first : Bool) (frame : List ℕ) (q : TxQueue)
    → IsValid q
    → Queued q (tx_loop fuel first frame q) (fragments fuel first frame)
unfolding tx_loop fragments
tx_loop-Queued zero first frame q v = record { valid = v; added = none_added q }
tx_loop-Queued (suc fuel) first [] q v = record { valid = v; added = none_added q }
tx_loop-Queued (suc fuel) first (x ∷ xs) q v = elim (Bool-cases (leb txq_size q.count)) [
  | inl full ↦
      let nothing : txq_size - q.count ≡ 0 = ground arith in
      rw (txq_push_full q report.id report.bytes (ground arith), tx_loop)
        (record { valid = v; added = rw nothing (sym (append-nil (contents q))) })
  | inr room ↦
      let some_room : q.count < txq_size = ground arith in
      let short : length report.bytes ≤ 64 = omega (arith, length-next_report first (x ∷ xs)) in
      let (q', e, v', n, c) = txq_push_room q report.id report.bytes v some_room short in
      let ih : Queued q' (tx_loop fuel false left q') (fragments fuel false left) =
        tx_loop-Queued fuel false left q' v' in
      rw (e, tx_loop)
        (record {
          valid = ih.valid;
          added =
              ih.added
              ∙ rw (c, n)
                  (one_added (contents q) report (fragments fuel false left) q.count some_room);
        })
]
  where
    report : TxReport
    report = next_report first (x ∷ xs)

    left : List ℕ
    left = drop (room_for (x ∷ xs)) (x ∷ xs)

-- On a valid queue tx_frame adds the fragments of the frame behind what is queued, in order, as
-- many as there is room for, and the queue stays valid.
pub tx_frame_refines :
    {q : TxQueue} (frame : List ℕ)
    → IsValid q
    → IsValid (tx_frame frame q)
      × (contents (tx_frame frame q)
          ≡ contents q ++ take (txq_size - q.count) (fragments (length frame) true frame))
unfolding tx_frame
tx_frame_refines {q} frame v =
    let r : Queued q (tx_loop (length frame) true frame q) (fragments (length frame) true frame) =
      tx_loop-Queued (length frame) true frame q v in
    (r.valid, r.added)
