-- ===== src/Iap/Report/Reassembly.antt =====
-- The receiving side puts together what `tx_frame` cut.
use esp32_s3_car_adapter.Common.{
  ℕ, zero, suc, ◌+◌, ◌-◌, ◌*◌, ◌≤◌, ◌<◌, ◌≡◌, refl, ap, ◌∙◌, Bool, true, false, List, [], ◌∷◌, ◌++◌,
  Option, none, some, arith, append_assoc, inl, inr,
}
use esp32_s3_car_adapter.Common.{
  leb, if◌then◌else◌, length, take, drop, Bool-cases, length-take, length-drop, length-append,
  take_all, drop_all, take-append-drop,
}
use esp32_s3_car_adapter.Iap.Queue.{TxQueue, TxReport, txq_size}
use esp32_s3_car_adapter.Iap.Queue.Inv.{IsValid}
use esp32_s3_car_adapter.Iap.Queue.Refine.{contents}
use esp32_s3_car_adapter.Iap.Report.{next_report, tx_frame, kept, assemble, frame_max}
use esp32_s3_car_adapter.Iap.Report.Fragments.{
  room_for, fragments, pick_def_bounds, tx_frame_refines,
}

abbrev pub add_frame : Option (List ℕ) → List (List ℕ) → List (List ℕ)
add_frame none fs = fs
add_frame (some f) fs = f ∷ fs

-- Reports received one after the other: the buffer in the end, and the frames that came out.
unfoldable pub deliver : List TxReport → List ℕ → List ℕ × List (List ℕ)
deliver [] old = (old, [])
deliver (r ∷ rs) old =
    let got = assemble r.bytes old in
    let rest = deliver rs got.frame_buf in (rest.0, add_frame got.frame rest.1)

-- The bytes of the frame that were received before this report.
abbrev pub before : Bool → List ℕ → List ℕ
before first old = if first then [] else old

abbrev pub joined : Bool → List ℕ → List ℕ → List ℕ
joined first old chunk = before first old ++ chunk

module _ (first : Bool) (chunk old : List ℕ) where
  -- The last report of a frame completes it.
  pub assemble-last :
      length chunk ≤ 64
      → length (before first old) + length chunk ≤ frame_max
      → let got = assemble ((if first then 0 else 1) ∷ chunk) old in
        (got.frame_buf ≡ []) × (got.frame ≡ some (joined first old chunk))
  unfolding assemble
  assemble-last short fits = ground arith

  -- Any other is kept.
  pub assemble-more :
      length chunk ≤ 64
      → length (before first old) + length chunk ≤ frame_max
      → let got = assemble ((if first then 2 else 3) ∷ chunk) old in
        (got.frame_buf ≡ joined first old chunk) × (got.frame ≡ none)
  unfolding assemble
  assemble-more short fits = ground arith

module _ (first : Bool) (frame : List ℕ) where
  pub next_report-last :
      length frame ≤ room_for frame
      → (next_report first frame).bytes ≡ (if first then 0 else 1) ∷ frame
  unfolding next_report
  next_report-last h = ground (arith, take_all (room_for frame) frame h)

  pub next_report-more :
      room_for frame < length frame
      → (next_report first frame).bytes ≡ (if first then 2 else 3) ∷ take (room_for frame) frame
  unfolding next_report
  next_report-more h = ground arith

pub fragments-nil : (fuel : ℕ) (first : Bool) → fragments fuel first [] ≡ []
unfolding fragments
fragments-nil zero first = refl
fragments-nil (suc fuel) first = refl

-- The receiver while a frame comes in: the reports of the rest of the frame complete the frame, and
-- nothing else comes out.
pub deliver-fragments :
    (fuel : ℕ) (first : Bool) (frame old : List ℕ)
    → length frame ≤ fuel
    → 0 < length frame
    → length (before first old) + length frame ≤ frame_max
    → deliver (fragments fuel first frame) old ≡ ([], joined first old frame ∷ [])
unfolding deliver fragments
deliver-fragments zero first frame old hf pos fits = absurd (omega arith)
deliver-fragments (suc fuel) first [] old hf pos fits = absurd (omega arith)
deliver-fragments (suc fuel) first (x ∷ xs) old hf pos fits =
    elim (Bool-cases (leb (length f) room)) [
      | inl last ↦
          let le : length f ≤ room = ground arith in
          let (buf, out) = assemble-last first f old (omega (arith, bounds)) fits in
          rw (next_report-last first f le, buf, out, drop_all room f le, fragments-nil)
      | inr more ↦
          let lt : room < length f = ground arith in
          let short : length chunk ≤ room = omega (arith, length-take room f) in
          let fits' : length (before first old) + length chunk ≤ frame_max = omega arith in
          let (buf, out) = assemble-more first chunk old (omega (arith, bounds)) fits' in
          let ih : deliver (fragments fuel false left) (joined first old chunk)
              ≡ ([], (joined first old chunk ++ left) ∷ []) =
            deliver-fragments fuel false left (joined first old chunk)
              (omega (arith, bounds, length-drop room f)) (omega (arith, length-drop room f))
              (omega (
                arith,
                length-append (before first old) chunk,
                length-take room f,
                length-drop room f,
              )) in
          rw (next_report-more first f lt, buf, out, ih, append_assoc, take-append-drop)
    ]
  where
    f : List ℕ
    f = x ∷ xs

    room : ℕ
    room = room_for f

    chunk : List ℕ
    chunk = take room f

    left : List ℕ
    left = drop room f

    bounds : (1 ≤ room) × (room ≤ 62) × (room < length f → room ≡ 62)
    bounds = pick_def_bounds (length f)

-- `n` reports are enough for 62 * n bytes.
length-fragments :
    (fuel : ℕ) (first : Bool) (frame : List ℕ) (n : ℕ)
    → length frame ≤ 62 * n
    → length (fragments fuel first frame) ≤ n
unfolding fragments
length-fragments zero first frame n h = omega arith
length-fragments (suc fuel) first [] n h = omega arith
length-fragments (suc fuel) first (x ∷ xs) zero h = absurd (omega arith)
length-fragments (suc fuel) first (x ∷ xs) (suc n) h =
    let room : ℕ = room_for (x ∷ xs) in
    let less : length (drop room (x ∷ xs)) ≤ 62 * n =
      grind (arith, pick_def_bounds (length (x ∷ xs)), length-drop room (x ∷ xs)) in
    omega (arith, length-fragments fuel false (drop room (x ∷ xs)) n less)

pub tx_frame-adds :
    {q : TxQueue} (frame : List ℕ)
    → IsValid q
    → length frame ≤ 62 * (txq_size - q.count)
    → contents (tx_frame frame q) ≡ contents q ++ fragments (length frame) true frame
tx_frame-adds {q} frame v room =
    (tx_frame_refines frame v).1
    ∙ ap (λ r. contents q ++ r) (take_all _ _ (length-fragments _ true frame _ room))

-- Where a valid queue has room for 62 bytes a report, tx_frame adds reports for the whole frame,
-- and a receiver that takes these reports one after the other gets that one frame, whatever an
-- earlier frame left in its buffer, which ends empty. The frame has 1 to 2048 bytes.
pub deliver-tx_frame :
    {q : TxQueue} (frame old : List ℕ)
    → IsValid q
    → 0 < length frame
    → length frame ≤ frame_max
    → length frame ≤ 62 * (txq_size - q.count)
    → (reports : List TxReport) × (contents (tx_frame frame q) ≡ contents q ++ reports)
      × (deliver reports old ≡ ([], frame ∷ []))
deliver-tx_frame {q} frame old v pos fits room = (
  fragments (length frame) true frame,
  tx_frame-adds frame v room,
  deliver-fragments (length frame) true frame old (omega arith) pos (omega arith),
)

-- A completed frame leaves the buffer empty, and any other report leaves at most 2048 bytes in it.
pub assemble-some :
    (report old frame : List ℕ)
    → (assemble report old).frame ≡ some frame
    → (assemble report old).frame_buf ≡ []
unfolding assemble
assemble-some [] old frame e = cc
assemble-some (link ∷ chunk) old frame e = ground arith

pub assemble-le :
    (report old : List ℕ)
    → length old ≤ frame_max
    → length (assemble report old).frame_buf ≤ frame_max
unfolding assemble
assemble-le [] old h = h
assemble-le (link ∷ chunk) old h =
    ground (arith, length-append (kept link chunk old) chunk, length-append old chunk)
