-- ===== src/Iap/Report/Fits.antt =====
-- Every report in the queue fits the definition in `tx_defs` that has its ID.
use esp32_s3_car_adapter.Common.{
  ℕ, zero, suc, ◌+◌, ◌-◌, ◌≤◌, ◌<◌, ◌≡◌, sym, Bool, true, false, List, [], ◌∷◌, arith, All,
  All-append, All-take, All-drop, ◌==◌, if◌then◌else◌, length, drop, length-take,
}
use mathlib.Core.Path.{subst}
use esp32_s3_car_adapter.Iap.Queue.{TxReport, TxQueue, txq_size, empty_queue, pump}
use esp32_s3_car_adapter.Iap.Queue.Inv.{IsValid}
use esp32_s3_car_adapter.Iap.Queue.Refine.{contents, taken, pump_refines}
use esp32_s3_car_adapter.Iap.Report.{ReportDef, tx_defs, pick_def, next_report, tx_frame}
use esp32_s3_car_adapter.Iap.Report.Fragments.{
  fragments, room_for, tx_frame_refines, pick_def_bounds,
}

-- The payload that the definition with an ID takes, 0 where there is none.
abbrev pub payload_of : List ReportDef → ℕ → ℕ
payload_of [] id = 0
payload_of (d ∷ defs) id = if d.id == id then d.max_payload else payload_of defs id

-- The link byte and a payload of 1 byte or more, up to what the definition takes.
pub record FitsDef (r : TxReport) : Type 0 where
  pub some_payload : 2 ≤ length r.bytes
  pub fits : length r.bytes ≤ 1 + payload_of tx_defs r.id

pub record Carries (q : TxQueue) : Type 0 where
  pub ring : IsValid q
  pub reports : All FitsDef (contents q)

pub empty-Carries : Carries empty_queue
empty-Carries = record { ring = omega arith; reports = tt }

payload_of-pick_def :
    (len : ℕ) → payload_of tx_defs (pick_def tx_defs len).id ≡ (pick_def tx_defs len).max_payload
unfolding pick_def
payload_of-pick_def len = ground arith

next_report-FitsDef :
    (first : Bool) (frame : List ℕ) → 0 < length frame → FitsDef (next_report first frame)
unfolding next_report
next_report-FitsDef first frame pos =
    let n = length-take (room_for frame) frame in
    let b = pick_def_bounds (length frame) in
    record {
      some_payload = omega (arith, n, b);
      fits = omega (arith, n, payload_of-pick_def (length frame));
    }

fragments-FitsDef :
    (fuel : ℕ) (first : Bool) (frame : List ℕ) → All FitsDef (fragments fuel first frame)
unfolding fragments
fragments-FitsDef zero first frame = tt
fragments-FitsDef (suc fuel) first [] = tt
fragments-FitsDef (suc fuel) first (x ∷ xs) = (
  next_report-FitsDef first (x ∷ xs) (omega arith),
  fragments-FitsDef fuel false (drop (room_for (x ∷ xs)) (x ∷ xs)),
)

pub tx_frame-Carries : {q : TxQueue} (frame : List ℕ) → Carries q → Carries (tx_frame frame q)
tx_frame-Carries {q} frame c =
    let (v, e) = tx_frame_refines frame c.ring in
    record {
      ring = v;
      reports = subst (All FitsDef) (sym e) (
          All-append FitsDef (contents q) _ c.reports (
            All-take FitsDef (txq_size - q.count) _ (fragments-FitsDef (length frame) true frame)));
    }

-- What the host is given fits as well.
pub pump-Carries :
    {q : TxQueue} (accepts : ℕ → Bool)
    → Carries q
    → Carries (pump accepts q).0 × All FitsDef (pump accepts q).1
pump-Carries {q} accepts c =
    let (v, sent, left) = pump_refines accepts c.ring in
    let n : ℕ = taken accepts q.count 0 in
    (
      record {
        ring = v;
        reports = subst (All FitsDef) (sym left) (All-drop FitsDef n _ c.reports);
      },
      subst (All FitsDef) (sym sent) (All-take FitsDef n _ c.reports),
    )
