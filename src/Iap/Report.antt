-- ===== src/Iap/Report.antt =====
-- The HID report layer of iap.c: `tx_frame` cuts a packet into reports, and `iap_rx_report` puts
-- received reports together again.
use esp32_s3_car_adapter.Common.{
  ℕ, zero, suc, ◌+◌, ◌-◌, Bool, true, false, ◌||◌, not, List, [], ◌∷◌, ◌++◌, Option, none, some,
}
use esp32_s3_car_adapter.Common.{ltb, leb, ◌==◌, if◌then◌else◌, length, take, drop}
use esp32_s3_car_adapter.Iap.Queue.{TxQueue, TxReport, txq_push}
use esp32_s3_car_adapter.Common.{u16}
use esp32_s3_car_adapter.Iap.Types.{LogLine, frag_acc, frag_complete}
pub mod Fragments
pub mod Reassembly
pub mod Fits
pub mod Chain

-- `report_def_t` and `tx_defs`
pub record ReportDef : Type 0 where
  pub id : ℕ
  pub max_payload : ℕ

abbrev pub largest_def : ReportDef
largest_def = record { id = 4; max_payload = 62 }

abbrev pub tx_defs : List ReportDef
tx_defs =
    record { id = 1; max_payload = 11 }
    ∷ record { id = 2; max_payload = 13 }
    ∷ record { id = 3; max_payload = 19 }
    ∷ largest_def
    ∷ []

-- The link control byte: `LC_DONE`, `LC_CONT`, `LC_MORE`.
abbrev pub lc_done : ℕ
lc_done = 0

abbrev pub lc_cont : ℕ
lc_cont = 1

abbrev pub lc_more : ℕ
lc_more = 2

-- The first definition that holds `len` bytes, and the largest if none does.
unfoldable pub pick_def : List ReportDef → ℕ → ReportDef
pick_def [] len = largest_def
pick_def (d ∷ defs) len = if leb len d.max_payload then d else pick_def defs len

-- One round of the loop of `tx_frame`: the report that carries the head of `frame`, which is what
-- is left to send; `first` is `offset == 0`.
unfoldable pub next_report : Bool → List ℕ → TxReport
next_report first frame =
    let len = length frame in
    let def = pick_def tx_defs len in
    let link =
      if ltb def.max_payload len
      then (if first then lc_more else lc_cont + lc_more)
      else (if first then lc_done else lc_cont) in
    record { id = def.id; bytes = link ∷ take def.max_payload frame }

-- The loop of `tx_frame`, with as many rounds as bytes at most: each round sends one byte or more.
unfoldable pub tx_loop : ℕ → Bool → List ℕ → TxQueue → TxQueue
tx_loop zero first frame q = q
tx_loop (suc fuel) first [] q = q
tx_loop (suc fuel) first (x ∷ xs) q =
    let report = next_report first (x ∷ xs) in
    elim (txq_push report.id report.bytes q) [
      | none ↦ q
      | some q' ↦
          tx_loop fuel false (drop (pick_def tx_defs (length (x ∷ xs))).max_payload (x ∷ xs)) q'
    ]

unfoldable pub tx_frame : List ℕ → TxQueue → TxQueue
unfolding tx_loop
tx_frame frame q = tx_loop (length frame) true frame q

-- `FRAME_MAX`
abbrev pub frame_max : ℕ
frame_max = 2048

-- What `iap_rx_report` makes of a report: `frame_buf[0..frame_len)` afterwards, the frame that it
-- hands to `dispatch_frame`, if any, and the lines that it logs.
pub record Received : Type 0 where
  pub frame_buf : List ℕ
  pub frame : Option (List ℕ)
  pub logged : List LogLine

-- What the report's bytes are put behind: nothing on a first report, and nothing where they would
-- not fit.
unfoldable pub kept : ℕ → List ℕ → List ℕ → List ℕ
kept link chunk old =
    let old' = if link == lc_done || link == lc_more then [] else old in
    if ltb frame_max (length old' + length chunk) then [] else old'

unfoldable pub finish : ℕ → List ℕ → List ℕ → Received
finish link chunk whole =
    let acc = if link == lc_done || link == lc_more then [] else frag_acc (length whole) ∷ [] in
    if link == lc_done || link == lc_cont
    then record {
      frame_buf = [];
      frame = some whole;
      logged =
          if ltb (u16 (length chunk + 1)) (length whole)
          then acc ++ frag_complete (length whole) ∷ []
          else acc;
    }
    else record { frame_buf = whole; frame = none; logged = acc }

-- `data[0..len)` and `frame_buf[0..frame_len)`: a report of no byte or of more than 65 is ignored.
unfoldable pub assemble : List ℕ → List ℕ → Received
unfolding kept finish
assemble [] old = record { frame_buf = old; frame = none; logged = [] }
assemble (link ∷ chunk) old =
    if ltb 65 (length (link ∷ chunk))
    then record { frame_buf = old; frame = none; logged = [] }
    else finish link chunk (kept link chunk old ++ chunk)
