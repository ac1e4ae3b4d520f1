-- ===== src/Usb/Exchange.antt =====
-- A whole exchange at the device: the host's reports come in by `tud_hid_set_report_cb`, and the
-- rounds of `tusb_task` hand over those of the answer.
use esp32_s3_car_adapter.Common.{ℕ, ◌+◌, ◌<◌, ◌≤◌, Bool, List, [], ◌∷◌, ◌++◌, Option, none, some}
use esp32_s3_car_adapter.Iap.Queue.{TxReport}
use esp32_s3_car_adapter.Iap.Live.{iap_tx_pump}
use esp32_s3_car_adapter.Usb.Batch.{Floats}
use esp32_s3_car_adapter.Usb.Device.{Usb, tud_hid_set_report_cb}
use esp32_s3_car_adapter.Usb.Attach.{audio_pump, task_round}
pub mod Rounds
pub mod Host
pub mod Answer
pub mod Runs

-- What the host's stack gives to `tud_hid_set_report_cb`: the bytes of the report, with its ID in
-- front or without.
abbrev pub buffer_of : Option ℕ → List ℕ → List ℕ
buffer_of none bytes = bytes
buffer_of (some id) bytes = id ∷ bytes

-- An ID that stands in front is larger than a link byte.
abbrev pub IsPrefix : Option ℕ → Type 0
IsPrefix none = Unit {0}
IsPrefix (some id) = 3 < id

-- A round of the task: what the stack answers, and what the host takes.
pub record Round : Type 0 where
  pub mounted : Bool
  pub mounted' : Bool
  pub accepts : ℕ → Bool

abbrev pub offers : List Round → List (ℕ → Bool)
offers [] = []
offers (r ∷ rs) = r.accepts ∷ offers rs

module _ {F : Type 0} (clock : ℕ → ℕ) where
  -- The reports of the host, one after the other.
  unfoldable pub host_sends : ℕ → Option ℕ → List (List ℕ) → Usb F → Usb F
  host_sends report_id prefix [] s = s
  host_sends report_id prefix (r ∷ rs) s =
      host_sends report_id prefix rs (tud_hid_set_report_cb clock report_id (buffer_of prefix r) s)

module _ (fl : Floats) (clock : ℕ → ℕ) where
  -- What a round hands to the host.
  unfoldable pub round_sent : Round → Usb fl.F → List TxReport
  round_sent r s = (iap_tx_pump r.accepts (audio_pump fl clock r.mounted s).1.audio.iap).1

  -- The rounds in order, and all that they hand over.
  unfoldable pub task_rounds : List Round → Usb fl.F → Usb fl.F × List TxReport
  task_rounds [] s = (s, [])
  task_rounds (r ∷ rs) s =
      let rest = task_rounds rs (task_round fl clock r.mounted r.mounted' r.accepts s) in
      (rest.0, round_sent r s ++ rest.1)
