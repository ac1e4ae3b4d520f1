-- ===== src/Usb/Inv/Reports.antt =====
-- What the device sends, against what its report descriptor declares.
use esp32_s3_car_adapter.Common.{ℕ, Bool, List, [], ◌∷◌, All}
use esp32_s3_car_adapter.Iap.Queue.{TxReport}
use esp32_s3_car_adapter.Iap.Report.Fits.{FitsDef, pump-Carries}
use esp32_s3_car_adapter.Iap.Live.{iap_tx_pump}
use esp32_s3_car_adapter.Usb.Batch.{Floats, Phases}
use esp32_s3_car_adapter.Usb.Device.{Usb, Tusb}
use esp32_s3_car_adapter.Usb.Attach.{at_boot}
use esp32_s3_car_adapter.Usb.Descriptors.Hid.{IsDeclared, FitsDef-IsDeclared}
use esp32_s3_car_adapter.Usb.Inv.{UsbReach, UsbReach-IsSound}

All-IsDeclared : (rs : List TxReport) → All FitsDef rs → All IsDeclared rs
All-IsDeclared [] f = tt
All-IsDeclared (r ∷ rs) f = (FitsDef-IsDeclared f.0, All-IsDeclared rs f.1)

-- In every state of the device that is reached from boot, each report that iap_tx_pump hands to the
-- host is an input report that the HID report descriptor declares, with no more bytes than are
-- declared for its ID and at least one byte of payload.
pub iap_tx_pump-IsDeclared :
    (fl : Floats) (clock : ℕ → ℕ) (tusb : Tusb) (ph : Phases fl.F) {s : Usb fl.F}
    (accepts : ℕ → Bool)
    → UsbReach fl clock tusb (at_boot ph) s
    → All IsDeclared (iap_tx_pump accepts s.audio.iap).1
unfolding iap_tx_pump
iap_tx_pump-IsDeclared fl clock tusb ph accepts r =
    All-IsDeclared _ (pump-Carries accepts (UsbReach-IsSound fl clock tusb ph r).engine.queue).1
