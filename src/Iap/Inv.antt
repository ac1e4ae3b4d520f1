-- ===== src/Iap/Inv.antt =====
-- The invariant of the engine, and that every entry point keeps it. The handlers' part is in the
-- children.
use esp32_s3_car_adapter.Common.{ℕ, ◌≤◌, ◌<◌, ◌^◌, Bool, List, length, Option}
use esp32_s3_car_adapter.Iap.State.{Iap, initial}
use esp32_s3_car_adapter.Iap.Live.{
  iap_tx_pump, iap_set_playing, iap_set_serial, iap_set_track, iap_audio_active, iap_note_pcm,
  iap_watchdog,
}
use esp32_s3_car_adapter.Iap.Dispatch.{iap_rx_report}
use esp32_s3_car_adapter.Iap.Inv.Defs.{IsValid, initial-IsValid}
use esp32_s3_car_adapter.Iap.Inv.Live.{
  iap_tx_pump-IsValid, iap_set_playing-IsValid, iap_set_serial-IsValid, iap_set_track-IsValid,
  iap_audio_active-IsValid, iap_note_pcm-IsValid, iap_watchdog-IsValid,
}
use esp32_s3_car_adapter.Iap.Inv.Dispatch.{iap_rx_report-IsValid}
pub mod Defs
pub mod Handlers
pub mod Live
pub mod Dispatch

-- One call of an entry point. The host chooses the reports and what it accepts, the AirPlay side
-- the rest.
pub data Step (clock : ℕ → ℕ) (s : Iap) : Iap → Type 0 where
  rx_report : (report : List ℕ) → Step clock s (iap_rx_report clock report s)
  tx_pump : (accepts : ℕ → Bool) → Step clock s (iap_tx_pump accepts s).0
  set_track :
      (artist title album : Option (List ℕ))
      → Step clock s (iap_set_track clock artist title album s)
  set_playing : (p : Bool) → Step clock s (iap_set_playing p s)
  set_serial : (serial : Option (List ℕ)) → Step clock s (iap_set_serial serial s)
  note_pcm : (bytes : ℕ) → Step clock s (iap_note_pcm clock bytes s)
  audio_active : Step clock s (iap_audio_active clock s).1
  watchdog : Step clock s (iap_watchdog clock s)

-- Any sequence of calls.
pub data Reach (clock : ℕ → ℕ) (s : Iap) : Iap → Type 0 where
  here : Reach clock s s
  next : {t u : Iap} → Reach clock s t → Step clock t u → Reach clock s u

module _ (clock : ℕ → ℕ) where
  -- Every entry point of the engine keeps the invariant, for every input.
  pub Step-IsValid : {s t : Iap} → IsValid s → Step clock s t → IsValid t
  Step-IsValid v (rx_report report) = iap_rx_report-IsValid clock report v
  Step-IsValid v (tx_pump accepts) = iap_tx_pump-IsValid accepts v
  Step-IsValid v (set_track artist title album) = iap_set_track-IsValid clock artist title album v
  Step-IsValid v (set_playing p) = iap_set_playing-IsValid p v
  Step-IsValid v (set_serial serial) = iap_set_serial-IsValid serial v
  Step-IsValid v (note_pcm bytes) = iap_note_pcm-IsValid clock bytes v
  Step-IsValid v audio_active = iap_audio_active-IsValid clock v
  Step-IsValid v watchdog = iap_watchdog-IsValid clock v

  Reach-keeps : {s t : Iap} → IsValid s → Reach clock s t → IsValid t
  Reach-keeps v here = v
  Reach-keeps v (next r st) = Step-IsValid (Reach-keeps v r) st

  -- From boot, after any calls of the engine's entry points in any order and with any input, the
  -- report queue is a well-formed ring of at most 24 reports, the receive buffer holds at most 2048
  -- bytes, each queued report fits its entry of tx_defs, the transaction counter is a 32-bit
  -- number, and the strings fit their arrays with the 0 behind them.
  pub Reach-IsValid : {t : Iap} → Reach clock initial t → IsValid t
  Reach-IsValid r = Reach-keeps initial-IsValid r
