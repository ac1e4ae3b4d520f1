-- ===== src/Iap/Inv/Defs.antt =====
-- What holds of the engine's state between two calls.
use esp32_s3_car_adapter.Common.{ℕ, ◌≤◌, ◌<◌, ◌^◌, arith, length, List, Bool, true}
use esp32_s3_car_adapter.Iap.Types.{IapState}
use esp32_s3_car_adapter.Iap.Report.Fits.{Carries, empty-Carries, tx_frame-Carries}
use esp32_s3_car_adapter.Iap.Command.{Trx, trx_track, next_trx}
use esp32_s3_car_adapter.Iap.State.{Iap, NowPlaying, initial, set_state, tx_send, tx_notify}

-- The strings of `NowPlaying` in their arrays.
pub record FitsStrings (np : NowPlaying) : Type 0 where
  pub artist : length np.np_artist < 192
  pub title : length np.np_title < 192
  pub album : length np.np_album < 192
  pub serial : length np.dev_serial < 32

pub record IsValid (s : Iap) : Type 0 where
  pub queue : Carries s.txq
  pub buffer : length s.frame_buf ≤ 2048
  pub counter : s.trx.counter < 2 ^ 32
  pub strings : FitsStrings s.np

pub initial-IsValid : IsValid initial
initial-IsValid = record {
  queue = empty-Carries;
  buffer = omega arith;
  counter = omega arith;
  strings = omega arith;
}

pub trx_track-counter :
    (lingo cmd : ℕ) (t : Trx) → t.counter < 2 ^ 32 → (trx_track lingo cmd t).counter < 2 ^ 32
unfolding trx_track
trx_track-counter lingo cmd t h = ground arith

pub set_state-IsValid : (st : IapState) {s : Iap} → IsValid s → IsValid (set_state st s)
unfolding set_state
set_state-IsValid st v = record {
  queue = v.queue;
  buffer = v.buffer;
  counter = v.counter;
  strings = v.strings;
}

module _ (clock : ℕ → ℕ) where
  pub tx_send-IsValid :
      (lingo cmd : ℕ) (use_trx : Bool) (trx : ℕ) (payload : List ℕ) {s : Iap}
      → IsValid s
      → IsValid (tx_send clock lingo cmd use_trx trx payload s)
  unfolding tx_send
  tx_send-IsValid lingo cmd use_trx trx payload {s} v = record {
    queue = tx_frame-Carries _ v.queue;
    buffer = v.buffer;
    counter = trx_track-counter lingo cmd s.trx v.counter;
    strings = v.strings;
  }

  pub tx_notify-IsValid :
      (lingo cmd : ℕ) (payload : List ℕ) {s : Iap}
      → IsValid s
      → IsValid (tx_notify clock lingo cmd payload s)
  unfolding tx_notify next_trx
  tx_notify-IsValid lingo cmd payload {s} v =
      tx_send-IsValid lingo cmd true _ payload
        (record { queue = v.queue; buffer = v.buffer; counter = omega arith; strings = v.strings })
