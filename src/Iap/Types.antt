-- ===== src/Iap/Types.antt =====
-- Types that the parts of iap.c share: the handshake state, and the lines that `ipod_usb_log`
-- is called with, one constructor for each format of iap.c, with the printed values.
use Prim.Native.String.{String}
use esp32_s3_car_adapter.Common.{ℕ, Bool, ℤ}

-- `iap_state_t`
pub data IapState : Type 0 where
  idle identified auth auth_ok ready : IapState

pub data LogLine : Type 0 where
  -- ">> lingo cmd trx len lat"
  tx_line : ℕ → ℕ → Bool → ℕ → ℕ → LogLine
  -- "<< lingo cmd trx len"
  rx_line : ℕ → ℕ → Bool → ℕ → LogLine
  -- "*** IAP STALL *** state cert lastlat expect"
  stall : IapState → ℤ → ℤ → ℕ → String → LogLine
  acc_ack : ℕ → ℕ → LogLine
  play_control : ℕ → LogLine
  frag_acc : ℕ → LogLine
  frag_complete : ℕ → LogLine
  bad_checksum : LogLine
  unparsed : ℕ → LogLine
