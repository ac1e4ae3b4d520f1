-- ===== src/Iap/State.antt =====
-- The static variables of iap.c as one record, and the sending of a command: `tx_send`,
-- `tx_respond` and `tx_notify`.
use esp32_s3_car_adapter.Common.{
  ℕ, ◌+◌, ◌-◌, ◌^◌, ◌%◌, Bool, true, false, ◌&&◌, ◌||◌, List, [], ◌∷◌, ℤ, negsuc,
}
use esp32_s3_car_adapter.Common.{◌==◌, if◌then◌else◌, length, u8, u32}
use esp32_s3_car_adapter.Iap.Types.{IapState, idle, LogLine, tx_line}
use esp32_s3_car_adapter.Iap.Queue.{TxQueue, empty_queue}
use esp32_s3_car_adapter.Iap.Packet.{pkt_encode}
use esp32_s3_car_adapter.Iap.Report.{tx_frame}
use esp32_s3_car_adapter.Iap.Command.{
  CmdBuf, put_u8, put_u16, put_bytes, Trx, trx_track, next_trx, RxCmd, lingo_general, lingo_extrem,
  lingo_audio,
}
pub mod Send

-- `iap_state`, `cert_cur`, `cert_max`
pub record Handshake : Type 0 where
  pub state : IapState
  pub cert_cur : ℤ
  pub cert_max : ℤ

-- The counters of what was sent.
pub record TxStats : Type 0 where
  pub tx_ack : ℕ
  pub tx_ident : ℕ
  pub tx_auth : ℕ
  pub tx_audio : ℕ
  pub tx_other : ℕ

-- The live state that the AirPlay side feeds. A C string is the list of its bytes before the 0.
pub record NowPlaying : Type 0 where
  pub np_artist : List ℕ
  pub np_title : List ℕ
  pub np_album : List ℕ
  pub dev_serial : List ℕ
  pub pcm_total_bytes : ℕ
  pub track_start_bytes : ℕ
  pub last_push_us : ℕ
  pub playing : Bool
  pub notify_armed : Bool

-- All of it. `log` holds the calls of `ipod_usb_log`, newest first, and `reads` counts the calls of
-- `esp_timer_get_time`, whose k-th answer is `clock k` in what follows.
pub record Iap : Type 0 where
  pub txq : TxQueue
  pub tx_packets : ℕ
  pub last_rx_us : ℕ
  pub last_latency_us : ℕ
  pub handshake : Handshake
  pub stats : TxStats
  pub pkt_seq : ℕ
  pub stall_dumped : Bool
  pub trx : Trx
  pub np : NowPlaying
  pub frame_buf : List ℕ
  pub rx_packets : ℕ
  pub log : List LogLine
  pub reads : ℕ

-- The state at boot.
abbrev pub initial : Iap
initial = record {
  txq = empty_queue;
  tx_packets = 0;
  last_rx_us = 0;
  last_latency_us = 0;
  handshake = record { state = idle; cert_cur = negsuc 0; cert_max = negsuc 0 };
  stats = record { tx_ack = 0; tx_ident = 0; tx_auth = 0; tx_audio = 0; tx_other = 0 };
  pkt_seq = 0;
  stall_dumped = false;
  trx = record { enabled = false; counter = 0 };
  np = record {
    np_artist = [];
    np_title = [];
    np_album = [];
    dev_serial = [];
    pcm_total_bytes = 0;
    track_start_bytes = 0;
    last_push_us = 0;
    playing = false;
    notify_armed = false;
  };
  frame_buf = [];
  rx_packets = 0;
  log = [];
  reads = 0;
}

unfoldable pub set_state : IapState → Iap → Iap
set_state st s = record s { handshake = record (s.handshake) { state = st } }

-- The command bytes that `tx_send` puts together.
unfoldable pub command_bytes : Bool → ℕ → ℕ → ℕ → List ℕ → CmdBuf
command_bytes has_trx lingo cmd trx payload =
    let c = put_u8 [] lingo in
    let c' = if lingo == lingo_extrem then put_u16 c cmd else put_u8 c (u8 cmd) in
    let c'' = if has_trx then put_u16 c' trx else c' in put_bytes c'' payload

-- The counter that a sent command goes to.
unfoldable pub count_tx : ℕ → ℕ → TxStats → TxStats
count_tx lingo cmd t =
    if lingo == lingo_general && cmd == 0x02 || lingo == lingo_extrem && cmd == 0x01
    then record t { tx_ack = u32 (t.tx_ack + 1) }
    else if lingo == lingo_general
        && (cmd == 0x08 || cmd == 0x0A || cmd == 0x0C || cmd == 0x0E || cmd == 0x10 || cmd == 0x12)
    then record t { tx_ident = u32 (t.tx_ident + 1) }
    else if lingo == lingo_general
    then record t { tx_auth = u32 (t.tx_auth + 1) }
    else if lingo == lingo_audio
    then record t { tx_audio = u32 (t.tx_audio + 1) }
    else record t { tx_other = u32 (t.tx_other + 1) }

module _ (clock : ℕ → ℕ) where
  unfoldable pub tx_send : ℕ → ℕ → Bool → ℕ → List ℕ → Iap → Iap
  tx_send lingo cmd use_trx trx payload s =
      let has_trx = s.trx.enabled && use_trx in
      let latency = u32 (clock s.reads + 2 ^ 64 - s.last_rx_us) in
      record s {
        trx = trx_track lingo cmd s.trx;
        last_latency_us = latency;
        reads = s.reads + 1;
        stats = count_tx lingo cmd s.stats;
        log = tx_line lingo cmd has_trx (length payload) latency ∷ s.log;
        txq = tx_frame (pkt_encode (command_bytes has_trx lingo cmd trx payload)) s.txq;
      }

  unfoldable pub tx_respond : RxCmd → ℕ → ℕ → List ℕ → Iap → Iap
  tx_respond req lingo cmd payload = tx_send lingo cmd req.has_trx req.trx payload

  unfoldable pub tx_notify : ℕ → ℕ → List ℕ → Iap → Iap
  tx_notify lingo cmd payload s =
      let (n, t) = next_trx s.trx in tx_send lingo cmd true n payload (record s { trx = t })
