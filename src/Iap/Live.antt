-- ===== src/Iap/Live.antt =====
-- The live state of iap.c: what the AirPlay side and the status page call, the play position, and
-- the stall watchdog.
use Prim.Native.String.{String}
use esp32_s3_car_adapter.Common.{
  ℕ, ◌+◌, ◌-◌, ◌*◌, ◌/◌, ◌%◌, ◌^◌, Bool, true, false, ◌&&◌, ◌||◌, not, List, [], ◌∷◌, Option, none,
  some, ℤ,
}
use esp32_s3_car_adapter.Common.{ltb, ◌==◌, if◌then◌else◌, length, take, u32, u64}
use esp32_s3_car_adapter.Iap.Types.{IapState, idle, identified, auth, auth_ok, ready, stall}
use esp32_s3_car_adapter.Iap.Command.{lingo_extrem}
use esp32_s3_car_adapter.Iap.Queue.{TxReport, pump}
use esp32_s3_car_adapter.Iap.State.{Iap, TxStats, tx_notify}
pub mod Position

-- `snprintf(dst, size, "%s", s ? s : "")`: a null pointer is `none`, and `size - 1` bytes fit.
unfoldable pub copy_cstr : ℕ → Option (List ℕ) → List ℕ
copy_cstr size none = []
copy_cstr size (some s) = take (size - 1) s

-- `iap_tx_pump`; `accepts k` is what the k-th call of `tud_hid_report` answers.
unfoldable pub iap_tx_pump : (ℕ → Bool) → Iap → Iap × List TxReport
iap_tx_pump accepts s =
    let (q, sent) = pump accepts s.txq in
    (record s { txq = q; tx_packets = u32 (s.tx_packets + length sent) }, sent)

unfoldable pub iap_tx_pending : Iap → Bool
iap_tx_pending s = ltb 0 s.txq.count

unfoldable pub iap_set_playing : Bool → Iap → Iap
iap_set_playing p s = record s { np = record (s.np) { playing = p } }

unfoldable pub iap_set_serial : Option (List ℕ) → Iap → Iap
iap_set_serial serial s = record s { np = record (s.np) { dev_serial = copy_cstr 32 serial } }

-- Milliseconds of audio delivered for the current track.
unfoldable pub track_pos_ms : Iap → ℕ
track_pos_ms s =
    let b = u64 (s.np.pcm_total_bytes + 2 ^ 64 - s.np.track_start_bytes) in
    u32 (u64 (b * 1000) / 176400)

unfoldable pub state_name : IapState → List ℕ
state_name idle = 0x49 ∷ 0x44 ∷ 0x4C ∷ 0x45 ∷ []
state_name identified = 0x49 ∷ 0x44 ∷ 0x45 ∷ 0x4E ∷ 0x54 ∷ 0x49 ∷ 0x46 ∷ 0x49 ∷ 0x45 ∷ 0x44 ∷ []
state_name auth = 0x41 ∷ 0x55 ∷ 0x54 ∷ 0x48 ∷ 0x5F ∷ 0x43 ∷ 0x45 ∷ 0x52 ∷ 0x54 ∷ []
state_name auth_ok = 0x41 ∷ 0x55 ∷ 0x54 ∷ 0x48 ∷ 0x5F ∷ 0x4F ∷ 0x4B ∷ []
state_name ready = 0x52 ∷ 0x45 ∷ 0x41 ∷ 0x44 ∷ 0x59 ∷ []

abbrev pub expected_next : IapState → String
expected_next idle = "IdentifyDeviceLingoes/StartIDPS"
expected_next identified = "auth sections/LingoVersion"
expected_next auth = "cert section"
expected_next auth_ok = "player queries"
expected_next ready = "player queries"

-- `iap_snapshot_t`
pub record Snapshot : Type 0 where
  pub state : List ℕ
  pub cert_cur : ℤ
  pub cert_max : ℤ
  pub last_latency_us : ℕ
  pub tx : TxStats
  pub seq : ℕ

unfoldable pub iap_snapshot : Iap → Snapshot
iap_snapshot s = record {
  state = copy_cstr 16 (some (state_name s.handshake.state));
  cert_cur = s.handshake.cert_cur;
  cert_max = s.handshake.cert_max;
  last_latency_us = s.last_latency_us;
  tx = s.stats;
  seq = s.pkt_seq;
}

-- `iap_state == ST_IDLE || iap_state == ST_READY`
unfoldable pub is_settled : IapState → Bool
is_settled idle = true
is_settled ready = true
is_settled identified = false
is_settled auth = false
is_settled auth_ok = false

module _ (clock : ℕ → ℕ) where
  unfoldable pub iap_set_track : Option (List ℕ) → Option (List ℕ) → Option (List ℕ) → Iap → Iap
  iap_set_track artist title album s =
      let s' = record s {
        np = record (s.np) {
          np_artist = copy_cstr 192 artist;
          np_title = copy_cstr 192 title;
          np_album = copy_cstr 192 album;
          track_start_bytes = s.np.pcm_total_bytes;
        };
      } in
      if s.np.notify_armed then tx_notify clock lingo_extrem 0x0027 (0x01 ∷ []) s' else s'

  -- The clock is read only while playing.
  unfoldable pub iap_audio_active : Iap → Bool × Iap
  iap_audio_active s =
      if s.np.playing
      then (ltb (clock s.reads) (s.np.last_push_us + 3000000), record s { reads = s.reads + 1 })
      else (false, s)

  unfoldable pub iap_note_pcm : ℕ → Iap → Iap
  iap_note_pcm bytes s = record s {
    np = record (s.np) {
      pcm_total_bytes = u64 (s.np.pcm_total_bytes + bytes);
      last_push_us = clock s.reads;
    };
    reads = s.reads + 1;
  }

  -- 0x01 is playing, 0x02 paused.
  unfoldable pub play_state : Iap → ℕ × Iap
  play_state s =
      if s.np.playing
      then (
        if ltb (s.np.last_push_us + 3000000) (clock s.reads) then 0x02 else 0x01,
        record s { reads = s.reads + 1 },
      )
      else (0x02, s)

  unfoldable pub iap_watchdog : Iap → Iap
  iap_watchdog s =
      let read = record s { reads = s.reads + 1 } in
      if is_settled s.handshake.state || s.stall_dumped
      then s
      else if s.last_rx_us == 0
      then s
      else if ltb (clock s.reads) (s.last_rx_us + 2000000)
      then read
      else record read {
        stall_dumped = true;
        log =
            stall s.handshake.state s.handshake.cert_cur s.handshake.cert_max s.last_latency_us
              (expected_next s.handshake.state)
            ∷ s.log;
      }
