-- ===== src/Usb/Attach.antt =====
-- The USB task of ipod_usb.c: the attach strategy, the audio pump, and one round of its loop.
use esp32_s3_car_adapter.Common.{
  ℕ, zero, suc, ◌+◌, ◌*◌, ◌/◌, ◌%◌, ◌^◌, Bool, true, false, ◌&&◌, ◌||◌, not, List, [], ◌∷◌, Option,
  none, some,
}
use esp32_s3_car_adapter.Common.{ltb, leb, ◌==◌, if◌then◌else◌, length, get_or, take, u8, u16, u32}
use esp32_s3_car_adapter.Iap.State.{Iap, initial}
use esp32_s3_car_adapter.Iap.Queue.{TxReport}
use esp32_s3_car_adapter.Iap.Live.{iap_tx_pump, iap_watchdog, iap_set_serial}
use esp32_s3_car_adapter.Usb.Ring.{Frame, Audio, empty_ring}
use esp32_s3_car_adapter.Usb.Batch.{Floats, Phases, produce_batch}
use esp32_s3_car_adapter.Usb.Device.{
  Usb, BusCall, connect, disconnect, attach, re_attach, with_iap, tick, now, iap_logf,
}
pub mod Schedule
pub mod Boot

-- `retry_schedule_ms`
abbrev pub retry_schedule_ms : List ℕ
retry_schedule_ms = 3000 ∷ 3000 ∷ 4000 ∷ 5000 ∷ 15000 ∷ 15000 ∷ 15000 ∷ []

-- `boot_us` at the start of the task, before any other call: all variables are 0.
abbrev pub at_boot : {F : Type 0} → Phases F → Usb F
at_boot ph = record {
  audio = record { pcm = none; pcm_underruns = 0; tone_on = false; iap = initial };
  phases = ph;
  usb_ready = false;
  host_mounted = false;
  ever_mounted = false;
  boot_us = 0;
  phy_ready_us = 0;
  first_connect_us = 0;
  mount_us = 0;
  connect_attempts = 0;
  audio_streaming = false;
  usb_rate = 44100;
  usb_suspended = false;
  next_attach_us = 0;
  retry_idx = 0;
  stack_ready = false;
  log = [];
  bus = [];
}

module _ {F : Type 0} where
  -- `ipod_usb_init` with USB enabled: `serial` is the serial number that the MAC gives, `allocated`
  -- and `created` tell whether the ring and the task were had. The answer and the state.
  unfoldable pub ipod_usb_init : List ℕ → Bool → Bool → Usb F → Bool × Usb F
  ipod_usb_init serial allocated created s =
      let s' = with_iap (iap_set_serial (some serial) s.audio.iap) s in
      let ringed : Usb F = record s' { audio = record (s'.audio) { pcm = some empty_ring } } in
      if not allocated
      then (false, s')
      else if not created
      then (false, ringed)
      else (true, record ringed { usb_ready = true })

  module _ (clock : ℕ → ℕ) where
    -- `usb_stack_start`; `phy` tells whether `usb_new_phy` succeeded.
    unfoldable pub usb_stack_start : Bool → Usb F → Usb F
    usb_stack_start phy s =
        if phy then record (tick s) { phy_ready_us = now clock s; stack_ready = true } else s

    -- What `tusb_task` does between the wait and its loop.
    unfoldable pub first_attach : Bool → Usb F → Usb F
    first_attach phy s =
        let s1 = usb_stack_start phy s in
        let t = now clock s1 in
        let s2 = record (tick s1) {
          connect_attempts = u8 (s1.connect_attempts + 1);
          first_connect_us = t;
        } in
        record (iap_logf clock (attach 1 false) s2) {
          retry_idx = 1;
          next_attach_us = t + get_or retry_schedule_ms 0 0 * 1000;
        }

    -- `boot_us = esp_timer_get_time()`
    unfoldable pub note_boot : Usb F → Usb F
    note_boot s = record (tick s) { boot_us = now clock s }

    -- The wait of `tusb_task` for `delay_ms`, `CONFIG_IPOD_USB_ATTACH_DELAY_MS`, with `fuel` reads of
    -- the time at most.
    unfoldable pub boot_wait : ℕ → ℕ → Usb F → Usb F
    boot_wait delay_ms zero s = s
    boot_wait delay_ms (suc fuel) s =
        let rest = boot_wait delay_ms fuel (tick s) in
        if ltb (now clock s) (s.boot_us + delay_ms * 1000) then rest else tick s

    -- `tusb_task` up to its loop. Each round of the wait takes a millisecond or more.
    unfoldable pub task_start : ℕ → Bool → Usb F → Usb F
    task_start delay_ms phy s = first_attach phy (boot_wait delay_ms (delay_ms + 1) (note_boot s))

    -- `if (first_connect_us == 0) first_connect_us = esp_timer_get_time()`
    unfoldable pub note_first_connect : Usb F → Usb F
    note_first_connect s =
        if s.first_connect_us == 0 then record (tick s) { first_connect_us = now clock s } else s

    -- `do_attach`, which is called for retries only.
    unfoldable pub do_attach : Usb F → Usb F
    do_attach s =
        let s1 = note_first_connect (record s { connect_attempts = u8 (s.connect_attempts + 1) }) in
        let s2 = iap_logf clock (attach s1.connect_attempts true) s1 in
        if s2.stack_ready then record s2 { bus = connect ∷ s2.bus } else s2

    -- The end of `attach_poll`, where the time has come.
    unfoldable pub re_attach_now : Usb F → Usb F
    re_attach_now s =
        let s1 = iap_logf clock re_attach s in
        let s2 = do_attach (record s1 { bus = disconnect ∷ s1.bus }) in
        record (tick s2) {
          next_attach_us = now clock s2 + get_or retry_schedule_ms s2.retry_idx 0 * 1000;
          retry_idx = u8 (s2.retry_idx + 1);
        }

    -- `mounted` is the answer of `tud_mounted`.
    unfoldable pub attach_poll : Bool → Usb F → Usb F
    attach_poll mounted s =
        if s.ever_mounted
        then s
        else if mounted || leb (length retry_schedule_ms) s.retry_idx
        then s
        else if ltb (now clock s) s.next_attach_us
        then tick s
        else re_attach_now (tick s)

module _ (fl : Floats) (clock : ℕ → ℕ) where
  -- The frames that `audio_pump` gives to `tud_audio_write`, if it does: as many as the byte count
  -- `(uint16_t) ((rate / 100) * 4)` covers.
  unfoldable pub audio_pump : Bool → Usb fl.F → Option (List Frame) × Usb fl.F
  audio_pump mounted s =
      let b = produce_batch fl clock s.usb_rate s.audio s.phases in
      if not mounted || (not s.audio_streaming || s.usb_suspended) then (none, s) else (
        some (take (u16 (s.usb_rate / 100 * 4) / 4) b.0),
        record s { audio = b.1; phases = b.2 },
      )

  -- The loop of `tusb_task` behind `tud_task`, whose callbacks are steps of their own. The stack is
  -- asked twice whether it is mounted.
  unfoldable pub task_round : Bool → Bool → (ℕ → Bool) → Usb fl.F → Usb fl.F
  task_round mounted mounted' accepts s =
      let pumped = (audio_pump mounted s).1 in
      let sent = with_iap (iap_tx_pump accepts pumped.audio.iap).0 pumped in
      let watched = with_iap (iap_watchdog clock sent.audio.iap) sent in
      if s.stack_ready then attach_poll clock mounted' watched else s
