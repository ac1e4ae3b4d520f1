-- ===== src/Usb/Runs.antt =====
-- Concrete runs of the USB device, and its theorems at concrete inputs.
use esp32_s3_car_adapter.Common.{
  ◌-◌, ◌≡◌, refl, List, [], ◌∷◌, ◌++◌, none, some, arith, length, take, drop, ltb,
}
use esp32_s3_car_adapter.Usb.Ring.{Frame, empty_ring}
use esp32_s3_car_adapter.Usb.Ring.Inv.{IsValid}
use esp32_s3_car_adapter.Common.{
  ℕ, true, false, ◌≤◌, ◌+◌, ◌-◌, ◌^◌, ◌*◌, ◌/◌, ◌||◌, not, leb, u8, u16, u32, get_or,
}
use esp32_s3_car_adapter.Usb.Batch.{Floats, Phases}
use esp32_s3_car_adapter.Usb.Device.{
  Usb, Request, Tusb, connect, disconnect, with_iap, tick, now, iap_logf, tud_audio_set_itf_cb,
  tud_hid_set_report_cb,
}
use esp32_s3_car_adapter.Usb.Device.Requests.{set_report-prefixed}
use esp32_s3_car_adapter.Usb.Attach.{
  at_boot, retry_schedule_ms, usb_stack_start, first_attach, task_start, attach_poll, audio_pump,
}
use esp32_s3_car_adapter.Usb.Attach.Schedule.{attach_poll-schedule}
use esp32_s3_car_adapter.Usb.Inv.{UsbStep, UsbReach, UsbReach-IsSound, audio_pump-frames}
use esp32_s3_car_adapter.Usb.Inv.Defs.{IsSound}
use esp32_s3_car_adapter.Usb.Log.{LogRing, empty_log, ipod_usb_log, ipod_usb_read_iap_log}
use esp32_s3_car_adapter.Usb.Log.Refine.{
  recent, fitting, unlines, ipod_usb_log_refines, read_iap_log_refines,
}
use esp32_s3_car_adapter.Common.{All}
use esp32_s3_car_adapter.Iap.Live.{iap_tx_pump}
use esp32_s3_car_adapter.Usb.Attach.Boot.{Ticks, Attached, task_start-Attached}
use esp32_s3_car_adapter.Usb.Descriptors.Hid.{IsDeclared}
use esp32_s3_car_adapter.Usb.Inv.Reports.{iap_tx_pump-IsDeclared}

pub empty_ring-IsValid : IsValid empty_ring
empty_ring-IsValid = record {
  storage = refl;
  behind = omega arith;
  fits = omega arith;
  word = omega arith;
}

-- Floating point by whole numbers, to run the batch.
abbrev pub whole_floats : Floats
whole_floats = record {
  F = ℕ;
  decimal = λ m k. m / 10 ^ k;
  of_u32 = λ n. n;
  of_s16 = λ n. n;
  to_u32 = λ x. u32 x;
  to_s16 = λ x. u16 x;
  add = λ x y. x + y;
  sub = λ x y. x - y;
  mul = λ x y. x * y;
  div = λ x y. x / y;
  ge = λ x y. leb y x;
  sinf = λ x. 0;
}

abbrev pub no_phase : Phases ℕ
no_phase = record { resample_pos = 0; tone_phase_l = 0; tone_phase_r = 0 }

abbrev pub tiny_usb : Tusb
tiny_usb = record { cs_req_cur = 1; sampling_freq = 1; stage_setup = 1 }

-- The time goes on by a second with each call.
abbrev pub seconds : ℕ → ℕ
seconds k = (k + 1) * 1000000

abbrev pub booted : Usb ℕ
booted = at_boot no_phase

abbrev pub start_stream : Request
start_stream = record {
  bm_request_type = 1;
  b_request = 11;
  w_value = 1;
  w_index = 1;
  w_length = 0;
}

abbrev streaming : Usb ℕ
streaming = tud_audio_set_itf_cb seconds start_stream (task_start seconds 2 true booted)

streaming-reached : UsbReach whole_floats seconds tiny_usb booted streaming
streaming-reached =
    UsbReach.go (UsbReach.go UsbReach.stay (UsbStep.start 2 true refl))
      (UsbStep.set_itf start_stream)

UsbReach-IsSound_example : IsSound streaming
UsbReach-IsSound_example = UsbReach-IsSound whole_floats seconds tiny_usb no_phase streaming-reached

audio_pump-frames_example :
    let closed = not true || (not streaming.audio_streaming || streaming.usb_suspended) in
    (closed ≡ true → (audio_pump whole_floats seconds true streaming).0 ≡ none)
    × (closed ≡ false
        → (b : List Frame) × ((audio_pump whole_floats seconds true streaming).0 ≡ some b)
          × (length b ≡ streaming.usb_rate / 100)
          × (length b ≤ 480))
audio_pump-frames_example =
    audio_pump-frames whole_floats seconds tiny_usb no_phase true streaming-reached

abbrev pub waiting : Usb ℕ
waiting = first_attach seconds true booted

pub waiting-ready : waiting.stack_ready ≡ true
unfolding first_attach usb_stack_start iap_logf tick with_iap
waiting-ready = refl

attach_poll-schedule_example :
    let wait =
      waiting.ever_mounted
      || ((false || leb 7 waiting.retry_idx) || ltb (now seconds waiting) waiting.next_attach_us) in
    let t = attach_poll seconds false waiting in
    (wait ≡ true
      → (t.bus ≡ waiting.bus)
        × (t.retry_idx ≡ waiting.retry_idx)
        × (t.next_attach_us ≡ waiting.next_attach_us))
    × (wait ≡ false
        → (t.bus ≡ connect ∷ disconnect ∷ waiting.bus)
          × (t.retry_idx ≡ u8 (waiting.retry_idx + 1))
          × ((n : ℕ) × (t.audio.iap.reads ≡ n + 1)
              × (t.next_attach_us
                  ≡ seconds n + get_or retry_schedule_ms waiting.retry_idx 0 * 1000)))
attach_poll-schedule_example = attach_poll-schedule seconds false waiting waiting-ready

set_report-prefixed_example :
    (tud_hid_set_report_cb seconds 0 (5 ∷ 0 ∷ 0x55 ∷ []) booted).audio
    ≡ (tud_hid_set_report_cb seconds 5 (0 ∷ 0x55 ∷ []) booted).audio
set_report-prefixed_example =
    set_report-prefixed seconds 0 5 5 0 (0x55 ∷ []) booted (omega arith) (omega arith)

abbrev one_line : LogRing
one_line = record empty_log { iap_log_head = 1 }

ipod_usb_log_refines_example :
    let held = recent one_line ++ take 95 (0x41 ∷ 0x42 ∷ []) ∷ [] in
    (recent (ipod_usb_log (0x41 ∷ 0x42 ∷ []) one_line) ≡ drop (length held - 48) held)
    × (length (ipod_usb_log (0x41 ∷ 0x42 ∷ []) one_line).iap_log ≡ 48)
ipod_usb_log_refines_example = ipod_usb_log_refines (0x41 ∷ 0x42 ∷ []) one_line refl (omega arith)

read_iap_log_refines_example :
    (ipod_usb_read_iap_log 3 one_line ≡ unlines (fitting 3 (recent one_line)))
    × (length (ipod_usb_read_iap_log 3 one_line) ≤ 3 - 1)
read_iap_log_refines_example = read_iap_log_refines 3 one_line

booted-Ticks : Ticks seconds booted (seconds booted.audio.iap.reads + 2 * 1000)
booted-Ticks = record { forward = λ k. omega arith; rounds = λ k le early. omega arith }

task_start-Attached_example : Attached seconds 2 booted true (task_start seconds 2 true booted)
task_start-Attached_example = task_start-Attached seconds 2 true booted booted-Ticks

iap_tx_pump-IsDeclared_example : All IsDeclared (iap_tx_pump (λ k. true) streaming.audio.iap).1
iap_tx_pump-IsDeclared_example =
    iap_tx_pump-IsDeclared whole_floats seconds tiny_usb no_phase (λ k. true) streaming-reached
