-- ===== src/Usb/Stream/Runs.antt =====
-- A stream of one push and one pump.
use esp32_s3_car_adapter.Common.{
  concat, ℕ, ◌≡◌, refl, arith, true, List, [], ◌∷◌, ◌++◌, length, replicate,
}
use esp32_s3_car_adapter.Usb.Ring.{Frame, empty_ring}
use esp32_s3_car_adapter.Usb.Device.{Usb, with_iap, tick, iap_logf, tud_audio_set_itf_cb}
use esp32_s3_car_adapter.Usb.Attach.{ipod_usb_init}
use esp32_s3_car_adapter.Usb.Stream.{PcmCall, push, give, samples, play, Streams, run_calls}
use esp32_s3_car_adapter.Usb.Stream.Lossless.{run_calls-play, run_calls-lossless}
use esp32_s3_car_adapter.Usb.Runs.{booted, seconds, whole_floats, start_stream, empty_ring-IsValid}

abbrev opened : Usb ℕ
opened = tud_audio_set_itf_cb seconds start_stream (ipod_usb_init [] true true booted).1

abbrev calls : List PcmCall
calls = push (replicate 500 (record { left = 1; right = 2 })) ∷ give ∷ []

opened-Streams : Streams [] (length (samples calls)) opened
unfolding tud_audio_set_itf_cb ipod_usb_init iap_logf tick with_iap
opened-Streams = record {
  open_stream = refl;
  awake = refl;
  rate = refl;
  no_tone = refl;
  ring = empty_ring;
  has_ring = refl;
  valid = empty_ring-IsValid;
  held = refl;
  word = omega arith;
}

run_calls-play_example :
    ((run_calls whole_floats seconds calls opened).0 ≡ (play calls []).0)
    × Streams (play calls []).1 0 (run_calls whole_floats seconds calls opened).1
run_calls-play_example = run_calls-play whole_floats seconds calls [] opened opened-Streams

run_calls-lossless_example :
    (left : List Frame) × Streams left 0 (run_calls whole_floats seconds calls opened).1
    × (concat (run_calls whole_floats seconds calls opened).0 ++ left ≡ [] ++ samples calls)
run_calls-lossless_example =
    run_calls-lossless whole_floats seconds calls [] opened opened-Streams (omega arith)
