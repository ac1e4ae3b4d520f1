-- ===== src/Usb/Inv/Defs.antt =====
-- What holds of the state of ipod_usb.c between two calls.
use esp32_s3_car_adapter.Common.{ℕ, ◌-◌, ◌*◌, ◌≤◌, ◌≡◌, refl, ◌⊎◌, inl, arith, true, length}
use esp32_s3_car_adapter.Iap.State.{Iap}
use esp32_s3_car_adapter.Iap.Inv.Defs.{IsValid, initial-IsValid}
use esp32_s3_car_adapter.Usb.Batch.{Phases}
use esp32_s3_car_adapter.Usb.Device.{Usb, UsbLine, with_iap, tick, iap_logf}
use esp32_s3_car_adapter.Usb.Attach.{at_boot}

-- The active rate is one of the two; the attaches are counted by the retry index, which stays in
-- the schedule, and a running stack has been attached once; the USB stack was told to connect or
-- disconnect at most twice for each retry; a mounted host counts as seen; and the engine is valid.
pub record IsSound {F : Type 0} (s : Usb F) : Type 0 where
  pub active : (s.usb_rate ≡ 44100) ⊎ (s.usb_rate ≡ 48000)
  pub attempts : s.connect_attempts ≡ s.retry_idx
  pub schedule : s.retry_idx ≤ 7
  pub started : s.stack_ready ≡ true → 1 ≤ s.retry_idx
  pub calls : length s.bus ≤ 2 * (s.retry_idx - 1)
  pub seen : s.host_mounted ≡ true → s.ever_mounted ≡ true
  pub engine : IsValid (s.audio.iap)

module _ {F : Type 0} where
  pub at_boot-IsSound : (ph : Phases F) → IsSound (at_boot ph)
  at_boot-IsSound ph = record {
    active = inl refl;
    attempts = refl;
    schedule = omega arith;
    started = λ e. ground (arith, e);
    calls = omega arith;
    seen = λ e. e;
    engine = initial-IsValid;
  }

  pub with_iap-IsSound : {s : Usb F} {i : Iap} → IsSound s → IsValid i → IsSound (with_iap i s)
  unfolding with_iap
  with_iap-IsSound v w = record {
    active = v.active;
    attempts = v.attempts;
    schedule = v.schedule;
    started = v.started;
    calls = v.calls;
    seen = v.seen;
    engine = w;
  }

  pub tick-IsSound : {s : Usb F} → IsSound s → IsSound (tick s)
  unfolding tick
  tick-IsSound v = with_iap-IsSound v (record {
    queue = v.engine.queue;
    buffer = v.engine.buffer;
    counter = v.engine.counter;
    strings = v.engine.strings;
  })

  module _ (clock : ℕ → ℕ) where
    pub iap_logf-IsSound : {s : Usb F} (l : UsbLine) → IsSound s → IsSound (iap_logf clock l s)
    unfolding iap_logf
    iap_logf-IsSound l v =
        let w = tick-IsSound v in
        record {
          active = w.active;
          attempts = w.attempts;
          schedule = w.schedule;
          started = w.started;
          calls = w.calls;
          seen = w.seen;
          engine = w.engine;
        }
