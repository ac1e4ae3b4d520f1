-- ===== src/Iap/Inv/Live.antt =====
-- The calls of the AirPlay side, of the USB task and of the status page keep the invariant.
use esp32_s3_car_adapter.Common.{
  ℕ, ◌-◌, ◌<◌, arith, List, Bool, Option, none, some, if_intro, length, length-take,
}
use esp32_s3_car_adapter.Iap.Report.Fits.{pump-Carries}
use esp32_s3_car_adapter.Iap.State.{Iap}
use esp32_s3_car_adapter.Iap.Live.{
  copy_cstr, iap_tx_pump, iap_set_playing, iap_set_serial, iap_set_track, iap_audio_active,
  iap_note_pcm, iap_watchdog,
}
use esp32_s3_car_adapter.Iap.Inv.Defs.{IsValid, tx_notify-IsValid}

-- A copied string leaves room for its 0.
copy_cstr-lt : (size : ℕ) (s : Option (List ℕ)) → 0 < size → length (copy_cstr size s) < size
unfolding copy_cstr
copy_cstr-lt size none h = omega arith
copy_cstr-lt size (some s) h = omega (arith, length-take (size - 1) s)

pub iap_tx_pump-IsValid :
    (accepts : ℕ → Bool) {s : Iap} → IsValid s → IsValid (iap_tx_pump accepts s).0
unfolding iap_tx_pump
iap_tx_pump-IsValid accepts v = record {
  queue = (pump-Carries accepts v.queue).0;
  buffer = v.buffer;
  counter = v.counter;
  strings = v.strings;
}

pub iap_set_playing-IsValid : (p : Bool) {s : Iap} → IsValid s → IsValid (iap_set_playing p s)
unfolding iap_set_playing
iap_set_playing-IsValid p v = record {
  queue = v.queue;
  buffer = v.buffer;
  counter = v.counter;
  strings = omega arith;
}

pub iap_set_serial-IsValid :
    (serial : Option (List ℕ)) {s : Iap} → IsValid s → IsValid (iap_set_serial serial s)
iap_set_serial-IsValid serial {s} v =
    unfold iap_set_serial in
    record {
      queue = v.queue;
      buffer = v.buffer;
      counter = v.counter;
      strings = omega (arith, copy_cstr-lt 32 serial);
    }

module _ (clock : ℕ → ℕ) where
  pub iap_set_track-IsValid :
      (artist title album : Option (List ℕ)) {s : Iap}
      → IsValid s
      → IsValid (iap_set_track clock artist title album s)
  unfolding iap_set_track
  iap_set_track-IsValid artist title album {s} v =
      if_intro IsValid s.np.notify_armed (tx_notify-IsValid clock _ _ _ stored) stored
    where
      stored : IsValid (record s {
        np = record (s.np) {
          np_artist = copy_cstr 192 artist;
          np_title = copy_cstr 192 title;
          np_album = copy_cstr 192 album;
          track_start_bytes = s.np.pcm_total_bytes;
        };
      })
      stored = record {
        queue = v.queue;
        buffer = v.buffer;
        counter = v.counter;
        strings = record {
          artist = copy_cstr-lt 192 artist (omega arith);
          title = copy_cstr-lt 192 title (omega arith);
          album = copy_cstr-lt 192 album (omega arith);
          serial = v.strings.serial;
        };
      }

  pub iap_audio_active-IsValid : {s : Iap} → IsValid s → IsValid (iap_audio_active clock s).1
  unfolding iap_audio_active
  iap_audio_active-IsValid {s} v =
      if_intro (λ (r : Bool × Iap). IsValid r.1) s.np.playing
        (record { queue = v.queue; buffer = v.buffer; counter = v.counter; strings = v.strings }) v

  pub iap_note_pcm-IsValid :
      (bytes : ℕ) {s : Iap} → IsValid s → IsValid (iap_note_pcm clock bytes s)
  unfolding iap_note_pcm
  iap_note_pcm-IsValid bytes v = record {
    queue = v.queue;
    buffer = v.buffer;
    counter = v.counter;
    strings = omega arith;
  }

  pub iap_watchdog-IsValid : {s : Iap} → IsValid s → IsValid (iap_watchdog clock s)
  unfolding iap_watchdog
  iap_watchdog-IsValid v = ground arith
