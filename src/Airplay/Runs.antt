-- ===== src/Airplay/Runs.antt =====
-- A concrete run of the callbacks of main.c.
use esp32_s3_car_adapter.Common.{ℕ, List, [], Option}
use esp32_s3_car_adapter.Usb.Attach.{at_boot}
use esp32_s3_car_adapter.Airplay.{RaopEvent, metadata, Player, audio_data, audio_command}
use esp32_s3_car_adapter.Airplay.Strings.{Agrees, audio_callbacks-Agrees}

abbrev seconds : ℕ → ℕ
seconds k = k

abbrev idle_player : Player ℕ
idle_player = record {
  usb = at_boot (record { resample_pos = 0; tone_phase_l = 0; tone_phase_r = 0 });
  pcm_bytes = 0;
  pcm_nonzero = 0;
  pcm_callbacks = 0;
  sessions = 0;
  title = [];
  artist = [];
  album = [];
}

audio_callbacks-Agrees_example :
    ((a al t : Option (List ℕ)) → Agrees (audio_command seconds (metadata a al t) idle_player))
    × (Agrees idle_player
        → ((e : RaopEvent) → Agrees (audio_command seconds e idle_player))
          × ((bytes : List ℕ) → Agrees (audio_data seconds bytes idle_player)))
audio_callbacks-Agrees_example = audio_callbacks-Agrees seconds idle_player
