-- ===== src/Pages/Runs.antt =====
-- The status page of a receiver whose iPhone has sent the title of a song.
use esp32_s3_car_adapter.Common.{ℕ, ◌≡◌, refl, arith, false, none, some, []}
use esp32_s3_car_adapter.Usb.Log.{LogRing, empty_log, ipod_usb_log}
use esp32_s3_car_adapter.Usb.Runs.{whole_floats, tiny_usb, seconds, booted}
use esp32_s3_car_adapter.Airplay.{Player, RaopEvent, metadata, audio_command}
use esp32_s3_car_adapter.Pages.{status_handler}
use esp32_s3_car_adapter.Pages.Text.{codes}
use esp32_s3_car_adapter.Pages.Reach.{PlayerStep, PlayerReach}
use esp32_s3_car_adapter.Pages.Bounds.{IsWhole, status_page-IsWhole}

abbrev fresh : Player ℕ
fresh = record {
  usb = booted;
  pcm_bytes = 0;
  pcm_nonzero = 0;
  pcm_callbacks = 0;
  sessions = 0;
  title = [];
  artist = [];
  album = [];
}

abbrev song : RaopEvent
song = metadata (some (codes "Artist")) none (some (codes "Title"))

abbrev one_line : LogRing
one_line = ipod_usb_log (codes "ATTACH") empty_log

status_page-IsWhole_example :
    (status_handler (codes "Car") 8388608 false one_line (audio_command seconds song fresh) ≡ none)
    × IsWhole (codes "Car") 8388608 one_line (audio_command seconds song fresh)
status_page-IsWhole_example =
    status_page-IsWhole whole_floats seconds tiny_usb (codes "Car") 8388608 one_line (omega arith)
      refl refl (PlayerReach.go PlayerReach.stay (PlayerStep.command song))
