-- ===== src/Pages/Reach.antt =====
-- The callbacks of the AirPlay receiver, the web pages and the device as a step relation, and the
-- strings of the status page in every state that is reached.
use esp32_s3_car_adapter.Common.{ℕ, ◌-◌, ◌≤◌, List, arith, Option, none, some, length, length-take}
use esp32_s3_car_adapter.Iap.Live.{copy_cstr}
use esp32_s3_car_adapter.Usb.Batch.{Floats}
use esp32_s3_car_adapter.Usb.Device.{Usb, Tusb}
use esp32_s3_car_adapter.Usb.Inv.{UsbStep}
use esp32_s3_car_adapter.Airplay.{
  RaopEvent, setup, stream, play, stop, flush, other, metadata, Player, audio_data, command_playing,
  set_metadata, audio_command,
}
use esp32_s3_car_adapter.Pages.{tone_handler}

-- One call: a callback of the AirPlay receiver, the tone page, or an entry point of the device.
pub data PlayerStep (fl : Floats) (clock : ℕ → ℕ) (tusb : Tusb) (s : Player fl.F)
    : Player fl.F → Type 0 where
  audio : (bytes : List ℕ) → PlayerStep fl clock tusb s (audio_data clock bytes s)
  command : (e : RaopEvent) → PlayerStep fl clock tusb s (audio_command clock e s)
  tone_page : (val : Option (List ℕ)) → PlayerStep fl clock tusb s (tone_handler val s).1
  device :
      {u : Usb fl.F}
      → UsbStep fl clock tusb s.usb u
      → PlayerStep fl clock tusb s (record s { usb = u })

-- Any sequence of calls.
pub data PlayerReach (fl : Floats) (clock : ℕ → ℕ) (tusb : Tusb) (s : Player fl.F)
    : Player fl.F → Type 0 where
  stay : PlayerReach fl clock tusb s s
  go :
      {t u : Player fl.F}
      → PlayerReach fl clock tusb s t
      → PlayerStep fl clock tusb t u
      → PlayerReach fl clock tusb s u

-- The strings that the page shows fit their buffers of 192 bytes.
abbrev pub Fits : {F : Type 0} → Player F → Type 0
Fits s = (length s.artist ≤ 191) × (length s.title ≤ 191)

pub length-copy_cstr : (size : ℕ) (s : Option (List ℕ)) → length (copy_cstr size s) ≤ size - 1
unfolding copy_cstr
length-copy_cstr size none = omega arith
length-copy_cstr size (some s) = omega (arith, length-take (size - 1) s)

audio_command-Fits :
    {F : Type 0} (clock : ℕ → ℕ) (e : RaopEvent) (s : Player F)
    → Fits s
    → Fits (audio_command clock e s)
unfolding audio_command command_playing set_metadata
audio_command-Fits clock setup s v = v
audio_command-Fits clock (metadata a al t) s v = (length-copy_cstr 192 a, length-copy_cstr 192 t)
audio_command-Fits clock stream s v = v
audio_command-Fits clock play s v = v
audio_command-Fits clock stop s v = v
audio_command-Fits clock flush s v = v
audio_command-Fits clock other s v = v

module _ (fl : Floats) (clock : ℕ → ℕ) (tusb : Tusb) where
  PlayerStep-Fits : {s t : Player fl.F} → Fits s → PlayerStep fl clock tusb s t → Fits t
  unfolding audio_data tone_handler
  PlayerStep-Fits v (audio bytes) = v
  PlayerStep-Fits {s} v (command e) = audio_command-Fits clock e s v
  PlayerStep-Fits v (tone_page none) = v
  PlayerStep-Fits v (tone_page (some val)) = v
  PlayerStep-Fits v (device st) = v

  pub PlayerReach-Fits : {s t : Player fl.F} → Fits s → PlayerReach fl clock tusb s t → Fits t
  PlayerReach-Fits v stay = v
  PlayerReach-Fits v (go r st) = PlayerStep-Fits (PlayerReach-Fits v r) st
