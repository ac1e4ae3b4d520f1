-- ===== src/Airplay.antt =====
-- The callbacks of main.c that the AirPlay receiver calls: `audio_data` and `audio_command`.
use esp32_s3_car_adapter.Common.{
  ℕ, ◌+◌, ◌*◌, ◌/◌, ◌%◌, ◌^◌, Bool, true, false, List, [], ◌∷◌, Option, none, some,
}
use esp32_s3_car_adapter.Common.{◌==◌, if◌then◌else◌, length, u32, u64}
use esp32_s3_car_adapter.Iap.Live.{copy_cstr, iap_set_track, iap_set_playing}
use esp32_s3_car_adapter.Usb.Ring.{Frame}
use esp32_s3_car_adapter.Usb.Device.{Usb, with_iap, push_pcm}
pub mod Strings
mod Runs

-- `raop_event_t` with its arguments: artist, album and title of the metadata, each of which may be
-- a null pointer.
pub data RaopEvent : Type 0 where
  setup stream play stop flush other : RaopEvent
  metadata : Option (List ℕ) → Option (List ℕ) → Option (List ℕ) → RaopEvent

-- The static variables of main.c that the callbacks change, over those of the USB device.
pub record Player (F : Type 0) : Type 0 where
  pub usb : Usb F
  pub pcm_bytes : ℕ
  pub pcm_nonzero : ℕ
  pub pcm_callbacks : ℕ
  pub sessions : ℕ
  pub title : List ℕ
  pub artist : List ℕ
  pub album : List ℕ

-- `(const int16_t *) data` with `length / 4` frames, lowest byte first; odd bytes at the end are
-- left over.
unfoldable pub frames_of : List ℕ → List Frame
frames_of (a ∷ b ∷ c ∷ d ∷ bytes) =
    record { left = a + b * 256; right = c + d * 256 } ∷ frames_of bytes
frames_of bytes = []

-- `nonzero += data[i] != 0`
unfoldable pub count_nonzero : List ℕ → ℕ
count_nonzero [] = 0
count_nonzero (b ∷ bytes) =
    let rest = count_nonzero bytes in if b == 0 then rest else u32 (rest + 1)

module _ {F : Type 0} (clock : ℕ → ℕ) where
  unfoldable pub audio_data : List ℕ → Player F → Player F
  audio_data bytes s = record s {
    usb = push_pcm clock (frames_of bytes) s.usb;
    pcm_bytes = u64 (s.pcm_bytes + length bytes);
    pcm_nonzero = u64 (s.pcm_nonzero + count_nonzero bytes);
    pcm_callbacks = u32 (s.pcm_callbacks + 1);
  }

  unfoldable pub command_playing : Bool → Player F → Player F
  command_playing p s = record s { usb = with_iap (iap_set_playing p s.usb.audio.iap) s.usb }

  unfoldable pub set_metadata :
      Option (List ℕ) → Option (List ℕ) → Option (List ℕ) → Player F → Player F
  set_metadata a al t s = record s {
    artist = copy_cstr 192 a;
    album = copy_cstr 192 al;
    title = copy_cstr 192 t;
    usb = with_iap (iap_set_track clock a t al s.usb.audio.iap) s.usb;
  }

  -- The answer is `true` for every event.
  unfoldable pub audio_command : RaopEvent → Player F → Player F
  audio_command setup s = record s { sessions = u32 (s.sessions + 1) }
  audio_command (metadata a al t) s = set_metadata a al t s
  audio_command stream s = command_playing true s
  audio_command play s = command_playing true s
  audio_command stop s = command_playing false s
  audio_command flush s = command_playing false s
  audio_command other s = s
