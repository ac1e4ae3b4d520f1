-- ===== src/Airplay/Strings.antt =====
-- The strings of the status page and those of the engine.
use esp32_s3_car_adapter.Common.{ℕ, ◌≡◌, refl, Bool, List, Option, if_intro, Option-cases, inl, inr}
use esp32_s3_car_adapter.Iap.State.{Iap, tx_send, tx_notify}
use esp32_s3_car_adapter.Iap.Live.{iap_set_track, iap_set_playing, iap_note_pcm, copy_cstr}
use esp32_s3_car_adapter.Usb.Ring.{ipod_usb_push_pcm}
use esp32_s3_car_adapter.Usb.Device.{with_iap, push_pcm}
use esp32_s3_car_adapter.Airplay.{
  RaopEvent, setup, stream, play, stop, flush, other, metadata, Player, audio_data, command_playing,
  set_metadata, audio_command,
}

-- The engine tells the head unit what the status page shows.
pub record Agrees {F : Type 0} (s : Player F) : Type 0 where
  pub artist : s.usb.audio.iap.np.np_artist ≡ s.artist
  pub title : s.usb.audio.iap.np.np_title ≡ s.title
  pub album : s.usb.audio.iap.np.np_album ≡ s.album

module _ {F : Type 0} (clock : ℕ → ℕ) where
  set_metadata-Agrees :
      (a al t : Option (List ℕ)) (s : Player F) → Agrees (set_metadata clock a al t s)
  unfolding set_metadata with_iap iap_set_track tx_notify tx_send
  set_metadata-Agrees a al t s = record {
    artist =
        if_intro (λ (i : Iap). i.np.np_artist ≡ copy_cstr 192 a) s.usb.audio.iap.np.notify_armed
          refl refl;
    title =
        if_intro (λ (i : Iap). i.np.np_title ≡ copy_cstr 192 t) s.usb.audio.iap.np.notify_armed refl
          refl;
    album =
        if_intro (λ (i : Iap). i.np.np_album ≡ copy_cstr 192 al) s.usb.audio.iap.np.notify_armed
          refl refl;
  }

  command_playing-Agrees : (p : Bool) {s : Player F} → Agrees s → Agrees (command_playing clock p s)
  unfolding command_playing with_iap iap_set_playing
  command_playing-Agrees p v = record { artist = v.artist; title = v.title; album = v.album }

  audio_data-Agrees : (bytes : List ℕ) {s : Player F} → Agrees s → Agrees (audio_data clock bytes s)
  unfolding audio_data push_pcm ipod_usb_push_pcm iap_note_pcm
  audio_data-Agrees bytes {s} v = elim (Option-cases s.usb.audio.pcm) [
    | inl e ↦ record { artist = rw e v.artist; title = rw e v.title; album = rw e v.album }
    | inr (r, e) ↦ record { artist = rw e v.artist; title = rw e v.title; album = rw e v.album }
  ]

  -- Every event and every block of audio keeps the artist, title and album that the engine reports
  -- to the head unit equal to those of the status page; metadata makes them so.
  pub audio_callbacks-Agrees :
      (s : Player F)
      → ((a al t : Option (List ℕ)) → Agrees (audio_command clock (metadata a al t) s))
        × (Agrees s
            → ((e : RaopEvent) → Agrees (audio_command clock e s))
              × ((bytes : List ℕ) → Agrees (audio_data clock bytes s)))
  unfolding audio_command
  audio_callbacks-Agrees s = (
    λ a al t. set_metadata-Agrees a al t s,
    λ v. (λ e. every e v, λ bytes. audio_data-Agrees bytes v),
  )
    where
      every : (e : RaopEvent) → Agrees s → Agrees (audio_command clock e s)
      every setup v = record { artist = v.artist; title = v.title; album = v.album }
      every (metadata a al t) v = set_metadata-Agrees a al t s
      every stream v = command_playing-Agrees _ v
      every play v = command_playing-Agrees _ v
      every stop v = command_playing-Agrees _ v
      every flush v = command_playing-Agrees _ v
      every other v = v
