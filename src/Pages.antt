-- ===== src/Pages.antt =====
-- The HTTP pages of main.c: the status page, the tone switch and the reboot.
use Prim.Native.String.{String}
use esp32_s3_car_adapter.Common.{
  ◌/◌, u32, ℕ, ◌-◌, Bool, true, false, List, [], ◌∷◌, ◌++◌, Option, none, some, ltb, not, ◌&&◌,
  ◌==◌, if◌then◌else◌, length, take, get_or,
}
use esp32_s3_car_adapter.Iap.Live.{Snapshot, iap_snapshot}
use esp32_s3_car_adapter.Usb.Device.{ipod_usb_set_tone}
use esp32_s3_car_adapter.Usb.Log.{LogRing, ipod_usb_read_iap_log}
use esp32_s3_car_adapter.Usb.Status.{Status, ipod_usb_get_status, ipod_usb_tone}
use esp32_s3_car_adapter.Airplay.{Player}
use esp32_s3_car_adapter.Pages.Text.{Piece, lit, num, int, flag, str, codes, printf, snprintf}
pub mod Text
pub mod Reach
pub mod Bounds
mod Runs

-- `RESPONSE_SZ`
abbrev pub response_sz : ℕ
response_sz = 4096

-- The format of `status_handler` with its arguments. `name` is `CONFIG_ADAPTER_NAME` and `psram` the
-- answer of `esp_psram_get_size`. The dash behind the name has three bytes in UTF-8.
abbrev pub status_pieces :
    List ℕ → ℕ → ℕ → ℕ → ℕ → ℕ → List ℕ → List ℕ → Status → Snapshot → List Piece
status_pieces name psram count bytes nonzero callbacks a t usb iap =
    str name
    ∷ str (0x20 ∷ 0xE2 ∷ 0x80 ∷ 0x94 ∷ [])
    ∷ lit " receiver test\n\n"
    ∷ lit "Select this device in your iPhone's AirPlay output menu.\n\n"
    ∷ lit "Sessions: "
    ∷ num count
    ∷ lit "\nPCM bytes: "
    ∷ num bytes
    ∷ lit "\nNonzero PCM bytes: "
    ∷ num nonzero
    ∷ lit "\nPCM callbacks: "
    ∷ num callbacks
    ∷ lit "\nArtist: "
    ∷ str a
    ∷ lit "\nTitle: "
    ∷ str t
    ∷ lit "\nPSRAM bytes: "
    ∷ num psram
    ∷ lit "\n\n"
    ∷ lit "USB iPod: ready="
    ∷ flag usb.usb_ready
    ∷ lit " mounted="
    ∷ flag usb.host_mounted
    ∷ lit " audio="
    ∷ flag usb.audio_streaming
    ∷ lit " suspended="
    ∷ flag usb.usb_suspended
    ∷ lit " rate="
    ∷ num usb.usb_rate
    ∷ lit " tone="
    ∷ flag usb.tone_on
    ∷ lit " underruns="
    ∷ num usb.pcm_underruns
    ∷ lit " iAP rx="
    ∷ num usb.iap_rx_packets
    ∷ lit " tx="
    ∷ num usb.iap_tx_packets
    ∷ lit "\niAP: state="
    ∷ str iap.state
    ∷ lit " cert="
    ∷ int iap.cert_cur
    ∷ lit "/"
    ∷ int iap.cert_max
    ∷ lit " lastlat="
    ∷ num iap.last_latency_us
    ∷ lit "us seq="
    ∷ num iap.seq
    ∷ lit " TX{ack="
    ∷ num iap.tx.tx_ack
    ∷ lit " ident="
    ∷ num iap.tx.tx_ident
    ∷ lit " auth="
    ∷ num iap.tx.tx_auth
    ∷ lit " audio="
    ∷ num iap.tx.tx_audio
    ∷ lit " other="
    ∷ num iap.tx.tx_other
    ∷ lit "}\nUSB timing: boot="
    ∷ num usb.boot_ms
    ∷ lit "ms phy="
    ∷ num usb.phy_ready_ms
    ∷ lit "ms firstconn="
    ∷ num usb.first_connect_ms
    ∷ lit "ms mount="
    ∷ num usb.mount_ms
    ∷ lit "ms attempts="
    ∷ num usb.connect_attempts
    ∷ lit "\n\nUSB log:\n"
    ∷ []

module _ {F : Type 0} (name : List ℕ) (psram : ℕ) where
  -- All the pieces, from the state.
  abbrev pub status_text : Player F → List Piece
  status_text s =
      status_pieces name psram s.sessions s.pcm_bytes s.pcm_nonzero s.pcm_callbacks s.artist s.title
        (ipod_usb_get_status s.usb) (iap_snapshot s.usb.audio.iap)

  -- The body that `status_handler` sends; `none` is `ESP_ERR_NO_MEM`, where `heap_caps_malloc` gave
  -- nothing. The ring has the text of the log lines.
  unfoldable pub status_handler : Bool → LogRing → Player F → Option (List ℕ)
  status_handler allocated r s =
      let n = length (printf (status_text s)) in
      let head = snprintf response_sz (status_text s) in
      if not allocated
      then none
      else if ltb 0 n && ltb n response_sz
      then some (head ++ ipod_usb_read_iap_log (response_sz - n) r)
      else some head

module _ {F : Type 0} where
  -- `val` is what `httpd_query_key_value` gave for "on"; the body and the state.
  unfoldable pub tone_handler : Option (List ℕ) → Player F → List ℕ × Player F
  tone_handler val s =
      let s' : Player F = elim val [
        | none ↦ s
        | some v ↦ record s { usb = ipod_usb_set_tone (get_or v 0 0 == 0x31) s.usb }
      ] in
      (if ipod_usb_tone s'.usb then codes "tone on\n" else codes "tone off\n", s')

-- What `reboot_handler` does.
pub data RebootCall : Type 0 where
  send : List ℕ → RebootCall
  delay_ms : ℕ → RebootCall
  restart : RebootCall

abbrev pub reboot_handler : List RebootCall
reboot_handler = send (codes "rebooting\n") ∷ delay_ms 500 ∷ restart ∷ []

-- `_gettime_ms_`: `now` is what `esp_timer_get_time` gave.
abbrev pub gettime_ms : ℕ → ℕ
gettime_ms now = u32 (now / 1000)

-- The line that the loop of `app_main` logs each five seconds; `free` is the answer of
-- `heap_caps_get_free_size`.
abbrev pub loop_line : {F : Type 0} → ℕ → Player F → List Piece
loop_line free s =
    lit "PCM bytes="
    ∷ num s.pcm_bytes
    ∷ lit " nonzero="
    ∷ num s.pcm_nonzero
    ∷ lit " callbacks="
    ∷ num s.pcm_callbacks
    ∷ lit " free_internal="
    ∷ num free
    ∷ []
