-- ===== src/Usb/Status.antt =====
-- The status record of ipod_usb.c, and its callbacks with a constant answer.
use esp32_s3_car_adapter.Common.{ℕ, ◌/◌, Bool, true, false, u32}
use esp32_s3_car_adapter.Usb.Device.{Usb, Request}

-- `ipod_usb_status_t`
pub record Status : Type 0 where
  pub boot_ms : ℕ
  pub phy_ready_ms : ℕ
  pub first_connect_ms : ℕ
  pub mount_ms : ℕ
  pub connect_attempts : ℕ
  pub usb_ready : Bool
  pub host_mounted : Bool
  pub audio_streaming : Bool
  pub usb_suspended : Bool
  pub tone_on : Bool
  pub usb_rate : ℕ
  pub pcm_underruns : ℕ
  pub iap_rx_packets : ℕ
  pub iap_tx_packets : ℕ

module _ {F : Type 0} where
  unfoldable pub iap_rx_packets : Usb F → ℕ
  iap_rx_packets s = s.audio.iap.rx_packets

  unfoldable pub iap_tx_packets : Usb F → ℕ
  iap_tx_packets s = s.audio.iap.tx_packets

  unfoldable pub ipod_usb_rate : Usb F → ℕ
  ipod_usb_rate s = s.usb_rate

  unfoldable pub ipod_usb_tone : Usb F → Bool
  ipod_usb_tone s = s.audio.tone_on

  unfoldable pub ipod_usb_get_status : Usb F → Status
  unfolding iap_rx_packets iap_tx_packets
  ipod_usb_get_status s = record {
    boot_ms = u32 (s.boot_us / 1000);
    phy_ready_ms = u32 (s.phy_ready_us / 1000);
    first_connect_ms = u32 (s.first_connect_us / 1000);
    mount_ms = u32 (s.mount_us / 1000);
    connect_attempts = s.connect_attempts;
    usb_ready = s.usb_ready;
    host_mounted = s.host_mounted;
    audio_streaming = s.audio_streaming;
    usb_suspended = s.usb_suspended;
    tone_on = s.audio.tone_on;
    usb_rate = s.usb_rate;
    pcm_underruns = s.audio.pcm_underruns;
    iap_rx_packets = iap_rx_packets s;
    iap_tx_packets = iap_tx_packets s;
  }

-- The requests that the device refuses, and the one that it always grants.
abbrev pub tud_audio_set_itf_close_ep_cb : Request → Bool
tud_audio_set_itf_close_ep_cb req = true

abbrev pub tud_audio_set_req_itf_cb : Request → Bool
tud_audio_set_req_itf_cb req = false

abbrev pub tud_audio_set_req_entity_cb : Request → Bool
tud_audio_set_req_entity_cb req = false

abbrev pub tud_audio_get_req_ep_cb : Request → Bool
tud_audio_get_req_ep_cb req = false

abbrev pub tud_audio_get_req_itf_cb : Request → Bool
tud_audio_get_req_itf_cb req = false

abbrev pub tud_audio_get_req_entity_cb : Request → Bool
tud_audio_get_req_entity_cb req = false
