-- ===== src/Usb/Device.antt =====
-- The state of ipod_usb.c and the callbacks of TinyUSB: mount, suspend, the audio class requests,
-- and the HID transport that feeds the iAP engine.
use esp32_s3_car_adapter.Common.{
  ℕ, zero, suc, ◌+◌, ◌*◌, ◌/◌, ◌%◌, ◌^◌, Bool, true, false, ◌&&◌, ◌||◌, List, [], ◌∷◌, Option, none,
  some,
}
use esp32_s3_car_adapter.Common.{
  ltb, leb, ◌==◌, if◌then◌else◌, length, get_or, take, drop, replicate, u8, u16, u32,
}
use esp32_s3_car_adapter.Iap.State.{Iap, initial}
use esp32_s3_car_adapter.Iap.Queue.{TxReport}
use esp32_s3_car_adapter.Iap.Live.{iap_tx_pump}
use esp32_s3_car_adapter.Iap.Dispatch.{iap_rx_report}
use esp32_s3_car_adapter.Usb.Ring.{Frame, Audio, empty_ring, ipod_usb_push_pcm}
use esp32_s3_car_adapter.Usb.Batch.{Phases}
pub mod Requests

-- The lines that `iap_logf` is called with, one constructor for each format, with the values.
pub data UsbLine : Type 0 where
  config_index : ℕ → UsbLine
  first_mount : ℕ → UsbLine
  mounted unmounted suspended resumed re_attach : UsbLine
  audio_alt : ℕ → Bool → UsbLine
  rate reject_rate : ℕ → UsbLine
  -- type, val, idx and len
  vendor : ℕ → ℕ → ℕ → ℕ → UsbLine
  -- wire, len, the bytes shown, and whether there are more
  rx : ℕ → ℕ → List ℕ → Bool → UsbLine
  -- the number, and whether it is a retry
  attach : ℕ → Bool → UsbLine

-- What is asked of the USB stack.
pub data BusCall : Type 0 where
  connect disconnect : BusCall

-- The static variables of ipod_usb.c, behind those of the PCM path and the engine. `log` holds the
-- lines of `iap_logf`, newest first, each with its time in milliseconds, and `bus` the calls of
-- `tud_connect` and `tud_disconnect`, newest first.
pub record Usb (F : Type 0) : Type 0 where
  pub audio : Audio
  pub phases : Phases F
  pub usb_ready : Bool
  pub host_mounted : Bool
  pub ever_mounted : Bool
  pub boot_us : ℕ
  pub phy_ready_us : ℕ
  pub first_connect_us : ℕ
  pub mount_us : ℕ
  pub connect_attempts : ℕ
  pub audio_streaming : Bool
  pub usb_rate : ℕ
  pub usb_suspended : Bool
  pub next_attach_us : ℕ
  pub retry_idx : ℕ
  pub stack_ready : Bool
  pub log : List (ℕ × UsbLine)
  pub bus : List BusCall

-- `tusb_control_request_t`
pub record Request : Type 0 where
  pub bm_request_type : ℕ
  pub b_request : ℕ
  pub w_value : ℕ
  pub w_index : ℕ
  pub w_length : ℕ

-- The constants of TinyUSB that the callbacks compare with: `AUDIO_CS_REQ_CUR`,
-- `AUDIO10_EP_CTRL_SAMPLING_FREQ` and `CONTROL_STAGE_SETUP`.
pub record Tusb : Type 0 where
  pub cs_req_cur : ℕ
  pub sampling_freq : ℕ
  pub stage_setup : ℕ

-- `iap_strip_id` of iap.h: how many bytes to skip.
unfoldable pub iap_strip_id : List ℕ → ℕ
iap_strip_id [] = 0
iap_strip_id (id ∷ []) = 0
iap_strip_id (id ∷ link ∷ bytes) = if ltb 0x03 id && leb link 0x03 then 1 else 0

-- `tud_hid_get_report_cb`: the bytes that the host gets.
unfoldable pub tud_hid_get_report_cb : ℕ → List ℕ
tud_hid_get_report_cb reqlen = replicate (if ltb 64 reqlen then 64 else reqlen) 0

-- `(pBuff[2] << 16) | (pBuff[1] << 8) | pBuff[0]`
unfoldable pub requested_rate : List ℕ → ℕ
requested_rate buff = get_or buff 2 0 * 2 ^ 16 + get_or buff 1 0 * 2 ^ 8 + get_or buff 0 0

module _ {F : Type 0} where
  unfoldable pub with_iap : Iap → Usb F → Usb F
  with_iap i s = record s { audio = record (s.audio) { iap = i } }

  -- A call of `esp_timer_get_time`, as the engine counts them.
  unfoldable pub tick : Usb F → Usb F
  unfolding with_iap
  tick s = with_iap (record (s.audio.iap) { reads = s.audio.iap.reads + 1 }) s

  unfoldable pub tud_resume_state : Usb F → Usb F
  tud_resume_state s = record s { usb_suspended = false }

  unfoldable pub ipod_usb_set_tone : Bool → Usb F → Usb F
  ipod_usb_set_tone on s = record s { audio = record (s.audio) { tone_on = on } }

  -- `tud_hid_report_complete_cb`
  unfoldable pub tud_hid_report_complete_cb : (ℕ → Bool) → Usb F → Usb F × List TxReport
  tud_hid_report_complete_cb accepts s =
      let (i, sent) = iap_tx_pump accepts s.audio.iap in (with_iap i s, sent)

  module _ (clock : ℕ → ℕ) where
    -- The answer of the next call of `esp_timer_get_time`.
    unfoldable pub now : Usb F → ℕ
    now s = clock s.audio.iap.reads

    -- `iap_logf`, which reads the time for its prefix.
    unfoldable pub iap_logf : UsbLine → Usb F → Usb F
    unfolding now tick
    iap_logf l s = record (tick s) { log = (u32 (now s / 1000), l) ∷ s.log }

    unfoldable pub push_pcm : List Frame → Usb F → Usb F
    push_pcm frames s = record s { audio = ipod_usb_push_pcm clock frames s.audio }

    unfoldable pub note_first_mount : Usb F → Usb F
    note_first_mount s =
        let t = now s in
        if s.mount_us == 0
        then iap_logf (first_mount (u32 (t / 1000))) (record (tick s) { mount_us = t })
        else s

    unfoldable pub tud_mount_cb : Usb F → Usb F
    unfolding note_first_mount
    tud_mount_cb s =
        iap_logf mounted (note_first_mount (record s { host_mounted = true; ever_mounted = true }))

    unfoldable pub tud_umount_cb : Usb F → Usb F
    tud_umount_cb s =
        iap_logf unmounted (record s { host_mounted = false; audio_streaming = false })

    -- `itf` and `alt` are the low bytes; interface 1 is the audio stream. The answer is `true`.
    unfoldable pub tud_audio_set_itf_cb : Request → Usb F → Usb F
    tud_audio_set_itf_cb req s =
        let itf = u8 req.w_index in
        let alt = u8 req.w_value in
        let on = alt == 1 in
        if itf == 1 then iap_logf (audio_alt alt on) (record s { audio_streaming = on }) else s

    unfoldable pub tud_suspend_cb : Usb F → Usb F
    tud_suspend_cb s = iap_logf suspended (record s { usb_suspended = true })

    unfoldable pub tud_resume_cb : Usb F → Usb F
    unfolding tud_resume_state
    tud_resume_cb s = iap_logf resumed (tud_resume_state s)

    -- The answer and the state.
    unfoldable pub tud_audio_set_req_ep_cb : Tusb → Request → List ℕ → Usb F → Bool × Usb F
    tud_audio_set_req_ep_cb tusb req buff s =
        let freq = requested_rate buff in
        if req.b_request == tusb.cs_req_cur
          && (u8 (req.w_value / 2 ^ 8) == tusb.sampling_freq && req.w_length == 3)
        then (if freq == 44100 || freq == 48000
            then (true, iap_logf (rate freq) (record s { usb_rate = freq }))
            else (false, iap_logf (reject_rate freq) s))
        else (false, s)

    -- `status` is the answer of `tud_control_status`.
    unfoldable pub tud_vendor_control_xfer_cb : Tusb → Bool → ℕ → Request → Usb F → Bool × Usb F
    tud_vendor_control_xfer_cb tusb status stage req s =
        if stage == tusb.stage_setup && req.b_request == 0x40
        then (status, iap_logf (vendor req.bm_request_type req.w_value req.w_index req.w_length) s)
        else (false, s)

    -- The report's bytes are `buffer[0..bufsize)`.
    unfoldable pub tud_hid_set_report_cb : ℕ → List ℕ → Usb F → Usb F
    tud_hid_set_report_cb report_id buffer s =
        let skip = iap_strip_id buffer in
        let wire_id = if skip == 0 then report_id else get_or buffer 0 0 in
        let chunk = drop skip buffer in
        let s' = iap_logf (rx wire_id (length chunk) (take 24 chunk) (ltb 24 (length chunk))) s in
        with_iap (iap_rx_report clock chunk s'.audio.iap) s'

    -- `tud_descriptor_configuration_cb`: whether the descriptor is served.
    unfoldable pub tud_descriptor_configuration_cb : ℕ → Usb F → Bool × Usb F
    tud_descriptor_configuration_cb index s =
        if index == 0 || index == 1 then (true, s) else (false, iap_logf (config_index index) s)
