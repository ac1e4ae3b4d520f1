-- ===== src/Usb/Descriptors.antt =====
-- The descriptors of ipod_usb.c and the callbacks that serve them. The constants and the macro of
-- TinyUSB that they are written with are a parameter.
use esp32_s3_car_adapter.Common.{
  ℕ, zero, suc, ◌+◌, ◌*◌, ◌/◌, ◌%◌, ◌^◌, Bool, List, [], ◌∷◌, ◌++◌, Option, none, some,
}
use esp32_s3_car_adapter.Common.{ltb, leb, ◌==◌, if◌then◌else◌, length, take, get_or, u8}
use Prim.Native.Nat.{bit_or}
pub mod Walk
pub mod Hid
pub mod Strings
mod Runs

-- The constants that tusb.h and class/audio/audio.h define.
pub record TusbDesc : Type 0 where
  pub desc_device_type : ℕ
  pub desc_configuration : ℕ
  pub desc_interface : ℕ
  pub desc_cs_interface : ℕ
  pub desc_endpoint : ℕ
  pub desc_cs_endpoint : ℕ
  pub desc_string : ℕ
  pub att_self_powered : ℕ
  pub class_audio : ℕ
  pub class_hid : ℕ
  pub subclass_control : ℕ
  pub subclass_streaming : ℕ
  pub ac_header : ℕ
  pub ac_input_terminal : ℕ
  pub ac_output_terminal : ℕ
  pub term_type_in_generic_mic : ℕ
  pub term_type_usb_streaming : ℕ
  pub as_general : ℕ
  pub as_format_type : ℕ
  pub data_format_type_i_pcm : ℕ
  pub format_type_i : ℕ
  pub ep_subtype_general : ℕ
  pub xfer_isochronous : ℕ
  pub xfer_interrupt : ℕ

-- `USB_VID_APPLE`, `USB_PID_IPOD`, `USB_BCD_DEVICE`, and the numbers of interfaces and endpoints.
abbrev pub usb_vid_apple : ℕ
usb_vid_apple = 0x05AC

abbrev pub usb_pid_ipod : ℕ
usb_pid_ipod = 0x1261

abbrev pub usb_bcd_device : ℕ
usb_bcd_device = 0x0100

abbrev pub itf_num_audio_ctrl : ℕ
itf_num_audio_ctrl = 0

abbrev pub itf_num_audio_stream : ℕ
itf_num_audio_stream = 1

abbrev pub itf_num_hid : ℕ
itf_num_hid = 2

abbrev pub itf_count : ℕ
itf_count = 3

abbrev pub ep_addr_audio_in : ℕ
ep_addr_audio_in = 0x81

abbrev pub ep_addr_hid_in : ℕ
ep_addr_hid_in = 0x83

abbrev pub uac1_bcd_adc : ℕ
uac1_bcd_adc = 0x0100

abbrev pub ac_total_len : ℕ
ac_total_len = 9 + 9 + 12 + 9

-- `CFG_TUD_ENDPOINT0_SIZE`, `IPOD_USB_CHANNELS`, `IPOD_USB_BYTES_PER_SAMPLE` and
-- `IPOD_USB_EP_IN_SIZE` of tusb_config.h.
abbrev pub endpoint0_size : ℕ
endpoint0_size = 64

abbrev pub ipod_usb_channels : ℕ
ipod_usb_channels = 2

abbrev pub ipod_usb_bytes_per_sample : ℕ
ipod_usb_bytes_per_sample = 2

abbrev pub ipod_usb_ep_in_size : ℕ
ipod_usb_ep_in_size = 192

-- hid_report_desc.inc
abbrev pub hid_report_desc : List ℕ
hid_report_desc =
    0x06 ∷ 0x00 ∷ 0xff ∷ 0x09 ∷ 0x01 ∷ 0xa1 ∷ 0x01 ∷ 0x75 ∷ 0x08 ∷ 0x26 ∷ 0x80 ∷ 0x00 ∷ 0x15 ∷ 0x00
    ∷ 0x09 ∷ 0x01 ∷ 0x85 ∷ 0x01 ∷ 0x95 ∷ 0x0c ∷ 0x82 ∷ 0x02 ∷ 0x01 ∷ 0x09 ∷ 0x01 ∷ 0x85 ∷ 0x02
    ∷ 0x95 ∷ 0x0e ∷ 0x82 ∷ 0x02 ∷ 0x01 ∷ 0x09 ∷ 0x01 ∷ 0x85 ∷ 0x03 ∷ 0x95 ∷ 0x14 ∷ 0x82 ∷ 0x02
    ∷ 0x01 ∷ 0x09 ∷ 0x01 ∷ 0x85 ∷ 0x04 ∷ 0x95 ∷ 0x3f ∷ 0x82 ∷ 0x02 ∷ 0x01 ∷ 0x09 ∷ 0x01 ∷ 0x85
    ∷ 0x05 ∷ 0x95 ∷ 0x08 ∷ 0x92 ∷ 0x02 ∷ 0x01 ∷ 0x09 ∷ 0x01 ∷ 0x85 ∷ 0x06 ∷ 0x95 ∷ 0x0a ∷ 0x92
    ∷ 0x02 ∷ 0x01 ∷ 0x09 ∷ 0x01 ∷ 0x85 ∷ 0x07 ∷ 0x95 ∷ 0x0e ∷ 0x92 ∷ 0x02 ∷ 0x01 ∷ 0x09 ∷ 0x01
    ∷ 0x85 ∷ 0x08 ∷ 0x95 ∷ 0x14 ∷ 0x92 ∷ 0x02 ∷ 0x01 ∷ 0x09 ∷ 0x01 ∷ 0x85 ∷ 0x09 ∷ 0x95 ∷ 0x3f
    ∷ 0x92 ∷ 0x02 ∷ 0x01 ∷ 0xc0 ∷ []

-- `tud_hid_descriptor_report_cb`
unfoldable pub tud_hid_descriptor_report_cb : ℕ → List ℕ
tud_hid_descriptor_report_cb interface_no = hid_report_desc

-- `string_desc_arr` behind the language; `serial` is `serial_str`. "Apple Inc.", "iPod",
-- "iPod USB Interface".
unfoldable pub string_desc_arr : List ℕ → List (List ℕ)
string_desc_arr serial =
    (0x41 ∷ 0x70 ∷ 0x70 ∷ 0x6C ∷ 0x65 ∷ 0x20 ∷ 0x49 ∷ 0x6E ∷ 0x63 ∷ 0x2E ∷ [])
    ∷ (0x69 ∷ 0x50 ∷ 0x6F ∷ 0x64 ∷ [])
    ∷ serial
    ∷ (0x69 ∷ 0x50 ∷ 0x6F ∷ 0x64 ∷ 0x20 ∷ 0x55 ∷ 0x53 ∷ 0x42 ∷ 0x20 ∷ 0x49 ∷ 0x6E ∷ 0x74 ∷ 0x65
        ∷ 0x72 ∷ 0x66 ∷ 0x61 ∷ 0x63 ∷ 0x65 ∷ [])
    ∷ []

-- The default of `serial_str`, "VOLVOAIRPLAY1".
abbrev pub default_serial : List ℕ
default_serial =
    0x56 ∷ 0x4F ∷ 0x4C ∷ 0x56 ∷ 0x4F ∷ 0x41 ∷ 0x49 ∷ 0x52 ∷ 0x50 ∷ 0x4C ∷ 0x41 ∷ 0x59 ∷ 0x31 ∷ []

-- `%02X`
unfoldable pub hex_digit : ℕ → ℕ
hex_digit d = if ltb d 10 then 0x30 + d else 0x37 + d

unfoldable pub hex_bytes : List ℕ → List ℕ
hex_bytes [] = []
hex_bytes (b ∷ bytes) = hex_digit (b / 16) ∷ hex_digit (b % 16) ∷ hex_bytes bytes

-- `serial_str` after `ipod_usb_init`: `mac` is what `esp_efuse_mac_get_default` gave, 6 bytes, or
-- nothing where it failed.
unfoldable pub serial_of : Option (List ℕ) → List ℕ
unfolding hex_bytes hex_digit
serial_of none = default_serial
serial_of (some mac) = hex_bytes mac

-- `u16_to_u8s_le` is the macro `U16_TO_U8S_LE`.
module _ (u16_to_u8s_le : ℕ → List ℕ) (t : TusbDesc) where
  -- The bytes of `desc_device`, a packed structure of 18 bytes with its numbers lowest byte first.
  abbrev pub desc_device : List ℕ
  desc_device =
      (18 ∷ t.desc_device_type ∷ u16_to_u8s_le 0x0200)
      ++ (0x00 ∷ 0x00 ∷ 0x00 ∷ endpoint0_size ∷ u16_to_u8s_le usb_vid_apple)
      ++ u16_to_u8s_le usb_pid_ipod
      ++ u16_to_u8s_le usb_bcd_device
      ++ (0x01 ∷ 0x02 ∷ 0x03 ∷ 0x01 ∷ [])

  abbrev pub tud_descriptor_device_cb : List ℕ
  tud_descriptor_device_cb = desc_device

  -- The parts of `desc_config`: the configuration, then its interfaces.
  abbrev pub config_header : List ℕ
  config_header =
      (9
        ∷ t.desc_configuration
        ∷ u16_to_u8s_le (9 + ac_total_len + 9 + (9 + 7 + 14 + 9 + 7) + (9 + 9 + 7)))
      ++ (itf_count ∷ 2 ∷ 4 ∷ bit_or t.att_self_powered 0x80 ∷ 250 ∷ [])

  abbrev pub audio_control : List ℕ
  audio_control =
      (9 ∷ t.desc_interface ∷ itf_num_audio_ctrl ∷ 0 ∷ 0 ∷ t.class_audio ∷ t.subclass_control ∷ 0
        ∷ 0 ∷ [])
      ++ (9 ∷ t.desc_cs_interface ∷ t.ac_header ∷ u16_to_u8s_le uac1_bcd_adc)
      ++ u16_to_u8s_le ac_total_len
      ++ (1 ∷ itf_num_audio_stream ∷ [])
      ++ (12
          ∷ t.desc_cs_interface
          ∷ t.ac_input_terminal
          ∷ 1
          ∷ u16_to_u8s_le t.term_type_in_generic_mic)
      ++ (0 ∷ 2 ∷ u16_to_u8s_le 0x0003)
      ++ (0 ∷ 0 ∷ [])
      ++ (9
          ∷ t.desc_cs_interface
          ∷ t.ac_output_terminal
          ∷ 2
          ∷ u16_to_u8s_le t.term_type_usb_streaming)
      ++ (0 ∷ 1 ∷ 0 ∷ [])

  abbrev pub audio_streaming : List ℕ
  audio_streaming =
      (9 ∷ t.desc_interface ∷ itf_num_audio_stream ∷ 0 ∷ 0 ∷ t.class_audio ∷ t.subclass_streaming
        ∷ 0 ∷ 0 ∷ [])
      ++ (9 ∷ t.desc_interface ∷ itf_num_audio_stream ∷ 1 ∷ 1 ∷ t.class_audio ∷ t.subclass_streaming
          ∷ 0 ∷ 0 ∷ [])
      ++ (7 ∷ t.desc_cs_interface ∷ t.as_general ∷ 2 ∷ 1 ∷ u16_to_u8s_le t.data_format_type_i_pcm)
      ++ (14 ∷ t.desc_cs_interface ∷ t.as_format_type ∷ t.format_type_i ∷ ipod_usb_channels
          ∷ ipod_usb_bytes_per_sample ∷ 16 ∷ 2 ∷ 0x44 ∷ 0xAC ∷ 0x00 ∷ 0x80 ∷ 0xBB ∷ 0x00 ∷ [])
      ++ (9
          ∷ t.desc_endpoint
          ∷ ep_addr_audio_in
          ∷ t.xfer_isochronous
          ∷ u16_to_u8s_le ipod_usb_ep_in_size)
      ++ (1 ∷ 0 ∷ 0 ∷ [])
      ++ (7 ∷ t.desc_cs_endpoint ∷ t.ep_subtype_general ∷ 0x01 ∷ 0 ∷ u16_to_u8s_le 0)

  abbrev pub hid_transport : List ℕ
  hid_transport =
      (9 ∷ t.desc_interface ∷ itf_num_hid ∷ 0 ∷ 1 ∷ t.class_hid ∷ 0 ∷ 0 ∷ 0 ∷ [])
      ++ (9 ∷ 0x21 ∷ u16_to_u8s_le 0x0111)
      ++ (0 ∷ 1 ∷ 0x22 ∷ u16_to_u8s_le (length hid_report_desc))
      ++ (7 ∷ t.desc_endpoint ∷ ep_addr_hid_in ∷ t.xfer_interrupt ∷ u16_to_u8s_le 64)
      ++ (1 ∷ [])

  abbrev pub desc_config : List ℕ
  desc_config = config_header ++ audio_control ++ audio_streaming ++ hid_transport

-- `tud_descriptor_string_cb`: the units of `_desc_str` that the descriptor's length covers. A
-- character is ASCII; the shift and the sum do not overlap, so `|` is `+`.
unfoldable pub tud_descriptor_string_cb : TusbDesc → List ℕ → ℕ → Option (List ℕ)
tud_descriptor_string_cb t serial zero =
    some ((t.desc_string * 2 ^ 8 + (2 + 2)) ∷ (0x09 + 0x04 * 2 ^ 8) ∷ [])
tud_descriptor_string_cb t serial (suc i) =
    let str = get_or (string_desc_arr serial) i [] in
    let len = if ltb 62 (u8 (length str)) then 62 else u8 (length str) in
    if leb 5 (suc i) then none else some ((t.desc_string * 2 ^ 8 + (2 * len + 2)) ∷ take len str)
