-- ===== src/Usb/Descriptors/Runs.antt =====
-- Runs of the descriptors with the constants of the USB standard.
use esp32_s3_car_adapter.Common.{
  ℕ, suc, ◌≤◌, ◌<◌, ◌≡◌, refl, sym, ap, true, List, [], ◌∷◌, Option, none, some, arith, length,
  get_or,
}
use esp32_s3_car_adapter.Usb.Batch.{Phases}
use esp32_s3_car_adapter.Usb.Attach.{at_boot, ipod_usb_init}
use esp32_s3_car_adapter.Usb.Descriptors.{
  TusbDesc, desc_config, hid_report_desc, desc_device, string_desc_arr, serial_of,
  tud_descriptor_string_cb,
}
use esp32_s3_car_adapter.Usb.Descriptors.Walk.{AreDistinct, Reads, le16, desc_config-Reads}
use esp32_s3_car_adapter.Usb.Descriptors.Strings.{Says, string_descriptors-Says}

abbrev usb_desc : TusbDesc
usb_desc = record {
  desc_device_type = 1;
  desc_configuration = 2;
  desc_interface = 4;
  desc_cs_interface = 0x24;
  desc_endpoint = 5;
  desc_cs_endpoint = 0x25;
  desc_string = 3;
  att_self_powered = 0x40;
  class_audio = 1;
  class_hid = 3;
  subclass_control = 1;
  subclass_streaming = 2;
  ac_header = 1;
  ac_input_terminal = 2;
  ac_output_terminal = 3;
  term_type_in_generic_mic = 0x0201;
  term_type_usb_streaming = 0x0101;
  as_general = 1;
  as_format_type = 2;
  data_format_type_i_pcm = 1;
  format_type_i = 1;
  ep_subtype_general = 1;
  xfer_isochronous = 1;
  xfer_interrupt = 3;
}

usb_desc-AreDistinct : AreDistinct usb_desc
usb_desc-AreDistinct = ground arith

desc_config-Reads_example : (ds : List (List ℕ)) × Reads usb_desc (desc_config le16 usb_desc) ds
desc_config-Reads_example = desc_config-Reads le16 usb_desc (λ x. refl) usb_desc-AreDistinct

-- The older report descriptor had 208 bytes.
report_desc_96 : length hid_report_desc ≡ 96
report_desc_96 = refl

device_18 : length (desc_device le16 usb_desc) ≡ 18
device_18 = refl

abbrev some_mac : Option (List ℕ)
some_mac = some (0x02 ∷ 0x1F ∷ 0xA0 ∷ 0xB1 ∷ 0xC2 ∷ 0xFF ∷ [])

mac_text : serial_of (some (0x1F ∷ 0xA0 ∷ [])) ≡ 0x31 ∷ 0x46 ∷ 0x41 ∷ 0x30 ∷ []
unfolding serial_of
mac_text = refl

abbrev no_phase : Phases ℕ
no_phase = record { resample_pos = 0; tone_phase_l = 0; tone_phase_r = 0 }

six_bytes : (m : List ℕ) → some_mac ≡ some m → length m ≡ 6
six_bytes m e =
    sym (ap (λ (o : Option (List ℕ)). elim o as (λ x. ℕ) [ none ↦ 6 | some x ↦ length x ]) e)

string_descriptors-Says_example :
    let serial = serial_of some_mac in
    let dev = (ipod_usb_init serial true true (at_boot no_phase)).1 in
    ((i : ℕ)
      → i < 4
      → (units : List ℕ) × (tud_descriptor_string_cb usb_desc serial (suc i) ≡ some units)
        × Says usb_desc.desc_string (get_or (string_desc_arr serial) i []) units)
    × ((i : ℕ) → 4 ≤ i → tud_descriptor_string_cb usb_desc serial (suc i) ≡ none)
    × (dev.audio.iap.np.dev_serial ≡ get_or (string_desc_arr serial) 2 [])
string_descriptors-Says_example =
    string_descriptors-Says usb_desc some_mac true true no_phase six_bytes
