-- ===== src/Usb/Descriptors/Strings.antt =====
-- The string descriptors as a host reads them, and the serial number.
use esp32_s3_car_adapter.Common.{
  ℕ, zero, suc, ◌+◌, ◌*◌, ◌/◌, ◌%◌, ◌^◌, ◌≤◌, ◌<◌, ◌≡◌, refl, Bool, true, false, List, [], ◌∷◌,
  Option, none, some, arith,
}
use esp32_s3_car_adapter.Common.{ltb, leb, length, take, drop, get_or, u8, take_all, if_intro, not}
use esp32_s3_car_adapter.Iap.Live.{iap_set_serial, copy_cstr}
use esp32_s3_car_adapter.Usb.Batch.{Phases}
use esp32_s3_car_adapter.Usb.Device.{Usb, with_iap}
use esp32_s3_car_adapter.Usb.Attach.{at_boot, ipod_usb_init}
use esp32_s3_car_adapter.Usb.Descriptors.{
  TusbDesc, string_desc_arr, hex_bytes, serial_of, tud_descriptor_string_cb,
}

-- The units of a string descriptor: the first has the length in bytes and the type, the others are
-- the text. `_desc_str` has room for 64.
pub record Says (type : ℕ) (str units : List ℕ) : Type 0 where
  pub counted : get_or units 0 0 % 2 ^ 8 ≡ 2 * length units
  pub typed : get_or units 0 0 / 2 ^ 8 ≡ type
  pub text : drop 1 units ≡ str
  pub room : length units ≤ 64

length-hex_bytes : (bytes : List ℕ) → length (hex_bytes bytes) ≡ 2 * length bytes
unfolding hex_bytes
length-hex_bytes [] = omega arith
length-hex_bytes (b ∷ bytes) = omega (arith, length-hex_bytes bytes)

-- The serial number fits `serial_str`, with its 0.
pub length-serial_of :
    (mac : Option (List ℕ))
    → ((m : List ℕ) → mac ≡ some m → length m ≡ 6)
    → length (serial_of mac) ≤ 31
unfolding serial_of
length-serial_of none h = omega arith
length-serial_of (some m) h = omega (arith, length-hex_bytes m, h m refl)

Says-str :
    (type : ℕ) (str : List ℕ)
    → length str ≤ 62
    → Says type str ((type * 2 ^ 8 + (2 * length str + 2)) ∷ str)
Says-str type str h = record {
  counted = omega arith;
  typed = omega arith;
  text = refl;
  room = omega arith;
}

string_lem :
    (t : TusbDesc) (serial : List ℕ) (i : ℕ)
    → i < 4
    → length (get_or (string_desc_arr serial) i []) ≤ 62
    → (units : List ℕ) × (tud_descriptor_string_cb t serial (suc i) ≡ some units)
      × Says t.desc_string (get_or (string_desc_arr serial) i []) units
unfolding tud_descriptor_string_cb
string_lem t serial i h k =
    let str : List ℕ = get_or (string_desc_arr serial) i [] in
    let small : u8 (length str) ≡ length str = omega arith in
    let short : ltb 62 (length str) ≡ false = ground arith in
    let known : leb 5 (suc i) ≡ false = ground arith in
    (
      _,
      rw (small, short, known, take_all (length str) str (omega arith)) refl,
      Says-str t.desc_string str k,
    )

string_bounds :
    (serial : List ℕ) (i : ℕ)
    → length serial ≤ 31
    → i < 4
    → length (get_or (string_desc_arr serial) i []) ≤ 62
unfolding string_desc_arr
string_bounds serial zero h k = omega arith
string_bounds serial (suc zero) h k = omega arith
string_bounds serial (suc (suc zero)) h k = omega arith
string_bounds serial (suc (suc (suc zero))) h k = omega arith
string_bounds serial (suc (suc (suc (suc i)))) h k = absurd (omega arith)

no_string :
    (t : TusbDesc) (serial : List ℕ) (i : ℕ)
    → 4 ≤ i
    → tud_descriptor_string_cb t serial (suc i) ≡ none
unfolding tud_descriptor_string_cb
no_string t serial i h = let out : leb 5 (suc i) ≡ true = ground arith in rw out refl

-- Whether the MAC was read (6 bytes) or not, each of the four texts is served as a string
-- descriptor with its own length and type and with the whole text, within the buffer of 64 units;
-- behind the fourth there is none, and the serial number that the engine tells the head unit is the
-- third.
pub string_descriptors-Says :
    {F : Type 0} (t : TusbDesc) (mac : Option (List ℕ)) (allocated created : Bool) (ph : Phases F)
    → ((m : List ℕ) → mac ≡ some m → length m ≡ 6)
    → let serial = serial_of mac in
      let dev = (ipod_usb_init serial allocated created (at_boot ph)).1 in
      ((i : ℕ)
        → i < 4
        → (units : List ℕ) × (tud_descriptor_string_cb t serial (suc i) ≡ some units)
          × Says t.desc_string (get_or (string_desc_arr serial) i []) units)
      × ((i : ℕ) → 4 ≤ i → tud_descriptor_string_cb t serial (suc i) ≡ none)
      × (dev.audio.iap.np.dev_serial ≡ get_or (string_desc_arr serial) 2 [])
unfolding ipod_usb_init with_iap iap_set_serial copy_cstr string_desc_arr
string_descriptors-Says {F} t mac allocated created ph h =
    let fits : length (serial_of mac) ≤ 31 = length-serial_of mac h in
    (
      λ i k. string_lem t (serial_of mac) i k (string_bounds (serial_of mac) i fits k),
      λ i k. no_string t (serial_of mac) i k,
      if_intro Same (not allocated) whole (if_intro Same (not created) whole whole),
    )
  where
    Same : Bool × Usb F → Type 0
    Same r = r.1.audio.iap.np.dev_serial ≡ serial_of mac

    whole : take 31 (serial_of mac) ≡ serial_of mac
    whole = take_all 31 (serial_of mac) (length-serial_of mac h)
