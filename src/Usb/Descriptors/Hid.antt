-- ===== src/Usb/Descriptors/Hid.antt =====
-- The HID report descriptor against the reports that iap.c sends.
use esp32_s3_car_adapter.Common.{
  ℕ, zero, suc, ◌+◌, ◌-◌, ◌*◌, ◌/◌, ◌%◌, ◌^◌, ◌≤◌, ◌≡◌, refl, List, [], ◌∷◌, arith,
}
use esp32_s3_car_adapter.Common.{◌==◌, if◌then◌else◌, length, drop, get_or}
use esp32_s3_car_adapter.Iap.Queue.{TxReport}
use esp32_s3_car_adapter.Iap.Report.{tx_defs}
use esp32_s3_car_adapter.Iap.Report.Fits.{FitsDef, payload_of}
use esp32_s3_car_adapter.Usb.Descriptors.{hid_report_desc}

-- The global items of a HID report descriptor that are read here, and the reports found so far:
-- ID and bytes of the input reports and of the output reports.
pub record Parsed : Type 0 where
  pub report_size : ℕ
  pub report_id : ℕ
  pub report_count : ℕ
  pub inputs : List (ℕ × ℕ)
  pub outputs : List (ℕ × ℕ)

-- One item: its prefix without the size, and its value. 0x74 is Report Size, 0x84 Report ID,
-- 0x94 Report Count, 0x80 Input and 0x90 Output.
unfoldable pub read_item : ℕ → ℕ → Parsed → Parsed
read_item tag v p =
    let declared : ℕ × ℕ = (p.report_id, p.report_size * p.report_count / 8) in
    if tag == 0x74
    then record p { report_size = v }
    else if tag == 0x84
    then record p { report_id = v }
    else if tag == 0x94
    then record p { report_count = v }
    else if tag == 0x80
    then record p { inputs = declared ∷ p.inputs }
    else if tag == 0x90
    then record p { outputs = declared ∷ p.outputs }
    else p

-- The items in order; the two lowest bits of a prefix are the size of its value, 0, 1, 2 or 4.
read_items : ℕ → List ℕ → Parsed → Parsed
read_items zero bytes p = p
read_items (suc fuel) [] p = p
read_items (suc fuel) (b ∷ bytes) p =
    let size = if b % 4 == 3 then 4 else b % 4 in
    let v =
      if size == 0
      then 0
      else if size == 1
      then get_or bytes 0 0
      else get_or bytes 0 0 + get_or bytes 1 0 * 2 ^ 8 in
    read_items fuel (drop size bytes) (read_item (b - b % 4) v p)

-- An item has a byte or more, so the length is fuel enough.
unfoldable pub declared_reports : List ℕ → Parsed
unfolding read_items read_item
declared_reports bytes =
    read_items (length bytes) bytes
      (record { report_size = 0; report_id = 0; report_count = 0; inputs = []; outputs = [] })

-- The bytes of the report with an ID, 0 where none is declared.
abbrev pub bytes_of : List (ℕ × ℕ) → ℕ → ℕ
bytes_of [] id = 0
bytes_of ((k, n) ∷ ds) id = if k == id then n else bytes_of ds id

-- A report with some payload, within what the descriptor declares for its ID as input, and with the
-- ID in front within a packet of the endpoint.
pub record IsDeclared (r : TxReport) : Type 0 where
  pub some_payload : 2 ≤ length r.bytes
  pub declared : length r.bytes ≤ bytes_of (declared_reports hid_report_desc).inputs r.id
  pub packet : 1 + length r.bytes ≤ 64

hid_inputs : (declared_reports hid_report_desc).inputs ≡ (4, 63) ∷ (3, 20) ∷ (2, 14) ∷ (1, 12) ∷ []
unfolding declared_reports
hid_inputs = refl

payload_of-bytes_of :
    (id : ℕ)
    → 2 ≤ 1 + payload_of tx_defs id
    → 1 + payload_of tx_defs id ≤ bytes_of ((4, 63) ∷ (3, 20) ∷ (2, 14) ∷ (1, 12) ∷ []) id
payload_of-bytes_of id h = ground arith

payload_of_bounds : (id : ℕ) → payload_of tx_defs id ≤ 62
payload_of_bounds id = ground arith

pub FitsDef-IsDeclared : {r : TxReport} → FitsDef r → IsDeclared r
FitsDef-IsDeclared {r} f = record {
  some_payload = f.some_payload;
  declared = rw hid_inputs (
      omega (
        arith,
        f.fits,
        f.some_payload,
        payload_of-bytes_of r.id (omega (arith, f.fits, f.some_payload)),
      ));
  packet = omega (arith, f.fits, payload_of_bounds r.id);
}
