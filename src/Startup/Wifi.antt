-- ===== src/Startup/Wifi.antt =====
-- What the access point announces and asks for.
use esp32_s3_car_adapter.Common.{
  ℕ, ◌-◌, ◌≤◌, ◌≡◌, ◌≢◌, refl, ap, inl, inr, List, [], ◌∷◌, ◌++◌, arith, leb, ◌==◌, u8, append-nil,
  if◌then◌else◌, length, take, replicate, length-append, length-take, length-replicate, take_all,
  take-append_length, min, Bool-cases,
}
use esp32_s3_car_adapter.Startup.{
  Identity, wpa2_psk, authmode_none, WifiConfig, print_buffer, wifi_config,
}

length-print_buffer : (size : ℕ) (s : List ℕ) → 1 ≤ size → length (print_buffer size s) ≡ size
length-print_buffer size s h = omega (
  arith,
  length-append (take (size - 1) s) (replicate (size - length (take (size - 1) s)) 0),
  length-take (size - 1) s,
  length-replicate {A = ℕ} (size - length (take (size - 1) s)) 0,
)

-- The name that the radio sends, the first `ssid_len` bytes.
abbrev pub announced : WifiConfig → List ℕ
announced w = take w.ssid_len w.ssid

-- The buffers are full, the name is that of the build up to its 31st byte, a 0 stands for a 32nd,
-- and the password, cut at 63 bytes, is closed by a 0; it is asked for if it has 8 bytes.
pub record Announces (id : Identity) (w : WifiConfig) : Type 0 where
  ssid_size : length w.ssid ≡ 32
  password_size : length w.password ≡ 64
  ssid_is :
      announced w ≡ take 31 id.adapter_ssid ++ (if length id.adapter_ssid == 32 then 0 ∷ [] else [])
  password_is :
      w.password
      ≡ take 63 id.adapter_password ++ replicate (64 - min 63 (length id.adapter_password)) 0
  auth_is : w.authmode ≡ (if leb 8 (length id.adapter_password) then wpa2_psk else authmode_none)

zeros_of_one : (s : List ℕ) → length s ≡ 32 → 32 - length (take 31 s) ≡ 1
zeros_of_one s e = omega (arith, length-take 31 s)

take-print_buffer :
    (s : List ℕ)
    → length s ≤ 32
    → take (u8 (length s)) (print_buffer 32 s)
      ≡ take 31 s ++ (if length s == 32 then 0 ∷ [] else [])
take-print_buffer s h = elim (Bool-cases (length s == 32)) [
  | inl full ↦
      let e : length s ≡ 32 = ground (arith, full) in
      rw (full, zeros_of_one s e)
        (take_all (u8 (length s)) (take 31 s ++ 0 ∷ [])
          (omega (arith, length-append (take 31 s) (0 ∷ []), length-take 31 s)))
  | inr fits ↦
      let ne : length s ≢ 32 = ground (arith, fits) in
      rw (fits, append-nil (take 31 s))
        (take-append_length (u8 (length s)) (take 31 s) (replicate (32 - length (take 31 s)) 0)
          (omega (arith, length-take 31 s)))
]

-- For a name of at most 32 bytes, the announced name is that of the build, whose 32nd byte, if it
-- has one, is replaced by a 0, since the buffer keeps a byte for the end of the string and the
-- length counts it; the password, cut at 63 bytes, is closed by zeros in a buffer of 64, and WPA2
-- is asked for exactly if it has 8 bytes or more.
pub wifi_config-Announces :
    (id : Identity) → length id.adapter_ssid ≤ 32 → Announces id (wifi_config id)
unfolding wifi_config
wifi_config-Announces id h = record {
  ssid_size = length-print_buffer 32 id.adapter_ssid (omega arith);
  password_size = length-print_buffer 64 id.adapter_password (omega arith);
  ssid_is = take-print_buffer id.adapter_ssid h;
  password_is =
      ap (λ n. take 63 id.adapter_password ++ replicate (64 - n) 0)
        (length-take 63 id.adapter_password);
  auth_is = refl;
}
