-- ===== src/Usb/Device/Requests.antt =====
-- What the host's requests do.
use esp32_s3_car_adapter.Common.{
  ℕ, ◌/◌, ◌^◌, ◌≤◌, ◌<◌, ◌≡◌, ◌≢◌, refl, ◌⊎◌, inl, inr, arith, true, false, List, [], ◌∷◌, ◌==◌, u8,
}
use esp32_s3_car_adapter.Usb.Device.{
  Usb, Request, Tusb, iap_strip_id, with_iap, tick, iap_logf, requested_rate,
  tud_audio_set_req_ep_cb, tud_hid_set_report_cb,
}

-- A request to set the sampling rate: the current value, the sampling frequency control, 3 bytes.
unfoldable pub IsRateRequest : Tusb → Request → Type 0
IsRateRequest tusb req =
    (req.b_request ≡ tusb.cs_req_cur)
    × (u8 (req.w_value / 2 ^ 8) ≡ tusb.sampling_freq)
    × (req.w_length ≡ 3)

-- The three bytes of a rate, lowest first.
abbrev pub rate_bytes : ℕ → List ℕ
rate_bytes f = u8 f ∷ u8 (f / 2 ^ 8) ∷ u8 (f / 2 ^ 16) ∷ []

==-same : (n : ℕ) → (n == n) ≡ true
==-same n = ground arith

requested_rate-rate_bytes : (f : ℕ) → f < 2 ^ 24 → requested_rate (rate_bytes f) ≡ f
unfolding requested_rate
requested_rate-rate_bytes f h = omega arith

pub iap_strip_id-prefixed :
    (id link : ℕ) (chunk : List ℕ) → 3 < id → link ≤ 3 → iap_strip_id (id ∷ link ∷ chunk) ≡ 1
unfolding iap_strip_id
iap_strip_id-prefixed id link chunk big small = ground arith

pub iap_strip_id-plain : (link : ℕ) (chunk : List ℕ) → link ≤ 3 → iap_strip_id (link ∷ chunk) ≡ 0
unfolding iap_strip_id
iap_strip_id-plain link [] small = refl
iap_strip_id-plain link (x ∷ chunk) small = ground arith

module _ {F : Type 0} (clock : ℕ → ℕ) where
  -- A request to set the sampling rate is answered with yes, and makes the rate the active one,
  -- exactly where the rate, of 24 bits, is 44100 or 48000; else the active rate stays.
  pub set_req_ep-rate :
      (tusb : Tusb) (req : Request) (f : ℕ) (s : Usb F)
      → IsRateRequest tusb req
      → f < 2 ^ 24
      → let r = tud_audio_set_req_ep_cb clock tusb req (rate_bytes f) s in
        ((f ≡ 44100) ⊎ (f ≡ 48000) → (r.0 ≡ true) × (r.1.usb_rate ≡ f))
        × (f ≢ 44100 → f ≢ 48000 → (r.0 ≡ false) × (r.1.usb_rate ≡ s.usb_rate))
  unfolding tud_audio_set_req_ep_cb IsRateRequest iap_logf tick with_iap
  set_req_ep-rate tusb req f s h k =
      let e : requested_rate (rate_bytes f) ≡ f = requested_rate-rate_bytes f k in
      rw (e, h.0, h.1, h.2, ==-same tusb.cs_req_cur, ==-same tusb.sampling_freq)
        (
          λ known. elim known [ inl low ↦ rw low (refl, refl) | inr high ↦ rw high (refl, refl) ],
          λ not_low not_high. ground arith,
        )

  -- A report with its ID in front, of 4 or more, and a link byte of 3 or less has the same effect
  -- on the engine and the PCM path as the same report without the ID.
  pub set_report-prefixed :
      (report_id report_id' id link : ℕ) (chunk : List ℕ) (s : Usb F)
      → 3 < id
      → link ≤ 3
      → (tud_hid_set_report_cb clock report_id (id ∷ link ∷ chunk) s).audio
        ≡ (tud_hid_set_report_cb clock report_id' (link ∷ chunk) s).audio
  unfolding tud_hid_set_report_cb iap_logf tick with_iap
  set_report-prefixed report_id report_id' id link chunk s big small =
      rw (iap_strip_id-prefixed id link chunk big small, iap_strip_id-plain link chunk small) refl
