-- ===== src/Iap/Live/Position.antt =====
-- The play position, the stall watchdog, and the metadata as the car reads it.
use esp32_s3_car_adapter.Common.{
  ℕ, ◌+◌, ◌-◌, ◌*◌, ◌/◌, ◌^◌, ◌≤◌, ◌<◌, ◌≡◌, ◌≢◌, true, false, List, [], ◌∷◌, Option, arith,
}
use esp32_s3_car_adapter.Common.{u32, u64}
use esp32_s3_car_adapter.Iap.Types.{stall}
use esp32_s3_car_adapter.Iap.State.{Iap, tx_notify, tx_send}
use esp32_s3_car_adapter.Iap.Live.{
  expected_next, iap_set_track, iap_note_pcm, iap_watchdog, is_settled, track_pos_ms,
}

abbrev pub sum : List ℕ → ℕ
sum [] = 0
sum (x ∷ xs) = x + sum xs

module _ (clock : ℕ → ℕ) where
  -- PCM pushed in pieces.
  unfoldable pub note_all : List ℕ → Iap → Iap
  note_all [] s = s
  note_all (b ∷ bs) s = note_all bs (iap_note_pcm clock b s)

  note_all-bytes :
      (bs : List ℕ) (s : Iap)
      → s.np.pcm_total_bytes < 2 ^ 64
      → ((note_all bs s).np.pcm_total_bytes ≡ u64 (s.np.pcm_total_bytes + sum bs))
        × ((note_all bs s).np.track_start_bytes ≡ s.np.track_start_bytes)
  unfolding note_all iap_note_pcm
  note_all-bytes [] s h = omega arith
  note_all-bytes (b ∷ bs) s h =
      omega (arith, note_all-bytes bs (iap_note_pcm clock b s) (omega arith))

  iap_set_track-start :
      (artist title album : Option (List ℕ)) (s : Iap)
      → ((iap_set_track clock artist title album s).np.track_start_bytes ≡ s.np.pcm_total_bytes)
        × ((iap_set_track clock artist title album s).np.pcm_total_bytes ≡ s.np.pcm_total_bytes)
  unfolding iap_set_track tx_notify tx_send
  iap_set_track-start artist title album s = ground arith

  -- After a track change and any pushes of PCM the reported position is that of the bytes pushed
  -- since, at 176400 bytes a second, as a 32-bit number of milliseconds; also where the 64-bit byte
  -- counter wraps in between. It takes that the pushed bytes times 1000 fit 64 bits.
  pub track_pos_ms-note_all :
      (artist title album : Option (List ℕ)) (bs : List ℕ) (s : Iap)
      → s.np.pcm_total_bytes < 2 ^ 64
      → sum bs * 1000 < 2 ^ 64
      → track_pos_ms (note_all bs (iap_set_track clock artist title album s))
        ≡ u32 (sum bs * 1000 / 176400)
  unfolding track_pos_ms
  track_pos_ms-note_all artist title album bs s h fits =
      let s' : Iap = iap_set_track clock artist title album s in
      let (start, total) = iap_set_track-start artist title album s in
      let (total', start') = note_all-bytes bs s' (omega (arith, total)) in
      let b : u64
            ((note_all bs s').np.pcm_total_bytes + 2 ^ 64 - (note_all bs s').np.track_start_bytes)
          ≡ sum bs =
        omega arith in
      rw b (omega arith)

  -- The handshake has begun, is not over, and the host was silent for two seconds or more since its
  -- last packet; and that was not logged yet.
  abbrev pub IsStalled : Iap → Type 0
  IsStalled s =
      (is_settled s.handshake.state ≡ false)
      × (s.stall_dumped ≡ false)
      × (s.last_rx_us ≢ 0)
      × (s.last_rx_us + 2000000 ≤ clock s.reads)

  -- The watchdog logs a stall exactly when there is one that it has not logged (the handshake has
  -- begun and is not over, a packet was received, and two seconds or more have passed since), and
  -- then notes that it did; else the log and the note stay.
  pub iap_watchdog-log :
      (s : Iap)
      → (IsStalled s
          → ((iap_watchdog clock s).log
              ≡ stall s.handshake.state s.handshake.cert_cur s.handshake.cert_max s.last_latency_us
                  (expected_next s.handshake.state)
                ∷ s.log)
            × ((iap_watchdog clock s).stall_dumped ≡ true))
        × (¬ IsStalled s
            → ((iap_watchdog clock s).log ≡ s.log)
              × ((iap_watchdog clock s).stall_dumped ≡ s.stall_dumped))
  unfolding iap_watchdog
  iap_watchdog-log s = (λ h. ground arith, λ h. ground arith)
