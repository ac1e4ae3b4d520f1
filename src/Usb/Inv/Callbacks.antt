-- ===== src/Usb/Inv/Callbacks.antt =====
-- The callbacks of TinyUSB and the calls of the AirPlay side keep the invariant.
use esp32_s3_car_adapter.Common.{
  ℕ, ◌/◌, ◌^◌, ◌≡◌, refl, sym, ◌⊎◌, inl, inr, arith, Bool, true, ◌&&◌, ◌||◌, List, ◌==◌, drop, u8,
  if_intro, Bool-cases,
}
use esp32_s3_car_adapter.Iap.Inv.Defs.{IsValid}
use esp32_s3_car_adapter.Iap.Inv.Live.{iap_tx_pump-IsValid}
use esp32_s3_car_adapter.Iap.Inv.Dispatch.{iap_rx_report-IsValid}
use esp32_s3_car_adapter.Usb.Ring.{Frame}
use esp32_s3_car_adapter.Usb.Device.{
  Usb, Request, Tusb, rate, reject_rate, requested_rate, push_pcm, note_first_mount, iap_strip_id,
  tud_mount_cb, tud_umount_cb, tud_audio_set_itf_cb, tud_suspend_cb, tud_resume_state,
  tud_resume_cb, tud_audio_set_req_ep_cb, tud_vendor_control_xfer_cb, tud_hid_set_report_cb,
  tud_descriptor_configuration_cb, tud_hid_report_complete_cb, ipod_usb_set_tone,
}
use esp32_s3_car_adapter.Usb.Inv.Defs.{IsSound, with_iap-IsSound, tick-IsSound, iap_logf-IsSound}
use esp32_s3_car_adapter.Usb.Inv.Pcm.{ipod_usb_push_pcm-engine}

known_rate : (f : ℕ) → (f == 44100 || f == 48000) ≡ true → (f ≡ 44100) ⊎ (f ≡ 48000)
known_rate f h = ground (arith, h)

module _ {F : Type 0} where
  -- A change of what the invariant does not speak of.
  pub same-IsSound :
      {s t : Usb F}
      → IsSound s
      → s.usb_rate ≡ t.usb_rate
      → s.connect_attempts ≡ t.connect_attempts
      → s.retry_idx ≡ t.retry_idx
      → s.stack_ready ≡ t.stack_ready
      → s.bus ≡ t.bus
      → (t.host_mounted ≡ true → t.ever_mounted ≡ true)
      → IsValid t.audio.iap
      → IsSound t
  same-IsSound v a b c d e seen engine = record {
    active = rw (sym a) v.active;
    attempts = rw (sym b, sym c) v.attempts;
    schedule = rw (sym c) v.schedule;
    started = rw (sym c, sym d) v.started;
    calls = rw (sym c, sym e) v.calls;
    seen = seen;
    engine = engine;
  }

  pub ipod_usb_set_tone-IsSound :
      (on : Bool) {s : Usb F} → IsSound s → IsSound (ipod_usb_set_tone on s)
  unfolding ipod_usb_set_tone
  ipod_usb_set_tone-IsSound on v = same-IsSound v refl refl refl refl refl v.seen v.engine

  pub report_complete-IsSound :
      (accepts : ℕ → Bool) {s : Usb F}
      → IsSound s
      → IsSound (tud_hid_report_complete_cb accepts s).0
  unfolding tud_hid_report_complete_cb
  report_complete-IsSound accepts v = with_iap-IsSound v (iap_tx_pump-IsValid accepts v.engine)

  module _ (clock : ℕ → ℕ) where
    pub push_pcm-IsSound :
        (frames : List Frame) {s : Usb F} → IsSound s → IsSound (push_pcm clock frames s)
    unfolding push_pcm
    push_pcm-IsSound frames {s} v =
        same-IsSound v refl refl refl refl refl v.seen
          (ipod_usb_push_pcm-engine clock frames s.audio v.engine)

    pub tud_mount_cb-IsSound : {s : Usb F} → IsSound s → IsSound (tud_mount_cb clock s)
    unfolding tud_mount_cb note_first_mount
    tud_mount_cb-IsSound {s} v =
        let marked : IsSound (record s { host_mounted = true; ever_mounted = true }) =
          same-IsSound v refl refl refl refl refl (λ e. refl) v.engine in
        let w = tick-IsSound marked in
        iap_logf-IsSound clock _ (
          if_intro IsSound (s.mount_us == 0)
            (iap_logf-IsSound clock _ (same-IsSound w refl refl refl refl refl w.seen w.engine))
            marked)

    pub tud_umount_cb-IsSound : {s : Usb F} → IsSound s → IsSound (tud_umount_cb clock s)
    unfolding tud_umount_cb
    tud_umount_cb-IsSound v =
        iap_logf-IsSound clock _
          (same-IsSound v refl refl refl refl refl (λ e. ground (arith, e)) v.engine)

    pub set_itf-IsSound :
        (req : Request) {s : Usb F} → IsSound s → IsSound (tud_audio_set_itf_cb clock req s)
    unfolding tud_audio_set_itf_cb
    set_itf-IsSound req v =
        if_intro IsSound (u8 req.w_index == 1)
          (iap_logf-IsSound clock _ (same-IsSound v refl refl refl refl refl v.seen v.engine)) v

    pub tud_suspend_cb-IsSound : {s : Usb F} → IsSound s → IsSound (tud_suspend_cb clock s)
    unfolding tud_suspend_cb
    tud_suspend_cb-IsSound v =
        iap_logf-IsSound clock _ (same-IsSound v refl refl refl refl refl v.seen v.engine)

    pub tud_resume_cb-IsSound : {s : Usb F} → IsSound s → IsSound (tud_resume_cb clock s)
    unfolding tud_resume_cb tud_resume_state
    tud_resume_cb-IsSound v =
        iap_logf-IsSound clock _ (same-IsSound v refl refl refl refl refl v.seen v.engine)

    pub set_req_ep-IsSound :
        (tusb : Tusb) (req : Request) (buff : List ℕ) {s : Usb F}
        → IsSound s
        → IsSound (tud_audio_set_req_ep_cb clock tusb req buff s).1
    unfolding tud_audio_set_req_ep_cb
    set_req_ep-IsSound tusb req buff {s} v =
        if_intro P
          (req.b_request == tusb.cs_req_cur
            && (u8 (req.w_value / 2 ^ 8) == tusb.sampling_freq && req.w_length == 3))
          (elim (Bool-cases (f == 44100 || f == 48000)) [
            | inl known ↦
                let chosen : IsSound (record s { usb_rate = f }) = record {
                  active = known_rate f known;
                  attempts = v.attempts;
                  schedule = v.schedule;
                  started = v.started;
                  calls = v.calls;
                  seen = v.seen;
                  engine = v.engine;
                } in
                rw known (iap_logf-IsSound clock (rate f) chosen)
            | inr other ↦ rw other (iap_logf-IsSound clock (reject_rate f) v)
          ])
          v
      where
        P : Bool × Usb F → Type 0
        P r = IsSound r.1

        f : ℕ
        f = requested_rate buff

    pub set_report-IsSound :
        (report_id : ℕ) (buffer : List ℕ) {s : Usb F}
        → IsSound s
        → IsSound (tud_hid_set_report_cb clock report_id buffer s)
    unfolding tud_hid_set_report_cb
    set_report-IsSound report_id buffer v =
        let w = iap_logf-IsSound clock _ v in
        with_iap-IsSound w
          (iap_rx_report-IsValid clock (drop (iap_strip_id buffer) buffer) w.engine)

    pub vendor-IsSound :
        (tusb : Tusb) (status : Bool) (stage : ℕ) (req : Request) {s : Usb F}
        → IsSound s
        → IsSound (tud_vendor_control_xfer_cb clock tusb status stage req s).1
    unfolding tud_vendor_control_xfer_cb
    vendor-IsSound tusb status stage req {s} v =
        if_intro (λ (r : Bool × Usb F). IsSound r.1)
          (stage == tusb.stage_setup && req.b_request == 0x40) (iap_logf-IsSound clock _ v) v

    pub config_descriptor-IsSound :
        (index : ℕ) {s : Usb F}
        → IsSound s
        → IsSound (tud_descriptor_configuration_cb clock index s).1
    unfolding tud_descriptor_configuration_cb
    config_descriptor-IsSound index v =
        if_intro (λ (r : Bool × Usb F). IsSound r.1) (index == 0 || index == 1) v
          (iap_logf-IsSound clock _ v)
