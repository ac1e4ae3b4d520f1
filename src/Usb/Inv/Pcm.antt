-- ===== src/Usb/Inv/Pcm.antt =====
-- The PCM path leaves the engine valid.
use esp32_s3_car_adapter.Common.{
  ℕ, ◌==◌, List, some, if_intro, ltb, Option-cases, inl, inr, length, u32, ◌*◌,
}
use esp32_s3_car_adapter.Iap.Inv.Defs.{IsValid}
use esp32_s3_car_adapter.Iap.Inv.Live.{iap_audio_active-IsValid, iap_note_pcm-IsValid}
use esp32_s3_car_adapter.Usb.Ring.{
  Frame, PcmRing, Audio, avail, take_batch, ipod_usb_push_pcm, count_underrun, produce_44100,
}
use esp32_s3_car_adapter.Usb.Batch.{Floats, Phases, produce_batch, produce_48000}

module _ (clock : ℕ → ℕ) where
  pub ipod_usb_push_pcm-engine :
      (frames : List Frame) (a : Audio)
      → IsValid a.iap
      → IsValid (ipod_usb_push_pcm clock frames a).iap
  unfolding ipod_usb_push_pcm
  ipod_usb_push_pcm-engine frames a v = elim (Option-cases a.pcm) [
    | inl e ↦ rw e v
    | inr (r, e) ↦ rw e (iap_note_pcm-IsValid clock (u32 (length frames * 4)) v)
  ]

  count_underrun-engine : (a : Audio) → IsValid a.iap → IsValid (count_underrun clock a).iap
  unfolding count_underrun
  count_underrun-engine a v =
      let w = iap_audio_active-IsValid clock v in
      if_intro (λ (b : Audio). IsValid b.iap) a.tone_on v
        (if_intro (λ (b : Audio). IsValid b.iap) _ w w)

  produce_44100-engine :
      (r : PcmRing) (a : Audio) → IsValid a.iap → IsValid (produce_44100 clock r a).1.iap
  unfolding produce_44100
  produce_44100-engine r a v = elim (Option-cases (take_batch r).0) [
    | inl e ↦
        rw (e, produce_44100) (count_underrun-engine (record a { pcm = some (take_batch r).1 }) v)
    | inr (frames, e) ↦ rw (e, produce_44100) v
  ]

  module _ (fl : Floats) where
    produce_48000-engine :
        (r : PcmRing) (a : Audio) (ph : Phases fl.F)
        → IsValid a.iap
        → IsValid (produce_48000 fl clock r a ph).1.iap
    unfolding produce_48000
    produce_48000-engine r a ph v =
        if_intro (λ (b : List Frame × Audio × Phases fl.F). IsValid b.1.iap) (ltb (avail r) 443)
          (count_underrun-engine (record a { pcm = some (record r { ring_rd = r.ring_wr }) }) v) v

    pub produce_batch-engine :
        (rate : ℕ) (a : Audio) (ph : Phases fl.F)
        → IsValid a.iap
        → IsValid (produce_batch fl clock rate a ph).1.iap
    unfolding produce_batch
    produce_batch-engine rate a ph v = elim (Option-cases a.pcm) [
      | inl e ↦
          let w = count_underrun-engine a v in
          if_intro P a.tone_on v (rw e (if_intro P (rate == 44100) w w))
      | inr (r, e) ↦ if_intro P a.tone_on v (
          rw e (
            if_intro P (rate == 44100) (produce_44100-engine r a v)
              (produce_48000-engine r a ph v)))
    ]
      where
        P : List Frame × Audio × Phases fl.F → Type 0
        P b = IsValid b.1.iap
