-- ===== src/Usb/Batch/Bounds.antt =====
-- The size of a batch.
use esp32_s3_car_adapter.Common.{
  ℕ, zero, suc, ◌+◌, ◌/◌, ◌≡◌, refl, ◌⊎◌, inl, inr, List, arith, Bool-cases, Option-cases,
}
use esp32_s3_car_adapter.Common.{ltb, length, length-replicate}
use esp32_s3_car_adapter.Usb.Ring.{
  Frame, PcmRing, Audio, avail, silence, read_frames, take_batch, produce_44100,
}
use esp32_s3_car_adapter.Usb.Batch.{
  Floats, Phases, tone_loop, resample_loop, produce_48000, produce_batch,
}

length-read_frames : (ring : List Frame) (c n : ℕ) → length (read_frames ring c n) ≡ n
unfolding read_frames
length-read_frames ring c zero = refl
length-read_frames ring c (suc n) = omega (arith, length-read_frames ring (c + 1) n)

module _ (fl : Floats) where
  length-tone_loop : (n rate : ℕ) (ph : Phases fl.F) → length (tone_loop fl n rate ph).0 ≡ n
  unfolding tone_loop
  length-tone_loop zero rate ph = refl
  length-tone_loop (suc n) rate ph = omega (arith, length-tone_loop n rate _)

  length-resample_loop :
      (r : PcmRing) (pos : fl.F) (i n : ℕ) → length (resample_loop fl r pos i n) ≡ n
  unfolding resample_loop
  length-resample_loop r pos i zero = refl
  length-resample_loop r pos i (suc n) = omega (arith, length-resample_loop r pos (i + 1) n)

  module _ (clock : ℕ → ℕ) where
    pub length-produce_44100 : (r : PcmRing) (a : Audio) → length (produce_44100 clock r a).0 ≡ 441
    unfolding produce_44100 take_batch
    length-produce_44100 r a = elim (Bool-cases (ltb (avail r) 441)) [
      | inl short ↦ rw (short, length, produce_44100, take_batch) (length-replicate 441 silence)
      | inr enough ↦
          rw (enough, length, produce_44100, take_batch) (length-read_frames r.ring r.ring_rd 441)
    ]

    length-produce_48000 :
        (r : PcmRing) (a : Audio) (ph : Phases fl.F)
        → length (produce_48000 fl clock r a ph).0 ≡ 480
    unfolding produce_48000
    length-produce_48000 r a ph = elim (Bool-cases (ltb (avail r) 443)) [
      | inl short ↦ rw short (length-replicate 480 silence)
      | inr enough ↦ rw enough (length-resample_loop r ph.resample_pos 0 480)
    ]

    -- At either rate a batch has exactly the frames of 10 ms, a hundredth of the rate: with the tone,
    -- with and without a ring, on an underrun and else.
    pub length-produce_batch :
        (rate : ℕ) (a : Audio) (ph : Phases fl.F)
        → (rate ≡ 44100) ⊎ (rate ≡ 48000)
        → length (produce_batch fl clock rate a ph).0 ≡ rate / 100
    unfolding produce_batch
    length-produce_batch rate a ph h = elim (Bool-cases a.tone_on) [
      | inl tone ↦ rw tone (length-tone_loop (rate / 100) rate ph)
      | inr quiet ↦ elim h [
        | inl low ↦
            rw (quiet, low)
              (elim (Option-cases a.pcm) [
                | inl e ↦ rw e (length-replicate 441 silence)
                | inr (r, e) ↦ rw e (length-produce_44100 r a)
              ])
        | inr high ↦
            rw (quiet, high)
              (elim (Option-cases a.pcm) [
                | inl e ↦ rw e (length-replicate 480 silence)
                | inr (r, e) ↦ rw e (length-produce_48000 r a ph)
              ])
      ]
    ]
