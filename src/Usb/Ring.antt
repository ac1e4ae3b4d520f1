-- ===== src/Usb/Ring.antt =====
-- The PCM ring of ipod_usb.c: `ipod_usb_push_pcm` writes it and `produce_batch` reads it at
-- 44.1 kHz, together with the position clock and the activity test of the iAP engine.
use esp32_s3_car_adapter.Common.{
  ℕ, zero, suc, ◌+◌, ◌-◌, ◌*◌, ◌%◌, ◌^◌, Bool, true, false, ◌||◌, List, [], ◌∷◌, Option, none, some,
}
use esp32_s3_car_adapter.Common.{ltb, leb, if◌then◌else◌, length, get_or, set, take, replicate, u32}
use esp32_s3_car_adapter.Iap.State.{Iap}
use esp32_s3_car_adapter.Iap.Live.{iap_note_pcm, iap_audio_active}
pub mod Inv
pub mod Refine
pub mod Race

-- One stereo sample, as two 16-bit patterns.
pub record Frame : Type 0 where
  pub left : ℕ
  pub right : ℕ

abbrev pub silence : Frame
silence = record { left = 0; right = 0 }

-- `RING_FRAMES`
abbrev pub ring_frames : ℕ
ring_frames = 441 * 12

-- `ring`, `ring_wr` and `ring_rd`
pub record PcmRing : Type 0 where
  pub ring : List Frame
  pub ring_wr : ℕ
  pub ring_rd : ℕ

-- The ring as `ipod_usb_init` allocates it.
abbrev pub empty_ring : PcmRing
empty_ring = record { ring = replicate ring_frames silence; ring_wr = 0; ring_rd = 0 }

-- `ring_wr - ring_rd` in a `uint32_t`
unfoldable pub avail : PcmRing → ℕ
avail r = u32 (r.ring_wr + 2 ^ 32 - r.ring_rd)

-- The loop of `ipod_usb_push_pcm`; `c` is `ring_wr + i` before it wraps.
unfoldable pub write_frames : List Frame → ℕ → List Frame → List Frame
write_frames ring c [] = ring
write_frames ring c (f ∷ fs) = write_frames (set ring (u32 c % ring_frames) f) (c + 1) fs

-- `ipod_usb_push_pcm` behind the clock; `frames` is the list of the given samples.
unfoldable pub push_frames : List Frame → PcmRing → PcmRing
push_frames frames r =
    let n = avail r in
    let written = take (ring_frames - n) frames in
    if leb ring_frames n then r else record {
      ring = write_frames r.ring r.ring_wr written;
      ring_wr = u32 (r.ring_wr + length written);
      ring_rd = r.ring_rd;
    }

-- The read loop of `produce_batch`; `c` is `ring_rd + i` before it wraps.
unfoldable pub read_frames : List Frame → ℕ → ℕ → List Frame
read_frames ring c zero = []
read_frames ring c (suc n) = get_or ring (u32 c % ring_frames) silence ∷ read_frames ring (c + 1) n

-- A batch of 441 frames and the ring behind it; `none` is an underrun: a silent batch, and what is
-- left in the ring is dropped.
unfoldable pub take_batch : PcmRing → Option (List Frame) × PcmRing
take_batch r =
    if ltb (avail r) 441
    then (none, record r { ring_rd = r.ring_wr })
    else (some (read_frames r.ring r.ring_rd 441), record r { ring_rd = u32 (r.ring_rd + 441) })

-- `ring` is null before `ipod_usb_init`; `pcm_underruns`, `tone_on`, and the state of the engine.
pub record Audio : Type 0 where
  pub pcm : Option PcmRing
  pub pcm_underruns : ℕ
  pub tone_on : Bool
  pub iap : Iap

module _ (clock : ℕ → ℕ) where
  unfoldable pub ipod_usb_push_pcm : List Frame → Audio → Audio
  ipod_usb_push_pcm frames a = elim a.pcm [
    | none ↦ a
    | some r ↦ record a {
      pcm = some (push_frames frames r);
      iap = iap_note_pcm clock (u32 (length frames * 4)) a.iap;
    }
  ]

  -- `if (tone_on || iap_audio_active()) pcm_underruns++`
  unfoldable pub count_underrun : Audio → Audio
  count_underrun a =
      let (active, iap') = iap_audio_active clock a.iap in
      if a.tone_on
      then record a { pcm_underruns = u32 (a.pcm_underruns + 1) }
      else if active
      then record a { pcm_underruns = u32 (a.pcm_underruns + 1); iap = iap' }
      else record a { iap = iap' }

  -- `produce_batch` at 44.1 kHz with the tone off and the ring `r`.
  unfoldable pub produce_44100 : PcmRing → Audio → List Frame × Audio
  produce_44100 r a =
      let (batch, r') = take_batch r in
      let a' = record a { pcm = some r' } in
      elim batch [ none ↦ (replicate 441 silence, count_underrun a') | some frames ↦ (frames, a') ]
