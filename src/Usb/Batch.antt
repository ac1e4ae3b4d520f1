-- ===== src/Usb/Batch.antt =====
-- `produce_batch` of ipod_usb.c: the batch of 10 ms that goes to the host, at 44.1 kHz, resampled to
-- 48 kHz, or the marker tone. The `float` operations of the compiler are a parameter.
use esp32_s3_car_adapter.Common.{
  ℕ, zero, suc, ◌+◌, ◌/◌, ◌%◌, Bool, true, false, List, [], ◌∷◌, Option, none, some,
}
use esp32_s3_car_adapter.Common.{ltb, ◌==◌, if◌then◌else◌, get_or, replicate, u32}
use esp32_s3_car_adapter.Usb.Ring.{
  Frame, PcmRing, silence, ring_frames, avail, Audio, count_underrun, produce_44100,
}
pub mod Bounds

-- `float`: `decimal m k` is the literal m / 10^k, `of_s16` and `to_s16` take and give 16-bit
-- patterns, and `to_u32` is the cast to `uint32_t`.
pub record Floats : Type 1 where
  pub F : Type 0
  pub decimal : ℕ → ℕ → F
  pub of_u32 : ℕ → F
  pub of_s16 : ℕ → F
  pub to_u32 : F → ℕ
  pub to_s16 : F → ℕ
  pub add : F → F → F
  pub sub : F → F → F
  pub mul : F → F → F
  pub div : F → F → F
  pub ge : F → F → Bool
  pub sinf : F → F

-- `resample_pos`, `tone_phase_l` and `tone_phase_r`
pub record Phases (F : Type 0) : Type 0 where
  pub resample_pos : F
  pub tone_phase_l : F
  pub tone_phase_r : F

module _ (fl : Floats) where
  abbrev pub one : fl.F
  one = fl.decimal 1 0

  -- `phase += hz / (float) rate; if (phase >= 1.0f) phase -= 1.0f`
  unfoldable pub turn : ℕ → ℕ → fl.F → fl.F
  turn hz rate phase =
      let next = fl.add phase (fl.div (fl.decimal hz 0) (fl.of_u32 rate)) in
      if fl.ge next one then fl.sub next one else next

  -- `(int16_t) (3276.0f * sinf(6.2831853f * phase))`
  unfoldable pub tone_sample : fl.F → ℕ
  tone_sample phase =
      fl.to_s16 (fl.mul (fl.decimal 3276 0) (fl.sinf (fl.mul (fl.decimal 62831853 7) phase)))

  -- The loop of the tone, with the rounds that are left.
  unfoldable pub tone_loop : ℕ → ℕ → Phases fl.F → List Frame × Phases fl.F
  tone_loop zero rate ph = ([], ph)
  tone_loop (suc n) rate ph =
      let ph' = record ph {
        tone_phase_l = turn 440 rate ph.tone_phase_l;
        tone_phase_r = turn 660 rate ph.tone_phase_r;
      } in
      let rest = tone_loop n rate ph' in
      let frame : Frame = record {
        left = tone_sample ph'.tone_phase_l;
        right = tone_sample ph'.tone_phase_r;
      } in
      (frame ∷ rest.0, rest.1)

  abbrev pub resample_step : fl.F
  resample_step = fl.div (fl.decimal 44100 0) (fl.decimal 48000 0)

  -- One channel between two samples.
  unfoldable pub blend : fl.F → ℕ → ℕ → ℕ
  blend f x y = fl.to_s16 (fl.add (fl.mul (fl.of_s16 x) (fl.sub one f)) (fl.mul (fl.of_s16 y) f))

  -- The frame that the resampler makes in round `i`.
  unfoldable pub resample_one : PcmRing → fl.F → ℕ → Frame
  resample_one r pos i =
      let p = fl.add pos (fl.mul (fl.of_u32 i) resample_step) in
      let j = fl.to_u32 p in
      let f = fl.sub p (fl.of_u32 j) in
      let a = get_or r.ring (u32 (r.ring_rd + j) % ring_frames) silence in
      let b = get_or r.ring (u32 (r.ring_rd + j + 1) % ring_frames) silence in
      record { left = blend f a.left b.left; right = blend f a.right b.right }

  -- The rounds from `i` on, `n` of them.
  unfoldable pub resample_loop : PcmRing → fl.F → ℕ → ℕ → List Frame
  resample_loop r pos i zero = []
  resample_loop r pos i (suc n) = resample_one r pos i ∷ resample_loop r pos (i + 1) n

  -- The read counter and the position behind a resampled batch.
  unfoldable pub resample_end : PcmRing → fl.F → PcmRing × fl.F
  resample_end r pos =
      let end = fl.add pos (fl.mul (fl.decimal 480 0) resample_step) in
      let whole = fl.to_u32 end in
      (record r { ring_rd = u32 (r.ring_rd + whole) }, fl.sub end (fl.of_u32 whole))

  module _ (clock : ℕ → ℕ) where
    unfoldable pub produce_48000 : PcmRing → Audio → Phases fl.F → List Frame × Audio × Phases fl.F
    produce_48000 r a ph =
        if ltb (avail r) 443
        then (
          replicate 480 silence,
          count_underrun clock (record a { pcm = some (record r { ring_rd = r.ring_wr }) }),
          record ph { resample_pos = fl.decimal 0 0 },
        )
        else let (r', pos) = resample_end r ph.resample_pos in
          (
            resample_loop r ph.resample_pos 0 480,
            record a { pcm = some r' },
            record ph { resample_pos = pos },
          )

    -- Without a ring both counters are 0, which is an underrun.
    unfoldable pub produce_batch : ℕ → Audio → Phases fl.F → List Frame × Audio × Phases fl.F
    produce_batch rate a ph =
        if a.tone_on
        then (let t = tone_loop (rate / 100) rate ph in (t.0, a, t.1))
        else if rate == 44100
        then elim a.pcm [
          | none ↦ (replicate 441 silence, count_underrun clock a, ph)
          | some r ↦ (let o = produce_44100 clock r a in (o.0, o.1, ph))
        ]
        else elim a.pcm [
          | none ↦ (
            replicate 480 silence,
            count_underrun clock a,
            record ph { resample_pos = fl.decimal 0 0 },
          )
          | some r ↦ produce_48000 r a ph
        ]
