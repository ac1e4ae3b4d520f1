-- ===== src/Usb/Stream.antt =====
-- The audio on its way from `ipod_usb_push_pcm` to `tud_audio_write`, over any sequence of pushes and of
-- rounds of `audio_pump`, at 44.1 kHz.
use esp32_s3_car_adapter.Common.{
  ℕ, zero, suc, ◌+◌, ◌-◌, ◌*◌, ◌/◌, ◌^◌, ◌≤◌, ◌<◌, ◌≡◌, refl, sym, ap, ◌∙◌, Bool, true, false, List,
  [], ◌∷◌, ◌++◌, Option, none, some, arith, append-nil, append_assoc, inl, inr,
}
use esp32_s3_car_adapter.Common.{
  ltb, leb, if◌then◌else◌, length, take, drop, replicate, u16, u32, Bool-cases, length-append,
  length-take, length-drop, take_all, take-append-drop, length-replicate,
}
use esp32_s3_car_adapter.Usb.Ring.{
  Frame, PcmRing, ring_frames, silence, avail, push_frames, take_batch, ipod_usb_push_pcm,
  count_underrun, produce_44100, Audio,
}
use esp32_s3_car_adapter.Usb.Ring.Inv.{IsValid, push_frames-IsValid, avail-IsValid}
use esp32_s3_car_adapter.Usb.Ring.Refine.{
  contents, push_frames_refines, take_batch_refines, length-contents,
}
use esp32_s3_car_adapter.Usb.Batch.{Floats, Phases, produce_batch}
use esp32_s3_car_adapter.Usb.Batch.Bounds.{length-produce_44100}
use esp32_s3_car_adapter.Usb.Device.{Usb, push_pcm}
use esp32_s3_car_adapter.Usb.Attach.{audio_pump}
use mathlib.Core.Path.{subst}
pub mod Calls
pub mod Lossless
pub mod Runs

-- What happens to the audio: the AirPlay side pushes frames, or the USB task pumps.
pub data PcmCall : Type 0 where
  push : List Frame → PcmCall
  give : PcmCall

-- The frames that are pushed, in order.
abbrev pub samples : List PcmCall → List Frame
samples [] = []
samples (push frames ∷ calls) = frames ++ samples calls
samples (give ∷ calls) = samples calls

-- What a pump gives for a queue, and what it leaves: where there are fewer than 441 frames it drops
-- them and gives silence.
abbrev pub batch_of : List Frame → List Frame
batch_of q = if ltb (length q) 441 then replicate 441 silence else take 441 q

abbrev pub behind : List Frame → List Frame
behind q = if ltb (length q) 441 then [] else drop 441 q

-- A queue of 5292 frames, where a push that does not fit is cut: the batches, and what is left.
unfoldable pub play : List PcmCall → List Frame → List (List Frame) × List Frame
play [] q = ([], q)
play (push frames ∷ calls) q = play calls (q ++ take (ring_frames - length q) frames)
play (give ∷ calls) q = let rest = play calls (behind q) in (batch_of q ∷ rest.0, rest.1)

-- Every push fits behind the `held` frames, and every pump finds 441 of them.
abbrev pub IsPaced : ℕ → List PcmCall → Type 0
IsPaced held [] = Unit {0}
IsPaced held (push frames ∷ calls) =
    (held + length frames ≤ ring_frames) × IsPaced (held + length frames) calls
IsPaced held (give ∷ calls) = (441 ≤ held) × IsPaced (held - 441) calls

abbrev pub batches : Option (List Frame) → List (List Frame)
batches none = []
batches (some b) = b ∷ []

module _ {F : Type 0} where
  -- The stream is open at 44.1 kHz, with the tone off.
  pub record Streams (q : List Frame) (more : ℕ) (s : Usb F) : Type 0 where
    pub open_stream : s.audio_streaming ≡ true
    pub awake : s.usb_suspended ≡ false
    pub rate : s.usb_rate ≡ 44100
    pub no_tone : s.audio.tone_on ≡ false
    pub ring : PcmRing
    pub has_ring : s.audio.pcm ≡ some ring
    pub valid : IsValid ring
    pub held : contents ring ≡ q
    -- The write counter does not wrap for `more` frames yet.
    pub word : ring.ring_wr + more < 2 ^ 32

module _ (fl : Floats) (clock : ℕ → ℕ) where
  -- The calls in order, while the stack is mounted: what `tud_audio_write` is given, and the state.
  unfoldable pub run_calls : List PcmCall → Usb fl.F → List (List Frame) × Usb fl.F
  run_calls [] s = ([], s)
  run_calls (push frames ∷ calls) s = run_calls calls (push_pcm clock frames s)
  run_calls (give ∷ calls) s =
      let o = audio_pump fl clock true s in
      let rest = run_calls calls o.1 in (batches o.0 ++ rest.0, rest.1)
