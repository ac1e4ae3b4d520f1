-- ===== src/Usb/Stream/Calls.antt =====
-- What one push and one round of `audio_pump` do to the stream.
use esp32_s3_car_adapter.Common.{
  ℕ, ◌+◌, ◌-◌, ◌*◌, ◌/◌, ◌≤◌, ◌≡◌, refl, sym, ap, ◌∙◌, true, false, List, ◌++◌, none, some, arith,
  inl, inr,
}
use esp32_s3_car_adapter.Common.{
  ltb, if◌then◌else◌, length, take, replicate, u16, Bool-cases, length-take, take_all,
}
use esp32_s3_car_adapter.Usb.Ring.{
  Frame, PcmRing, ring_frames, silence, avail, push_frames, take_batch, ipod_usb_push_pcm,
  count_underrun, produce_44100, Audio,
}
use esp32_s3_car_adapter.Usb.Ring.Inv.{IsValid}
use esp32_s3_car_adapter.Usb.Ring.Refine.{
  contents, push_frames_refines, take_batch_refines, length-contents,
}
use esp32_s3_car_adapter.Usb.Batch.{Floats, Phases, produce_batch}
use esp32_s3_car_adapter.Usb.Batch.Bounds.{length-produce_44100}
use esp32_s3_car_adapter.Usb.Device.{Usb, push_pcm}
use esp32_s3_car_adapter.Usb.Attach.{audio_pump}
use esp32_s3_car_adapter.Usb.Stream.{batch_of, behind, Streams}

push_frames-wr :
    (frames : List Frame) (r : PcmRing) → (push_frames frames r).ring_wr ≤ r.ring_wr + length frames
unfolding push_frames
push_frames-wr frames r = ground (arith, length-take (ring_frames - avail r) frames)

take_batch-wr : (r : PcmRing) → (take_batch r).1.ring_wr ≡ r.ring_wr
unfolding take_batch
take_batch-wr r = ground arith

module _ (fl : Floats) (clock : ℕ → ℕ) where
  ipod_usb_push_pcm-ring :
      (frames : List Frame) (a : Audio) {r : PcmRing}
      → a.pcm ≡ some r
      → ((ipod_usb_push_pcm clock frames a).pcm ≡ some (push_frames frames r))
        × ((ipod_usb_push_pcm clock frames a).tone_on ≡ a.tone_on)
  unfolding ipod_usb_push_pcm
  ipod_usb_push_pcm-ring frames a e = rw (e, ipod_usb_push_pcm) (refl, refl)

  pub push_pcm-Streams :
      (frames q : List Frame) (more : ℕ) (s : Usb fl.F)
      → Streams q (length frames + more) s
      → Streams (q ++ take (ring_frames - length q) frames) more (push_pcm clock frames s)
  unfolding push_pcm
  push_pcm-Streams frames q more s h =
      let (ringed, tone) = ipod_usb_push_pcm-ring frames s.audio h.has_ring in
      let (valid, after) = push_frames_refines frames h.valid (omega (arith, h.word)) in
      let len : length q ≡ h.ring.ring_wr - h.ring.ring_rd =
        ap length (sym h.held) ∙ length-contents h.ring in
      record {
        open_stream = h.open_stream;
        awake = h.awake;
        rate = h.rate;
        no_tone = tone ∙ h.no_tone;
        ring = push_frames frames h.ring;
        has_ring = ringed;
        valid = valid;
        held = rw len (
            after
            ∙ ap (λ x. x ++ take (ring_frames - (h.ring.ring_wr - h.ring.ring_rd)) frames) h.held);
        word = omega (arith, push_frames-wr frames h.ring, h.word);
      }

  count_underrun-keeps :
      (a : Audio)
      → ((count_underrun clock a).pcm ≡ a.pcm) × ((count_underrun clock a).tone_on ≡ a.tone_on)
  unfolding count_underrun
  count_underrun-keeps a = grind arith

  -- The batch of a ring, and what it leaves.
  produce_44100-batch :
      (r : PcmRing) (a : Audio)
      → IsValid r
      → let o = produce_44100 clock r a in
        (o.0 ≡ (
          if ltb (length (contents r)) 441 then replicate 441 silence else take 441 (contents r)))
        × (o.1.pcm ≡ some (take_batch r).1)
        × (o.1.tone_on ≡ a.tone_on)
  unfolding produce_44100
  produce_44100-batch r a v =
      let e = (take_batch_refines v).1 in
      elim (Bool-cases (ltb (length (contents r)) 441)) [
        | inl short ↦
            let e' : (take_batch r).0 ≡ none =
              e ∙ ap (λ b. if b then none else some (take 441 (contents r))) short in
            let kept = count_underrun-keeps (record a { pcm = some (take_batch r).1 }) in
            rw (e', short, produce_44100) (refl, kept.0, kept.1)
        | inr enough ↦
            let e' : (take_batch r).0 ≡ some (take 441 (contents r)) =
              e ∙ ap (λ b. if b then none else some (take 441 (contents r))) enough in
            rw (e', enough, produce_44100) (refl, refl, refl)
      ]

  produce_batch-ring :
      (rate : ℕ) (a : Audio) (ph : Phases fl.F) {r : PcmRing}
      → rate ≡ 44100
      → a.tone_on ≡ false
      → a.pcm ≡ some r
      → produce_batch fl clock rate a ph
        ≡ ((produce_44100 clock r a).0, (produce_44100 clock r a).1, ph)
  unfolding produce_batch
  produce_batch-ring rate a ph h t e = simp (h, t, e, produce_batch)

  audio_pump-open :
      (s : Usb fl.F)
      → s.audio_streaming ≡ true
      → s.usb_suspended ≡ false
      → audio_pump fl clock true s ≡ (
          let b = produce_batch fl clock s.usb_rate s.audio s.phases in
          (
            some (take (u16 (s.usb_rate / 100 * 4) / 4) b.0),
            record s { audio = b.1; phases = b.2 },
          ))
  unfolding audio_pump
  audio_pump-open s o w = rw (o, w, audio_pump) refl

  audio_pump-ring :
      (s : Usb fl.F) {r : PcmRing}
      → s.audio_streaming ≡ true
      → s.usb_suspended ≡ false
      → s.usb_rate ≡ 44100
      → s.audio.tone_on ≡ false
      → s.audio.pcm ≡ some r
      → audio_pump fl clock true s ≡ (
        some (produce_44100 clock r s.audio).0,
        record s { audio = (produce_44100 clock r s.audio).1 },
      )
  audio_pump-ring s {r} o w h t e =
      audio_pump-open s o w
      ∙ ap
          (λ (b : List Frame × Audio × Phases fl.F). (
            some (take (u16 (s.usb_rate / 100 * 4) / 4) b.0),
            record s { audio = b.1; phases = b.2 },
          ))
          (produce_batch-ring s.usb_rate s.audio s.phases h t e)
      ∙ ap (λ (b : List Frame). (some b, record s { audio = (produce_44100 clock r s.audio).1 }))
          (take_all _ (produce_44100 clock r s.audio).0
            (omega (arith, h, length-produce_44100 fl clock r s.audio)))

  pub audio_pump-Streams :
      (q : List Frame) (more : ℕ) (s : Usb fl.F)
      → Streams q more s
      → let o = audio_pump fl clock true s in
        (o.0 ≡ some (batch_of q)) × Streams (behind q) more o.1
  audio_pump-Streams q more s h =
      let o = produce_44100 clock h.ring s.audio in
      let (batch, ringed, tone) = produce_44100-batch h.ring s.audio h.valid in
      let e = audio_pump-ring s h.open_stream h.awake h.rate h.no_tone h.has_ring in
      rw (e, sym h.held)
        (
          ap (λ b. some b) batch,
          record {
            open_stream = h.open_stream;
            awake = h.awake;
            rate = h.rate;
            no_tone = tone ∙ h.no_tone;
            ring = (take_batch h.ring).1;
            has_ring = ringed;
            valid = (take_batch_refines h.valid).0;
            held = (take_batch_refines h.valid).2;
            word = omega (arith, take_batch-wr h.ring, h.word);
          },
        )
