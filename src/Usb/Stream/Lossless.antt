-- ===== src/Usb/Stream/Lossless.antt =====
-- What was pushed is passed to `tud_audio_write`, whose answer the source ignores.
use esp32_s3_car_adapter.Common.{
  concat, ℕ, ◌-◌, ◌≡◌, refl, sym, ap, ◌∙◌, true, false, List, [], ◌∷◌, ◌++◌, Option, arith,
  append-nil, append_assoc,
}
use esp32_s3_car_adapter.Common.{
  ltb, length, take, drop, length-append, length-drop, take_all, take-append-drop,
}
use esp32_s3_car_adapter.Usb.Ring.{Frame, ring_frames}
use esp32_s3_car_adapter.Usb.Batch.{Floats}
use esp32_s3_car_adapter.Usb.Device.{Usb, push_pcm}
use esp32_s3_car_adapter.Usb.Attach.{audio_pump}
use mathlib.Core.Path.{subst}
use esp32_s3_car_adapter.Usb.Stream.{
  PcmCall, push, give, samples, batch_of, behind, play, IsPaced, batches, Streams, run_calls,
}
use esp32_s3_car_adapter.Usb.Stream.Calls.{push_pcm-Streams, audio_pump-Streams}

module _ (fl : Floats) (clock : ℕ → ℕ) where
  -- On an open and awake stream at 44.1 kHz with the tone off, over any sequence of pushes of PCM
  -- and of rounds of audio_pump on a mounted stack, the batches passed to tud_audio_write are those
  -- of a plain queue of 5292 frames, and the ring holds what that queue has left: a push adds the
  -- frames that fit, in order, a round passes the 441 oldest, or silence where there are fewer,
  -- which are dropped then. The ring is valid at the start, and its write counter does not wrap
  -- over the frames pushed.
  pub run_calls-play :
      (calls : List PcmCall) (q : List Frame) (s : Usb fl.F)
      → Streams q (length (samples calls)) s
      → ((run_calls fl clock calls s).0 ≡ (play calls q).0)
        × Streams (play calls q).1 0 (run_calls fl clock calls s).1
  unfolding run_calls play
  run_calls-play [] q s h = (refl, h)
  run_calls-play (push frames ∷ calls) q s h =
      run_calls-play calls (q ++ take (ring_frames - length q) frames) (push_pcm clock frames s) (
        push_pcm-Streams fl clock frames q (length (samples calls)) s
          (subst (λ n. Streams q n s) (length-append frames (samples calls)) h))
  run_calls-play (give ∷ calls) q s h =
      let o = audio_pump fl clock true s in
      let (given, next) = audio_pump-Streams fl clock q (length (samples calls)) s h in
      let (later, last) = run_calls-play calls (behind q) o.1 next in
      (
        ap (λ (b : Option (List Frame)). batches b ++ (run_calls fl clock calls o.1).0) given
            ∙ ap (λ bs. batch_of q ∷ bs) later,
        last,
      )

play-paced :
    (calls : List PcmCall) (q : List Frame)
    → IsPaced (length q) calls
    → concat (play calls q).0 ++ (play calls q).1 ≡ q ++ samples calls
unfolding play
play-paced [] q h = sym (append-nil q)
play-paced (push frames ∷ calls) q (fits, h) =
    let whole : take (ring_frames - length q) frames ≡ frames = take_all _ frames (omega arith) in
    let longer : IsPaced (length (q ++ frames)) calls =
      subst (λ n. IsPaced n calls) (sym (length-append q frames)) h in
    ap (λ fs. concat (play calls (q ++ fs)).0 ++ (play calls (q ++ fs)).1) whole
    ∙ play-paced calls (q ++ frames) longer
    ∙ append_assoc q frames (samples calls)
play-paced (give ∷ calls) q (enough, h) =
    let full : ltb (length q) 441 ≡ false = ground arith in
    let first : batch_of q ≡ take 441 q = rw full refl in
    let next : behind q ≡ drop 441 q = rw full refl in
    let shorter : IsPaced (length (drop 441 q)) calls =
      subst (λ n. IsPaced n calls) (sym (length-drop 441 q)) h in
    append_assoc (batch_of q) (concat (play calls (behind q)).0) (play calls (behind q)).1
    ∙ ap (λ b. b ++ (concat (play calls (behind q)).0 ++ (play calls (behind q)).1)) first
    ∙ ap (λ r. take 441 q ++ (concat (play calls r).0 ++ (play calls r).1)) next
    ∙ ap (λ r. take 441 q ++ r) (play-paced calls (drop 441 q) shorter)
    ∙ sym (append_assoc (take 441 q) (drop 441 q) (samples calls))
    ∙ ap (λ r. r ++ samples calls) (take-append-drop 441 q)

module _ (fl : Floats) (clock : ℕ → ℕ) where
  -- On an open and awake stream at 44.1 kHz with the tone off, nothing is lost, doubled or moved
  -- between ipod_usb_push_pcm and tud_audio_write: over any sequence of pushes of PCM that fit the
  -- ring and of rounds of audio_pump on a mounted stack that find 441 frames, the batches passed to
  -- tud_audio_write, one behind the other, with what the ring still holds, are what the ring held
  -- and what was pushed. What tud_audio_write takes of a batch is not part of the statement. The
  -- ring is valid at the start, and its write counter does not wrap over the frames pushed.
  pub run_calls-lossless :
      (calls : List PcmCall) (q : List Frame) (s : Usb fl.F)
      → Streams q (length (samples calls)) s
      → IsPaced (length q) calls
      → (left : List Frame) × Streams left 0 (run_calls fl clock calls s).1
        × (concat (run_calls fl clock calls s).0 ++ left ≡ q ++ samples calls)
  run_calls-lossless calls q s h paced =
      let (given, rest) = run_calls-play fl clock calls q s h in
      (
        (play calls q).1,
        rest,
        ap (λ bs. concat bs ++ (play calls q).1) given ∙ play-paced calls q paced,
      )
