-- ===== src/Usb/Inv/Attach.antt =====
-- The USB task keeps the invariant: the retries, and a round of the loop.
use esp32_s3_car_adapter.Common.{
  ℕ, ◌+◌, ◌≤◌, ◌<◌, ◌≡◌, refl, arith, Bool, true, false, ◌||◌, not, List, ◌∷◌, Option, ltb, leb,
  ◌==◌, length, u8, if_intro, if_cases, ◌∙◌,
}
use esp32_s3_car_adapter.Iap.Inv.Defs.{IsValid}
use esp32_s3_car_adapter.Iap.Inv.Live.{iap_tx_pump-IsValid, iap_watchdog-IsValid}
use esp32_s3_car_adapter.Usb.Ring.{Frame}
use esp32_s3_car_adapter.Usb.Batch.{Floats}
use esp32_s3_car_adapter.Usb.Device.{
  Usb, UsbLine, attach, re_attach, disconnect, with_iap, tick, now, iap_logf,
}
use esp32_s3_car_adapter.Usb.Attach.{
  retry_schedule_ms, note_first_connect, do_attach, re_attach_now, attach_poll, audio_pump,
  task_round,
}
use esp32_s3_car_adapter.Usb.Inv.Defs.{IsSound, with_iap-IsSound, tick-IsSound, iap_logf-IsSound}
use esp32_s3_car_adapter.Usb.Inv.Pcm.{produce_batch-engine}
use esp32_s3_car_adapter.Usb.Inv.Callbacks.{same-IsSound}

leb_room : (mounted : Bool) (n : ℕ) → (mounted || leb 7 n) ≡ false → n < 7
leb_room true n h = ground (arith, h)
leb_room false n h = ground (arith, h)

module _ {F : Type 0} where
  -- What an attach does to the fields of the invariant, with up to `n` calls of the stack.
  record Attached (n : ℕ) (s t : Usb F) : Type 0 where
    same_rate : t.usb_rate ≡ s.usb_rate
    counted : t.connect_attempts ≡ u8 (s.connect_attempts + 1)
    index : t.retry_idx ≡ s.retry_idx
    ready : t.stack_ready ≡ s.stack_ready
    calls : length t.bus ≤ length s.bus + n
    seen : t.host_mounted ≡ true → t.ever_mounted ≡ true
    engine : IsValid t.audio.iap

  tick-Attached : {n : ℕ} {s t : Usb F} → Attached n s t → Attached n s (tick t)
  unfolding tick with_iap
  tick-Attached a = record {
    same_rate = a.same_rate;
    counted = a.counted;
    index = a.index;
    ready = a.ready;
    calls = a.calls;
    seen = a.seen;
    engine = record {
      queue = a.engine.queue;
      buffer = a.engine.buffer;
      counter = a.engine.counter;
      strings = a.engine.strings;
    };
  }

  module _ (clock : ℕ → ℕ) where
    iap_logf-Attached :
        {n : ℕ} {s t : Usb F} (l : UsbLine) → Attached n s t → Attached n s (iap_logf clock l t)
    unfolding iap_logf
    iap_logf-Attached l a =
        let b = tick-Attached a in
        record {
          same_rate = b.same_rate;
          counted = b.counted;
          index = b.index;
          ready = b.ready;
          calls = b.calls;
          seen = b.seen;
          engine = b.engine;
        }

    note_first_connect-Attached :
        {n : ℕ} {s t : Usb F} → Attached n s t → Attached n s (note_first_connect clock t)
    unfolding note_first_connect
    note_first_connect-Attached {n} {s} {t} a =
        let b = tick-Attached a in
        if_intro (Attached n s) (t.first_connect_us == 0)
          (record {
            same_rate = b.same_rate;
            counted = b.counted;
            index = b.index;
            ready = b.ready;
            calls = b.calls;
            seen = b.seen;
            engine = b.engine;
          })
          a

    do_attach-Attached :
        {s : Usb F}
        → (s.host_mounted ≡ true → s.ever_mounted ≡ true)
        → IsValid s.audio.iap
        → Attached 1 s (do_attach clock s)
    unfolding do_attach
    do_attach-Attached {s} seen v =
        let t : Usb F = record s { connect_attempts = u8 (s.connect_attempts + 1) } in
        let base : Attached 0 s t = record {
          same_rate = refl;
          counted = refl;
          index = refl;
          ready = refl;
          calls = omega arith;
          seen = seen;
          engine = v;
        } in
        let t' : Usb F = note_first_connect clock t in
        let b =
          iap_logf-Attached (attach t'.connect_attempts true) (note_first_connect-Attached base) in
        let t'' : Usb F = iap_logf clock (attach t'.connect_attempts true) t' in
        if_intro (Attached 1 s) t''.stack_ready
          (record {
            same_rate = b.same_rate;
            counted = b.counted;
            index = b.index;
            ready = b.ready;
            calls = omega (arith, b.calls);
            seen = b.seen;
            engine = b.engine;
          })
          (record {
            same_rate = b.same_rate;
            counted = b.counted;
            index = b.index;
            ready = b.ready;
            calls = omega (arith, b.calls);
            seen = b.seen;
            engine = b.engine;
          })

    pub re_attach_now-IsSound :
        {s : Usb F}
        → s.retry_idx < 7
        → 1 ≤ s.retry_idx
        → IsSound s
        → IsSound (re_attach_now clock s)
    unfolding re_attach_now do_attach iap_logf
    re_attach_now-IsSound {s} h k v =
        let w = iap_logf-IsSound clock re_attach v in
        let s1 : Usb F = iap_logf clock re_attach s in
        let s2 : Usb F = record s1 { bus = disconnect ∷ s1.bus } in
        let a : Attached 1 s2 (do_attach clock s2) = do_attach-Attached w.seen w.engine in
        let b = tick-Attached a in
        record {
          active = rw b.same_rate w.active;
          attempts = omega (arith, b.counted, b.index, w.attempts);
          schedule = omega (arith, b.index);
          started = λ e. omega arith;
          calls = omega (arith, b.calls, b.index, w.calls);
          seen = b.seen;
          engine = b.engine;
        }

    pub attach_poll-IsSound :
        (mounted : Bool) {s : Usb F}
        → s.stack_ready ≡ true
        → IsSound s
        → IsSound (attach_poll clock mounted s)
    unfolding attach_poll tick with_iap
    attach_poll-IsSound mounted {s} up v = if_intro IsSound s.ever_mounted v (
        if_cases IsSound (mounted || leb (length retry_schedule_ms) s.retry_idx) (λ done. v)
          (λ left.
            if_intro IsSound (ltb (now clock s) s.next_attach_us) (tick-IsSound v)
              (again (leb_room mounted s.retry_idx left))))
      where
        again : s.retry_idx < 7 → IsSound (re_attach_now clock (tick s))
        again room = re_attach_now-IsSound room (v.started up) (tick-IsSound v)

module _ (fl : Floats) (clock : ℕ → ℕ) where
  pub audio_pump-IsSound :
      (mounted : Bool) {s : Usb fl.F}
      → IsSound s
      → IsSound (audio_pump fl clock mounted s).1
        × ((audio_pump fl clock mounted s).1.stack_ready ≡ s.stack_ready)
  unfolding audio_pump
  audio_pump-IsSound mounted {s} v =
      let e = produce_batch-engine clock fl s.usb_rate s.audio s.phases v.engine in
      if_intro
        (λ (r : Option (List Frame) × Usb fl.F). IsSound r.1 × (r.1.stack_ready ≡ s.stack_ready))
        (not mounted || (not s.audio_streaming || s.usb_suspended)) (v, refl)
        (same-IsSound v refl refl refl refl refl v.seen e, refl)

  pub task_round-IsSound :
      (mounted mounted' : Bool) (accepts : ℕ → Bool) {s : Usb fl.F}
      → IsSound s
      → IsSound (task_round fl clock mounted mounted' accepts s)
  unfolding task_round with_iap
  task_round-IsSound mounted mounted' accepts {s} v =
      let (p, ready) = audio_pump-IsSound mounted v in
      let q = with_iap-IsSound p (iap_tx_pump-IsValid accepts p.engine) in
      let w = with_iap-IsSound q (iap_watchdog-IsValid clock q.engine) in
      if_cases IsSound s.stack_ready (λ up. attach_poll-IsSound clock mounted' (ready ∙ up) w)
        (λ down. v)
