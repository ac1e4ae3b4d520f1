-- ===== src/Usb/Inv/Start.antt =====
-- The start of the device keeps the invariant: init, the boot delay and the first attach.
use esp32_s3_car_adapter.Common.{
  zero, suc, ◌*◌, ℕ, ◌+◌, ◌≡◌, refl, arith, Bool, true, false, not, List, some, ltb, if_intro,
}
use esp32_s3_car_adapter.Iap.Inv.Live.{iap_set_serial-IsValid}
use esp32_s3_car_adapter.Usb.Device.{Usb, with_iap, tick, now, iap_logf}
use esp32_s3_car_adapter.Usb.Attach.{
  ipod_usb_init, usb_stack_start, first_attach, note_boot, boot_wait, task_start,
}
use esp32_s3_car_adapter.Usb.Inv.Defs.{IsSound, with_iap-IsSound, tick-IsSound}
use esp32_s3_car_adapter.Usb.Inv.Callbacks.{same-IsSound}

module _ {F : Type 0} where
  pub ipod_usb_init-IsSound :
      (serial : List ℕ) (allocated created : Bool) {s : Usb F}
      → IsSound s
      → IsSound (ipod_usb_init serial allocated created s).1
  unfolding ipod_usb_init
  ipod_usb_init-IsSound serial allocated created v =
      let w = with_iap-IsSound v (iap_set_serial-IsValid (some serial) v.engine) in
      let ringed = same-IsSound w refl refl refl refl refl w.seen w.engine in
      if_intro (λ (r : Bool × Usb F). IsSound r.1) (not allocated) w
        (if_intro (λ (r : Bool × Usb F). IsSound r.1) (not created) ringed
          (same-IsSound w refl refl refl refl refl w.seen w.engine))

  module _ (clock : ℕ → ℕ) where
    first_attach-IsSound :
        (phy : Bool) {s : Usb F} → s.retry_idx ≡ 0 → IsSound s → IsSound (first_attach clock phy s)
    unfolding first_attach usb_stack_start iap_logf tick with_iap
    first_attach-IsSound true {s} h v = record {
      active = v.active;
      attempts = omega (arith, v.attempts);
      schedule = omega arith;
      started = λ e. omega arith;
      calls = omega (arith, v.calls);
      seen = v.seen;
      engine = record {
        queue = v.engine.queue;
        buffer = v.engine.buffer;
        counter = v.engine.counter;
        strings = v.engine.strings;
      };
    }
    first_attach-IsSound false {s} h v = record {
      active = v.active;
      attempts = omega (arith, v.attempts);
      schedule = omega arith;
      started = λ e. omega arith;
      calls = omega (arith, v.calls);
      seen = v.seen;
      engine = record {
        queue = v.engine.queue;
        buffer = v.engine.buffer;
        counter = v.engine.counter;
        strings = v.engine.strings;
      };
    }

    note_boot-IsSound : {s : Usb F} → IsSound s → IsSound (note_boot clock s)
    unfolding note_boot
    note_boot-IsSound v =
        let w = tick-IsSound v in same-IsSound w refl refl refl refl refl w.seen w.engine

    boot_wait-IsSound :
        (delay_ms fuel : ℕ) {s : Usb F}
        → s.retry_idx ≡ 0
        → IsSound s
        → IsSound (boot_wait clock delay_ms fuel s)
          × ((boot_wait clock delay_ms fuel s).retry_idx ≡ 0)
    unfolding boot_wait tick with_iap
    boot_wait-IsSound delay_ms zero h v = (v, h)
    boot_wait-IsSound delay_ms (suc fuel) {s} h v =
        let w = tick-IsSound v in
        if_intro (λ (t : Usb F). IsSound t × (t.retry_idx ≡ 0))
          (ltb (now clock s) (s.boot_us + delay_ms * 1000)) (boot_wait-IsSound delay_ms fuel h w)
          (w, h)

    pub task_start-IsSound :
        (delay_ms : ℕ) (phy : Bool) {s : Usb F}
        → s.retry_idx ≡ 0
        → IsSound s
        → IsSound (task_start clock delay_ms phy s)
    unfolding task_start note_boot tick with_iap
    task_start-IsSound delay_ms phy h v =
        let (w, h') = boot_wait-IsSound delay_ms (delay_ms + 1) h (note_boot-IsSound v) in
        first_attach-IsSound phy h' w
