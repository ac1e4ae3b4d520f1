-- ===== src/Usb/Attach/Boot.antt =====
-- The wait of the USB task ends, and the device is attached behind it.
use esp32_s3_car_adapter.Common.{
  ℕ, zero, suc, ◌+◌, ◌*◌, ◌≤◌, ◌<◌, ◌≡◌, refl, sym, ap, ◌∙◌, Bool, true, false, arith, ltb,
  if_cases, u8,
}
use mathlib.Core.Path.{subst}
use esp32_s3_car_adapter.Usb.Device.{Usb, with_iap, tick, now, iap_logf}
use esp32_s3_car_adapter.Usb.Attach.{
  note_boot, boot_wait, task_start, first_attach, usb_stack_start,
}

ltb-true : {a b : ℕ} → ltb a b ≡ true → a < b
ltb-true h = ground (arith, h)

ltb-false : {a b : ℕ} → ltb a b ≡ false → b ≤ a
ltb-false h = ground (arith, h)

too_late : (a b : ℕ) → ltb a b ≡ true → b ≤ a + 0 * 1000 → ⊥
too_late a b h k = ground (arith, h, k)

module _ {F : Type 0} where
  abbrev reads : Usb F → ℕ
  reads s = s.audio.iap.reads

  -- `s` after reads of the time, up to `n` in all.
  abbrev at_read : ℕ → Usb F → Usb F
  at_read n s = with_iap (record (s.audio.iap) { reads = n }) s

  -- Reads of the time never go back, and one that lets the wait go on is a millisecond before the
  -- next.
  pub record Ticks (clock : ℕ → ℕ) (s : Usb F) (end : ℕ) : Type 0 where
    pub forward : (k : ℕ) → clock k ≤ clock (k + 1)
    pub rounds :
        (k : ℕ) → s.audio.iap.reads + 1 ≤ k → clock k < end → clock k + 1000 ≤ clock (k + 1)

  module _ (clock : ℕ → ℕ) (delay_ms : ℕ) where
    -- The wait ends at a read, the `k`-th, at or behind its end.
    record Waited (s t : Usb F) : Type 0 where
      k : ℕ
      late : s.boot_us + delay_ms * 1000 ≤ clock k
      state : t ≡ at_read (k + 1) s

    boot_wait-Waited :
        (n : ℕ) (s : Usb F)
        → ((k : ℕ)
            → reads s ≤ k
            → clock k < s.boot_us + delay_ms * 1000
            → clock k + 1000 ≤ clock (k + 1))
        → s.boot_us + delay_ms * 1000 ≤ clock (reads s) + n * 1000
        → Waited s (boot_wait clock delay_ms (suc n) s)
    unfolding boot_wait tick now with_iap
    boot_wait-Waited zero s h le =
        if_cases (Waited s) (ltb (now clock s) (s.boot_us + delay_ms * 1000))
          (λ early. absurd (too_late (clock (reads s)) (s.boot_us + delay_ms * 1000) early le))
          (λ late. record { k = reads s; late = ltb-false late; state = refl })
    boot_wait-Waited (suc n) s h le =
        if_cases (Waited s) (ltb (now clock s) (s.boot_us + delay_ms * 1000))
          (λ early.
            let soon : clock (reads s) < s.boot_us + delay_ms * 1000 = ltb-true early in
            let gap : clock (reads s) + 1000 ≤ clock (reads s + 1) =
              h (reads s) (omega arith) soon in
            let w =
              boot_wait-Waited n (at_read (reads s + 1) s) (λ k a. h k (omega (arith, a)))
                (omega (arith, gap, le)) in
            record { k = w.k; late = w.late; state = w.state })
          (λ late. record { k = reads s; late = ltb-false late; state = refl })

    first_attach-at_read :
        (phy : Bool) (s : Usb F) (k : ℕ)
        → ((i : ℕ) → clock i ≤ clock (i + 1))
        → let t = first_attach clock phy (at_read (k + 1) s) in
          (clock k ≤ t.first_connect_us)
          × (t.boot_us ≡ s.boot_us)
          × (t.connect_attempts ≡ u8 (s.connect_attempts + 1))
          × (t.retry_idx ≡ 1)
          × (t.next_attach_us ≡ t.first_connect_us + 3000000)
          × (phy ≡ true → t.stack_ready ≡ true)
    unfolding first_attach usb_stack_start iap_logf tick now with_iap
    first_attach-at_read true s k forward =
        (omega (arith, forward k, forward (k + 1)), refl, refl, refl, refl, λ e. refl)
    first_attach-at_read false s k forward =
        (forward k, refl, refl, refl, refl, λ e. ground (arith, e))

    note_boot-rounds :
        (s : Usb F)
        → Ticks clock s (clock (reads s) + delay_ms * 1000)
        → (k : ℕ) → reads (note_boot clock s) ≤ k
        → clock k < (note_boot clock s).boot_us + delay_ms * 1000
        → clock k + 1000 ≤ clock (k + 1)
    unfolding note_boot tick now with_iap
    note_boot-rounds s h = h.rounds

    note_boot-end :
        (s : Usb F)
        → Ticks clock s (clock (reads s) + delay_ms * 1000)
        → (note_boot clock s).boot_us + delay_ms * 1000
          ≤ clock (reads (note_boot clock s)) + delay_ms * 1000
    unfolding note_boot tick now with_iap
    note_boot-end s h = omega (arith, h.forward (reads s))

    -- The state behind the first attach, from the state at boot.
    pub record Attached (s : Usb F) (phy : Bool) (t : Usb F) : Type 0 where
      pub boot : t.boot_us ≡ clock s.audio.iap.reads
      pub delayed : t.boot_us + delay_ms * 1000 ≤ t.first_connect_us
      pub counted : t.connect_attempts ≡ u8 (s.connect_attempts + 1)
      pub index : t.retry_idx ≡ 1
      pub next : t.next_attach_us ≡ t.first_connect_us + 3000000
      pub running : phy ≡ true → t.stack_ready ≡ true

    Attached-note_boot :
        (s : Usb F) (phy : Bool) (k : ℕ)
        → ((i : ℕ) → clock i ≤ clock (i + 1))
        → (note_boot clock s).boot_us + delay_ms * 1000 ≤ clock k
        → Attached s phy (first_attach clock phy (at_read (k + 1) (note_boot clock s)))
    unfolding note_boot tick now with_iap
    Attached-note_boot s phy k forward late =
        let f = first_attach-at_read phy (note_boot clock s) k forward in
        record {
          boot = f.1;
          delayed = omega (arith, late, f.0, f.1);
          counted = f.2;
          index = f.3;
          next = f.4;
          running = f.5;
        }

    -- The USB task leaves its boot delay and attaches: where reads of the time never go back and
    -- each round of the wait takes a millisecond or more, the first attach comes no earlier than
    -- the delay after boot_us, is counted once, takes the first entry of the schedule, three
    -- seconds later, for the next time, and leaves the stack running if the PHY was had.
    pub task_start-Attached :
        (phy : Bool) (s : Usb F)
        → Ticks clock s (clock s.audio.iap.reads + delay_ms * 1000)
        → Attached s phy (task_start clock delay_ms phy s)
    unfolding task_start
    task_start-Attached phy s h =
        let b : Usb F = note_boot clock s in
        let w = boot_wait-Waited delay_ms b (note_boot-rounds s h) (note_boot-end s h) in
        let more : delay_ms + 1 ≡ suc delay_ms = omega arith in
        let e : boot_wait clock delay_ms (delay_ms + 1) b ≡ at_read (w.k + 1) b =
          ap (λ n. boot_wait clock delay_ms n b) more ∙ w.state in
        subst (λ x. Attached s phy (first_attach clock phy x)) (sym e)
          (Attached-note_boot s phy w.k h.forward w.late)
