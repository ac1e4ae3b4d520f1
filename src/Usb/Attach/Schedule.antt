-- ===== src/Usb/Attach/Schedule.antt =====
-- When `attach_poll` takes the device off the bus and puts it back on.
use esp32_s3_car_adapter.Common.{
  ℕ, ◌+◌, ◌*◌, ◌≡◌, refl, sym, ◌∙◌, ap, Bool, true, false, ◌||◌, ◌∷◌, arith, ltb, leb, ◌==◌,
  if◌then◌else◌, if_intro, if_cases, get_or, u8,
}
use esp32_s3_car_adapter.Usb.Device.{
  Usb, connect, disconnect, re_attach, with_iap, tick, now, iap_logf,
}
use esp32_s3_car_adapter.Usb.Attach.{
  retry_schedule_ms, note_first_connect, do_attach, re_attach_now, attach_poll,
}

true-false : true ≡ false → ⊥
true-false e = ground (arith, e)

-- Three guards, one after the other; the third one leaves its mark on the state.
guards_lem :
    {A : Type 0} (Q : Bool → A → Type 0) (b c d : Bool) {s t u : A}
    → Q true s
    → Q true t
    → Q false u
    → Q (b || (c || d)) (if b then s else if c then s else if d then t else u)
guards_lem Q true c d p q r = p
guards_lem Q false true d p q r = p
guards_lem Q false false true p q r = q
guards_lem Q false false false p q r = r

module _ {F : Type 0} (clock : ℕ → ℕ) where
  note_first_connect-fields :
      (s : Usb F)
      → ((note_first_connect clock s).bus ≡ s.bus)
        × ((note_first_connect clock s).retry_idx ≡ s.retry_idx)
        × ((note_first_connect clock s).stack_ready ≡ s.stack_ready)
  unfolding note_first_connect tick with_iap
  note_first_connect-fields s =
      if_intro
        (λ (t : Usb F).
          (t.bus ≡ s.bus) × (t.retry_idx ≡ s.retry_idx) × (t.stack_ready ≡ s.stack_ready))
        (s.first_connect_us == 0) (refl, refl, refl) (refl, refl, refl)

  do_attach-fields :
      (s : Usb F)
      → s.stack_ready ≡ true
      → ((do_attach clock s).bus ≡ connect ∷ s.bus) × ((do_attach clock s).retry_idx ≡ s.retry_idx)
  unfolding do_attach iap_logf tick with_iap
  do_attach-fields s up =
      let f =
        note_first_connect-fields (record s { connect_attempts = u8 (s.connect_attempts + 1) }) in
      if_cases (λ (t : Usb F). (t.bus ≡ connect ∷ s.bus) × (t.retry_idx ≡ s.retry_idx)) _
        (λ on. (ap (λ b. connect ∷ b) f.0, f.1))
        (λ off. absurd (true-false (sym up ∙ sym f.2 ∙ off)))

  re_attach_now-fields :
      (s : Usb F)
      → s.stack_ready ≡ true
      → let t = re_attach_now clock s in
        (t.bus ≡ connect ∷ disconnect ∷ s.bus)
        × (t.retry_idx ≡ u8 (s.retry_idx + 1))
        × ((n : ℕ) × (t.audio.iap.reads ≡ n + 1)
            × (t.next_attach_us ≡ clock n + get_or retry_schedule_ms s.retry_idx 0 * 1000))
  unfolding re_attach_now iap_logf tick with_iap
  re_attach_now-fields s up =
      let s1 : Usb F = iap_logf clock re_attach s in
      let s2 : Usb F = record s1 { bus = disconnect ∷ s1.bus } in
      let f = do_attach-fields s2 up in
      (
        f.0,
        ap (λ i. u8 (i + 1)) f.1,
        (
          (do_attach clock s2).audio.iap.reads,
          refl,
          ap (λ i. now clock (do_attach clock s2) + get_or retry_schedule_ms i 0 * 1000) f.1,
        ),
      )

  -- With the stack running, attach_poll waits where the host has been seen, the stack is mounted,
  -- the seven entries of the schedule are used up, or the time has not come: then the bus, the
  -- retry index and the next time stay. Else it disconnects and connects once, in this order, moves
  -- the retry index on by one, and the next time is the entry of the schedule at the old index, in
  -- milliseconds, after the answer of the last read of the clock.
  pub attach_poll-schedule :
      (mounted : Bool) (s : Usb F)
      → s.stack_ready ≡ true
      → let wait =
          s.ever_mounted
          || ((mounted || leb 7 s.retry_idx) || ltb (now clock s) s.next_attach_us) in
        let t = attach_poll clock mounted s in
        (wait ≡ true
          → (t.bus ≡ s.bus) × (t.retry_idx ≡ s.retry_idx) × (t.next_attach_us ≡ s.next_attach_us))
        × (wait ≡ false
            → (t.bus ≡ connect ∷ disconnect ∷ s.bus)
              × (t.retry_idx ≡ u8 (s.retry_idx + 1))
              × ((n : ℕ) × (t.audio.iap.reads ≡ n + 1)
                  × (t.next_attach_us ≡ clock n + get_or retry_schedule_ms s.retry_idx 0 * 1000)))
  unfolding attach_poll tick
  attach_poll-schedule mounted s up =
      guards_lem Outcome s.ever_mounted (mounted || leb 7 s.retry_idx)
        (ltb (now clock s) s.next_attach_us) (λ h. (refl, refl, refl), λ h. absurd (true-false h))
        (λ h. (refl, refl, refl), λ h. absurd (true-false h))
        (λ h. absurd (true-false (sym h)), λ h. re_attach_now-fields (tick s) up)
    where
      Outcome : Bool → Usb F → Type 0
      Outcome wait t =
          (wait ≡ true
            → (t.bus ≡ s.bus) × (t.retry_idx ≡ s.retry_idx) × (t.next_attach_us ≡ s.next_attach_us))
          × (wait ≡ false
              → (t.bus ≡ connect ∷ disconnect ∷ s.bus)
                × (t.retry_idx ≡ u8 (s.retry_idx + 1))
                × ((n : ℕ) × (t.audio.iap.reads ≡ n + 1)
                    × (t.next_attach_us ≡ clock n + get_or retry_schedule_ms s.retry_idx 0 * 1000)))
