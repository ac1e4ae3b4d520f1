-- ===== src/Usb/Exchange/Rounds.antt =====
-- The rounds of `tusb_task` and the report queue: but for `iap_tx_pump` nothing in them touches it.
use esp32_s3_car_adapter.Common.{
  ℕ, ◌+◌, ◌≡◌, refl, ap, ◌∙◌, Bool, true, List, ◌∷◌, Option, arith, ltb, if◌then◌else◌, if_intro,
  not, ◌||◌, ◌==◌, leb, u8,
}
use mathlib.Core.Path.{subst}
use esp32_s3_car_adapter.Common.{◌≤◌, sym, Option-cases, inl, inr, some}
use esp32_s3_car_adapter.Iap.Queue.{pump}
use esp32_s3_car_adapter.Iap.State.{Iap}
use esp32_s3_car_adapter.Iap.Live.{iap_tx_pump, iap_watchdog, iap_audio_active}
use esp32_s3_car_adapter.Usb.Ring.{
  Frame, PcmRing, Audio, avail, take_batch, count_underrun, produce_44100,
}
use esp32_s3_car_adapter.Usb.Batch.{Floats, Phases, produce_48000, produce_batch}
use esp32_s3_car_adapter.Usb.Device.{Usb, disconnect, re_attach, with_iap, tick, now, iap_logf}
use esp32_s3_car_adapter.Usb.Attach.{
  audio_pump, note_first_connect, do_attach, re_attach_now, attach_poll, task_round,
}

-- An engine whose clock was read.
pub record IsRead (i j : Iap) : Type 0 where
  pub reads : ℕ
  pub later : i.reads ≤ reads
  pub is : j ≡ record i { reads = reads }

pub IsRead-refl : (i : Iap) → IsRead i i
IsRead-refl i = record { reads = i.reads; later = omega arith; is = refl }

IsRead-once : (i : Iap) → IsRead i (record i { reads = i.reads + 1 })
IsRead-once i = record { reads = i.reads + 1; later = omega arith; is = refl }

pub IsRead-trans : {i j k : Iap} → IsRead i j → IsRead j k → IsRead i k
IsRead-trans h g = record {
  reads = g.reads;
  later = omega (arith, h.later, g.later, ap (λ (x : Iap). x.reads) h.is);
  is = g.is ∙ ap (λ (x : Iap). record x { reads = g.reads }) h.is;
}

-- The engine is as before but for the reads, and the stack runs as before.
pub record IsSame {F : Type 0} (s t : Usb F) : Type 0 where
  pub iap : IsRead s.audio.iap t.audio.iap
  pub stack_ready : t.stack_ready ≡ s.stack_ready

module _ (clock : ℕ → ℕ) where
  iap_audio_active-IsRead : (i : Iap) → IsRead i (iap_audio_active clock i).1
  unfolding iap_audio_active
  iap_audio_active-IsRead i =
      if_intro (λ (o : Bool × Iap). IsRead i o.1) i.np.playing (IsRead-once i) (IsRead-refl i)

  count_underrun-IsRead : (a : Audio) → IsRead a.iap (count_underrun clock a).iap
  unfolding count_underrun
  count_underrun-IsRead a =
      let active = iap_audio_active-IsRead a.iap in
      if_intro (λ (b : Audio). IsRead a.iap b.iap) a.tone_on (IsRead-refl a.iap)
        (if_intro (λ (b : Audio). IsRead a.iap b.iap) (iap_audio_active clock a.iap).0 active
          active)

  produce_44100-IsRead : (r : PcmRing) (a : Audio) → IsRead a.iap (produce_44100 clock r a).1.iap
  unfolding produce_44100
  produce_44100-IsRead r a = elim (Option-cases (take_batch r).0) [
    | inl e ↦
        rw (e, produce_44100) (count_underrun-IsRead (record a { pcm = some (take_batch r).1 }))
    | inr (b, e) ↦ rw (e, produce_44100) (IsRead-refl a.iap)
  ]

  iap_watchdog-txq : (s : Iap) → (iap_watchdog clock s).txq ≡ s.txq
  unfolding iap_watchdog
  iap_watchdog-txq s = grind arith

  module _ {F : Type 0} where
    note_first_connect-IsSame : (s : Usb F) → IsSame s (note_first_connect clock s)
    unfolding note_first_connect tick with_iap
    note_first_connect-IsSame s =
        if_intro (IsSame s) (s.first_connect_us == 0)
          (record { iap = IsRead-once s.audio.iap; stack_ready = refl })
          (record { iap = IsRead-refl s.audio.iap; stack_ready = refl })

    do_attach-IsSame : (s : Usb F) → IsSame s (do_attach clock s)
    unfolding do_attach iap_logf tick with_iap
    do_attach-IsSame s =
        let s1 : Usb F = record s { connect_attempts = u8 (s.connect_attempts + 1) } in
        let noted = note_first_connect-IsSame s1 in
        let logged = IsRead-trans noted.iap (IsRead-once (note_first_connect clock s1).audio.iap) in
        if_intro (IsSame s) (note_first_connect clock s1).stack_ready
          (record { iap = logged; stack_ready = noted.stack_ready })
          (record { iap = logged; stack_ready = noted.stack_ready })

    re_attach_now-IsSame : (s : Usb F) → IsSame s (re_attach_now clock s)
    unfolding re_attach_now iap_logf tick with_iap
    re_attach_now-IsSame s =
        let s1 = iap_logf clock re_attach s in
        let s2 : Usb F = record s1 { bus = disconnect ∷ s1.bus } in
        let again = do_attach-IsSame s2 in
        record {
          iap =
              IsRead-trans (IsRead-once s.audio.iap)
                (IsRead-trans again.iap (IsRead-once (do_attach clock s2).audio.iap));
          stack_ready = again.stack_ready;
        }

    pub attach_poll-IsSame : (mounted : Bool) (s : Usb F) → IsSame s (attach_poll clock mounted s)
    unfolding attach_poll tick with_iap
    attach_poll-IsSame mounted s =
        let same : IsSame s s = record { iap = IsRead-refl s.audio.iap; stack_ready = refl } in
        let again = re_attach_now-IsSame (tick s) in
        if_intro (IsSame s) s.ever_mounted same (
          if_intro (IsSame s) (mounted || leb 7 s.retry_idx) same (
            if_intro (IsSame s) (ltb (now clock s) s.next_attach_us)
              (record { iap = IsRead-once s.audio.iap; stack_ready = refl })
              (record {
                iap = IsRead-trans (IsRead-once s.audio.iap) again.iap;
                stack_ready = again.stack_ready;
              })))

  module _ (fl : Floats) where
    produce_48000-IsRead :
        (r : PcmRing) (a : Audio) (ph : Phases fl.F)
        → IsRead a.iap (produce_48000 fl clock r a ph).1.iap
    unfolding produce_48000
    produce_48000-IsRead r a ph =
        if_intro (λ (o : List Frame × Audio × Phases fl.F). IsRead a.iap o.1.iap)
          (ltb (avail r) 443)
          (count_underrun-IsRead (record a { pcm = some (record r { ring_rd = r.ring_wr }) }))
          (IsRead-refl a.iap)

    produce_batch-IsRead :
        (rate : ℕ) (a : Audio) (ph : Phases fl.F)
        → IsRead a.iap (produce_batch fl clock rate a ph).1.iap
    unfolding produce_batch
    produce_batch-IsRead rate a ph =
        if_intro (λ (o : List Frame × Audio × Phases fl.F). IsRead a.iap o.1.iap) a.tone_on
          (IsRead-refl a.iap)
          (elim (Option-cases a.pcm) [
            | inl e ↦
                let starved = count_underrun-IsRead a in
                rw (e, produce_batch)
                  (if_intro (λ (o : List Frame × Audio × Phases fl.F). IsRead a.iap o.1.iap)
                    (rate == 44100) starved starved)
            | inr (r, e) ↦
                rw (e, produce_batch)
                  (if_intro (λ (o : List Frame × Audio × Phases fl.F). IsRead a.iap o.1.iap)
                    (rate == 44100) (produce_44100-IsRead r a) (produce_48000-IsRead r a ph))
          ])

    pub audio_pump-IsSame :
        (mounted : Bool) (s : Usb fl.F) → IsSame s (audio_pump fl clock mounted s).1
    unfolding audio_pump
    audio_pump-IsSame mounted s =
        if_intro (λ (o : Option (List Frame) × Usb fl.F). IsSame s o.1)
          (not mounted || (not s.audio_streaming || s.usb_suspended))
          (record { iap = IsRead-refl s.audio.iap; stack_ready = refl })
          (record { iap = produce_batch-IsRead s.usb_rate s.audio s.phases; stack_ready = refl })

    -- One round is a pump, a look of the watchdog, and reads of the clock.
    pub task_round-watched :
        (mounted mounted' : Bool) (accepts : ℕ → Bool) (s : Usb fl.F)
        → s.stack_ready ≡ true
        → let t = task_round fl clock mounted mounted' accepts s in
          let pumped = (audio_pump fl clock mounted s).1 in
          IsRead (iap_watchdog clock (iap_tx_pump accepts pumped.audio.iap).0) t.audio.iap
          × (t.stack_ready ≡ true)
    unfolding task_round with_iap
    task_round-watched mounted mounted' accepts s ready =
        let pumped = (audio_pump fl clock mounted s).1 in
        let first = audio_pump-IsSame mounted s in
        let sent = with_iap (iap_tx_pump accepts pumped.audio.iap).0 pumped in
        let watched = with_iap (iap_watchdog clock sent.audio.iap) sent in
        let last = attach_poll-IsSame mounted' watched in
        let e : attach_poll clock mounted' watched
            ≡ task_round fl clock mounted mounted' accepts s =
          sym (ap (λ b. if b then attach_poll clock mounted' watched else s) ready) in
        (
          subst (λ (t : Usb fl.F). IsRead watched.audio.iap t.audio.iap) e last.iap,
          sym (ap (λ (t : Usb fl.F). t.stack_ready) e)
              ∙ last.stack_ready
              ∙ first.stack_ready
              ∙ ready,
        )

    -- One round: what it hands to the host, and the state behind it.
    pub task_round-pump :
        (mounted mounted' : Bool) (accepts : ℕ → Bool) (s : Usb fl.F)
        → s.stack_ready ≡ true
        → let t = task_round fl clock mounted mounted' accepts s in
          (t.audio.iap.txq ≡ (pump accepts s.audio.iap.txq).0) × (t.stack_ready ≡ true)
    unfolding iap_tx_pump
    task_round-pump mounted mounted' accepts s ready =
        let pumped = (audio_pump fl clock mounted s).1 in
        let first = audio_pump-IsSame mounted s in
        let (seen, ready') = task_round-watched mounted mounted' accepts s ready in
        (
          ap (λ (i : Iap). i.txq) seen.is
              ∙ iap_watchdog-txq (iap_tx_pump accepts pumped.audio.iap).0
              ∙ ap (λ (i : Iap). (pump accepts i.txq).0) first.iap.is,
          ready',
        )
