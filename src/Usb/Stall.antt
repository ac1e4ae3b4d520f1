-- ===== src/Usb/Stall.antt =====
-- The stall watchdog in the rounds of `tusb_task`.
use esp32_s3_car_adapter.Common.{
  ℕ, zero, suc, ◌+◌, ◌≤◌, ◌<◌, ◌≡◌, ◌≢◌, refl, sym, ap, ◌∙◌, Bool, true, false, ◌&&◌, ◌||◌, List,
  [], ◌∷◌, arith,
}
use mathlib.Core.Path.{subst}
use esp32_s3_car_adapter.Iap.Types.{
  LogLine, tx_line, rx_line, stall, acc_ack, play_control, frag_acc, frag_complete, bad_checksum,
  unparsed,
}
use esp32_s3_car_adapter.Iap.State.{Iap}
use esp32_s3_car_adapter.Iap.Live.{iap_tx_pump, iap_watchdog, is_settled}
use esp32_s3_car_adapter.Usb.Batch.{Floats}
use esp32_s3_car_adapter.Usb.Device.{Usb}
use esp32_s3_car_adapter.Usb.Attach.{audio_pump, task_round}
use esp32_s3_car_adapter.Usb.Exchange.{Round, task_rounds}
use esp32_s3_car_adapter.Usb.Exchange.Rounds.{IsRead, audio_pump-IsSame, task_round-watched}
pub mod Runs

-- How many lines of a log tell of a stall.
abbrev pub stalls : List LogLine → ℕ
stalls [] = 0
stalls (stall st cur max lat next ∷ ls) = 1 + stalls ls
stalls (tx_line lingo cmd trx len lat ∷ ls) = stalls ls
stalls (rx_line lingo cmd trx len ∷ ls) = stalls ls
stalls (acc_ack st cmd ∷ ls) = stalls ls
stalls (play_control cmd ∷ ls) = stalls ls
stalls (frag_acc n ∷ ls) = stalls ls
stalls (frag_complete n ∷ ls) = stalls ls
stalls (bad_checksum ∷ ls) = stalls ls
stalls (unparsed lingo ∷ ls) = stalls ls

module _ (clock : ℕ → ℕ) where
  -- The handshake has begun and is not over, and the host is silent for two seconds or more, which
  -- was not logged yet.
  pub record IsSilent (i : Iap) : Type 0 where
    pub begun : is_settled i.handshake.state ≡ false
    pub unlogged : i.stall_dumped ≡ false
    pub heard : i.last_rx_us ≢ 0
    pub silent : (k : ℕ) → i.reads ≤ k → i.last_rx_us + 2000000 ≤ clock k

  iap_watchdog-logs :
      (i : Iap)
      → IsSilent i
      → (stalls (iap_watchdog clock i).log ≡ 1 + stalls i.log)
        × ((iap_watchdog clock i).stall_dumped ≡ true)
  unfolding iap_watchdog
  iap_watchdog-logs i h =
      let late : i.last_rx_us + 2000000 ≤ clock i.reads = h.silent i.reads (omega arith) in
      ground (arith, late, h.begun, h.unlogged, h.heard)

  iap_watchdog-rests :
      (i : Iap)
      → i.stall_dumped ≡ true
      → ((iap_watchdog clock i).log ≡ i.log) × ((iap_watchdog clock i).stall_dumped ≡ true)
  unfolding iap_watchdog
  iap_watchdog-rests i h = ground (arith, h)

  IsSilent-read : {i j : Iap} → IsRead i j → IsSilent i → IsSilent j
  IsSilent-read {i} r h = subst IsSilent (sym r.is) (record {
    begun = h.begun;
    unlogged = h.unlogged;
    heard = h.heard;
    silent = λ k from. h.silent k (omega (arith, r.later, from));
  })

  module _ (fl : Floats) where
    -- The first round logs the stall.
    round-logs :
        (r : Round) (s : Usb fl.F)
        → s.stack_ready ≡ true
        → IsSilent s.audio.iap
        → let t = task_round fl clock r.mounted r.mounted' r.accepts s in
          (stalls t.audio.iap.log ≡ 1 + stalls s.audio.iap.log)
          × (t.audio.iap.stall_dumped ≡ true)
          × (t.stack_ready ≡ true)
    unfolding iap_tx_pump
    round-logs r s ready h =
        let first = audio_pump-IsSame clock fl r.mounted s in
        let (seen, ready') = task_round-watched clock fl r.mounted r.mounted' r.accepts s ready in
        let j : Iap = (iap_tx_pump r.accepts (audio_pump fl clock r.mounted s).1.audio.iap).0 in
        let k = IsSilent-read first.iap h in
        let (logged, dumped) =
          iap_watchdog-logs j (record {
            begun = k.begun;
            unlogged = k.unlogged;
            heard = k.heard;
            silent = k.silent;
          }) in
        (
          ap (λ (i : Iap). stalls i.log) seen.is
              ∙ logged
              ∙ ap (λ (i : Iap). 1 + stalls i.log) first.iap.is,
          ap (λ (i : Iap). i.stall_dumped) seen.is ∙ dumped,
          ready',
        )

    -- The others do not.
    round-rests :
        (r : Round) (s : Usb fl.F)
        → s.stack_ready ≡ true
        → s.audio.iap.stall_dumped ≡ true
        → let t = task_round fl clock r.mounted r.mounted' r.accepts s in
          (t.audio.iap.log ≡ s.audio.iap.log)
          × (t.audio.iap.stall_dumped ≡ true)
          × (t.stack_ready ≡ true)
    unfolding iap_tx_pump
    round-rests r s ready h =
        let first = audio_pump-IsSame clock fl r.mounted s in
        let (seen, ready') = task_round-watched clock fl r.mounted r.mounted' r.accepts s ready in
        let j : Iap = (iap_tx_pump r.accepts (audio_pump fl clock r.mounted s).1.audio.iap).0 in
        let (same, dumped) =
          iap_watchdog-rests j (ap (λ (i : Iap). i.stall_dumped) first.iap.is ∙ h) in
        (
          ap (λ (i : Iap). i.log) seen.is ∙ same ∙ ap (λ (i : Iap). i.log) first.iap.is,
          ap (λ (i : Iap). i.stall_dumped) seen.is ∙ dumped,
          ready',
        )

    rounds-rest :
        (rs : List Round) (s : Usb fl.F)
        → s.stack_ready ≡ true
        → s.audio.iap.stall_dumped ≡ true
        → (task_rounds fl clock rs s).0.audio.iap.log ≡ s.audio.iap.log
    unfolding task_rounds
    rounds-rest [] s ready h = refl
    rounds-rest (r ∷ rs) s ready h =
        let (log, dumped, ready') = round-rests r s ready h in
        rounds-rest rs (task_round fl clock r.mounted r.mounted' r.accepts s) ready' dumped ∙ log

    -- Where the handshake has begun and is not over, a packet was received, and from now on two
    -- seconds or more have passed since, which was not logged yet, one or more rounds of tusb_task
    -- with the stack running log the stall exactly once, whatever the host takes, whatever
    -- tud_mounted says and whatever the audio does in them.
    pub task_rounds-stalls :
        (r : Round) (rs : List Round) (s : Usb fl.F)
        → s.stack_ready ≡ true
        → IsSilent s.audio.iap
        → stalls (task_rounds fl clock (r ∷ rs) s).0.audio.iap.log ≡ 1 + stalls s.audio.iap.log
    unfolding task_rounds
    task_rounds-stalls r rs s ready h =
        let (log, dumped, ready') = round-logs r s ready h in
        ap stalls
          (rounds-rest rs (task_round fl clock r.mounted r.mounted' r.accepts s) ready' dumped)
        ∙ log
