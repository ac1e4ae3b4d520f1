-- ===== src/Iap/Dispatch/Phases.antt =====
-- The handshake over whole exchanges: the reports of any frames move the engine as an abstract
-- machine moves over the commands that the frames carry.
use esp32_s3_car_adapter.Common.{
  ℕ, ◌≤◌, ◌≡◌, refl, sym, ap, ◌∙◌, Bool, true, List, [], ◌∷◌, ◌++◌, Option, none, some, arith,
  length, get_or, All, Option-cases, inl, inr,
}
use esp32_s3_car_adapter.Iap.Types.{IapState}
use esp32_s3_car_adapter.Iap.Packet.{next_packet}
use esp32_s3_car_adapter.Iap.Report.{frame_max}
use esp32_s3_car_adapter.Iap.Report.Chain.{chain, IsCut}
use esp32_s3_car_adapter.Iap.Command.{RxCmd, Trx, parse_cmd}
use esp32_s3_car_adapter.Iap.State.{Iap}
use esp32_s3_car_adapter.Iap.Dispatch.{accept_packet, iap_rx_report}
use esp32_s3_car_adapter.Iap.Dispatch.Handshake.{
  next_state, next_enabled, accept_packet-parsed, accept_packet-refused,
}
use esp32_s3_car_adapter.Iap.Dispatch.Packets.{CanCarry, stream, accept_all}
use esp32_s3_car_adapter.Iap.Dispatch.Reception.{handed_on, rx_all, rx_all-stream}

-- What of the engine decides on its next state: the state, and whether transactions are on.
pub record Phase : Type 0 where
  pub state : IapState
  pub enabled : Bool

abbrev pub phase_of : Iap → Phase
phase_of s = record { state = s.handshake.state; enabled = s.trx.enabled }

-- A command as it is read while transactions are on or off.
abbrev pub first : Option (RxCmd × Trx) → Option RxCmd
first none = none
first (some (c, t)) = some c

unfoldable pub read_cmd : Bool → List ℕ → Option RxCmd
read_cmd on cmd = first (parse_cmd cmd (record { enabled = on; counter = 0 }))

-- A command that is not read changes nothing.
abbrev pub moved : Option RxCmd → Phase → Phase
moved none p = p
moved (some c) p = record { state = next_state c p.state; enabled = next_enabled c p.enabled }

unfoldable pub step : List ℕ → Phase → Phase
step cmd p = moved (read_cmd p.enabled cmd) p

-- The machine over commands, in order.
unfoldable pub run : List (List ℕ) → Phase → Phase
run [] p = p
run (cmd ∷ cmds) p = run cmds (step cmd p)

-- A frame as a host sends it: packets with bytes in front of each, what stands behind the last, and
-- the chunks in which it is cut.
pub record RxFrame : Type 0 where
  pub packets : List (List ℕ × List ℕ)
  pub tail : List ℕ
  pub chunks : List (List ℕ)

pub record IsRxFrame (f : RxFrame) : Type 0 where
  pub carried : All CanCarry f.packets
  pub no_more : next_packet f.tail ≡ none
  pub cut : IsCut f.chunks (stream f.packets f.tail)
  pub fits : length (stream f.packets f.tail) ≤ frame_max

-- The reports of the frames, and the commands in them.
unfoldable pub talk : List RxFrame → List (List ℕ)
talk [] = []
talk (f ∷ fs) = chain true f.chunks ++ talk fs

abbrev commands_of : List (List ℕ × List ℕ) → List (List ℕ)
commands_of [] = []
commands_of ((junk, cmd) ∷ ps) = cmd ∷ commands_of ps

unfoldable pub said : List RxFrame → List (List ℕ)
said [] = []
said (f ∷ fs) = commands_of f.packets ++ said fs

pub run-append : (xs ys : List (List ℕ)) (p : Phase) → run (xs ++ ys) p ≡ run ys (run xs p)
unfolding run
run-append [] ys p = refl
run-append (x ∷ xs) ys p = run-append xs ys (step x p)

-- Reading a command does not look at the counter.
read_cmd-parse_cmd : (cmd : List ℕ) (t : Trx) → read_cmd t.enabled cmd ≡ first (parse_cmd cmd t)
unfolding read_cmd parse_cmd
read_cmd-parse_cmd cmd t = grind arith

phase-ext :
    {p : Phase} {st : IapState} {on : Bool}
    → p.state ≡ st
    → p.enabled ≡ on
    → p ≡ record { state = st; enabled = on }
phase-ext h k = rw (sym h, sym k) refl

module _ (clock : ℕ → ℕ) where
  accept_packet-step :
      (lead : ℕ) (cmd : List ℕ) (s : Iap)
      → phase_of (accept_packet clock lead cmd s) ≡ step cmd (phase_of s)
  unfolding step
  accept_packet-step lead cmd s = elim (Option-cases (parse_cmd cmd s.trx)) [
    | inl e ↦
        let kept = accept_packet-refused clock lead cmd s e in
        phase-ext kept.0 kept.1
        ∙ sym (ap (λ o. moved o (phase_of s)) (read_cmd-parse_cmd cmd s.trx ∙ ap first e))
    | inr ((c, t), e) ↦
        let next = accept_packet-parsed clock lead cmd s c t e in
        phase-ext next.0 next.1
        ∙ sym (ap (λ o. moved o (phase_of s)) (read_cmd-parse_cmd cmd s.trx ∙ ap first e))
  ]

  accept_all-run :
      (ps : List (List ℕ × List ℕ)) (s : Iap)
      → phase_of (accept_all clock ps s) ≡ run (commands_of ps) (phase_of s)
  unfolding accept_all run
  accept_all-run [] s = refl
  accept_all-run ((junk, cmd) ∷ ps) s =
      accept_all-run ps (accept_packet clock (get_or cmd 0 0) cmd s)
      ∙ ap (run (commands_of ps)) (accept_packet-step (get_or cmd 0 0) cmd s)

  rx_all-append :
      (xs ys : List (List ℕ)) (s : Iap)
      → rx_all clock (xs ++ ys) s ≡ rx_all clock ys (rx_all clock xs s)
  unfolding rx_all
  rx_all-append [] ys s = refl
  rx_all-append (x ∷ xs) ys s = rx_all-append xs ys (iap_rx_report clock x s)

  -- Any frames, each cut by the host in chunks of any size up to 64 bytes, each behind its link
  -- byte (0 for the only one, 2 for the first, 3 for those between, 1 for the last), and received
  -- in any state, move the handshake state and the transaction flag as the abstract machine moves
  -- over the commands of the frames, in order: a command that parse_cmd reads, with transactions on
  -- or off as they are by then, makes them what next_state and next_enabled say, and one that it
  -- refuses changes neither. A frame has at most 2048 bytes, the bytes between its packets are no
  -- start bytes, its commands are those that pkt_encode can carry (1 to 65530 bytes, not 256), and
  -- its tail, such as the zeros that fill a report, holds no whole packet.
  pub rx_all-talk :
      (fs : List RxFrame) (s : Iap)
      → All IsRxFrame fs
      → phase_of (rx_all clock (talk fs) s) ≡ run (said fs) (phase_of s)
  unfolding talk said run rx_all
  rx_all-talk [] s h = refl
  rx_all-talk (f ∷ fs) s (h, hs) =
      let mine : List (List ℕ) = chain true f.chunks in
      let (l, e) =
        rx_all-stream clock f.packets f.tail f.chunks s h.carried h.no_more h.cut h.fits in
      ap phase_of (rx_all-append mine (talk fs) s)
      ∙ rx_all-talk fs (rx_all clock mine s) hs
      ∙ ap (λ (t : Iap). run (said fs) (phase_of t)) e
      ∙ ap (run (said fs)) (accept_all-run f.packets (handed_on s l))
      ∙ sym (run-append (commands_of f.packets) (said fs) (phase_of s))
