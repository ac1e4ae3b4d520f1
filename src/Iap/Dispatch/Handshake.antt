-- ===== src/Iap/Dispatch/Handshake.antt =====
-- The handshake as a state machine: how each received packet moves it.
use esp32_s3_car_adapter.Common.{
  ℕ, ◌≡◌, ◌≢◌, refl, ap, List, arith, Bool, true, false, ◌&&◌, ◌||◌, none, some,
}
use esp32_s3_car_adapter.Common.{◌==◌, if◌then◌else◌}
use esp32_s3_car_adapter.Iap.Types.{IapState, ready}
use esp32_s3_car_adapter.Iap.Command.{RxCmd, Trx, parse_cmd, lingo_general, lingo_extrem, trx_track}
use esp32_s3_car_adapter.Iap.Command.Parse.{parse_cmd-trx_track}
use esp32_s3_car_adapter.Iap.State.{Iap, set_state, tx_respond, tx_send}
use esp32_s3_car_adapter.Iap.General.Handshake.{next_general, handle_general-state}
use esp32_s3_car_adapter.Iap.General.Replies.{
  handle_general-enabled, trx_track-IsUntracked, trx_track-other,
}
use esp32_s3_car_adapter.Iap.Live.{play_state}
use esp32_s3_car_adapter.Iap.Extremote.{
  Answer, quiet, status, reply, handle_audio, xr_ack, send_answer, play_status, handle_extremote,
}
use esp32_s3_car_adapter.Iap.Dispatch.{handle_cmd, refuse_cmd, accept_packet}

-- The handshake state after a command of any lingo.
unfoldable pub next_state : RxCmd → IapState → IapState
next_state c st =
    if c.lingo == lingo_general
    then next_general c.cmd st
    else if c.lingo == lingo_extrem && c.cmd == 0x1C
    then ready
    else st

-- Whether transactions are on after a command.
unfoldable pub next_enabled : RxCmd → Bool → Bool
next_enabled c on =
    if c.lingo == lingo_general && (c.cmd == 0x00 || c.cmd == 0x13)
    then false
    else if c.lingo == lingo_general && c.cmd == 0x38
    then true
    else on

-- What two states share for the handshake.
record Same (s s' : Iap) : Type 0 where
  state : s'.handshake.state ≡ s.handshake.state
  enabled : s'.trx.enabled ≡ s.trx.enabled

module _ (clock : ℕ → ℕ) where
  tx_respond-Same :
      (c : RxCmd) (lingo cmd : ℕ) (r : List ℕ) (s : Iap)
      → lingo ≢ lingo_general
      → Same s (tx_respond clock c lingo cmd r s)
  unfolding tx_respond tx_send
  tx_respond-Same c lingo cmd r s h = record {
    state = refl;
    enabled = ap (λ (t : Trx). t.enabled) (trx_track-other lingo cmd s.trx h);
  }

  handle_audio-Same : (c : RxCmd) (s : Iap) → Same s (handle_audio clock c s)
  unfolding handle_audio
  handle_audio-Same c s = grind (arith, tx_respond-Same)

  send_answer-Same : (c : RxCmd) (a : Answer) (s : Iap) → Same s (send_answer clock c a s)
  unfolding send_answer xr_ack
  send_answer-Same c quiet s = record { state = refl; enabled = refl }
  send_answer-Same c (status st) s = tx_respond-Same c lingo_extrem 0x01 _ s (omega arith)
  send_answer-Same c (reply cmd r) s = tx_respond-Same c lingo_extrem cmd r s (omega arith)

  play_status-ready :
      (c : RxCmd) (s : Iap)
      → ((play_status clock c s).handshake.state ≡ ready)
        × ((play_status clock c s).trx.enabled ≡ s.trx.enabled)
  unfolding play_status play_state set_state
  play_status-ready c s = grind (arith, send_answer-Same)

  handle_extremote-state :
      (c : RxCmd) (s : Iap)
      → ((handle_extremote clock c s).handshake.state
          ≡ (if c.cmd == 0x1C then ready else s.handshake.state))
        × ((handle_extremote clock c s).trx.enabled ≡ s.trx.enabled)
  unfolding handle_extremote
  handle_extremote-state c s = grind (arith, send_answer-Same, play_status-ready)

  handle_cmd-state :
      (c : RxCmd) (s : Iap)
      → ((handle_cmd clock c s).handshake.state ≡ next_state c s.handshake.state)
        × ((handle_cmd clock c s).trx.enabled ≡ s.trx.enabled)
  unfolding handle_cmd next_state
  handle_cmd-state c s = grind (
    arith, handle_general-state, handle_general-enabled, handle_audio-Same, handle_extremote-state,
  )

  -- A packet whose command is parsed moves the handshake state and the transaction flag exactly as
  -- next_state and next_enabled say, whatever the handler answers.
  pub accept_packet-parsed :
      (lead : ℕ) (payload : List ℕ) (s : Iap) (c : RxCmd) (t : Trx)
      → parse_cmd payload s.trx ≡ some (c, t)
      → ((accept_packet clock lead payload s).handshake.state ≡ next_state c s.handshake.state)
        × ((accept_packet clock lead payload s).trx.enabled ≡ next_enabled c s.trx.enabled)
  unfolding accept_packet next_enabled trx_track
  accept_packet-parsed lead payload s c t e =
      grind (arith, handle_cmd-state, parse_cmd-trx_track payload s.trx t c e)

  -- A packet whose command parse_cmd refuses moves neither the handshake state nor the transaction
  -- flag.
  pub accept_packet-refused :
      (lead : ℕ) (payload : List ℕ) (s : Iap)
      → parse_cmd payload s.trx ≡ none
      → ((accept_packet clock lead payload s).handshake.state ≡ s.handshake.state)
        × ((accept_packet clock lead payload s).trx.enabled ≡ s.trx.enabled)
  unfolding accept_packet refuse_cmd tx_respond tx_send
  accept_packet-refused lead payload s e = grind (arith, trx_track-IsUntracked)
