-- ===== src/Iap/General/Handshake.antt =====
-- How handling a General command moves the handshake.
use esp32_s3_car_adapter.Common.{ℕ, ◌≡◌, refl, List, arith, ◌||◌}
use esp32_s3_car_adapter.Common.{◌==◌, if◌then◌else◌}
use esp32_s3_car_adapter.Iap.Types.{IapState, identified, auth, auth_ok}
use esp32_s3_car_adapter.Iap.Command.{RxCmd}
use esp32_s3_car_adapter.Iap.State.{Iap, set_state, tx_send, tx_respond, tx_notify}
use esp32_s3_car_adapter.Iap.General.{
  Reply, silent, reply, send_reply, identify_lingoes, note_certificate, answer_certificate,
  auth_info, end_idps, enter_case, handle_general,
}

-- The handshake state after a General command: IdentifyDeviceLingoes and StartIDPS begin it anew,
-- the certificate and the signature of the accessory carry it on, and nothing else touches it.
unfoldable pub next_general : ℕ → IapState → IapState
next_general cmd st =
    if cmd == 0x13 || cmd == 0x38
    then identified
    else if cmd == 0x15
    then auth
    else if cmd == 0x18
    then auth_ok
    else st

module _ (clock : ℕ → ℕ) where
  tx_notify-state :
      (lingo cmd : ℕ) (payload : List ℕ) (s : Iap)
      → (tx_notify clock lingo cmd payload s).handshake.state ≡ s.handshake.state
  unfolding tx_notify tx_send
  tx_notify-state lingo cmd payload s = refl

  send_reply-state :
      (c : RxCmd) (r : Reply) (s : Iap)
      → (send_reply clock c r s).handshake.state ≡ s.handshake.state
  unfolding send_reply tx_respond tx_send
  send_reply-state c silent s = refl
  send_reply-state c (reply cmd r) s = refl

  identify_lingoes-state :
      (c : RxCmd) (s : Iap) → (identify_lingoes clock c s).handshake.state ≡ identified
  unfolding identify_lingoes set_state
  identify_lingoes-state c s = grind (arith, tx_notify-state, send_reply-state)

  auth_info-state : (c : RxCmd) (s : Iap) → (auth_info clock c s).handshake.state ≡ auth
  unfolding auth_info answer_certificate note_certificate set_state
  auth_info-state c s = grind (arith, tx_notify-state, send_reply-state)

  end_idps-state : (c : RxCmd) (s : Iap) → (end_idps clock c s).handshake.state ≡ s.handshake.state
  unfolding end_idps
  end_idps-state c s = grind (arith, tx_notify-state, send_reply-state)

  pub handle_general-state :
      (c : RxCmd) (s : Iap)
      → (handle_general clock c s).handshake.state ≡ next_general c.cmd s.handshake.state
  unfolding handle_general enter_case next_general set_state
  handle_general-state c s =
      grind (arith, identify_lingoes-state, auth_info-state, end_idps-state, send_reply-state)
