-- ===== src/Iap/Inv/Handlers.antt =====
-- The handlers of the lingoes keep the invariant.
use esp32_s3_car_adapter.Common.{
  ℕ, arith, List, if_intro, ◌==◌, leb, length, get_or, [], if◌then◌else◌,
}
use esp32_s3_car_adapter.Iap.Types.{ready}
use esp32_s3_car_adapter.Iap.Command.{RxCmd, put_u8}
use esp32_s3_car_adapter.Iap.State.{Iap, set_state, tx_respond}
use esp32_s3_car_adapter.Iap.General.{
  Reply, silent, reply, send_reply, identify_lingoes, note_certificate, answer_certificate,
  auth_info, end_idps, enter_case, handle_general,
}
use esp32_s3_car_adapter.Iap.Live.{play_state}
use esp32_s3_car_adapter.Iap.Extremote.{
  Answer, quiet, status, handle_audio, xr_ack, send_answer, play_status, handle_extremote,
}
use esp32_s3_car_adapter.Iap.Inv.Defs.{
  IsValid, set_state-IsValid, tx_send-IsValid, tx_notify-IsValid,
}

module _ (clock : ℕ → ℕ) where
  pub tx_respond-IsValid :
      (c : RxCmd) (lingo cmd : ℕ) (r : List ℕ) {s : Iap}
      → IsValid s
      → IsValid (tx_respond clock c lingo cmd r s)
  unfolding tx_respond
  tx_respond-IsValid c lingo cmd r v = tx_send-IsValid clock lingo cmd c.has_trx c.trx r v

  send_reply-IsValid :
      (c : RxCmd) (r : Reply) (s : Iap) → IsValid s → IsValid (send_reply clock c r s)
  unfolding send_reply
  send_reply-IsValid c silent s v = v
  send_reply-IsValid c (reply cmd r) s v = tx_respond-IsValid c _ cmd r v

  identify_lingoes-IsValid :
      (c : RxCmd) (s : Iap) → IsValid s → IsValid (identify_lingoes clock c s)
  unfolding identify_lingoes
  identify_lingoes-IsValid c s v =
      grind (arith, tx_notify-IsValid, send_reply-IsValid, set_state-IsValid)

  note_certificate-IsValid :
      (p : List ℕ) (s : Iap) → IsValid s → IsValid (note_certificate clock p s)
  unfolding note_certificate
  note_certificate-IsValid p s v =
      if_intro IsValid _
        (record { queue = v.queue; buffer = v.buffer; counter = v.counter; strings = v.strings }) v

  answer_certificate-IsValid :
      (c : RxCmd) (s : Iap) → IsValid s → IsValid (answer_certificate clock c s)
  unfolding answer_certificate
  answer_certificate-IsValid c s v = grind (arith, tx_notify-IsValid, send_reply-IsValid)

  auth_info-IsValid : (c : RxCmd) (s : Iap) → IsValid s → IsValid (auth_info clock c s)
  unfolding auth_info
  auth_info-IsValid c s v = grind (
    arith, tx_notify-IsValid, send_reply-IsValid, set_state-IsValid, note_certificate-IsValid,
    answer_certificate-IsValid,
  )

  end_idps-IsValid : (c : RxCmd) (s : Iap) → IsValid s → IsValid (end_idps clock c s)
  unfolding end_idps
  end_idps-IsValid c s v =
      let st : ℕ = if leb 1 (length c.p) then get_or c.p 0 0 else 0x02 in
      let sent : (b : ℕ) → IsValid (send_reply clock c (reply 0x3C (put_u8 [] b)) s) =
        λ b. send_reply-IsValid c _ s v in
      if_intro IsValid (st == 0x00) (tx_notify-IsValid clock _ _ _ (sent 0x00))
        (if_intro IsValid (st == 0x01) (sent 0x04) (if_intro IsValid (st == 0x02) (sent 0x06) v))

  enter_case-IsValid : (cmd : ℕ) (s : Iap) → IsValid s → IsValid (enter_case clock cmd s)
  unfolding enter_case set_state
  enter_case-IsValid cmd s v =
      if_intro IsValid (cmd == 0x18)
        (record { queue = v.queue; buffer = v.buffer; counter = v.counter; strings = v.strings })
        (if_intro IsValid (cmd == 0x38)
          (record {
            queue = v.queue;
            buffer = v.buffer;
            counter = omega arith;
            strings = v.strings;
          })
          v)

  pub handle_general-IsValid :
      (c : RxCmd) (s : Iap) → IsValid s → IsValid (handle_general clock c s)
  unfolding handle_general
  handle_general-IsValid c s v = grind (
    arith, identify_lingoes-IsValid, auth_info-IsValid, end_idps-IsValid, send_reply-IsValid,
    enter_case-IsValid,
  )

  pub handle_audio-IsValid : (c : RxCmd) (s : Iap) → IsValid s → IsValid (handle_audio clock c s)
  unfolding handle_audio
  handle_audio-IsValid c s v = if_intro IsValid (c.cmd == 0x03) (tx_respond-IsValid c _ _ _ v) (
      if_intro IsValid _
        (record { queue = v.queue; buffer = v.buffer; counter = v.counter; strings = v.strings }) v)

  send_answer-IsValid :
      (c : RxCmd) (a : Answer) (s : Iap) → IsValid s → IsValid (send_answer clock c a s)
  unfolding send_answer xr_ack
  send_answer-IsValid c quiet s v = v
  send_answer-IsValid c (status st) s v = tx_respond-IsValid c _ _ _ v
  send_answer-IsValid c (Answer.reply cmd r) s v = tx_respond-IsValid c _ cmd r v

  play_state-IsValid : (s : Iap) → IsValid s → IsValid (play_state clock s).1
  unfolding play_state
  play_state-IsValid s v =
      if_intro (λ (r : ℕ × Iap). IsValid r.1) s.np.playing
        (record { queue = v.queue; buffer = v.buffer; counter = v.counter; strings = v.strings }) v

  play_status-IsValid : (c : RxCmd) (s : Iap) → IsValid s → IsValid (play_status clock c s)
  unfolding play_status
  play_status-IsValid c s v =
      send_answer-IsValid c _ _ (play_state-IsValid _ (set_state-IsValid ready v))

  pub handle_extremote-IsValid :
      (c : RxCmd) (s : Iap) → IsValid s → IsValid (handle_extremote clock c s)
  unfolding handle_extremote
  handle_extremote-IsValid c s v = if_intro IsValid (c.cmd == 0x1C) (play_status-IsValid c s v) (
      if_intro IsValid (c.cmd == 0x26)
        (send_answer-IsValid c _ _ (record {
          queue = v.queue;
          buffer = v.buffer;
          counter = v.counter;
          strings = omega arith;
        }))
        (if_intro IsValid (c.cmd == 0x29)
          (send_answer-IsValid c _ _ (record {
            queue = v.queue;
            buffer = v.buffer;
            counter = v.counter;
            strings = v.strings;
          }))
          (send_answer-IsValid c _ s v)))
