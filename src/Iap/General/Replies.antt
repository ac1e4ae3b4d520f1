-- ===== src/Iap/General/Replies.antt =====
-- The replies of the General lingo: what they never do to the transactions.
use esp32_s3_car_adapter.Common.{ℕ, ◌+◌, ◌≡◌, ◌≢◌, refl, ap, List, [], ◌∷◌, arith, ◌⊎◌}
use esp32_s3_car_adapter.Common.{drop, u8}
use esp32_s3_car_adapter.Iap.Command.{put_u8, RxCmd, Trx, trx_track, lingo_general, next_trx}
use esp32_s3_car_adapter.Iap.State.{Iap, tx_send, tx_respond, tx_notify, set_state}
use esp32_s3_car_adapter.Iap.General.{
  Reply, silent, reply, ack, version_reply, options_reply, fid_reply, reply_identify, reply_other,
  general_reply, send_reply, identify_lingoes, note_certificate, answer_certificate, auth_info,
  end_idps, enter_case, handle_general,
}

-- A command of ours that `trx_track` takes no note of.
abbrev pub IsUntracked : ℕ → Type 0
IsUntracked cmd = (cmd ≢ 0x00) × (cmd ≢ 0x13) × (cmd ≢ 0x38)

abbrev pub KeepsTrx : Reply → Type 0
KeepsTrx silent = Unit {0}
KeepsTrx (reply cmd r) = IsUntracked cmd

reply_other-KeepsTrx : (cmd : ℕ) (c : RxCmd) → KeepsTrx (reply_other cmd c)
unfolding reply_other ack version_reply options_reply fid_reply
reply_other-KeepsTrx cmd c = ground arith

reply_identify-KeepsTrx :
    (cmd : ℕ) (c : RxCmd) (serial : List ℕ) (after : Reply)
    → KeepsTrx after
    → KeepsTrx (reply_identify cmd c serial after)
unfolding reply_identify ack version_reply
reply_identify-KeepsTrx cmd c serial after h = ground arith

pub general_reply-KeepsTrx : (c : RxCmd) (serial : List ℕ) → KeepsTrx (general_reply c serial)
unfolding general_reply
general_reply-KeepsTrx c serial =
    reply_identify-KeepsTrx c.cmd c serial (reply_other c.cmd c) (reply_other-KeepsTrx c.cmd c)

-- How the answers to General commands are numbered: data goes back under the number after that of
-- the request, and anything else is an ACK that names the command.
abbrev pub IsNumbered : ℕ → Reply → Type 0
IsNumbered cmd silent = Unit {0}
IsNumbered cmd (reply resp r) = (resp ≡ cmd + 1) ⊎ ((resp ≡ 0x02) × (drop 1 r ≡ u8 cmd ∷ []))

reply_other-IsNumbered : (cmd : ℕ) (c : RxCmd) → IsNumbered cmd (reply_other cmd c)
unfolding reply_other ack version_reply options_reply fid_reply put_u8
reply_other-IsNumbered cmd c = ground arith

reply_identify-IsNumbered :
    (cmd : ℕ) (c : RxCmd) (serial : List ℕ) (after : Reply)
    → IsNumbered cmd after
    → IsNumbered cmd (reply_identify cmd c serial after)
unfolding reply_identify ack version_reply put_u8
reply_identify-IsNumbered cmd c serial after h = ground arith

-- Every answer of the reply tables of the General lingo carries the number after that of its
-- request, or is an ACK that names the request.
pub general_reply-IsNumbered :
    (c : RxCmd) (serial : List ℕ) → IsNumbered c.cmd (general_reply c serial)
unfolding general_reply
general_reply-IsNumbered c serial =
    reply_identify-IsNumbered c.cmd c serial (reply_other c.cmd c) (reply_other-IsNumbered c.cmd c)

pub trx_track-IsUntracked : (lingo cmd : ℕ) (t : Trx) → IsUntracked cmd → trx_track lingo cmd t ≡ t
unfolding trx_track
trx_track-IsUntracked lingo cmd t h = ground arith

pub trx_track-other : (lingo cmd : ℕ) (t : Trx) → lingo ≢ lingo_general → trx_track lingo cmd t ≡ t
unfolding trx_track
trx_track-other lingo cmd t h = ground arith

module _ (clock : ℕ → ℕ) where
  pub tx_notify-enabled :
      (lingo cmd : ℕ) (payload : List ℕ) (s : Iap)
      → IsUntracked cmd
      → (tx_notify clock lingo cmd payload s).trx.enabled ≡ s.trx.enabled
  unfolding tx_notify tx_send next_trx
  tx_notify-enabled lingo cmd payload s h =
      ap (λ (t : Trx). t.enabled) (trx_track-IsUntracked lingo cmd _ h)

  pub send_reply-enabled :
      (c : RxCmd) (r : Reply) (s : Iap)
      → KeepsTrx r
      → (send_reply clock c r s).trx.enabled ≡ s.trx.enabled
  unfolding send_reply tx_respond tx_send
  send_reply-enabled c silent s h = refl
  send_reply-enabled c (reply cmd r) s h =
      ap (λ (t : Trx). t.enabled) (trx_track-IsUntracked lingo_general cmd s.trx h)

  identify_lingoes-enabled :
      (c : RxCmd) (s : Iap) → (identify_lingoes clock c s).trx.enabled ≡ s.trx.enabled
  unfolding identify_lingoes set_state ack
  identify_lingoes-enabled c s = grind (arith, tx_notify-enabled, send_reply-enabled)

  auth_info-enabled : (c : RxCmd) (s : Iap) → (auth_info clock c s).trx.enabled ≡ s.trx.enabled
  unfolding auth_info answer_certificate note_certificate set_state ack
  auth_info-enabled c s = grind (arith, tx_notify-enabled, send_reply-enabled)

  end_idps-enabled : (c : RxCmd) (s : Iap) → (end_idps clock c s).trx.enabled ≡ s.trx.enabled
  unfolding end_idps
  end_idps-enabled c s = grind (arith, tx_notify-enabled, send_reply-enabled)

  -- Nothing that a General command makes the engine send turns transactions on or off.
  pub handle_general-enabled :
      (c : RxCmd) (s : Iap) → (handle_general clock c s).trx.enabled ≡ s.trx.enabled
  unfolding handle_general enter_case set_state
  handle_general-enabled c s = grind (
    arith, identify_lingoes-enabled, auth_info-enabled, end_idps-enabled, send_reply-enabled,
    general_reply-KeepsTrx,
  )
