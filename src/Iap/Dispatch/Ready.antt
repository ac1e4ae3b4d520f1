-- ===== src/Iap/Dispatch/Ready.antt =====
-- The head unit that asks for the play status finds the engine ready, and it stays so.
use esp32_s3_car_adapter.Common.{
  ℕ, ◌<◌, ◌^◌, ◌≡◌, ◌≢◌, refl, ap, ◌∙◌, Bool, false, ◌&&◌, ◌||◌, List, [], ◌∷◌, ◌++◌, some, arith,
  get_or, ◌==◌, All, Option-cases, inl, inr,
}
use esp32_s3_car_adapter.Iap.Types.{ready}
use esp32_s3_car_adapter.Iap.Command.{
  RxCmd, Trx, parse_cmd, split_cmd, find_size, cmd_sizes, lingo_general, lingo_extrem,
}
use esp32_s3_car_adapter.Iap.Command.Parse.{parse_rest-fields, parse_cmd-wire, cmd_field, trx_field}
use esp32_s3_car_adapter.Iap.State.{Iap}
use esp32_s3_car_adapter.Iap.General.Handshake.{next_general}
use esp32_s3_car_adapter.Iap.Dispatch.Handshake.{next_state}
use esp32_s3_car_adapter.Iap.Dispatch.Phases.{
  Phase, phase_of, first, moved, read_cmd, step, run, run-append, RxFrame, IsRxFrame, talk, said,
  rx_all-talk,
}
use esp32_s3_car_adapter.Iap.Dispatch.Reception.{rx_all}

-- The General commands that begin a handshake or carry it on, by their first two bytes.
unfoldable pub is_handshake : List ℕ → Bool
is_handshake cmd =
    let id = get_or cmd 1 0 in
    get_or cmd 0 0 == lingo_general && (id == 0x13 || id == 0x15 || id == 0x18 || id == 0x38)

-- GetPlayStatus, with a transaction or without.
abbrev pub play_query : Bool → ℕ → List ℕ
play_query has_trx trx =
    lingo_extrem ∷ (cmd_field lingo_extrem 0x1C ++ (trx_field has_trx trx ++ []))

split_cmd-ids :
    (cmd : List ℕ) (r : ℕ × ℕ × List ℕ)
    → split_cmd cmd ≡ some r
    → (r.0 ≡ get_or cmd 0 0) × (r.0 ≢ lingo_extrem → r.1 ≡ get_or cmd 1 0)
unfolding split_cmd
split_cmd-ids [] r e = cc
split_cmd-ids (x ∷ []) r e = cc
split_cmd-ids (x ∷ a ∷ []) r e = ground arith
split_cmd-ids (x ∷ a ∷ b ∷ cs) r e = ground arith

-- A parsed command has the IDs of its bytes.
parse_cmd-ids :
    (cmd : List ℕ) (t t' : Trx) (c : RxCmd)
    → parse_cmd cmd t ≡ some (c, t')
    → (c.lingo ≡ get_or cmd 0 0) × (c.lingo ≢ lingo_extrem → c.cmd ≡ get_or cmd 1 0)
unfolding parse_cmd
parse_cmd-ids cmd t t' c e = grind (arith, parse_rest-fields, split_cmd-ids)

next_state-ready :
    (cmd : List ℕ) (c : RxCmd)
    → is_handshake cmd ≡ false
    → c.lingo ≡ get_or cmd 0 0
    → (c.lingo ≢ lingo_extrem → c.cmd ≡ get_or cmd 1 0)
    → next_state c ready ≡ ready
unfolding is_handshake next_state next_general
next_state-ready cmd c h l k = ground arith

-- A command that is none of them leaves an engine that is ready as it is.
step-ready :
    (cmd : List ℕ) (p : Phase)
    → is_handshake cmd ≡ false
    → p.state ≡ ready
    → (step cmd p).state ≡ ready
unfolding step read_cmd
step-ready cmd p h r =
    let t : Trx = record { enabled = p.enabled; counter = 0 } in
    elim (Option-cases (parse_cmd cmd t)) [
      | inl e ↦ ap (λ o. (moved (first o) p).state) e ∙ r
      | inr ((c, t'), e) ↦
          let (l, k) = parse_cmd-ids cmd t t' c e in
          ap (λ o. (moved (first o) p).state) e ∙ ap (next_state c) r ∙ next_state-ready cmd c h l k
    ]

run-ready :
    (cmds : List (List ℕ)) (p : Phase)
    → All (λ cmd. is_handshake cmd ≡ false) cmds
    → p.state ≡ ready
    → (run cmds p).state ≡ ready
unfolding run
run-ready [] p h r = r
run-ready (cmd ∷ cmds) p h r = run-ready cmds (step cmd p) h.1 (step-ready cmd p h.0 r)

step-play_query :
    (has_trx : Bool) (trx : ℕ) (p : Phase)
    → trx < 2 ^ 16
    → (step (play_query has_trx trx) p).state ≡ ready
unfolding step read_cmd next_state find_size cmd_sizes
step-play_query has_trx trx p h =
    let t : Trx = record { enabled = p.enabled; counter = 0 } in
    let parsed =
      parse_cmd-wire t has_trx lingo_extrem 0x1C trx [] (omega arith, λ e. omega arith) h
        (omega arith) refl in
    ap (λ o. (moved (first o) p).state) parsed

module _ (clock : ℕ → ℕ) where
  -- Once frames whose commands include GetPlayStatus, with a transaction below 65536 or without,
  -- have been received, each cut by the host in chunks of any size up to 64 bytes, each behind its
  -- link byte (0 for the only one, 2 for the first, 3 for those between, 1 for the last), the
  -- engine is ready: in any state before, whatever commands stand before it, and with any commands
  -- behind it but the General ones that begin a handshake or carry it on (0x13, 0x15, 0x18, 0x38).
  -- A frame has at most 2048 bytes, the bytes between its packets are no start bytes, its commands
  -- are those that pkt_encode can carry (1 to 65530 bytes, not 256), and its tail, such as the
  -- zeros that fill a report, holds no whole packet.
  pub rx_all-ready :
      (fs : List RxFrame) (before after : List (List ℕ)) (has_trx : Bool) (trx : ℕ) (s : Iap)
      → All IsRxFrame fs
      → said fs ≡ before ++ play_query has_trx trx ∷ after
      → trx < 2 ^ 16
      → All (λ cmd. is_handshake cmd ≡ false) after
      → (rx_all clock (talk fs) s).handshake.state ≡ ready
  unfolding run
  rx_all-ready fs before after has_trx trx s h e ht quiet =
      let p : Phase = run before (phase_of s) in
      ap (λ (q : Phase). q.state)
        (rx_all-talk clock fs s h
          ∙ ap (λ cmds. run cmds (phase_of s)) e
          ∙ run-append before (play_query has_trx trx ∷ after) (phase_of s))
      ∙ run-ready after (step (play_query has_trx trx) p) quiet (step-play_query has_trx trx p ht)
