-- ===== src/Iap/Delivery/Exchange.antt =====
-- A whole exchange: the reports of a query come in, and those of its answer go out.
use esp32_s3_car_adapter.Common.{
  ℕ, ◌+◌, ◌^◌, ◌≤◌, ◌<◌, ◌≡◌, ◌≢◌, refl, sym, ap, ◌∙◌, Bool, true, false, ◌&&◌, List, Option, arith,
  length, get_or, All, if◌then◌else◌,
}
use mathlib.Core.Path.{subst}
use esp32_s3_car_adapter.Iap.Types.{LogLine}
use esp32_s3_car_adapter.Iap.Queue.{txq_size}
use esp32_s3_car_adapter.Iap.Queue.Inv.{IsValid}
use esp32_s3_car_adapter.Iap.Queue.Refine.{contents}
use esp32_s3_car_adapter.Iap.Queue.Rounds.{TakesOne}
use esp32_s3_car_adapter.Iap.Report.Chain.{chain}
use esp32_s3_car_adapter.Iap.Command.{RxCmd, trx_track, lingo_extrem}
use esp32_s3_car_adapter.Iap.State.{Iap, command_bytes, tx_send, tx_respond}
use esp32_s3_car_adapter.Iap.Live.{iap_set_track}
use esp32_s3_car_adapter.Iap.Extremote.{extremote_answer, handle_extremote, send_answer}
use esp32_s3_car_adapter.Iap.Extremote.Replies.{sent_cstr}
use esp32_s3_car_adapter.Iap.Dispatch.Reception.{received, rx_after}
use esp32_s3_car_adapter.Iap.Delivery.{Delivers, tx_pump_rounds, tx_send-Delivers}
use esp32_s3_car_adapter.Iap.Delivery.Query.{
  Query, asked, text, answered, handle_extremote-query, command_bytes-le, length-sent_cstr,
}
use esp32_s3_car_adapter.Iap.Delivery.Received.{
  query_bytes, IsSent, query_cmd, noted, accept_packet-query, command-received,
}

module _ (clock : ℕ → ℕ) where
  module _ (a t al : Option (List ℕ)) (s : Iap) where
    -- The engine after the new track.
    abbrev pub tuned : Iap
    tuned = iap_set_track clock a t al s

    answer-sent :
        (k : Query) (c : RxCmd) (w : Iap)
        → c.cmd ≡ asked k
        → w.np ≡ tuned.np
        → handle_extremote clock c w
          ≡ tx_send clock lingo_extrem (asked k + 1) c.has_trx c.trx (sent_cstr (text k a t al)) w
    unfolding send_answer tx_respond
    answer-sent k c w e same =
        handle_extremote-query clock a t al s k c w e
        ∙ ap (λ np. send_answer clock c (extremote_answer c np) w) same
        ∙ ap (λ r. send_answer clock c r w) (answered clock a t al s k c e)

    query_bytes-length :
        (k : Query) (has_trx : Bool) (trx : ℕ) (index : List ℕ)
        → length index ≡ 4
        → (0 < length (query_bytes k has_trx trx index))
          × (length (query_bytes k has_trx trx index) ≤ 9)
    query_bytes-length k true trx index h = omega (arith, h)
    query_bytes-length k false trx index h = omega (arith, h)

    -- The command that answers a query.
    abbrev pub answer_bytes : Query → Bool → ℕ → List ℕ
    answer_bytes k has_trx trx =
        command_bytes (tuned.trx.enabled && has_trx) lingo_extrem (asked k + 1)
          (if has_trx then trx else 0) (sent_cstr (text k a t al))

    -- What the reports of a query make the engine do.
    query-received :
        (ticks : ℕ) (k : Query) (has_trx : Bool) (trx : ℕ) (index tail : List ℕ)
        (chunks : List (List ℕ))
        → trx < 2 ^ 16
        → length index ≡ 4
        → IsSent chunks (query_bytes k has_trx trx index) tail
        → (l : List LogLine) × (m : ℕ) × (rx_after clock ticks (chain true chunks) tuned
            ≡ tx_send clock lingo_extrem
                (asked k + 1)
                has_trx
                (if has_trx then trx else 0)
                (sent_cstr (text k a t al))
                (noted clock (query_cmd k has_trx trx index) (received tuned l m)))
    query-received ticks k has_trx trx index tail chunks ht hi sent =
        let q : List ℕ = query_bytes k has_trx trx index in
        let (pos, short) = query_bytes-length k has_trx trx index hi in
        let (l, m, e) = command-received clock ticks q tail chunks tuned pos short sent in
        let c : RxCmd = query_cmd k has_trx trx index in
        (
          l,
          m,
          e
              ∙ accept_packet-query clock k has_trx trx index (get_or q 0 0) (received tuned l m) ht
                  hi
              ∙ answer-sent k c (noted clock c (received tuned l m)) refl refl,
        )

    -- The whole exchange, with `ticks` reads of the clock by others before each report.
    pub rx_after-Delivers :
        (ticks : ℕ) (k : Query) (has_trx : Bool) (trx : ℕ) (index tail : List ℕ)
        (chunks : List (List ℕ)) (rounds : List (ℕ → Bool)) (old : List ℕ)
        → trx < 2 ^ 16
        → length index ≡ 4
        → IsSent chunks (query_bytes k has_trx trx index) tail
        → IsValid tuned.txq
        → tuned.txq.count ≤ 14
        → All TakesOne rounds
        → txq_size ≤ length rounds
        → Delivers
            (contents tuned.txq)
            (answer_bytes k has_trx trx)
            old
            (tx_pump_rounds rounds (rx_after clock ticks (chain true chunks) tuned))
    unfolding trx_track
    rx_after-Delivers ticks k has_trx trx index tail chunks rounds old ht hi host v room all
          enough =
        let (l, m, e) = query-received ticks k has_trx trx index tail chunks ht hi host in
        let trx' : ℕ = if has_trx then trx else 0 in
        let w : Iap = noted clock (query_cmd k has_trx trx index) (received tuned l m) in
        let payload : List ℕ = sent_cstr (text k a t al) in
        let short : length (answer_bytes k has_trx trx) ≢ 256 = omega (
          arith,
          command_bytes-le (tuned.trx.enabled && has_trx) lingo_extrem (asked k + 1) trx' payload,
          length-sent_cstr (text k a t al),
        ) in
        subst
          (λ (x : Iap).
            Delivers (contents tuned.txq) (answer_bytes k has_trx trx) old
              (tx_pump_rounds rounds x))
          (sym e)
          (tx_send-Delivers clock lingo_extrem (asked k + 1) has_trx trx' payload w rounds old v
            room short all enough)
