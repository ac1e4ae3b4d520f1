-- ===== src/Iap/Dispatch/Reception.antt =====
-- From HID reports to commands: `iap_rx_report` over the reports of a packet.
use esp32_s3_car_adapter.Common.{
  ℕ, ◌+◌, ◌≤◌, ◌≡◌, refl, sym, ap, ◌∙◌, List, [], ◌∷◌, ◌++◌, arith, Bool, true, false, none, some,
  append_assoc,
}
use esp32_s3_car_adapter.Common.{length, if◌then◌else◌, length-append, All, concat, append-nil}
use esp32_s3_car_adapter.Iap.Types.{LogLine}
use esp32_s3_car_adapter.Iap.Packet.{next_packet}
use esp32_s3_car_adapter.Iap.Report.{assemble, frame_max}
use esp32_s3_car_adapter.Iap.Report.Chain.{IsChunk, chain, IsCut}
use esp32_s3_car_adapter.Iap.Report.Reassembly.{
  before, joined, assemble-last, assemble-more, assemble-some,
}
use esp32_s3_car_adapter.Iap.State.{Iap}
use esp32_s3_car_adapter.Iap.Dispatch.{iap_rx_report, dispatch_packets}
use esp32_s3_car_adapter.Iap.Dispatch.Packets.{
  CanCarry, stream, accept_all, dispatch_packets-stream, dispatch_packets-end,
}
use mathlib.Core.List.{reverse}

-- The state when a frame is handed on: as before, with an empty buffer and further log lines.
abbrev pub handed_on : Iap → List LogLine → Iap
handed_on s log = record s { frame_buf = []; log = log }

-- The same after further reads of the clock.
abbrev pub received : Iap → List LogLine → ℕ → Iap
received s log reads = record s { frame_buf = []; log = log; reads = reads }

module _ (clock : ℕ → ℕ) where
  -- Reports received one after the other.
  unfoldable pub rx_all : List (List ℕ) → Iap → Iap
  rx_all [] s = s
  rx_all (r ∷ rs) s = rx_all rs (iap_rx_report clock r s)

  -- The same with `ticks` reads of the clock by others before each report.
  unfoldable pub rx_after : ℕ → List (List ℕ) → Iap → Iap
  rx_after ticks [] s = s
  rx_after ticks (r ∷ rs) s =
      rx_after ticks rs (iap_rx_report clock r (record s { reads = s.reads + ticks }))

  pub rx_all-rx_after : (rs : List (List ℕ)) (s : Iap) → rx_all rs s ≡ rx_after 0 rs s
  unfolding rx_all rx_after
  rx_all-rx_after [] s = refl
  rx_all-rx_after (r ∷ rs) s =
      let same : s.reads + 0 ≡ s.reads = omega arith in
      rx_all-rx_after rs (iap_rx_report clock r s)
      ∙ ap (λ n. rx_after 0 rs (iap_rx_report clock r (record s { reads = n }))) (sym same)

  iap_rx_report-some :
      (report frame : List ℕ) (s : Iap)
      → (assemble report s.frame_buf).frame_buf ≡ []
      → (assemble report s.frame_buf).frame ≡ some frame
      → (l : List LogLine) × (iap_rx_report clock report s
          ≡ dispatch_packets clock frame (handed_on s l))
  unfolding iap_rx_report
  iap_rx_report-some report frame s e f =
      (reverse (assemble report s.frame_buf).logged ++ s.log, rw (f, e, iap_rx_report))

  iap_rx_report-none :
      (report buf : List ℕ) (s : Iap)
      → (assemble report s.frame_buf).frame_buf ≡ buf
      → (assemble report s.frame_buf).frame ≡ none
      → (l : List LogLine) × (iap_rx_report clock report s ≡ record s { frame_buf = buf; log = l })
  unfolding iap_rx_report
  iap_rx_report-none report buf s e f =
      (reverse (assemble report s.frame_buf).logged ++ s.log, rw (f, e, iap_rx_report))

  -- The engine while a frame comes in.
  rx_after-chain :
      (ticks : ℕ) (first : Bool) (c : List ℕ) (cs : List (List ℕ)) (s : Iap)
      → All IsChunk (c ∷ cs)
      → length (before first s.frame_buf) + length (concat (c ∷ cs)) ≤ frame_max
      → (l : List LogLine) × (m : ℕ) × (ticks ≡ 0 → m ≡ s.reads)
        × (rx_after ticks (chain first (c ∷ cs)) s
            ≡ dispatch_packets clock (joined first s.frame_buf (concat (c ∷ cs))) (received s l m))
  unfolding rx_after chain
  rx_after-chain ticks first c [] s h fits =
      let n : ℕ = s.reads + ticks in
      let (buf, out) =
        assemble-last first c s.frame_buf h.0 (omega (arith, ap length (append-nil c))) in
      let (l, e) =
        iap_rx_report-some ((if first then 0 else 1) ∷ c) _ (record s { reads = n }) buf out in
      (
        l,
        n,
        λ z. omega (arith, z),
        e
            ∙ ap (λ w. dispatch_packets clock (joined first s.frame_buf w) (received s l n))
                (sym (append-nil c)),
      )
  rx_after-chain ticks first c (d ∷ ds) s h fits =
      let n : ℕ = s.reads + ticks in
      let lengths = length-append c (concat (d ∷ ds)) in
      let (buf, out) = assemble-more first c s.frame_buf h.0 (omega (arith, lengths)) in
      let (l', e') =
        iap_rx_report-none ((if first then 2 else 3) ∷ c) _ (record s { reads = n }) buf out in
      let s' : Iap = record s { frame_buf = joined first s.frame_buf c; log = l'; reads = n } in
      let (l, m, none_read, e) =
        rx_after-chain ticks false d ds s' h.1
          (omega (arith, lengths, length-append (before first s.frame_buf) c)) in
      (
        l,
        m,
        λ z. omega (arith, none_read z, z),
        ap (rx_after ticks (chain false (d ∷ ds))) e'
            ∙ e
            ∙ ap (λ w. dispatch_packets clock w (received s l m))
                (append_assoc (before first s.frame_buf) c (concat (d ∷ ds))),
      )

  -- The same for a frame of packets.
  pub rx_after-stream :
      (ticks : ℕ) (ps : List (List ℕ × List ℕ)) (tail : List ℕ) (chunks : List (List ℕ)) (s : Iap)
      → All CanCarry ps
      → next_packet tail ≡ none
      → IsCut chunks (stream ps tail)
      → length (stream ps tail) ≤ frame_max
      → (l : List LogLine) × (m : ℕ) × (ticks ≡ 0 → m ≡ s.reads)
        × (rx_after ticks (chain true chunks) s ≡ accept_all clock ps (received s l m))
  rx_after-stream ticks ps tail [] s h e cut fits = absurd (omega (arith, cut.some_chunk))
  rx_after-stream ticks ps tail (c ∷ cs) s h e cut fits =
      let (l, m, none_read, run) =
        rx_after-chain ticks true c cs s cut.sizes (omega (arith, ap length cut.whole)) in
      (
        l,
        m,
        none_read,
        run
            ∙ ap (λ f. dispatch_packets clock f (received s l m)) cut.whole
            ∙ dispatch_packets-stream clock ps tail (received s l m) h e,
      )

  -- A frame of packets, cut by the host in chunks of any size up to 64 bytes, each behind its link
  -- byte (0 for the only one, 2 for the first, 3 for those between, 1 for the last), and received
  -- in any state, runs its commands in order, each once; but for the log and the emptied receive
  -- buffer nothing else happens. A frame has at most 2048 bytes, the bytes between its packets are
  -- no start bytes, its commands are those that pkt_encode can carry (1 to 65530 bytes, not 256),
  -- and its tail, such as the zeros that fill a report, holds no whole packet.
  pub rx_all-stream :
      (ps : List (List ℕ × List ℕ)) (tail : List ℕ) (chunks : List (List ℕ)) (s : Iap)
      → All CanCarry ps
      → next_packet tail ≡ none
      → IsCut chunks (stream ps tail)
      → length (stream ps tail) ≤ frame_max
      → (l : List LogLine) × (rx_all (chain true chunks) s ≡ accept_all clock ps (handed_on s l))
  rx_all-stream ps tail chunks s h e cut fits =
      let (l, m, none_read, run) = rx_after-stream 0 ps tail chunks s h e cut fits in
      (
        l,
        rx_all-rx_after (chain true chunks) s
            ∙ run
            ∙ ap (λ n. accept_all clock ps (received s l n)) (none_read refl),
      )

  -- Where a report completes a frame that holds no whole packet, the bytes are dropped: the receive
  -- buffer is empty afterwards, and nothing but the log changes besides.
  pub iap_rx_report-incomplete :
      (report frame : List ℕ) (s : Iap)
      → (assemble report s.frame_buf).frame ≡ some frame
      → next_packet frame ≡ none
      → (l : List LogLine) × (iap_rx_report clock report s ≡ handed_on s l)
  iap_rx_report-incomplete report frame s f e =
      let empty : (assemble report s.frame_buf).frame_buf ≡ [] = assemble-some report _ frame f in
      let (l, run) = iap_rx_report-some report frame s empty f in
      (l, run ∙ dispatch_packets-end clock frame (handed_on s l) e)
