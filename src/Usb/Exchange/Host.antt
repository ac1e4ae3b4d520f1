-- ===== src/Usb/Exchange/Host.antt =====
-- What the engine gets of the host's reports.
use esp32_s3_car_adapter.Common.{
  ℕ, ◌+◌, ◌≤◌, ◌≡◌, refl, ap, ◌∙◌, Bool, false, List, [], ◌∷◌, Option, none, some, arith, All,
}
use esp32_s3_car_adapter.Iap.Report.Chain.{chain}
use esp32_s3_car_adapter.Iap.Dispatch.{iap_rx_report}
use esp32_s3_car_adapter.Iap.Dispatch.Reception.{rx_after}
use esp32_s3_car_adapter.Usb.Device.{Usb, with_iap, tick, iap_logf, tud_hid_set_report_cb}
use esp32_s3_car_adapter.Usb.Device.Requests.{iap_strip_id-prefixed, iap_strip_id-plain}
use esp32_s3_car_adapter.Usb.Exchange.{buffer_of, IsPrefix, host_sends}

-- A report that begins with a link byte.
pub data HasLink : List ℕ → Type 0 where
  starts : {link : ℕ} {chunk : List ℕ} → link ≤ 3 → HasLink (link ∷ chunk)

pub chain-HasLink : (first : Bool) (chunks : List (List ℕ)) → All HasLink (chain first chunks)
unfolding chain
chain-HasLink first [] = tt
chain-HasLink first (c ∷ []) = (starts (ground arith), tt)
chain-HasLink first (c ∷ d ∷ cs) = (starts (ground arith), chain-HasLink false (d ∷ cs))

module _ {F : Type 0} (clock : ℕ → ℕ) where
  -- The line in the log reads the clock once.
  set_report-received :
      (report_id : ℕ) (prefix : Option ℕ) (bytes : List ℕ) (s : Usb F)
      → IsPrefix prefix
      → HasLink bytes
      → let t = tud_hid_set_report_cb clock report_id (buffer_of prefix bytes) s in
        (t.audio.iap
          ≡ iap_rx_report clock bytes (record (s.audio.iap) { reads = s.audio.iap.reads + 1 }))
        × (t.stack_ready ≡ s.stack_ready)
  unfolding tud_hid_set_report_cb iap_logf tick with_iap
  set_report-received report_id none [] s h no_link = elim no_link [ ]
  set_report-received report_id (some id) [] s h no_link = elim no_link [ ]
  set_report-received report_id none (link ∷ chunk) s h (starts small) =
      rw (iap_strip_id-plain link chunk small) (refl, refl)
  set_report-received report_id (some id) (link ∷ chunk) s h (starts small) =
      rw (iap_strip_id-prefixed id link chunk h small) (refl, refl)

  pub host_sends-received :
      (report_id : ℕ) (prefix : Option ℕ) (rs : List (List ℕ)) (s : Usb F)
      → IsPrefix prefix
      → All HasLink rs
      → let t = host_sends clock report_id prefix rs s in
        (t.audio.iap ≡ rx_after clock 1 rs s.audio.iap) × (t.stack_ready ≡ s.stack_ready)
  unfolding host_sends rx_after
  host_sends-received report_id prefix [] s p h = (refl, refl)
  host_sends-received report_id prefix (r ∷ rs) s p h =
      let (got, stack) = set_report-received report_id prefix r s p h.0 in
      let t = tud_hid_set_report_cb clock report_id (buffer_of prefix r) s in
      let (all, stack') = host_sends-received report_id prefix rs t p h.1 in
      (all ∙ ap (rx_after clock 1 rs) got, stack' ∙ stack)
