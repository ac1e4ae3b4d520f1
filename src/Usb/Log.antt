-- ===== src/Usb/Log.antt =====
-- The ring of log text of ipod_usb.c: `ipod_usb_log` adds a line, and `ipod_usb_read_iap_log` copies
-- the recent ones for the status page.
use esp32_s3_car_adapter.Common.{
  ℕ, zero, suc, ◌+◌, ◌%◌, Bool, true, false, ◌&&◌, List, [], ◌∷◌, ◌++◌,
}
use esp32_s3_car_adapter.Common.{ltb, if◌then◌else◌, length, get_or, set, take, replicate, u32}
pub mod Refine

-- `iap_log` and `iap_log_head`; a line is the list of its bytes before the 0.
pub record LogRing : Type 0 where
  pub iap_log : List (List ℕ)
  pub iap_log_head : ℕ

-- `IAP_LOG_LINES`
abbrev pub iap_log_lines : ℕ
iap_log_lines = 48

abbrev pub empty_log : LogRing
empty_log = record { iap_log = replicate iap_log_lines []; iap_log_head = 0 }

-- `text` is what the format gives, of which `vsnprintf` keeps 95 bytes. `iap_logf` does the same
-- with its prefix in front.
unfoldable pub ipod_usb_log : List ℕ → LogRing → LogRing
ipod_usb_log text r = record {
  iap_log = set r.iap_log (r.iap_log_head % iap_log_lines) (take 95 text);
  iap_log_head = u32 (r.iap_log_head + 1);
}

-- The loop of `ipod_usb_read_iap_log` from `i` on, with `n` lines left and `used` bytes copied.
unfoldable pub read_loop : List (List ℕ) → ℕ → ℕ → ℕ → ℕ → ℕ → List ℕ
read_loop slots start zero i used buf_len = []
read_loop slots start (suc n) i used buf_len =
    let line = get_or slots ((start + i) % iap_log_lines) [] in
    let used' = used + length line + 1 in
    let rest = read_loop slots start n (i + 1) used' buf_len in
    if ltb (used + 1) buf_len && ltb used' buf_len then line ++ 10 ∷ rest else []

-- `buf[0..used)`; the number that is returned is its length.
unfoldable pub ipod_usb_read_iap_log : ℕ → LogRing → List ℕ
ipod_usb_read_iap_log buf_len r =
    let few = ltb r.iap_log_head iap_log_lines in
    let total = if few then r.iap_log_head else iap_log_lines in
    let start = if few then 0 else r.iap_log_head % iap_log_lines in
    read_loop r.iap_log start total 0 0 buf_len
