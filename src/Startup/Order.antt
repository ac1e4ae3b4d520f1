-- ===== src/Startup/Order.antt =====
-- The start of the program stops at the first call that fails.
use esp32_s3_car_adapter.Common.{
  arith, ◌∙◌, ◌≡◌, refl, ap, ◌⊎◌, inl, inr, Bool, true, false, List, [], ◌∷◌, ◌++◌, All, Bool-cases,
  if◌then◌else◌,
}
use esp32_s3_car_adapter.Usb.Device.{Usb}
use esp32_s3_car_adapter.Usb.Attach.{ipod_usb_init}
use esp32_s3_car_adapter.Startup.{
  Identity, Answers, Call, nvs_flash_init, netif_init, event_loop_create, create_wifi_ap, wifi_init,
  register_wifi_event, alloc_audio_buffer, set_hostname, set_mode_ap, wifi_start, mdns_init,
  get_ip_info, get_mac, set_config, mdns_hostname_set, mdns_instance_name_set, raop_create,
  httpd_start, register_uri, audio_buffer_size, wifi_config, setup_calls, run_checked, app_main,
}

abbrev pub Succeeds : (Call → Bool) → Call → Type 0
Succeeds ok c = ok c ≡ true

-- All the calls succeeded.
pub record IsUp (ok : Call → Bool) (calls : List Call) (run : List Call × Bool) : Type 0 where
  succeeded : All (Succeeds ok) calls
  made : run ≡ (calls, true)

-- The calls up to the first that failed.
pub record IsStopped (ok : Call → Bool) (calls : List Call) (run : List Call × Bool) : Type 0 where
  before : List Call
  failed : Call
  skipped : List Call
  order : calls ≡ before ++ failed ∷ skipped
  succeeded : All (Succeeds ok) before
  fails : ok failed ≡ false
  made : run ≡ (before ++ failed ∷ [], false)

run_checked-order :
    (ok : Call → Bool) (calls : List Call)
    → IsUp ok calls (run_checked ok calls) ⊎ IsStopped ok calls (run_checked ok calls)
unfolding run_checked
run_checked-order ok [] = inl (record { succeeded = tt; made = refl })
run_checked-order ok (c ∷ cs) = elim (Bool-cases (ok c)) [
  | inl good ↦ elim (run_checked-order ok cs) [
    | inl up ↦ inl (record { succeeded = (good, up.succeeded); made = rw (good, up.made) refl })
    | inr st ↦ inr (record {
      before = c ∷ st.before;
      failed = st.failed;
      skipped = st.skipped;
      order = ap (λ l. c ∷ l) st.order;
      succeeded = (good, st.succeeded);
      fails = st.fails;
      made = rw (good, st.made) refl;
    })
  ]
  | inr bad ↦ inr (record {
    before = [];
    failed = c;
    skipped = cs;
    order = refl;
    succeeded = tt;
    fails = bad;
    made = rw bad refl;
  })
]

app_main-run_checked :
    {F : Type 0} (id : Identity) (a : Answers) (s : Usb F)
    → (app_main id a s).0 ≡ run_checked a.ok (nvs_flash_init ∷ setup_calls id a)
unfolding app_main run_checked
app_main-run_checked id a s = elim (Bool-cases (a.ok nvs_flash_init)) [
  | inl good ↦ rw good refl
  | inr bad ↦ rw bad refl
]

-- What ESP-IDF and the receiver want done before a call, by their documentation: the network stack
-- and the event loop before an interface, the flash before the radio, the radio before its mode,
-- configuration, start and address, and for the receiver also the buffer that its callback fills.
abbrev pub needs : Identity → Call → List Call
needs id create_wifi_ap = netif_init ∷ event_loop_create ∷ []
needs id (set_hostname h) = create_wifi_ap ∷ []
needs id wifi_init = nvs_flash_init ∷ event_loop_create ∷ []
needs id register_wifi_event = event_loop_create ∷ []
needs id set_mode_ap = wifi_init ∷ []
needs id (set_config c) = set_mode_ap ∷ []
needs id wifi_start = create_wifi_ap ∷ set_config (wifi_config id) ∷ []
needs id mdns_init = netif_init ∷ event_loop_create ∷ []
needs id (mdns_hostname_set h) = mdns_init ∷ []
needs id (mdns_instance_name_set n) = mdns_init ∷ []
needs id get_ip_info = create_wifi_ap ∷ wifi_start ∷ []
needs id get_mac = wifi_init ∷ []
needs id (raop_create ip n mac l) =
    alloc_audio_buffer audio_buffer_size ∷ mdns_init ∷ get_ip_info ∷ get_mac ∷ []
needs id (httpd_start n) = netif_init ∷ wifi_start ∷ []
needs id (register_uri u h) = httpd_start 8192 ∷ []
needs id nvs_flash_init = []
needs id netif_init = []
needs id event_loop_create = []
needs id (alloc_audio_buffer n) = []

abbrev pub Occurs : Call → List Call → Type 0
Occurs c [] = ⊥
Occurs c (d ∷ ds) = (c ≡ d) ⊎ Occurs c ds

-- Every call stands behind those that it needs; `done` are the calls before, the last one first.
abbrev pub IsOrdered : Identity → List Call → List Call → Type 0
IsOrdered id done [] = Unit {0}
IsOrdered id done (c ∷ cs) = All (λ d. Occurs d done) (needs id c) × IsOrdered id (c ∷ done) cs

-- The same, and those that it needs have succeeded.
abbrev pub IsPrepared : (Call → Bool) → Identity → List Call → List Call → Type 0
IsPrepared ok id done [] = Unit {0}
IsPrepared ok id done (c ∷ cs) =
    All (λ d. Occurs d done × Succeeds ok d) (needs id c) × IsPrepared ok id (c ∷ done) cs

Occurs-Succeeds :
    (ok : Call → Bool) (c : Call) (done : List Call)
    → All (Succeeds ok) done
    → Occurs c done
    → Succeeds ok c
Occurs-Succeeds ok c [] h o = elim o [ ]
Occurs-Succeeds ok c (d ∷ ds) h (inl e) = ap ok e ∙ h.0
Occurs-Succeeds ok c (d ∷ ds) h (inr o) = Occurs-Succeeds ok c ds h.1 o

needed_succeeded :
    (ok : Call → Bool) (done cs : List Call)
    → All (Succeeds ok) done
    → All (λ d. Occurs d done) cs
    → All (λ d. Occurs d done × Succeeds ok d) cs
needed_succeeded ok done [] h o = tt
needed_succeeded ok done (c ∷ cs) h o =
    ((o.0, Occurs-Succeeds ok c done h o.0), needed_succeeded ok done cs h o.1)

run_checked-IsPrepared :
    (ok : Call → Bool) (id : Identity) (done calls : List Call)
    → All (Succeeds ok) done
    → IsOrdered id done calls
    → IsPrepared ok id done (run_checked ok calls).0
unfolding run_checked
run_checked-IsPrepared ok id done [] h o = tt
run_checked-IsPrepared ok id done (c ∷ cs) h o = elim (Bool-cases (ok c)) [
  | inl good ↦
      rw (good, run_checked)
        (
          needed_succeeded ok done (needs id c) h o.0,
          run_checked-IsPrepared ok id (c ∷ done) cs (good, h) o.1,
        )
  | inr bad ↦ rw (bad, run_checked) (needed_succeeded ok done (needs id c) h o.0, tt)
]

setup_calls-IsOrdered :
    (id : Identity) (a : Answers) → IsOrdered id [] (nvs_flash_init ∷ setup_calls id a)
unfolding setup_calls
setup_calls-IsOrdered id a = ground arith

-- Whatever the calls answer, the start makes each call only behind those that it needs by the
-- documentation of ESP-IDF, and these have succeeded by then: the network stack and the event loop
-- before an interface and mDNS, the flash before the radio, the radio before its mode and its
-- address, the mode before the configuration and that before the start, mDNS, the addresses and the
-- audio buffer before the AirPlay receiver, the network before the web server and that before its
-- pages. It makes all of its calls in order and reaches its loop, if all of them succeed; else it
-- makes those up to the first that fails, and none behind it. The USB device is initialised if and
-- only if the flash is.
pub app_main-IsPrepared :
    {F : Type 0} (id : Identity) (a : Answers) (s : Usb F)
    → let calls = nvs_flash_init ∷ setup_calls id a in
      IsPrepared a.ok id [] (app_main id a s).0.0
      × (IsUp a.ok calls (app_main id a s).0 ⊎ IsStopped a.ok calls (app_main id a s).0)
      × ((app_main id a s).1
          ≡ (if a.ok nvs_flash_init then (ipod_usb_init a.serial a.allocated a.created s).1 else s))
unfolding app_main
app_main-IsPrepared id a s = (
  rw (app_main-run_checked id a s) (
      run_checked-IsPrepared a.ok id [] (nvs_flash_init ∷ setup_calls id a) tt
        (setup_calls-IsOrdered id a)),
  rw (app_main-run_checked id a s) (run_checked-order a.ok (nvs_flash_init ∷ setup_calls id a)),
  elim (Bool-cases (a.ok nvs_flash_init)) [ inl good ↦ rw good refl | inr bad ↦ rw bad refl ],
)
