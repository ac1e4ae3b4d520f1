-- ===== src/Startup.antt =====
-- The start of the program, `app_main` of main.c, and its Wi-Fi event handler. The calls of ESP-IDF,
-- mDNS, the web server and the AirPlay receiver are values; their answers are a parameter.
use Prim.Native.String.{String}
use esp32_s3_car_adapter.Common.{
  ℕ, ◌*◌, ◌-◌, Bool, true, false, List, [], ◌∷◌, ◌++◌, Option, some, none, u8, leb, ◌==◌,
  if◌then◌else◌, length, take, replicate,
}
use esp32_s3_car_adapter.Usb.Device.{Usb}
use esp32_s3_car_adapter.Usb.Attach.{ipod_usb_init}
use esp32_s3_car_adapter.Pages.Text.{codes}
pub mod Wifi
pub mod Order
mod Runs

-- `CONFIG_ADAPTER_NAME`, `CONFIG_ADAPTER_HOSTNAME`, `CONFIG_ADAPTER_SSID` and
-- `CONFIG_ADAPTER_PASSWORD`, which the build sets.
pub record Identity : Type 0 where
  pub adapter_name : List ℕ
  pub adapter_hostname : List ℕ
  pub adapter_ssid : List ℕ
  pub adapter_password : List ℕ

pub data AuthMode : Type 0 where
  wpa2_psk authmode_none : AuthMode

-- `wifi_config_t`: the fields of `ap` that the program sets; the others stay 0. `ssid` has 32 bytes
-- and `password` 64.
pub record WifiConfig : Type 0 where
  pub ssid : List ℕ
  pub ssid_len : ℕ
  pub password : List ℕ
  pub channel : ℕ
  pub max_connection : ℕ
  pub authmode : AuthMode

-- A buffer of `size` bytes, cleared, in which `snprintf` has written `s`.
abbrev pub print_buffer : ℕ → List ℕ → List ℕ
print_buffer size s = let kept = take (size - 1) s in kept ++ replicate (size - length kept) 0

unfoldable pub wifi_config : Identity → WifiConfig
wifi_config id = record {
  ssid = print_buffer 32 id.adapter_ssid;
  ssid_len = u8 (length id.adapter_ssid);
  password = print_buffer 64 id.adapter_password;
  channel = 6;
  max_connection = 3;
  authmode = if leb 8 (length id.adapter_password) then wpa2_psk else authmode_none;
}

pub data Handler : Type 0 where
  status_page tone_page reboot_page : Handler

-- A call that ends the program where it fails. `raop_create` has the address, the name, the MAC and
-- the latency; `register_uri` the path of a GET request.
pub data Call : Type 0 where
  nvs_flash_init netif_init event_loop_create create_wifi_ap wifi_init register_wifi_event : Call
  alloc_audio_buffer : ℕ → Call
  set_hostname : List ℕ → Call
  set_mode_ap wifi_start mdns_init get_ip_info get_mac : Call
  set_config : WifiConfig → Call
  mdns_hostname_set : List ℕ → Call
  mdns_instance_name_set : List ℕ → Call
  raop_create : ℕ → List ℕ → List ℕ → ℕ → Call
  httpd_start : ℕ → Call
  register_uri : List ℕ → Handler → Call

-- What the calls answer: `ok` of a call whether it succeeds, `ip` and `mac` what `get_ip_info` and
-- `get_mac` fill in; the others are the arguments of `ipod_usb_init`.
pub record Answers : Type 0 where
  pub ok : Call → Bool
  pub ip : ℕ
  pub mac : List ℕ
  pub serial : List ℕ
  pub allocated : Bool
  pub created : Bool

-- `audio_buffer_size`
abbrev pub audio_buffer_size : ℕ
audio_buffer_size = 768 * 1024

-- The calls behind `ipod_usb_init`, in order.
unfoldable pub setup_calls : Identity → Answers → List Call
setup_calls id a =
    alloc_audio_buffer audio_buffer_size
    ∷ netif_init
    ∷ event_loop_create
    ∷ create_wifi_ap
    ∷ set_hostname id.adapter_hostname
    ∷ wifi_init
    ∷ register_wifi_event
    ∷ set_mode_ap
    ∷ set_config (wifi_config id)
    ∷ wifi_start
    ∷ mdns_init
    ∷ mdns_hostname_set id.adapter_hostname
    ∷ mdns_instance_name_set id.adapter_name
    ∷ get_ip_info
    ∷ get_mac
    ∷ raop_create a.ip id.adapter_name a.mac 0
    ∷ httpd_start 8192
    ∷ register_uri (codes "/") status_page
    ∷ register_uri (codes "/tone") tone_page
    ∷ register_uri (codes "/reboot") reboot_page
    ∷ []

-- `ESP_ERROR_CHECK` and `assert`: the calls that are made, and whether all of them succeeded.
unfoldable pub run_checked : (Call → Bool) → List Call → List Call × Bool
run_checked ok [] = ([], true)
run_checked ok (c ∷ cs) =
    let (made, up) = run_checked ok cs in if ok c then (c ∷ made, up) else (c ∷ [], false)

module _ {F : Type 0} where
  -- `app_main` up to its loop, which only logs: the calls, whether the loop is reached, and the state
  -- of the USB device.
  unfoldable pub app_main : Identity → Answers → Usb F → (List Call × Bool) × Usb F
  app_main id a s =
      let (made, up) = run_checked a.ok (setup_calls id a) in
      if a.ok nvs_flash_init
      then ((nvs_flash_init ∷ made, up), (ipod_usb_init a.serial a.allocated a.created s).1)
      else ((nvs_flash_init ∷ [], false), s)

-- `WIFI_EVENT_AP_STACONNECTED` and `WIFI_EVENT_AP_STADISCONNECTED`.
pub record WifiEvents : Type 0 where
  pub staconnected : ℕ
  pub stadisconnected : ℕ

-- The lines that are logged for event `id`.
abbrev pub wifi_event : WifiEvents → ℕ → List String
wifi_event ev id =
    (if id == ev.staconnected then "Wi-Fi client joined" ∷ [] else [])
    ++ (if id == ev.stadisconnected then "Wi-Fi client left" ∷ [] else [])
