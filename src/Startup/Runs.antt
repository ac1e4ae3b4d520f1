-- ===== src/Startup/Runs.antt =====
-- The start of a receiver, and the access point of a name of 32 bytes.
use esp32_s3_car_adapter.Common.{◌≡◌, ◌⊎◌, arith, true, false, [], ◌∷◌, replicate, if◌then◌else◌}
use esp32_s3_car_adapter.Usb.Attach.{ipod_usb_init}
use esp32_s3_car_adapter.Usb.Runs.{booted}
use esp32_s3_car_adapter.Pages.Text.{codes}
use esp32_s3_car_adapter.Startup.{
  Identity, Answers, mdns_init, nvs_flash_init, setup_calls, wifi_config, app_main,
}
use esp32_s3_car_adapter.Startup.Wifi.{Announces, wifi_config-Announces}
use esp32_s3_car_adapter.Startup.Order.{IsUp, IsStopped, IsPrepared, app_main-IsPrepared}

abbrev long_name : Identity
long_name = record {
  adapter_name = codes "Volvo AirPlay";
  adapter_hostname = codes "volvo-airplay";
  adapter_ssid = replicate 32 0x41;
  adapter_password = codes "volvoaudio";
}

wifi_config-Announces_example : Announces long_name (wifi_config long_name)
wifi_config-Announces_example = wifi_config-Announces long_name (omega arith)

-- Everything succeeds but mDNS.
abbrev no_mdns : Answers
no_mdns = record {
  ok = λ c. elim c [ mdns_init ↦ false | _ ↦ true ];
  ip = 0x0104A8C0;
  mac = 2 ∷ 0 ∷ 0 ∷ 0 ∷ 0 ∷ 1 ∷ [];
  serial = codes "020000000001";
  allocated = true;
  created = true;
}

app_main-IsPrepared_example :
    let calls = nvs_flash_init ∷ setup_calls long_name no_mdns in
    IsPrepared no_mdns.ok long_name [] (app_main long_name no_mdns booted).0.0
    × (IsUp no_mdns.ok calls (app_main long_name no_mdns booted).0
        ⊎ IsStopped no_mdns.ok calls (app_main long_name no_mdns booted).0)
    × ((app_main long_name no_mdns booted).1 ≡ (
        if no_mdns.ok nvs_flash_init
        then (ipod_usb_init no_mdns.serial no_mdns.allocated no_mdns.created booted).1
        else booted))
app_main-IsPrepared_example = app_main-IsPrepared long_name no_mdns booted
