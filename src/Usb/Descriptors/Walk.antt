-- ===== src/Usb/Descriptors/Walk.antt =====
-- The configuration as a host reads it: descriptor by descriptor.
use mathlib.Core.Path.{fun_ext, ap₂, subst}
use esp32_s3_car_adapter.Common.{
  ℕ, zero, suc, ◌+◌, ◌*◌, ◌/◌, ◌^◌, ◌≡◌, ◌≢◌, refl, sym, ap, All, ◌||◌, List, [], ◌∷◌, Option, none,
  some, arith,
}
use esp32_s3_car_adapter.Common.{ltb, ◌==◌, if◌then◌else◌, length, take, drop, get_or, u8}
use mathlib.Core.Option
use esp32_s3_car_adapter.Usb.Descriptors.{TusbDesc, desc_config, hid_report_desc}

-- The descriptors of a byte sequence, each as long as its first byte says; `none` where that is
-- less than 2 or more than is left. A descriptor has a byte or more, so the length is fuel enough.
walk_loop : ℕ → List ℕ → Option (List (List ℕ))
walk_loop zero bytes = none
walk_loop (suc fuel) [] = some []
walk_loop (suc fuel) (n ∷ bytes) =
    let rest = walk_loop fuel (drop n (n ∷ bytes)) in
    if ltb n 2 || ltb (length (n ∷ bytes)) n
    then none
    else Option.map (λ ds. take n (n ∷ bytes) ∷ ds) rest

unfoldable pub walk : List ℕ → Option (List (List ℕ))
unfolding walk_loop
walk bytes = walk_loop (suc (length bytes)) bytes

-- Two bytes, lowest first.
abbrev pub le16 : ℕ → List ℕ
le16 x = u8 x ∷ u8 (x / 2 ^ 8) ∷ []

abbrev pub le_at : List ℕ → ℕ → ℕ
le_at d i = get_or d i 0 + get_or d (i + 1) 0 * 2 ^ 8

-- An interface setting: its number, the number of endpoints that it states, and how many endpoint
-- descriptors follow it before the next one.
pub record Setting : Type 0 where
  pub number : ℕ
  pub stated : ℕ
  pub counted : ℕ

-- What a host looks for.
pub data Kind : Type 0 where
  interface endpoint class_specific other_kind : Kind

unfoldable pub kind : TusbDesc → ℕ → Kind
kind t k =
    if k == t.desc_interface
    then interface
    else if k == t.desc_endpoint
    then endpoint
    else if k == t.desc_cs_interface
    then class_specific
    else other_kind

abbrev kinds : TusbDesc → List (List ℕ) → List Kind
kinds t [] = []
kinds t (d ∷ ds) = kind t (get_or d 1 0) ∷ kinds t ds

-- The count is added to the setting at the head.
abbrev count_endpoint : List Setting → List Setting
count_endpoint [] = []
count_endpoint (s ∷ ss) = record s { counted = s.counted + 1 } ∷ ss

abbrev settings_loop : List Setting → List Kind → List (List ℕ) → List Setting
settings_loop acc [] ds = acc
settings_loop acc (k ∷ ks) [] = acc
settings_loop acc (interface ∷ ks) (d ∷ ds) =
    settings_loop (record { number = get_or d 2 0; stated = get_or d 4 0; counted = 0 } ∷ acc) ks ds
settings_loop acc (endpoint ∷ ks) (d ∷ ds) = settings_loop (count_endpoint acc) ks ds
settings_loop acc (class_specific ∷ ks) (d ∷ ds) = settings_loop acc ks ds
settings_loop acc (other_kind ∷ ks) (d ∷ ds) = settings_loop acc ks ds

-- The settings, last first.
unfoldable pub settings : TusbDesc → List (List ℕ) → List Setting
settings t ds = settings_loop [] (kinds t ds) ds

abbrev cs_loop : List Kind → List (List ℕ) → ℕ
cs_loop [] ds = 0
cs_loop (k ∷ ks) [] = 0
cs_loop (class_specific ∷ ks) (d ∷ ds) = length d + cs_loop ks ds
cs_loop (interface ∷ ks) (d ∷ ds) = 0
cs_loop (endpoint ∷ ks) (d ∷ ds) = 0
cs_loop (other_kind ∷ ks) (d ∷ ds) = 0

-- The bytes of the class-specific descriptors at the front.
unfoldable pub cs_bytes : TusbDesc → List (List ℕ) → ℕ
cs_bytes t ds = cs_loop (kinds t ds) ds

abbrev pub map_number : List Setting → List ℕ
map_number [] = []
map_number (s ∷ ss) = s.number ∷ map_number ss

-- The types of descriptors that are looked for differ from all others of the configuration.
pub record AreDistinct (t : TusbDesc) : Type 0 where
  pub conf_itf : t.desc_configuration ≢ t.desc_interface
  pub conf_ep : t.desc_configuration ≢ t.desc_endpoint
  pub conf_cs : t.desc_configuration ≢ t.desc_cs_interface
  pub ep_itf : t.desc_endpoint ≢ t.desc_interface
  pub cs_itf : t.desc_cs_interface ≢ t.desc_interface
  pub cs_ep : t.desc_cs_interface ≢ t.desc_endpoint
  pub cs_ep_itf : t.desc_cs_endpoint ≢ t.desc_interface
  pub cs_ep_ep : t.desc_cs_endpoint ≢ t.desc_endpoint
  pub cs_ep_cs : t.desc_cs_endpoint ≢ t.desc_cs_interface
  pub hid_itf : 0x21 ≢ t.desc_interface
  pub hid_ep : 0x21 ≢ t.desc_endpoint
  pub hid_cs : 0x21 ≢ t.desc_cs_interface

-- What the configuration says of itself: its descriptors fill it, its length is the one that it
-- states, each setting has as many endpoints as it states, the HID descriptor states the length of
-- the report descriptor, and the header of audio control states 39 bytes where the descriptors
-- that it heads take 30.
pub record Reads (t : TusbDesc) (bytes : List ℕ) (ds : List (List ℕ)) : Type 0 where
  pub split : walk bytes ≡ some ds
  pub total : le_at bytes 2 ≡ length bytes
  pub endpoints : All (λ (s : Setting). s.stated ≡ s.counted) (settings t ds)
  pub numbers : map_number (settings t ds) ≡ 2 ∷ 1 ∷ 1 ∷ 0 ∷ []
  pub interfaces : get_or bytes 4 0 ≡ 3
  pub report_length : le_at (get_or ds 12 []) 7 ≡ length hid_report_desc
  pub header_states : le_at (get_or ds 2 []) 5 ≡ 39
  pub header_heads : cs_bytes t (drop 2 ds) ≡ 30

module _ (t : TusbDesc) where
  kind-interface : kind t t.desc_interface ≡ interface
  unfolding kind
  kind-interface = ground arith

  module _ (v : AreDistinct t) where
    kind-endpoint : kind t t.desc_endpoint ≡ endpoint
    unfolding kind
    kind-endpoint = ground (arith, v.ep_itf)

    kind-cs : kind t t.desc_cs_interface ≡ class_specific
    unfolding kind
    kind-cs = ground (arith, v.cs_itf, v.cs_ep)

    kind-other :
        (k : ℕ)
        → k ≢ t.desc_interface
        → k ≢ t.desc_endpoint
        → k ≢ t.desc_cs_interface
        → kind t k ≡ other_kind
    unfolding kind
    kind-other k a b c = ground (arith, a, b, c)

    found : List (List ℕ)
    unfolding walk
    found = elim (walk (desc_config le16 t)) [ none ↦ [] | some ds ↦ ds ]

    kinds-found :
        kinds t found
        ≡ other_kind ∷ interface ∷ class_specific ∷ class_specific ∷ class_specific ∷ interface
          ∷ interface ∷ class_specific ∷ class_specific ∷ endpoint ∷ other_kind ∷ interface
          ∷ other_kind ∷ endpoint ∷ []
    unfolding found walk
    kinds-found =
        let conf = kind-other _ v.conf_itf v.conf_ep v.conf_cs in
        let cs_ep = kind-other _ v.cs_ep_itf v.cs_ep_ep v.cs_ep_cs in
        let hid = kind-other 0x21 v.hid_itf v.hid_ep v.hid_cs in
        let itf = kind-interface in
        cons conf (
          cons itf (
            cons kind-cs (
              cons kind-cs (
                cons kind-cs (
                  cons itf (
                    cons itf (
                      cons kind-cs (
                        cons kind-cs (
                          cons kind-endpoint
                            (cons cs_ep (cons itf (cons hid (cons kind-endpoint refl)))))))))))))
      where
        cons : {k k' : Kind} {ks ks' : List Kind} → k ≡ k' → ks ≡ ks' → k ∷ ks ≡ k' ∷ ks'
        cons e f = ap₂ (λ k ks. k ∷ ks) e f

    Reads-le16 : Reads t (desc_config le16 t) found
    unfolding found walk settings cs_bytes
    Reads-le16 = record {
      split = refl;
      total = refl;
      endpoints =
          subst (λ ks. All (λ (s : Setting). s.stated ≡ s.counted) (settings_loop [] ks found))
            (sym kinds-found) (refl, (refl, (refl, (refl, tt))));
      numbers = ap (λ ks. map_number (settings_loop [] ks found)) kinds-found;
      interfaces = refl;
      report_length = refl;
      header_states = refl;
      header_heads = ap (λ ks. cs_loop (drop 2 ks) (drop 2 found)) kinds-found;
    }

-- Whatever the constants of TinyUSB are, where its macro gives the bytes of a number, lowest first,
-- and its descriptor types differ, a host reads desc_config to its end: its descriptors fill it,
-- its length is the one that it states, each setting has as many endpoints as it states, the HID
-- descriptor states the length of the report descriptor, and the header of audio control states 39
-- bytes where the descriptors that it heads take 30.
pub desc_config-Reads :
    (u16_to_u8s_le : ℕ → List ℕ) (t : TusbDesc)
    → ((x : ℕ) → u16_to_u8s_le x ≡ le16 x)
    → AreDistinct t
    → (ds : List (List ℕ)) × Reads t (desc_config u16_to_u8s_le t) ds
desc_config-Reads f t h v = let e : f ≡ le16 = fun_ext h in rw e (found t v, Reads-le16 t v)
