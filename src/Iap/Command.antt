-- ===== src/Iap/Command.antt =====
-- Commands in iap.c: the buffer that a reply is built in, the tracking of transactions, and
-- `parse_cmd`.
use esp32_s3_car_adapter.Common.{
  ℕ, ◌+◌, ◌-◌, ◌*◌, ◌/◌, ◌%◌, ◌^◌, Bool, true, false, ◌&&◌, ◌||◌, not, List, [], ◌∷◌, ◌++◌, Option,
  none, some,
}
use esp32_s3_car_adapter.Common.{
  ltb, leb, ◌==◌, if◌then◌else◌, differ, length, get_or, drop, u8, u16, u32,
}
use mathlib.Core.List.{foldl}
mod Sizes
pub mod Buffer
pub mod Parse
pub use Sizes.{Size, CmdSize, fixed, variable}
unfoldable pub use Sizes.{cmd_sizes, find_size}

-- `LINGO_GENERAL` and the others
abbrev pub lingo_general : ℕ
lingo_general = 0x00

abbrev pub lingo_simplerem : ℕ
lingo_simplerem = 0x02

abbrev pub lingo_disprem : ℕ
lingo_disprem = 0x03

abbrev pub lingo_extrem : ℕ
lingo_extrem = 0x04

abbrev pub lingo_audio : ℕ
lingo_audio = 0x0A

-- `cmd_buf_t`: the list is `b[0..n)`.
abbrev pub CmdBuf : Type 0
CmdBuf = List ℕ

-- `CMD_BUF`
abbrev pub cmd_buf_size : ℕ
cmd_buf_size = 512

unfoldable pub put_u8 : CmdBuf → ℕ → CmdBuf
put_u8 c v = if ltb (length c) cmd_buf_size then c ++ v ∷ [] else c

unfoldable pub put_u16 : CmdBuf → ℕ → CmdBuf
put_u16 c v = put_u8 (put_u8 c (u8 (v / 256))) (u8 v)

unfoldable pub put_u32 : CmdBuf → ℕ → CmdBuf
put_u32 c v = put_u16 (put_u16 c (u16 (v / 2 ^ 16))) (u16 v)

unfoldable pub put_u64 : CmdBuf → ℕ → CmdBuf
put_u64 c v = put_u32 (put_u32 c (u32 (v / 2 ^ 32))) (u32 v)

-- The loop stops where the buffer is full, and `put_u8` changes nothing from there on.
unfoldable pub put_bytes : CmdBuf → List ℕ → CmdBuf
put_bytes c [] = c
put_bytes c (x ∷ xs) = put_bytes (put_u8 c x) xs

-- A C string is the list of its bytes before the 0.
unfoldable pub put_cstr : CmdBuf → List ℕ → CmdBuf
put_cstr c s = put_u8 (put_bytes c s) 0

-- `trx_enabled` and `trx_counter`
pub record Trx : Type 0 where
  pub enabled : Bool
  pub counter : ℕ

unfoldable pub trx_track : ℕ → ℕ → Trx → Trx
trx_track lingo cmd t =
    let enabled' =
      if cmd == 0x00 || cmd == 0x13 then false else if cmd == 0x38 then true else t.enabled in
    if not (lingo == lingo_general)
    then t
    else if differ t.enabled enabled'
    then record { enabled = enabled'; counter = 0 }
    else t

unfoldable pub next_trx : Trx → ℕ × Trx
next_trx t = let n = u32 (t.counter + 1) in (u16 n, record t { counter = n })

-- `rx_cmd_t`: the list is `p[0..len)`.
pub record RxCmd : Type 0 where
  pub lingo : ℕ
  pub cmd : ℕ
  pub has_trx : Bool
  pub trx : ℕ
  pub p : List ℕ

-- Two bytes, highest first.
abbrev pub be16 : ℕ → ℕ → ℕ
be16 hi lo = u16 (hi * 256 + lo)

with_trx : ℕ → ℕ → List ℕ → RxCmd
with_trx lingo cmd rest = record {
  lingo = lingo;
  cmd = cmd;
  has_trx = true;
  trx = be16 (get_or rest 0 0) (get_or rest 1 0);
  p = drop 2 rest;
}

without_trx : ℕ → ℕ → List ℕ → RxCmd
without_trx lingo cmd rest = record { lingo = lingo; cmd = cmd; has_trx = false; trx = 0; p = rest }

-- The bytes behind the command: with a transaction or without, or `none` where `parse_cmd` fails.
unfoldable pub parse_rest : Bool → ℕ → ℕ → List ℕ → Option Size → Option RxCmd
unfolding with_trx without_trx
parse_rest enabled lingo cmd rest (some (fixed want)) =
    if length rest == u16 (want + 2)
    then some (with_trx lingo cmd rest)
    else if length rest == want
    then some (without_trx lingo cmd rest)
    else none
parse_rest enabled lingo cmd rest (some variable) =
    if enabled && leb 2 (length rest)
    then some (with_trx lingo cmd rest)
    else some (without_trx lingo cmd rest)
parse_rest enabled lingo cmd rest none = none

-- The lingo, the command and the bytes behind it.
unfoldable pub split_cmd : List ℕ → Option (ℕ × ℕ × List ℕ)
split_cmd [] = none
split_cmd (lingo ∷ []) = none
split_cmd (lingo ∷ a ∷ []) = if lingo == lingo_extrem then none else some (lingo, a, [])
split_cmd (lingo ∷ a ∷ b ∷ rest) =
    if lingo == lingo_extrem then some (lingo, be16 a b, rest) else some (lingo, a, b ∷ rest)

-- `none` is `false`, which leaves the tracking as it is.
unfoldable pub parse_cmd : List ℕ → Trx → Option (RxCmd × Trx)
parse_cmd pkt t = elim (split_cmd pkt) [
  | none ↦ none
  | some (lingo, cmd, rest) ↦
      elim (parse_rest t.enabled lingo cmd rest (find_size lingo cmd cmd_sizes)) [
        | none ↦ none
        | some c ↦ some (c, trx_track lingo cmd t)
      ]
]
