-- ===== src/Iap/Command/Parse.antt =====
-- `parse_cmd`: what it accepts, and what it never accepts.
use esp32_s3_car_adapter.Common.{
  ℕ, ◌+◌, ◌/◌, ◌^◌, ◌<◌, ◌≡◌, refl, List, [], ◌∷◌, ◌++◌, arith, Bool, true, false, Option, none,
  some,
}
use esp32_s3_car_adapter.Common.{length, u8, ◌==◌, if◌then◌else◌}
use esp32_s3_car_adapter.Iap.Command.{
  with_trx, without_trx, RxCmd, Trx, Size, fixed, variable, cmd_sizes, find_size, split_cmd,
  parse_rest, parse_cmd, trx_track, lingo_extrem,
}

-- A command in wire form, without the limits of a buffer.
abbrev pub cmd_field : ℕ → ℕ → List ℕ
cmd_field lingo cmd = if lingo == lingo_extrem then u8 (cmd / 256) ∷ u8 cmd ∷ [] else u8 cmd ∷ []

abbrev pub trx_field : Bool → ℕ → List ℕ
trx_field has_trx trx = if has_trx then u8 (trx / 256) ∷ u8 trx ∷ [] else []

-- A command fits its field: two bytes in the ExtendedRemote lingo, one in any other.
abbrev pub FitsCmd : ℕ → ℕ → Type 0
FitsCmd lingo cmd = (cmd < 2 ^ 16) × ((lingo == lingo_extrem) ≡ false → cmd < 256)

split_cmd-wire :
    (lingo cmd : ℕ) (rest : List ℕ)
    → FitsCmd lingo cmd
    → split_cmd (lingo ∷ (cmd_field lingo cmd ++ rest)) ≡ some (lingo, cmd, rest)
unfolding split_cmd
split_cmd-wire lingo cmd [] h = ground arith
split_cmd-wire lingo cmd (x ∷ xs) h = ground arith

parse_rest-wire :
    (enabled has_trx : Bool) (lingo cmd trx : ℕ) (payload : List ℕ)
    → trx < 2 ^ 16
    → length payload + 2 < 2 ^ 16
    → parse_rest enabled lingo cmd
        (trx_field has_trx trx ++ payload)
        (some (fixed (length payload)))
      ≡ some (record {
        lingo = lingo;
        cmd = cmd;
        has_trx = has_trx;
        trx = if has_trx then trx else 0;
        p = payload;
      })
unfolding parse_rest with_trx without_trx
parse_rest-wire enabled true lingo cmd trx payload ht hp = ground arith
parse_rest-wire enabled false lingo cmd trx payload ht hp = ground arith

-- parse_cmd reads back any command of the table with a payload of its fixed size, with a
-- transaction or without, and whether or not transactions are on; the tracking takes note of it.
-- The command and the transaction fit their fields, and the payload is below 65534 bytes.
pub parse_cmd-wire :
    (t : Trx) (has_trx : Bool) (lingo cmd trx : ℕ) (payload : List ℕ)
    → FitsCmd lingo cmd
    → trx < 2 ^ 16
    → length payload + 2 < 2 ^ 16
    → find_size lingo cmd cmd_sizes ≡ some (fixed (length payload))
    → parse_cmd (lingo ∷ (cmd_field lingo cmd ++ (trx_field has_trx trx ++ payload))) t
      ≡ some (
        record {
          lingo = lingo;
          cmd = cmd;
          has_trx = has_trx;
          trx = if has_trx then trx else 0;
          p = payload;
        },
        trx_track lingo cmd t,
      )
unfolding parse_cmd
parse_cmd-wire t has_trx lingo cmd trx payload hc ht hp e = rw (
  split_cmd-wire lingo cmd (trx_field has_trx trx ++ payload) hc,
  e,
  parse_rest-wire t.enabled has_trx lingo cmd trx payload ht hp,
  parse_cmd,
)

-- A command that the table does not hold is never accepted, whatever follows it.
pub parse_cmd-unknown :
    (t : Trx) (lingo cmd : ℕ) (rest : List ℕ)
    → FitsCmd lingo cmd
    → find_size lingo cmd cmd_sizes ≡ none
    → parse_cmd (lingo ∷ (cmd_field lingo cmd ++ rest)) t ≡ none
unfolding parse_cmd parse_rest
parse_cmd-unknown t lingo cmd rest hc e = rw (split_cmd-wire lingo cmd rest hc, e, parse_cmd)

-- parse_cmd refuses the General command 0x1A and the ExtendedRemote commands 0x0002 and 0x0005 with
-- any payload, since cmd_sizes has no entry for them.
pub parse_cmd_dead_cases :
    (t : Trx) (rest : List ℕ)
    → (parse_cmd (0x00 ∷ 0x1A ∷ rest) t ≡ none)
      × (parse_cmd (0x04 ∷ 0x00 ∷ 0x02 ∷ rest) t ≡ none)
      × (parse_cmd (0x04 ∷ 0x00 ∷ 0x05 ∷ rest) t ≡ none)
unfolding find_size cmd_sizes
parse_cmd_dead_cases t rest = (
  parse_cmd-unknown t 0x00 0x1A rest (omega arith, λ e. omega arith) refl,
  parse_cmd-unknown t 0x04 0x02 rest (omega arith, λ e. cc) refl,
  parse_cmd-unknown t 0x04 0x05 rest (omega arith, λ e. cc) refl,
)

pub parse_rest-fields :
    (enabled : Bool) (lingo cmd : ℕ) (rest : List ℕ) (size : Option Size) (c : RxCmd)
    → parse_rest enabled lingo cmd rest size ≡ some c
    → (c.lingo ≡ lingo) × (c.cmd ≡ cmd)
unfolding parse_rest with_trx without_trx
parse_rest-fields enabled lingo cmd rest (some (fixed n)) c e = ground arith
parse_rest-fields enabled lingo cmd rest (some variable) c e = ground arith
parse_rest-fields enabled lingo cmd rest none c e = cc

-- What `parse_cmd` does to the tracking.
pub parse_cmd-trx_track :
    (pkt : List ℕ) (t t' : Trx) (c : RxCmd)
    → parse_cmd pkt t ≡ some (c, t')
    → t' ≡ trx_track c.lingo c.cmd t
unfolding parse_cmd
parse_cmd-trx_track pkt t t' c e = grind (arith, parse_rest-fields)
