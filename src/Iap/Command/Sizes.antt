-- ===== src/Iap/Command/Sizes.antt =====
-- The table `cmd_sizes` of iap.c: the payload sizes of the commands that are understood.
use esp32_s3_car_adapter.Common.{ℕ, ◌&&◌, List, [], ◌∷◌, Option, none, some, ◌==◌, if◌then◌else◌}

-- The `size` of an entry: `variable` is -1.
pub data Size : Type 0 where
  fixed : ℕ → Size
  variable : Size

-- `cmd_size_t`
pub record CmdSize : Type 0 where
  pub lingo : ℕ
  pub cmd : ℕ
  pub size : Size

abbrev entry : ℕ → ℕ → Size → CmdSize
entry lingo cmd size = record { lingo = lingo; cmd = cmd; size = size }

unfoldable pub cmd_sizes : List CmdSize
cmd_sizes =
    entry 0x00 0x00 (fixed 0)
    ∷ entry 0x00 0x02 (fixed 2)
    ∷ entry 0x00 0x03 (fixed 0)
    ∷ entry 0x00 0x05 (fixed 0)
    ∷ entry 0x00 0x06 (fixed 0)
    ∷ entry 0x00 0x07 (fixed 0)
    ∷ entry 0x00 0x09 (fixed 0)
    ∷ entry 0x00 0x0B (fixed 0)
    ∷ entry 0x00 0x0D (fixed 0)
    ∷ entry 0x00 0x0F (fixed 1)
    ∷ entry 0x00 0x11 (fixed 0)
    ∷ entry 0x00 0x13 (fixed 12)
    ∷ entry 0x00 0x15 variable
    ∷ entry 0x00 0x18 variable
    ∷ entry 0x00 0x1C (fixed 1)
    ∷ entry 0x00 0x1D (fixed 21)
    ∷ entry 0x00 0x1F (fixed 1)
    ∷ entry 0x00 0x24 (fixed 0)
    ∷ entry 0x00 0x28 variable
    ∷ entry 0x00 0x29 (fixed 1)
    ∷ entry 0x00 0x2B (fixed 3)
    ∷ entry 0x00 0x35 (fixed 0)
    ∷ entry 0x00 0x37 (fixed 1)
    ∷ entry 0x00 0x38 (fixed 0)
    ∷ entry 0x00 0x39 variable
    ∷ entry 0x00 0x3B (fixed 1)
    ∷ entry 0x00 0x46 (fixed 4)
    ∷ entry 0x00 0x48 variable
    ∷ entry 0x00 0x49 (fixed 8)
    ∷ entry 0x00 0x4B (fixed 1)
    ∷ entry 0x00 0x4D (fixed 0)
    ∷ entry 0x00 0x50 (fixed 5)
    ∷ entry 0x00 0x54 (fixed 2)
    ∷ entry 0x00 0x64 variable
    ∷ entry 0x00 0x65 (fixed 0)
    ∷ entry 0x00 0x41 (fixed 1)
    ∷ entry 0x00 0x42 variable
    ∷ entry 0x00 0x43 variable
    ∷ entry 0x04 0x01 (fixed 2)
    ∷ entry 0x0A 0x00 (fixed 2)
    ∷ entry 0x0A 0x01 (fixed 2)
    ∷ entry 0x0A 0x03 variable
    ∷ entry 0x04 0x04 (fixed 0)
    ∷ entry 0x04 0x07 (fixed 4)
    ∷ entry 0x04 0x09 (fixed 0)
    ∷ entry 0x04 0x0B (fixed 1)
    ∷ entry 0x04 0x0C (fixed 7)
    ∷ entry 0x04 0x0E (fixed 0)
    ∷ entry 0x04 0x10 (fixed 6)
    ∷ entry 0x04 0x16 (fixed 0)
    ∷ entry 0x04 0x17 (fixed 5)
    ∷ entry 0x04 0x18 (fixed 1)
    ∷ entry 0x04 0x1A (fixed 5)
    ∷ entry 0x04 0x1C (fixed 0)
    ∷ entry 0x04 0x1E (fixed 0)
    ∷ entry 0x04 0x20 (fixed 4)
    ∷ entry 0x04 0x22 (fixed 4)
    ∷ entry 0x04 0x24 (fixed 4)
    ∷ entry 0x04 0x26 (fixed 4)
    ∷ entry 0x04 0x28 (fixed 4)
    ∷ entry 0x04 0x29 (fixed 1)
    ∷ entry 0x04 0x2A (fixed 8)
    ∷ entry 0x04 0x2C (fixed 0)
    ∷ entry 0x04 0x2E (fixed 1)
    ∷ entry 0x04 0x2F (fixed 0)
    ∷ entry 0x04 0x31 (fixed 1)
    ∷ entry 0x04 0x32 variable
    ∷ entry 0x04 0x33 (fixed 0)
    ∷ entry 0x04 0x35 (fixed 0)
    ∷ entry 0x04 0x37 (fixed 4)
    ∷ entry 0x04 0x38 (fixed 5)
    ∷ entry 0x04 0x39 (fixed 0)
    ∷ entry 0x04 0x3B (fixed 1)
    ∷ entry 0x04 0x3C (fixed 0)
    ∷ entry 0x04 0x3E (fixed 0)
    ∷ entry 0x04 0x40 (fixed 0)
    ∷ entry 0x04 0x42 (fixed 0)
    ∷ entry 0x02 0x00 (fixed 1)
    ∷ []

-- The loop of `parse_cmd` over the table: the first entry counts, and `none` is its -2.
unfoldable pub find_size : ℕ → ℕ → List CmdSize → Option Size
find_size lingo cmd [] = none
find_size lingo cmd (e ∷ es) =
    if e.lingo == lingo && e.cmd == cmd then some e.size else find_size lingo cmd es
