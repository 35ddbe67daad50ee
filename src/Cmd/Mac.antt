-- ===== src/Cmd/Mac.antt =====
-- The address of the device, which a command of src/app_cmd.c changes.
use b80_key.Prelude.{ℕ, ◌%◌, ◌≡◌}
use b80_key.Prelude.{List, ◌∷◌, ◌++◌, if◌then◌else◌, take}
use b80_key.Flash.{Mem, Flash, sector_size}
use b80_key.Eep.Config.{same_bytes}
use b80_key.Cmd.{Request, Chip, write_mac}

-- The command with an address of six bytes
abbrev pub mac_request : ℕ → ℕ → ℕ → ℕ → ℕ → ℕ → List ℕ → Request
mac_request b0 b1 b2 b3 b4 b5 rest = record {
  l2cap_len = 11;
  dat = 0x10 ∷ 6 ∷ b0 ∷ b1 ∷ b2 ∷ b3 ∷ b4 ∷ b5 ∷ rest;
}

module _ (d : Flash) (v : Chip) (aligned : v.mac_sector % sector_size ≡ 0) where
  -- change_mac for an address of six bytes, as far as the memory goes
  abbrev changed : List ℕ → Mem → Mem
  changed mac m =
      if same_bytes (take 6 (d.read_page m v.mac_sector 8)) mac
      then m
      else write_mac d v (mac ++ v.random) m
