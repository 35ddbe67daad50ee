-- ===== src/Flash.antt =====
-- The flash chip as the application sees it: the three driver calls of sdk_ble/drivers/flash.c
-- (flash_read_page, flash_write_page, flash_erase_sector) over a memory of bytes. The driver is
-- the vendor's, so the calls are fields, with the documented behaviour of a NOR flash as laws.
use b80_key.Prelude.{
  ℕ, zero, suc, ◌+◌, ◌/◌, ◌≤◌, ◌<◌, ◌≡◌, ◌≢◌, ◌⊎◌, refl, ap, List, [], ◌∷◌, bit_and,
}
use b80_key.Prelude.{length, get_or}

-- One byte for each address.
abbrev pub Mem : Type 0
Mem = ℕ → ℕ

abbrev pub sector_size : ℕ
sector_size = 4096

abbrev pub bytes_at : Mem → ℕ → ℕ → List ℕ
bytes_at m a zero = []
bytes_at m a (suc n) = m a ∷ bytes_at m (a + 1) n

pub length-bytes_at : (m : Mem) (a n : ℕ) → length (bytes_at m a n) ≡ n
length-bytes_at m a zero = refl
length-bytes_at m a (suc n) = ap suc (length-bytes_at m (a + 1) n)

pub record Flash : Type 0 where
  -- flash_read_page(addr, len, buf), flash_write_page(addr, len, buf), flash_erase_sector(addr)
  pub read_page : Mem → ℕ → ℕ → List ℕ
  pub write_page : Mem → ℕ → List ℕ → Mem
  pub erase_sector : Mem → ℕ → Mem
  pub read_lem : (m : Mem) (a n : ℕ) → read_page m a n ≡ bytes_at m a n
  -- Programming clears bits and sets none.
  pub write_inside :
      (m : Mem) (a : ℕ) (bs : List ℕ) (i : ℕ)
      → i < length bs
      → write_page m a bs (a + i) ≡ bit_and (m (a + i)) (get_or bs i 0)
  pub write_outside :
      (m : Mem) (a : ℕ) (bs : List ℕ) (x : ℕ)
      → (x < a) ⊎ (a + length bs ≤ x)
      → write_page m a bs x ≡ m x
  pub erase_inside :
      (m : Mem) (a x : ℕ) → x / sector_size ≡ a / sector_size → erase_sector m a x ≡ 255
  pub erase_outside :
      (m : Mem) (a x : ℕ) → x / sector_size ≢ a / sector_size → erase_sector m a x ≡ m x
