-- ===== src/Att/Serial.antt =====
-- The serial number that my_gatt_init of src/app_att.c makes.
use b80_key.Prelude.{
  ℕ, ◌+◌, ◌*◌, ◌/◌, ◌%◌, ◌≡◌, refl, ap₂, arith, bit_xor, List, [], ◌∷◌, ◌++◌, length, get_or, take,
  drop,
}
use b80_key.Printf.{tab_hex_ascii}
use b80_key.Printf.Numbers.{digit, digit_lem}
use b80_key.Eep.Log.{IsByte, All}
use b80_key.Eep.Config.{u32_of, u32_bytes}

-- str_bin2hex(d, s, len), with the bytes of s: what it writes to d
unfoldable pub str_bin2hex : List ℕ → List ℕ
str_bin2hex [] = []
str_bin2hex (b ∷ bs) =
    get_or tab_hex_ascii (b / 16 % 16) 0 ∷ get_or tab_hex_ascii (b % 16) 0 ∷ str_bin2hex bs

-- The xor of the four words of the UID
abbrev pub mixed_uid : List ℕ → List ℕ
mixed_uid uid = u32_bytes (
    bit_xor (bit_xor (bit_xor (u32_of uid) (u32_of (drop 4 uid))) (u32_of (drop 8 uid)))
      (u32_of (drop 12 uid)))

-- my_SerialStr, from the three registers of the chip (at 0x7f, 0x7e and 0x7d), the three bytes of
-- blc_flash_mid and the 16 bytes that the flash answers.
unfoldable pub my_serial_str : List ℕ → List ℕ → List ℕ → List ℕ
my_serial_str soc mid uid =
    str_bin2hex soc ++ 45 ∷ (str_bin2hex mid ++ 45 ∷ str_bin2hex (take 3 (mixed_uid uid)))

-- Two digits to a byte
unfoldable pub hex2bin : List ℕ → List ℕ
hex2bin (h ∷ l ∷ cs) = (digit h * 16 + digit l) ∷ hex2bin cs
hex2bin (h ∷ []) = []
hex2bin [] = []

pub hex2bin-str_bin2hex : (bs : List ℕ) → All IsByte bs → hex2bin (str_bin2hex bs) ≡ bs
unfolding hex2bin str_bin2hex
hex2bin-str_bin2hex [] p = refl
hex2bin-str_bin2hex (b ∷ bs) (p, ps) =
    let high = digit_lem (b / 16 % 16) (omega arith) in
    let low = digit_lem (b % 16) (omega arith) in
    ap₂ ◌∷◌ (omega (arith, high, low, p)) (hex2bin-str_bin2hex bs ps)

length-str_bin2hex : (bs : List ℕ) → length (str_bin2hex bs) ≡ 2 * length bs
unfolding str_bin2hex
length-str_bin2hex [] = refl
length-str_bin2hex (b ∷ bs) = omega (arith, length-str_bin2hex bs)

-- The serial number has 20 characters, as many as its buffer: its three parts read back are the bytes of
-- the chip, those of the flash and the lower three of the mixed UID.
pub my_serial_str_lem :
    (a0 a1 a2 b0 b1 b2 : ℕ) (uid : List ℕ)
    → let soc = a0 ∷ a1 ∷ a2 ∷ [] in
      let mid = b0 ∷ b1 ∷ b2 ∷ [] in
      All IsByte soc
      → All IsByte mid
      → let str = my_serial_str soc mid uid in
        (length str ≡ 20)
        × (hex2bin (take 6 str) ≡ soc)
        × (hex2bin (take 6 (drop 7 str)) ≡ mid)
        × (hex2bin (drop 14 str) ≡ take 3 (mixed_uid uid))
unfolding my_serial_str str_bin2hex
my_serial_str_lem a0 a1 a2 b0 b1 b2 uid ps qs = (
  refl,
  hex2bin-str_bin2hex (a0 ∷ a1 ∷ a2 ∷ []) ps,
  hex2bin-str_bin2hex (b0 ∷ b1 ∷ b2 ∷ []) qs,
  hex2bin-str_bin2hex (take 3 (mixed_uid uid)) (omega arith),
)
