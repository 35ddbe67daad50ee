-- ===== src/Bthome/Decode.antt =====
-- What a receiver reads from the plain packets of src/bthome_beacon.c.
use b80_key.Prelude.{ℕ, zero, suc, ◌+◌, ◌*◌, ◌%◌, ◌^◌, ◌≤◌, ◌<◌, ◌≡◌, refl, arith}
use b80_key.Prelude.{
  List, [], ◌∷◌, Option, none, some, Bool, true, false, ◌&&◌, ◌==◌, if◌then◌else◌, take, drop,
  length,
}
use b80_key.Eep.Config.{u32_bytes}
use b80_key.Bthome.{
  Measured, AdvBuf, bthome_beacon, segment, set_bthome_data, set_bthome_event, u16_bytes,
}

-- A number from its bytes, the low one first.
unfoldable pub number : List ℕ → ℕ
number [] = 0
number (b ∷ bs) = b + 256 * number bs

-- The length of a value, by the identifier before it; 0 for one that is not known.
abbrev pub value_length : ℕ → ℕ
value_length id =
    if id == 0x00
    then 1
    else if id == 0x01
    then 1
    else if id == 0x02
    then 2
    else if id == 0x0c
    then 2
    else if id == 0x11
    then 1
    else if id == 0x3e
    then 4
    else 0

-- The identifiers and values of a packet, as far as they are known.
unfoldable pub fields : ℕ → List ℕ → List (ℕ × ℕ)
fields zero bs = []
fields (suc fuel) [] = []
fields (suc fuel) (id ∷ bs) =
    (id, number (take (value_length id) bs)) ∷ fields fuel (drop (value_length id) bs)

-- The advertising structure at the start of a buffer: its length byte, then so many bytes.
abbrev pub structure : List ℕ → List ℕ
structure [] = []
structure (n ∷ bs) = take n bs

-- The service data of the BTHome service, unencrypted.
abbrev pub payload : List ℕ → Option (List ℕ)
payload (type ∷ uuid_low ∷ uuid_high ∷ info ∷ bs) =
    if type == 0x16 && uuid_low == 0xD2 && uuid_high == 0xFC && info == 0x40 then some bs else none
payload _ = none

-- The values that fit the fields of a packet.
pub record IsMeasured (s : Measured) : Type 0 where
  pub battery_mv : s.battery_mv < 2 ^ 16
  pub temp : s.temp < 2 ^ 16
  pub key_counter : s.key_counter < 2 ^ 32

abbrev pub shown : Bool → Measured → List (ℕ × ℕ)
shown true s = (0x11, if s.key_pressed then 0 else 1) ∷ (0x3e, s.key_counter) ∷ []
shown false s = (0x01, s.battery_level) ∷ (0x02, s.temp) ∷ (0x0c, s.battery_mv) ∷ []

number-byte : (b : ℕ) → number (b ∷ []) ≡ b
unfolding number
number-byte b = omega arith

number-u16_bytes : (v : ℕ) → v < 2 ^ 16 → number (u16_bytes v) ≡ v
unfolding number
number-u16_bytes v p = omega arith

number-u32_bytes : (v : ℕ) → v < 2 ^ 32 → number (u32_bytes v) ≡ v
unfolding number
number-u32_bytes v p = omega arith

-- A receiver reads from the packet the packet number and the values shown, the whole packet being
-- one advertising structure that fits the 31 bytes of an advertisement with its flags.
pub payload-bthome_beacon :
    (n : Bool) (s : Measured) (adv : AdvBuf)
    → IsMeasured s
    → let adv' = bthome_beacon n s adv in
      ((payload (structure adv'.bytes) ≡ some (0x00 ∷ adv.send_count % 256 ∷ segment n s))
        × (fields 5 (0x00 ∷ adv.send_count % 256 ∷ segment n s)
            ≡ (0x00, adv.send_count % 256) ∷ shown n s))
      × (length (structure adv'.bytes) + 4 ≡ adv'.data_size)
      × (adv'.data_size ≤ 31)
unfolding bthome_beacon set_bthome_data set_bthome_event fields
payload-bthome_beacon true s adv v = (
  (
    refl,
    rw
        (
          number-byte (adv.send_count % 256),
          number-byte (if s.key_pressed then 0 else 1),
          number-u32_bytes s.key_counter v.key_counter,
        )
        refl,
  ),
  refl,
  omega arith,
)
payload-bthome_beacon false s adv v = (
  (
    refl,
    rw
        (
          number-byte (adv.send_count % 256),
          number-byte s.battery_level,
          number-u16_bytes s.temp v.temp,
          number-u16_bytes s.battery_mv v.battery_mv,
        )
        refl,
  ),
  refl,
  omega arith,
)
