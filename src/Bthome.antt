-- ===== src/Bthome.antt =====
-- src/bthome_beacon.c: the advertising packets, plain and encrypted, as bytes in adv_buf.
-- src/ccm.c is a copy of a library, so its encryption is a parameter.
pub mod Address
pub mod Decode
pub mod Nonces
pub mod Sealed
mod Tests
use b80_key.Prelude.{
  ℕ, zero, suc, ◌+◌, ◌-◌, ◌*◌, ◌/◌, ◌%◌, ◌^◌, List, [], ◌∷◌, ◌++◌, Bool, true, false,
}
use b80_key.Prelude.{if◌then◌else◌, take, drop, set, length}
use b80_key.Ccm.{Ccm}
use b80_key.Eep.Config.{u32_bytes}

-- The fields of services_t and wrk that the packets show; `temp` is the s16 as 16 bits.
pub record Measured : Type 0 where
  pub battery_level : ℕ
  pub battery_mv : ℕ
  pub temp : ℕ
  pub key_pressed : Bool
  pub key_counter : ℕ

-- adv_buf_t, without the event number; `bytes` is its field data
pub record AdvBuf : Type 0 where
  pub send_count : ℕ
  pub data_size : ℕ
  pub bytes : List ℕ

-- The low byte first, as the chip stores words
abbrev pub u16_bytes : ℕ → List ℕ
u16_bytes v = v % 256 ∷ v / 256 % 256 ∷ []

-- The start of the buffer overwritten
abbrev pub put_bytes : List ℕ → List ℕ → List ℕ
put_bytes old bs = bs ++ drop (length bs) old

-- GAP_ADTYPE_SERVICE_DATA_UUID_16BIT and ADV_BTHOME_UUID16
abbrev pub service_data : ℕ
service_data = 0x16

abbrev pub bthome_uuid16 : ℕ
bthome_uuid16 = 0xFCD2

-- BtHomeIDs_e, the identifiers that are used
abbrev pub id_packet : ℕ
id_packet = 0x00

abbrev pub id_battery : ℕ
id_battery = 0x01

abbrev pub id_temperature : ℕ
id_temperature = 0x02

abbrev pub id_voltage : ℕ
id_voltage = 0x0c

abbrev pub id_opened : ℕ
id_opened = 0x11

abbrev pub id_count32 : ℕ
id_count32 = 0x3e

-- BtHomeID_Info and BtHomeID_Info_Encrypt
abbrev pub info_plain : ℕ
info_plain = 0x40

abbrev pub info_encrypt : ℕ
info_encrypt = 0x41

-- seg_bthome_data_t
unfoldable pub set_bthome_data : Measured → List ℕ
set_bthome_data s =
    id_battery
    ∷ s.battery_level
    ∷ id_temperature
    ∷ (u16_bytes s.temp ++ id_voltage ∷ u16_bytes s.battery_mv)

-- seg_bthome_event_t
unfoldable pub set_bthome_event : Measured → List ℕ
set_bthome_event s =
    id_opened ∷ (if s.key_pressed then 0 else 1) ∷ id_count32 ∷ u32_bytes s.key_counter

-- `n` is whether the packet shows the event.
abbrev pub segment : Bool → Measured → List ℕ
segment n s = if n then set_bthome_event s else set_bthome_data s

unfoldable pub bthome_beacon : Bool → Measured → AdvBuf → AdvBuf
bthome_beacon n s adv =
    let seg = segment n s in
    let total = 7 + length seg in
    record adv {
      data_size = total + 3;
      bytes = put_bytes adv.bytes (
          (total - 1)
          ∷ service_data
          ∷ (u16_bytes bthome_uuid16 ++ info_plain ∷ id_packet ∷ adv.send_count % 256 ∷ seg));
    }

-- bthome_beacon_nonce_t
pub record Nonce : Type 0 where
  pub mac : List ℕ
  pub uuid16 : ℕ
  pub info : ℕ
  pub cnt32 : ℕ

abbrev pub nonce_bytes : Nonce → List ℕ
nonce_bytes b = b.mac ++ (u16_bytes b.uuid16 ++ b.info ∷ u32_bytes b.cnt32)

-- swapX of sdk_ble/common/utility.c: the loop that stores src[i] at dst[len - 1 - i].
unfoldable pub swap_x : List ℕ → List ℕ → ℕ → List ℕ
swap_x src dst zero = dst
swap_x [] dst (suc n) = dst
swap_x (c ∷ src) dst (suc n) = swap_x src (set dst n c) n

unfoldable pub bthome_beacon_init : List ℕ → Nonce → Nonce
bthome_beacon_init mac_public b = record b {
  mac = swap_x mac_public b.mac 6;
  uuid16 = bthome_uuid16;
  info = info_encrypt;
}

module _ (c : Ccm) (bindkey : List ℕ) where
  unfoldable pub bthome_encrypt : List ℕ → Nonce → AdvBuf → Nonce × AdvBuf
  bthome_encrypt pdata b adv =
      let head_size = length pdata + 12 in
      let b' = record b { cnt32 = adv.send_count } in
      let (cipher, mic) = c.encrypt_and_tag bindkey (nonce_bytes b') pdata in
      (
        b',
        record adv {
          data_size = head_size + 1 + 3;
          bytes = put_bytes adv.bytes (
              head_size
              ∷ service_data
              ∷ (u16_bytes b.uuid16 ++ b.info ∷ (cipher ++ (u32_bytes adv.send_count ++ mic))));
        },
      )

  unfoldable pub bthome_encrypt_beacon : Bool → Measured → Nonce → AdvBuf → Nonce × AdvBuf
  bthome_encrypt_beacon n s b adv = bthome_encrypt (segment n s) b adv

  -- What app_start_adv and main_loop do when dev_cfg.flags asks for encryption: the next number, and
  -- the packet.
  unfoldable pub send_encrypted : Bool → Measured → Nonce → AdvBuf → Nonce × AdvBuf
  send_encrypted n s b adv =
      bthome_encrypt_beacon n s b (record adv { send_count = (adv.send_count + 1) % 2 ^ 32 })
