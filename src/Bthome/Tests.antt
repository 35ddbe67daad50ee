-- ===== src/Bthome/Tests.antt =====
-- Concrete packets of src/bthome_beacon.c.
use b80_key.Prelude.{
  ◌≢◌, get_or, List, ◌+◌, ◌%◌, ◌≤◌, ◌≡◌, refl, arith, [], ◌∷◌, some, true, false, length, replicate,
}
use b80_key.Ccm.{Ccm}
use b80_key.Bthome.{
  Measured, AdvBuf, Nonce, bthome_beacon, segment, bthome_beacon_init, bthome_encrypt,
}
use b80_key.Bthome.Decode.{IsMeasured, shown, structure, payload, fields, payload-bthome_beacon}
use b80_key.Bthome.Address.{Address, mac_public}
use b80_key.Bthome.Nonces.{Packet, nonces, nonces_lem, nonces-bthome_beacon_init}
use b80_key.Bthome.Sealed.{open_packet, open_packet-bthome_encrypt}

abbrev measured : Measured
measured = record {
  battery_level = 87;
  battery_mv = 2871;
  temp = 2345;
  key_pressed = true;
  key_counter = 70000;
}

abbrev buffer : AdvBuf
buffer = record { send_count = 300; data_size = 0; bytes = replicate 28 0 }

measured-IsMeasured : IsMeasured measured
measured-IsMeasured = omega arith

payload-bthome_beacon_example :
    let adv' = bthome_beacon true measured buffer in
    ((payload (structure adv'.bytes) ≡ some (0x00 ∷ 300 % 256 ∷ segment true measured))
      × (fields 5 (0x00 ∷ 300 % 256 ∷ segment true measured)
          ≡ (0x00, 300 % 256) ∷ shown true measured))
    × (length (structure adv'.bytes) + 4 ≡ adv'.data_size)
    × (adv'.data_size ≤ 31)
payload-bthome_beacon_example = payload-bthome_beacon true measured buffer measured-IsMeasured

-- A cipher that changes nothing, with a tag of zeros.
abbrev open_cipher : Ccm
open_cipher = record {
  encrypt_and_tag = λ key nonce input. (input, 0 ∷ 0 ∷ 0 ∷ 0 ∷ []);
  auth_decrypt = λ key nonce input tag. some input;
  length_cipher = λ key nonce input. refl;
  length_tag = λ key nonce input. refl;
  decrypt_encrypt = λ key nonce input. refl;
}

abbrev nonce : Nonce
nonce = record { mac = replicate 6 0; uuid16 = 0; info = 0; cnt32 = 0 }

-- The address 06:05:04:03:02:01
abbrev address : Address
address = record { a0 = 1; a1 = 2; a2 = 3; a3 = 4; a4 = 5; a5 = 6 }

open_packet_example :
    let (b', adv') =
      bthome_encrypt open_cipher
        (replicate 16 1)
        (segment false measured)
        (bthome_beacon_init (mac_public address) nonce)
        buffer in
    (open_packet open_cipher (replicate 16 1) (6 ∷ 5 ∷ 4 ∷ 3 ∷ 2 ∷ 1 ∷ []) (structure adv'.bytes)
      ≡ some (segment false measured))
    × (b'.cnt32 ≡ buffer.send_count)
    × (length (structure adv'.bytes) + 4 ≡ adv'.data_size)
open_packet_example =
    open_packet-bthome_encrypt open_cipher (replicate 16 1) (segment false measured) address nonce
      buffer refl

-- Two packets
abbrev sent : List Packet
sent = (false, measured) ∷ (true, measured) ∷ []

abbrev at_start : AdvBuf
at_start = record { send_count = 0; data_size = 0; bytes = replicate 28 0 }

nonces_example :
    get_or (nonces open_cipher (replicate 16 1) sent nonce at_start) 0 []
    ≢ get_or (nonces open_cipher (replicate 16 1) sent nonce at_start) 1 []
nonces_example =
    nonces_lem open_cipher (replicate 16 1) sent nonce at_start 0 1 (omega arith) (omega arith)
      (omega arith) (omega arith)

nonces-bthome_beacon_init_example :
    get_or
      (nonces open_cipher
        (replicate 16 1)
        sent
        (bthome_beacon_init (mac_public address) nonce)
        at_start)
      1
      []
    ≡ 6 ∷ 5 ∷ 4 ∷ 3 ∷ 2 ∷ 1 ∷ 0xD2 ∷ 0xFC ∷ 0x41 ∷ 2 ∷ 0 ∷ 0 ∷ 0 ∷ []
nonces-bthome_beacon_init_example =
    nonces-bthome_beacon_init open_cipher (replicate 16 1) address sent nonce at_start 1 refl
      (omega arith)
