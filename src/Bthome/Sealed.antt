-- ===== src/Bthome/Sealed.antt =====
-- What a receiver with the key reads from the encrypted packets of src/bthome_beacon.c.
use b80_key.Prelude.{ℕ, suc, ◌+◌, ◌-◌, ◌≡◌, ◌∙◌, refl, sym, ap, arith}
use b80_key.Prelude.{List, [], ◌∷◌, ◌++◌, Option, none, some, take, drop, length, length-append}
use mathlib.Core.Path.{subst}
use b80_key.Ccm.{Ccm}
use b80_key.Eep.Config.{u32_bytes}
use b80_key.Bthome.{AdvBuf, Nonce, nonce_bytes, bthome_beacon_init, bthome_encrypt}
use b80_key.Bthome.Address.{Address, mac_public, written, bthome_beacon_init_lem}
use b80_key.Bthome.Decode.{structure}

-- The service data behind the type, the service and the information byte: the encrypted values, four
-- bytes of counter and four of tag. The nonce is the address of the sender, in the order in which it is
-- written, and what the packet shows.
abbrev pub open_packet : Ccm → List ℕ → List ℕ → List ℕ → Option (List ℕ)
open_packet c key mac (type ∷ uuid_low ∷ uuid_high ∷ info ∷ bs) =
    let n = length bs - 8 in
    let cipher = take n bs in
    let counter = take 4 (drop n bs) in
    let tag = drop 4 (drop n bs) in
    c.auth_decrypt key (mac ++ (uuid_low ∷ uuid_high ∷ info ∷ counter)) cipher tag
open_packet c key mac _ = none

take-append_length : (xs ys : List ℕ) (n : ℕ) → n ≡ length xs → take n (xs ++ ys) ≡ xs
take-append_length [] ys n e = rw e refl
take-append_length (x ∷ xs) ys n e =
    rw e (ap (λ l. x ∷ l) (take-append_length xs ys (length xs) refl))

drop-append_length : (xs ys : List ℕ) (n : ℕ) → n ≡ length xs → drop n (xs ++ ys) ≡ ys
drop-append_length [] ys n e = rw e refl
drop-append_length (x ∷ xs) ys n e = rw e (drop-append_length xs ys (length xs) refl)

module _ (c : Ccm) (key pdata : List ℕ) (a : Address) (b : Nonce) (adv : AdvBuf) where
  abbrev IsOpened : Nonce → Type 0
  IsOpened n =
      let (b', adv') = bthome_encrypt c key pdata n adv in
      (open_packet c key (written a) (structure adv'.bytes) ≡ some pdata)
      × (b'.cnt32 ≡ adv.send_count)
      × (length (structure adv'.bytes) + 4 ≡ adv'.data_size)

  opened : IsOpened (record { mac = written a; uuid16 = 0xFCD2; info = 0x41; cnt32 = b.cnt32 })
  unfolding bthome_encrypt
  opened =
      let nonce =
        nonce_bytes
          (record { mac = written a; uuid16 = 0xFCD2; info = 0x41; cnt32 = adv.send_count }) in
      let cipher = (c.encrypt_and_tag key nonce pdata).0 in
      let mic = (c.encrypt_and_tag key nonce pdata).1 in
      let body = cipher ++ (u32_bytes adv.send_count ++ mic) in
      let packet = 0x16 ∷ 0xD2 ∷ 0xFC ∷ 0x41 ∷ body in
      let body_length : length body ≡ length pdata + 8 =
        length-append cipher (u32_bytes adv.send_count ++ mic)
        ∙ omega (arith, c.length_cipher key nonce pdata, c.length_tag key nonce pdata) in
      let cut : length body - 8 ≡ length cipher =
        omega (arith, body_length, c.length_cipher key nonce pdata) in
      let whole : take (length pdata + 12) (packet ++ drop (suc (length packet)) adv.bytes)
          ≡ packet =
        take-append_length packet _ (length pdata + 12) (omega (arith, body_length)) in
      (
        rw
            (
              whole,
              open_packet,
              take-append_length cipher (u32_bytes adv.send_count ++ mic) (length body - 8) cut,
              drop-append_length cipher (u32_bytes adv.send_count ++ mic) (length body - 8) cut,
            )
            (c.decrypt_encrypt key nonce pdata),
        refl,
        rw whole (omega (arith, body_length)),
      )

  -- With six bytes for the address in the nonce, the receiver's open_packet gives the bytes that were
  -- encrypted, from the packet, the key and the address in the order in which it is written, where
  -- mac_public has its last byte first; the counter of the nonce is the send counter, and the packet
  -- is one advertising structure, behind the three bytes of flags.
  pub open_packet-bthome_encrypt :
      length b.mac ≡ 6
      → let (b', adv') = bthome_encrypt c key pdata (bthome_beacon_init (mac_public a) b) adv in
        (open_packet c key (written a) (structure adv'.bytes) ≡ some pdata)
        × (b'.cnt32 ≡ adv.send_count)
        × (length (structure adv'.bytes) + 4 ≡ adv'.data_size)
  open_packet-bthome_encrypt six = subst IsOpened (sym (bthome_beacon_init_lem a b six)) opened
