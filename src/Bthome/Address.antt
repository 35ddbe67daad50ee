-- ===== src/Bthome/Address.antt =====
-- The address in the nonce that bthome_beacon_init of src/bthome_beacon.c makes.
use b80_key.Prelude.{ℕ, ◌≡◌, refl, ap, arith, List, [], ◌∷◌, length}
use b80_key.Bthome.{Nonce, swap_x, bthome_beacon_init}

-- mac_public, with the byte first that the air carries first
pub record Address : Type 0 where
  pub a0 : ℕ
  pub a1 : ℕ
  pub a2 : ℕ
  pub a3 : ℕ
  pub a4 : ℕ
  pub a5 : ℕ

abbrev pub mac_public : Address → List ℕ
mac_public a = a.a0 ∷ a.a1 ∷ a.a2 ∷ a.a3 ∷ a.a4 ∷ a.a5 ∷ []

-- The address as it is written, with the byte first that the air carries last
abbrev pub written : Address → List ℕ
written a = a.a5 ∷ a.a4 ∷ a.a3 ∷ a.a2 ∷ a.a1 ∷ a.a0 ∷ []

swap_x-mac_public :
    (a : Address) (old : List ℕ) → length old ≡ 6 → swap_x (mac_public a) old 6 ≡ written a
unfolding swap_x
swap_x-mac_public a [] e = absurd (omega (arith, e))
swap_x-mac_public a (_ ∷ []) e = absurd (omega (arith, e))
swap_x-mac_public a (_ ∷ _ ∷ []) e = absurd (omega (arith, e))
swap_x-mac_public a (_ ∷ _ ∷ _ ∷ []) e = absurd (omega (arith, e))
swap_x-mac_public a (_ ∷ _ ∷ _ ∷ _ ∷ []) e = absurd (omega (arith, e))
swap_x-mac_public a (_ ∷ _ ∷ _ ∷ _ ∷ _ ∷ []) e = absurd (omega (arith, e))
swap_x-mac_public a (_ ∷ _ ∷ _ ∷ _ ∷ _ ∷ _ ∷ []) e = refl
swap_x-mac_public a (_ ∷ _ ∷ _ ∷ _ ∷ _ ∷ _ ∷ _ ∷ old) e = absurd (omega (arith, e))

pub bthome_beacon_init_lem :
    (a : Address) (b : Nonce)
    → length b.mac ≡ 6
    → bthome_beacon_init (mac_public a) b
      ≡ record { mac = written a; uuid16 = 0xFCD2; info = 0x41; cnt32 = b.cnt32 }
unfolding bthome_beacon_init
bthome_beacon_init_lem a b six =
    let nonce : List ℕ → Nonce =
      λ l. record { mac = l; uuid16 = 0xFCD2; info = 0x41; cnt32 = b.cnt32 } in
    ap nonce (swap_x-mac_public a b.mac six)
