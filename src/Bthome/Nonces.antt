-- ===== src/Bthome/Nonces.antt =====
-- The nonces of the encrypted packets of src/bthome_beacon.c, one after another.
use b80_key.Prelude.{
  ℕ, zero, suc, ◌+◌, ◌%◌, ◌^◌, ◌≤◌, ◌<◌, ◌≡◌, ◌≢◌, ◌∙◌, refl, sym, ap, arith, Bool, List, [], ◌∷◌,
  ◌++◌,
}
use b80_key.Prelude.{length, get_or}
use b80_key.Ccm.{Ccm}
use b80_key.Eep.Config.{u32_bytes, u32_of}
use b80_key.Bthome.{
  Measured, AdvBuf, Nonce, u16_bytes, nonce_bytes, bthome_beacon_init, bthome_encrypt,
  bthome_encrypt_beacon, send_encrypted,
}
use b80_key.Bthome.Address.{Address, mac_public, written, bthome_beacon_init_lem}

-- Whether a packet shows the event, and the values
abbrev pub Packet : Type 0
Packet = Bool × Measured

-- The nonces of some packets that are sent one after another
unfoldable pub nonces : Ccm → List ℕ → List Packet → Nonce → AdvBuf → List (List ℕ)
nonces c key [] b adv = []
nonces c key ((n, s) ∷ ps) b adv =
    let (b', adv') = send_encrypted c key n s b adv in nonce_bytes b' ∷ nonces c key ps b' adv'

-- The nonce with a counter
abbrev pub nonce_at : Nonce → ℕ → List ℕ
nonce_at b cnt = nonce_bytes (record b { cnt32 = cnt % 2 ^ 32 })

get_or-nonces :
    (c : Ccm) (key : List ℕ) (ps : List Packet) (b : Nonce) (adv : AdvBuf) (i : ℕ)
    → i < length ps
    → get_or (nonces c key ps b adv) i [] ≡ nonce_at b (adv.send_count + i + 1)
unfolding nonces send_encrypted bthome_encrypt_beacon bthome_encrypt
get_or-nonces c key [] b adv i p = absurd (omega (arith, p))
get_or-nonces c key ((n, s) ∷ ps) b adv zero p = ap (λ k. nonce_at b k) (omega arith)
get_or-nonces c key ((n, s) ∷ ps) b adv (suc i) p =
    let (b', adv') = send_encrypted c key n s b adv in
    let same : (adv'.send_count + i + 1) % 2 ^ 32 ≡ (adv.send_count + suc i + 1) % 2 ^ 32 =
      omega arith in
    get_or-nonces c key ps b' adv' i (omega arith)
    ∙ ap (λ k. nonce_bytes (record b { cnt32 = k })) same

strip : List ℕ → List ℕ → List ℕ
strip [] l = l
strip (x ∷ xs) [] = []
strip (x ∷ xs) (y ∷ l) = strip xs l

strip-append : (xs l : List ℕ) → strip xs (xs ++ l) ≡ l
unfolding strip
strip-append [] l = refl
strip-append (x ∷ xs) l = strip-append xs l

u32_of-u32_bytes : (v : ℕ) → v < 2 ^ 32 → u32_of (u32_bytes v) ≡ v
u32_of-u32_bytes v word = omega arith

nonce_at-cnt : (b : Nonce) (m n : ℕ) → nonce_at b m ≡ nonce_at b n → m % 2 ^ 32 ≡ n % 2 ^ 32
nonce_at-cnt b m n e =
    let tail : (k : ℕ)
        → strip (u16_bytes b.uuid16 ++ b.info ∷ []) (strip b.mac (nonce_at b k))
          ≡ u32_bytes (k % 2 ^ 32) =
      λ k.
        unfold strip in
        ap (strip (u16_bytes b.uuid16 ++ b.info ∷ []))
          (strip-append b.mac (u16_bytes b.uuid16 ++ b.info ∷ u32_bytes (k % 2 ^ 32))) in
    sym (u32_of-u32_bytes (m % 2 ^ 32) (omega arith))
    ∙ ap u32_of (
        sym (tail m)
        ∙ ap (λ l. strip (u16_bytes b.uuid16 ++ b.info ∷ []) (strip b.mac l)) e
        ∙ tail n)
    ∙ u32_of-u32_bytes (n % 2 ^ 32) (omega arith)

-- Among at most 2 ^ 32 packets that are sent one after another, no two have the same nonce.
pub nonces_lem :
    (c : Ccm) (key : List ℕ) (ps : List Packet) (b : Nonce) (adv : AdvBuf) (i j : ℕ)
    → length ps ≤ 2 ^ 32
    → i < length ps
    → j < length ps
    → i ≢ j
    → get_or (nonces c key ps b adv) i [] ≢ get_or (nonces c key ps b adv) j []
nonces_lem c key ps b adv i j few p q other e =
    let same =
      nonce_at-cnt b (adv.send_count + i + 1) (adv.send_count + j + 1)
        (sym (get_or-nonces c key ps b adv i p) ∙ e ∙ get_or-nonces c key ps b adv j q) in
    other (omega (arith, same, few, p, q))

-- With six bytes for the address in the nonce, the nonce of each packet that is sent after
-- bthome_beacon_init is the address in the order in which it is written, the service, the information
-- byte and four bytes of counter, which count on from the send counter at the first packet, whatever
-- the packets show.
pub nonces-bthome_beacon_init :
    (c : Ccm) (key : List ℕ) (a : Address) (ps : List Packet) (b : Nonce) (adv : AdvBuf) (i : ℕ)
    → length b.mac ≡ 6
    → i < length ps
    → get_or (nonces c key ps (bthome_beacon_init (mac_public a) b) adv) i []
      ≡ written a ++ (0xD2 ∷ 0xFC ∷ 0x41 ∷ u32_bytes ((adv.send_count + i + 1) % 2 ^ 32))
nonces-bthome_beacon_init c key a ps b adv i six p =
    get_or-nonces c key ps (bthome_beacon_init (mac_public a) b) adv i p
    ∙ ap (λ n. nonce_at n (adv.send_count + i + 1)) (bthome_beacon_init_lem a b six)
