-- ===== src/Data/Stored.antt =====
-- What the settings of src/app_data.c become in the object store.
use b80_key.Prelude.{ℕ, ◌+◌, ◌*◌, ◌/◌, ◌%◌, ◌<◌, ◌≡◌, ◌∙◌, refl, ap, inl, inr}
use b80_key.Prelude.{List, [], ◌∷◌, true, arith, ==_iff, Bool-cases, length, take, length-take}
use b80_key.Prelude.{take-all}
use b80_key.Flash.{Mem, Flash, sector_size}
use b80_key.Eep.{Obj}
use b80_key.Eep.Log.{IsByte, All}
use b80_key.Eep.Config.{
  Reply, size, fmem_not_found, fmem_size_err, fmem_overflow, flash_read_cfg, u32_bytes,
}
use b80_key.Eep.Holds.{Holds}
use b80_key.Eep.Repack.{IsPackable}
use b80_key.Eep.Switch.{packed_end}
use b80_key.Eep.Store.{value, answer, flash_read_cfg_lem}
use b80_key.Eep.ReadBack.{read-write}
use b80_key.Data.{
  DevConfig, TemperatureCfg, temp_cfg_bytes, temp_cfg_of, Settings, test_dev_cfg, save_dev_cfg,
  load_dev_cfg, load_pincode, load_bindkey, dev_cfg_bytes, dev_cfg_of, is_size,
}

is_size-size : (r : Reply) (n : ℕ) → is_size r n ≡ true → r ≡ size n
is_size-size (size k) n e = ap size ((==_iff k n).0 e)
is_size-size fmem_not_found n e = cc
is_size-size fmem_size_err n e = cc
is_size-size fmem_overflow n e = cc

pub dev_cfg_of-dev_cfg_bytes :
    (c : DevConfig) → c.adv_interval < 65536 → dev_cfg_of (dev_cfg_bytes c) ≡ c
dev_cfg_of-dev_cfg_bytes c p =
    let word : c.adv_interval % 256 + 256 * (c.adv_interval / 256 % 256) ≡ c.adv_interval =
      omega arith in
    rw word refl

pub temp_cfg_of-temp_cfg_bytes :
    (c : TemperatureCfg)
    → c.coef < 65536
    → c.zero_point < 65536
    → temp_cfg_of (temp_cfg_bytes c) ≡ c
temp_cfg_of-temp_cfg_bytes c p q =
    let coef : c.coef % 256 + 256 * (c.coef / 256 % 256) ≡ c.coef = omega arith in
    let zero_point : c.zero_point % 256 + 256 * (c.zero_point / 256 % 256) ≡ c.zero_point =
      omega arith in
    rw (coef, zero_point) refl

-- The fields fit their types.
pub record IsPacked (c : DevConfig) : Type 0 where
  pub adv_interval : c.adv_interval < 65536
  pub measured_intervals : c.measured_intervals < 256
  pub rf_power : c.rf_power < 256
  pub flags : c.flags < 256
  pub pad : c.pad < 256

pub test_dev_cfg-IsPacked :
    (rf_index : ℕ) (w : Settings)
    → rf_index < 256
    → IsPacked w.dev_cfg
    → IsPacked (test_dev_cfg rf_index w).dev_cfg
unfolding test_dev_cfg
test_dev_cfg-IsPacked rf_index w small p = record {
  adv_interval = ground (arith, p.adv_interval);
  measured_intervals = ground (arith, p.measured_intervals);
  rf_power = ground (arith, small, p.rf_power);
  flags = p.flags;
  pad = p.pad;
}

module _ (d : Flash) (m : Mem) (s : ℕ) (log : List Obj) (h : Holds m s log)
    (pk : All IsPackable log) where
  -- With room in the store, loading the pincode overwrites the one that is stored by the one in RAM,
  -- which it returns.
  pub load_pincode_lem :
      (pincode : ℕ)
      → packed_end log + 6 < sector_size
      → let (loaded, m') = load_pincode d pincode m in
        (loaded ≡ pincode) × (flash_read_cfg d m' 3 4 ≡ (size 4, u32_bytes pincode, m'))
  unfolding load_pincode
  load_pincode_lem pincode room =
      let w =
        read-write d m s log h 3 3 4 (pincode % 256)
          (pincode / 256 % 256 ∷ pincode / 65536 % 256 ∷ pincode / 16777216 % 256 ∷ []) pk
          (omega arith) (omega arith) (omega arith) (omega arith) (omega arith)
          (omega (arith, room)) in
      rw w.0 (refl, w.1)

  -- With room in the store, the bindkey that is loaded is the one that is in the store from then on.
  pub load_bindkey_lem :
      (b : ℕ) (bs : List ℕ)
      → length bs ≡ 15
      → All IsByte (b ∷ bs)
      → packed_end log + 18 < sector_size
      → let (key, m') = load_bindkey d (b ∷ bs) m in flash_read_cfg d m' 5 16 ≡ (size 16, key, m')
  unfolding load_bindkey
  load_bindkey_lem b bs long bytes room =
      let w =
        read-write d m s log h 5 15 16 b bs pk (omega arith) (omega arith) (omega (arith, long))
          bytes (omega arith) (omega (arith, room)) in
      let r = flash_read_cfg_lem d m s log h 5 16 (omega arith) (omega arith) in
      let taken : take 16 (b ∷ take 15 bs) ≡ b ∷ bs =
        ap (λ l. b ∷ l)
          (take-all 15 (take 15 bs) (omega (arith, length-take 15 bs))
            ∙ take-all 15 bs (omega (arith, long))) in
      rw r (elim (Bool-cases (is_size (answer (value 5 log) 16).0 16)) [
        | inl e ↦ rw (e, r) (ap (λ x. (x, (answer (value 5 log) 16).1, m)) (is_size-size _ 16 e))
        | inr e ↦ rw (e, w.1, taken) refl
      ])

  -- A device configuration of 16 and 8 bits that is saved with room in the store is loaded as it was,
  -- with the limits of test_dev_cfg.
  pub load-save_dev_cfg :
      (rf_index : ℕ) (w : Settings)
      → IsPacked w.dev_cfg
      → rf_index < 256
      → packed_end log + 8 < sector_size
      → let (w', m') = save_dev_cfg d rf_index w m in load_dev_cfg d rf_index m' ≡ (w'.dev_cfg, m')
  unfolding save_dev_cfg load_dev_cfg
  load-save_dev_cfg rf_index w packed small room =
      let c = (test_dev_cfg rf_index w).dev_cfg in
      let p = test_dev_cfg-IsPacked rf_index w small packed in
      let r =
        read-write d m s log h 1 5 6 (c.adv_interval % 256)
          (c.adv_interval / 256 % 256 ∷ c.measured_intervals ∷ c.rf_power ∷ c.flags ∷ c.pad ∷ []) pk
          (omega arith) (omega arith) (omega arith)
          (omega arith, (omega arith, (p.measured_intervals, (p.rf_power, (p.flags, (p.pad, tt))))))
          (omega arith) (omega (arith, room)) in
      rw (r.1, dev_cfg_of-dev_cfg_bytes c p.adv_interval) refl
