-- ===== src/Data/Update.antt =====
-- Saving an object of src/app_data.c in a store that has all that load_config writes.
use b80_key.Prelude.{
  inl, inr, ℕ, suc, ◌+◌, ◌<◌, ◌≡◌, ◌∙◌, refl, ap, arith, List, [], ◌∷◌, some, false, length,
}
use b80_key.Prelude.{◌==◌, if◌then◌else◌, true}
use b80_key.Flash.{Mem, Flash, sector_size}
use b80_key.Eep.{Obj}
use b80_key.Eep.Config.{Reply}
use b80_key.Eep.Holds.{Holds}
use b80_key.Eep.Switch.{packed_end}
use b80_key.Eep.Compact.{visible}
use b80_key.Eep.Store.{value, IsUpdate, Written}
use b80_key.Eep.ReadBack.{value_of_visible}
use b80_key.Data.{DevConfig, TemperatureCfg, test_dev_cfg, Settings, dev_cfg_bytes, temp_cfg_bytes}
use b80_key.Data.Settled.{IsSettled, IsConfig, IsCalibration}

-- A write that had room.
pub record IsStored (d : Flash) (log : List Obj) (id : ℕ) (bs : List ℕ) (m : Mem) : Type 0 where
  pub at : ℕ
  pub log' : List Obj
  pub holds : Holds m at log'
  pub update : IsUpdate log log' id bs

pub with_room :
    (d : Flash) (log : List Obj) (id : ℕ) (bs : List ℕ) (r : Reply × Mem)
    → Written log id bs r
    → packed_end log + (length bs + 2) < sector_size
    → IsStored d log id bs r.1
with_room d log id bs r w room = elim w.reply [
  | inl (e, up) ↦ record { at = w.at; log' = w.log'; holds = w.holds; update = up }
  | inr (e, full, same) ↦ absurd (omega (arith, full, room))
]

module _ (log log' : List Obj) (id : ℕ) (bs : List ℕ) (up : IsUpdate log log' id bs) where
  kept_visible :
      (k : ℕ) → k < 255 → (k == id) ≡ false → visible (value k log') ≡ visible (value k log)
  kept_visible k small other =
      up k small ∙ ap (λ b. if b then visible (some bs) else visible (value k log)) other

  kept_value :
      (k x : ℕ) (xs : List ℕ)
      → k < 255
      → (k == id) ≡ false
      → value k log ≡ some (x ∷ xs)
      → value k log' ≡ some (x ∷ xs)
  kept_value k x xs small other there = value_of_visible (value k log') x xs (
      up k small
      ∙ ap (λ b. if b then visible (some bs) else visible (value k log)) other
      ∙ ap visible there)

  kept_list :
      (k n : ℕ) (xs : List ℕ)
      → k < 255
      → (k == id) ≡ false
      → length xs ≡ suc n
      → value k log ≡ some xs
      → value k log' ≡ some xs
  kept_list k n [] small other long there = absurd (omega (arith, long))
  kept_list k n (x ∷ xs) small other long there = kept_value k x xs small other there

  kept-IsConfig :
      (rf_index : ℕ) (c : DevConfig)
      → (1 == id) ≡ false
      → IsConfig rf_index (value 1 log) c
      → IsConfig rf_index (value 1 log') c
  kept-IsConfig rf_index c other (inl (there, fits)) =
      inl (kept_value 1 _ _ (omega arith) other there, fits)
  kept-IsConfig rf_index c other (inr (nothing, e)) =
      inr (kept_visible 1 (omega arith) other ∙ nothing, e)

  kept-IsCalibration :
      (t : TemperatureCfg)
      → (4 == id) ≡ false
      → IsCalibration (value 4 log) t
      → IsCalibration (value 4 log') t
  kept-IsCalibration t other (inl (there, p, q)) =
      inl (kept_value 4 _ _ (omega arith) other there, p, q)
  kept-IsCalibration t other (inr (nothing, e)) =
      inr (kept_visible 4 (omega arith) other ∙ nothing, e)

new_value :
    (log log' : List Obj) (id b : ℕ) (bs : List ℕ)
    → IsUpdate log log' id (b ∷ bs)
    → id < 255
    → value id log' ≡ some (b ∷ bs)
new_value log log' id b bs up small =
    let own : (id == id) ≡ true = ground arith in
    value_of_visible (value id log') b bs
      (up id small ∙ ap (λ t. if t then visible (some (b ∷ bs)) else visible (value id log)) own)

module _ (rf_index : ℕ) (log log' : List Obj) (c : DevConfig) (t : TemperatureCfg) (key : List ℕ)
    (i : IsSettled rf_index log c t key) where
  pub config-IsSettled :
      (c' : DevConfig)
      → c'.adv_interval < 65536
      → IsUpdate log log' 1 (dev_cfg_bytes c')
      → IsSettled rf_index log' c' t key
  config-IsSettled c' word up =
      let bs = dev_cfg_bytes c' in
      record {
        version = kept_value log log' 1 bs up 0 _ _ (omega arith) refl i.version;
        config = inl (new_value log log' 1 _ _ up (omega arith), word);
        pincode = kept_value log log' 1 bs up 3 _ _ (omega arith) refl i.pincode;
        calibration = kept-IsCalibration log log' 1 bs up t refl i.calibration;
        bindkey = kept_list log log' 1 bs up 5 15 key (omega arith) refl i.key_size i.bindkey;
        key_size = i.key_size;
      }

  pub name-IsSettled : (bs : List ℕ) → IsUpdate log log' 2 bs → IsSettled rf_index log' c t key
  name-IsSettled bs up = record {
    version = kept_value log log' 2 bs up 0 _ _ (omega arith) refl i.version;
    config = kept-IsConfig log log' 2 bs up rf_index c refl i.config;
    pincode = kept_value log log' 2 bs up 3 _ _ (omega arith) refl i.pincode;
    calibration = kept-IsCalibration log log' 2 bs up t refl i.calibration;
    bindkey = kept_list log log' 2 bs up 5 15 key (omega arith) refl i.key_size i.bindkey;
    key_size = i.key_size;
  }

  pub calibration-IsSettled :
      (t' : TemperatureCfg)
      → t'.coef < 65536
      → t'.zero_point < 65536
      → IsUpdate log log' 4 (temp_cfg_bytes t')
      → IsSettled rf_index log' c t' key
  calibration-IsSettled t' coef zero_point up =
      let bs = temp_cfg_bytes t' in
      record {
        version = kept_value log log' 4 bs up 0 _ _ (omega arith) refl i.version;
        config = kept-IsConfig log log' 4 bs up rf_index c refl i.config;
        pincode = kept_value log log' 4 bs up 3 _ _ (omega arith) refl i.pincode;
        calibration = inl (new_value log log' 4 _ _ up (omega arith), coef, zero_point);
        bindkey = kept_list log log' 4 bs up 5 15 key (omega arith) refl i.key_size i.bindkey;
        key_size = i.key_size;
      }

  pub bindkey-IsSettled :
      (b : ℕ) (bs : List ℕ)
      → length bs ≡ 15
      → IsUpdate log log' 5 (b ∷ bs)
      → IsSettled rf_index log' c t (b ∷ bs)
  bindkey-IsSettled b bs long up = record {
    version = kept_value log log' 5 (b ∷ bs) up 0 _ _ (omega arith) refl i.version;
    config = kept-IsConfig log log' 5 (b ∷ bs) up rf_index c refl i.config;
    pincode = kept_value log log' 5 (b ∷ bs) up 3 _ _ (omega arith) refl i.pincode;
    calibration = kept-IsCalibration log log' 5 (b ∷ bs) up t refl i.calibration;
    bindkey = new_value log log' 5 b bs up (omega arith);
    key_size = omega (arith, long);
  }

-- The limits are reached at once.
pub test_dev_cfg-again :
    (rf_index : ℕ) (w w' : Settings)
    → let c = (test_dev_cfg rf_index w).dev_cfg in
      (test_dev_cfg rf_index (record w' { dev_cfg = c })).dev_cfg ≡ c
unfolding test_dev_cfg
test_dev_cfg-again rf_index w w' = ground arith
