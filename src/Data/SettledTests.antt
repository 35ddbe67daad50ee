-- ===== src/Data/SettledTests.antt =====
-- A store that has all the objects of src/app_data.c.
use b80_key.Prelude.{
  ℕ, false, ◌-◌, ◌≤◌, ◌≡◌, refl, inl, arith, List, [], ◌∷◌, ltb, if◌then◌else◌, get_or, replicate,
}
use b80_key.Flash.{Mem}
use b80_key.Eep.{Obj}
use b80_key.Eep.Log.{log_end, latest, All}
use b80_key.Eep.Pack.{check_flag_eep_id}
use b80_key.Eep.Compact.{pack_log, pack_entry, emit_latest}
use b80_key.Eep.Holds.{Holds}
use b80_key.Eep.Repack.{IsPackable}
use b80_key.Eep.Switch.{packed_end}
use b80_key.Eep.Tests.{nor}
use b80_key.Data.{Settings, test_dev_cfg, load_config, dev_cfg_def, temperature_cfg_def}
use b80_key.Data.Tests.{settings}
use b80_key.Data.RestartTests.{behind}
use b80_key.Data.First.{IsNew, unmarked, first_settings, load_config-IsNew}
use b80_key.Data.Settled.{IsSettled, stored_name, load_config-IsSettled}

abbrev pub settled : List Obj
settled =
    record { id = 0; size = 4; bytes = 1 ∷ 0 ∷ 0 ∷ 1 ∷ [] }
    ∷ record { id = 1; size = 6; bytes = 0x40 ∷ 0x1F ∷ 2 ∷ 7 ∷ 0 ∷ 0 ∷ [] }
    ∷ record { id = 3; size = 4; bytes = 0 ∷ 0 ∷ 0 ∷ 0 ∷ [] }
    ∷ record { id = 4; size = 4; bytes = 0x04 ∷ 0x29 ∷ 0x38 ∷ 0xE0 ∷ [] }
    ∷ record { id = 5; size = 16; bytes = replicate 16 5 }
    ∷ []

abbrev pub settled_bytes : List ℕ
settled_bytes =
    255
    ∷ 0
    ∷ 0
    ∷ 4
    ∷ 1
    ∷ 0
    ∷ 0
    ∷ 1
    ∷ 1
    ∷ 6
    ∷ 0x40
    ∷ 0x1F
    ∷ 2
    ∷ 7
    ∷ 0
    ∷ 0
    ∷ 3
    ∷ 4
    ∷ 0
    ∷ 0
    ∷ 0
    ∷ 0
    ∷ 4
    ∷ 4
    ∷ 0x04
    ∷ 0x29
    ∷ 0x38
    ∷ 0xE0
    ∷ 5
    ∷ 16
    ∷ replicate 16 5

abbrev pub settled_mem : Mem
settled_mem x = if ltb x 0xC000 then 255 else get_or settled_bytes (x - 0xC000) 255

settled-erased : (x : ℕ) → 0xC02E ≤ x → settled_mem x ≡ 255
settled-erased x p =
    let inside : ltb x 0xC000 ≡ false = ground (arith, p) in
    rw inside (behind settled_bytes (x - 0xC000) (omega arith))

pub settled-Holds : Holds settled_mem 0xC000 settled
unfolding log_end
settled-Holds = record {
  sector = inl refl;
  mark_id = refl;
  mark_size = refl;
  other = λ e. omega (arith, e);
  has_log = record {
    entries = omega arith;
    stored = (
      refl,
      refl,
      refl,
      (refl, refl, refl, (refl, refl, refl, (refl, refl, refl, (refl, refl, refl, tt)))),
    );
    room = omega arith;
    erased = λ x p q. settled-erased x (omega arith);
  };
}

pub settled-IsPackable : All IsPackable settled
settled-IsPackable = omega arith

pub settled-packed : packed_end settled ≡ 46
unfolding log_end pack_log pack_entry check_flag_eep_id emit_latest latest
    b80_key.Eep.Pack.set_flag_eep_id
settled-packed = refl

pub settled-IsSettled : IsSettled 7 settled (dev_cfg_def 7) temperature_cfg_def (replicate 16 5)
unfolding latest
settled-IsSettled = record {
  version = refl;
  config = inl (refl, omega arith);
  pincode = refl;
  calibration = inl (refl, omega arith, omega arith);
  bindkey = refl;
  key_size = refl;
}

load_config-IsSettled_example : load_config nor 7 (replicate 16 3) settings settled_mem ≡ (
  test_dev_cfg 7 (record settings {
    tbl_scan_rsp = record (settings.tbl_scan_rsp) {
      name = stored_name settled settings.tbl_scan_rsp.name;
    };
    temperature_cfg = temperature_cfg_def;
    dev_cfg = dev_cfg_def 7;
    pincode = 0;
    bindkey = replicate 16 5;
  }),
  settled_mem,
)
load_config-IsSettled_example =
    load_config-IsSettled nor settled_mem 0xC000 settled settled-Holds 7 (dev_cfg_def 7)
      temperature_cfg_def (replicate 16 5) settled-IsSettled (replicate 16 3) settings refl

-- A flash as it is delivered
abbrev pub blank : Mem
blank x = 255

pub blank-IsNew : IsNew blank
blank-IsNew = unmarked (omega arith, omega arith)

load_config-IsNew_example :
    let (first, m1) = load_config nor 7 (replicate 16 3) settings blank in
    let (second, m2) = load_config nor 7 (replicate 16 4) settings m1 in
    (first ≡ first_settings nor 7 (replicate 16 3) settings)
    × (second.dev_cfg ≡ first.dev_cfg)
    × (second.temperature_cfg ≡ first.temperature_cfg)
    × (second.bindkey ≡ replicate 16 3)
    × (m2 ≡ m1)
load_config-IsNew_example =
    load_config-IsNew nor 7 (replicate 16 3) (replicate 16 4) settings settings blank blank-IsNew
      refl refl refl (omega arith)

-- The settings in RAM at the start
abbrev at_start : Settings
at_start = record settings {
  tbl_scan_rsp = record (settings.tbl_scan_rsp) { name = replicate 21 0 };
}
