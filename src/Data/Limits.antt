-- ===== src/Data/Limits.antt =====
-- The limits that test_dev_cfg of src/app_data.c puts on the settings.
use b80_key.Prelude.{
  ℕ, zero, suc, ◌+◌, ◌-◌, ◌*◌, ◌^◌, ◌≤◌, ◌<◌, ◌≡◌, ◌≢◌, ◌∙◌, refl, ap, inl, inr, some,
}
use b80_key.Prelude.{
  List, [], ◌∷◌, ◌++◌, Bool, true, false, ◌&&◌, ◌||◌, not, arith, ltb, ◌==◌, Bool-cases, length,
  take, drop, set, length-drop, length-set,
}
use b80_key.Prelude.{take-all, if◌then◌else◌}
use b80_key.Flash.{Mem, Flash}
use b80_key.Data.{
  Settings, limit_adv_interval, strlen, overwrite, test_dev_cfg, save_dev_name, def_dev_name,
  max_dev_name_len,
}

-- The limits of the advertising interval and of the measuring interval, a transmit power, and a name
-- of one to 20 bytes in its buffer.
pub record IsValid (w : Settings) : Type 0 where
  pub interval_low : 80 ≤ w.dev_cfg.adv_interval
  pub interval_high : w.dev_cfg.adv_interval ≤ 16384
  pub measured : 1 ≤ w.dev_cfg.measured_intervals
  pub power : w.dev_cfg.rf_power ≢ 0
  pub name_low : 1 ≤ w.tbl_scan_rsp.len
  pub name_high : w.tbl_scan_rsp.len ≤ 20
  pub buffer : length w.tbl_scan_rsp.name ≡ 21

pub strlen-set : (cs : List ℕ) (n : ℕ) → n < length cs → strlen (set cs n 0) ≤ n
unfolding strlen
strlen-set [] n p = omega arith
strlen-set (c ∷ cs) zero p = ground arith
strlen-set (c ∷ cs) (suc n) p = ground (arith, strlen-set cs n)

length-overwrite_default : (cs : List ℕ) → length cs ≡ 21 → length (overwrite cs def_dev_name) ≡ 21
length-overwrite_default cs e = omega (arith, length-drop 5 cs, e)

-- Whatever the settings, test_dev_cfg makes them valid.
pub test_dev_cfg-IsValid :
    (rf_index : ℕ) (w : Settings)
    → rf_index ≢ 0
    → length w.tbl_scan_rsp.name ≡ 21
    → IsValid (test_dev_cfg rf_index w)
unfolding test_dev_cfg
test_dev_cfg-IsValid rf_index w some_power buffer =
    let name' = set w.tbl_scan_rsp.name 20 0 in
    let short : strlen name' ≤ 20 = strlen-set w.tbl_scan_rsp.name 20 (omega (arith, buffer)) in
    let kept : length name' ≡ 21 = length-set w.tbl_scan_rsp.name 20 0 ∙ buffer in
    elim (Bool-cases (strlen name' == 0 || ltb max_dev_name_len (strlen name'))) [
      | inl e ↦ rw e (record {
        interval_low = ground arith;
        interval_high = ground arith;
        measured = ground arith;
        power = ground (arith, some_power);
        name_low = omega arith;
        name_high = omega arith;
        buffer = length-overwrite_default name' kept;
      })
      | inr e ↦ rw e (record {
        interval_low = ground arith;
        interval_high = ground arith;
        measured = ground arith;
        power = ground (arith, some_power);
        name_low = ground (arith, e);
        name_high = short;
        buffer = kept;
      })
    ]

product_fits : (a q : ℕ) → a ≤ 16384 → q ≤ 13 → ltb (a * q * 10000) (2 ^ 31) ≡ true
product_fits a q ha hq = let bound : a * q ≤ 16384 * 13 = grind arith in ground (arith, bound)

-- For up to 13 advertising intervals, the product of the two settings, with their limits, and 10000 fits
-- the signed int in which the code computes it, and is the measuring interval.
pub measure_interval_lem :
    (rf_index : ℕ) (w : Settings)
    → w.dev_cfg.measured_intervals ≤ 13
    → let w' = test_dev_cfg rf_index w in
      w'.measure_interval ≡ some (w'.dev_cfg.adv_interval * w'.dev_cfg.measured_intervals * 10000)
unfolding test_dev_cfg
measure_interval_lem rf_index w few =
    let measured = if ltb w.dev_cfg.measured_intervals 1 then 1 else w.dev_cfg.measured_intervals in
    let fits =
      product_fits (limit_adv_interval w.dev_cfg.adv_interval) measured (ground arith)
        (ground (arith, few)) in
    rw fits refl

-- No terminator among the bytes.
unfoldable pub nonzero : List ℕ → Bool
nonzero [] = true
nonzero (c ∷ cs) = not (c == 0) && nonzero cs

strlen-append :
    (cs rest : List ℕ) → nonzero cs ≡ true → strlen (cs ++ rest) ≡ length cs + strlen rest
unfolding nonzero strlen
strlen-append [] rest h = omega arith
strlen-append (c ∷ cs) rest h = ground (arith, strlen-append cs rest)

set-append :
    (cs rest : List ℕ) (i : ℕ)
    → length cs ≤ i
    → set (cs ++ rest) i 0 ≡ cs ++ set rest (i - length cs) 0
set-append [] rest i p = let all : i - 0 ≡ i = omega arith in rw all refl
set-append (c ∷ cs) rest zero p = ground (arith, p)
set-append (c ∷ cs) rest (suc i) p =
    let same : suc i - suc (length cs) ≡ i - length cs = omega arith in
    rw same (ap (λ l. c ∷ l) (set-append cs rest i (omega arith)))

-- A name of one to 20 bytes, none of them the terminator, is put over the start of the old one, whose
-- further bytes up to its terminator remain part of the name.
pub save_dev_name-len :
    (d : Flash) (m : Mem) (rf_index : ℕ) (w : Settings) (pname : List ℕ)
    → nonzero pname ≡ true
    → 1 ≤ length pname
    → length pname ≤ 20
    → length w.tbl_scan_rsp.name ≡ 21
    → (save_dev_name d rf_index w m pname (length pname)).0.tbl_scan_rsp.len
      ≡ length pname + strlen (set (drop (length pname) w.tbl_scan_rsp.name) (20 - length pname) 0)
unfolding save_dev_name test_dev_cfg
save_dev_name-len d m rf_index w pname some_bytes low high buffer =
    let old = w.tbl_scan_rsp.name in
    let n = length pname in
    let tail = set (drop n old) (20 - n) 0 in
    let whole : take n pname ≡ pname = take-all n pname (omega arith) in
    let placed : set (pname ++ drop n old) 20 0 ≡ pname ++ tail =
      set-append pname (drop n old) 20 high in
    let len : strlen (pname ++ tail) ≡ n + strlen tail = strlen-append pname tail some_bytes in
    let short : strlen tail ≤ 20 - n =
      strlen-set (drop n old) (20 - n) (omega (arith, length-drop n old, buffer)) in
    let ok : (strlen (pname ++ tail) == 0 || ltb max_dev_name_len (strlen (pname ++ tail)))
        ≡ false =
      ground (arith, len, short) in
    rw (whole, placed, ok, len) refl
