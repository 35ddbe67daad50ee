-- ===== src/Att/Declared.antt =====
-- What the table of src/app_att.c declares.
use b80_key.Prelude.{
  arith, ℕ, ◌+◌, ◌-◌, ◌<◌, ◌≡◌, refl, Bool, true, false, ◌&&◌, ◌||◌, not, ◌==◌, if◌then◌else◌,
  length, Option, none, some, get_elem?, every_below, every_below_lem,
}
use b80_key.Att.{
  handle, Uuid, uuid16, telink_ota_uuid_service, telink_spp_data_ota, no_uuid, char_val, variable,
  Attribute, device_information_mod_name_cd_h, device_information_serial_n_cd_h, att_end_h, size_of,
}
use b80_key.Att.Table.{my_attributes}

abbrev same : Bool → Bool → Bool
same a b = if a then b else not b

same→≡ : (a b : Bool) → same a b ≡ true → a ≡ b
same→≡ a b h = ground (arith, h)

abbrev same_uuid : Uuid → Uuid → Bool
same_uuid (uuid16 a) (uuid16 b) = a == b
same_uuid telink_ota_uuid_service telink_ota_uuid_service = true
same_uuid telink_spp_data_ota telink_spp_data_ota = true
same_uuid no_uuid no_uuid = true
same_uuid _ _ = false

-- Whether attribute `i` is a value with this UUID: one that is neither a service nor a declaration.
abbrev is_value_of : Uuid → Option Attribute → Bool
is_value_of u none = false
is_value_of u (some a) = elim (a.value) [ variable v ↦ same_uuid u a.uuid | _ ↦ false ]

-- A declaration gives the handle of the attribute behind it and the UUID of that attribute; every other
-- attribute passes.
unfoldable pub declares_next : ℕ → Bool
unfolding handle size_of
declares_next i = elim (get_elem? my_attributes i) [
  | none ↦ true
  | some a ↦ elim (a.value) [
    | char_val props h u ↦ handle h == i + 1 && is_value_of u (get_elem? my_attributes (i + 1))
    | _ ↦ true
  ]
]

abbrev att_num_at : ℕ → ℕ
att_num_at i = elim (get_elem? my_attributes i) [ none ↦ 0 | some a ↦ a.att_num ]

-- A line that starts a service of `n` attributes is followed by n - 1 that start none, and then by the
-- next service or by the end. The first line has the number of the others.
unfoldable pub is_grouped : ℕ → Bool
unfolding handle size_of every_below
is_grouped i =
    let n = att_num_at i in
    let number = length my_attributes in
    if i == 0
    then n + 1 == number
    else if n == 0
    then true
    else every_below (n - 1) (λ k. att_num_at (i + 1 + k) == 0)
      && (i + n == number || not (att_num_at (i + n) == 0))

declarations : every_below 41 (λ i. same (declares_next i) (not (i == 13 || i == 15))) ≡ true
unfolding declares_next every_below
declarations = refl

groups : every_below 41 is_grouped ≡ true
unfolding is_grouped every_below
groups = refl

-- Of the 41 lines of the table, the declarations give the handle of the line behind them and its UUID,
-- with two exceptions: those of the model and of the serial number, which do not. The services have the
-- lines that their numbers say.
pub my_attributes_lem :
    (i : ℕ)
    → i < handle att_end_h
    → (declares_next i
        ≡ not (
            i == handle device_information_mod_name_cd_h
            || i == handle device_information_serial_n_cd_h))
      × (is_grouped i ≡ true)
unfolding handle
my_attributes_lem i inside = (
  same→≡ (declares_next i) _ (every_below_lem 41 _ i declarations inside),
  every_below_lem 41 is_grouped i groups inside,
)
