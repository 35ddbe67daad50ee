-- ===== src/Eep/Compact.antt =====
-- What pack_eep_fmem of src/flash_eep.c copies, as a function of the records alone, and that it
-- loses no value.
mod Copying
unfoldable pub use Copying.{emit_latest}
pub use Copying.{visible, latest-length}
use Copying.{
  or_else, matches, Tracks, latest-or_else, Tracks-end, latest-same, latest-other, Tracks-pass,
  Tracks-flags, emit-other, emit-same, nil_of_length, entry-pass, later_of, or_else-ne-none,
}
use b80_key.Prelude.{ℕ, ◌%◌, ◌^◌, ◌≤◌, ◌<◌, ◌≡◌, ◌≢◌, ◌⊎◌, refl, inl, inr}
use b80_key.Prelude.{
  List, [], ◌∷◌, ◌++◌, Option, none, some, Bool, true, false, ◌&&◌, ◌||◌, arith, ltb, leb, ◌==◌,
  if◌then◌else◌, Bool-cases, length, zero-bit_and,
}
use mathlib.Core.Path.{subst}
use native.Mathlib.Decide.{ℕ_discrete}
use b80_key.Eep.{Obj, max_fobj_size}
use b80_key.Eep.Log.{latest, latest-append, IsEntry, All}
use b80_key.Eep.Pack.{Flags, set_flag_eep_id, check_flag_eep_id, flag_value, no_flags}
use b80_key.Eep.Flags.{
  IsFlag, AreBytes, check-AreBytes, set-AreBytes, check-IsFlag, set-IsFlag, IsFlag-of_check,
}

-- One record of the old sector, with those behind it.
unfoldable pub pack_entry : Flags → Obj → List Obj → Flags × List Obj
pack_entry b e rest =
    if e.size == 0 || e.id == 0xff
    then (b, [])
    else if ltb max_fobj_size e.size
    then (b, [])
    else let b' = check_flag_eep_id b e.id in
      if flag_value b' e.id == 0
      then emit_latest b' e.id (latest e.id (e ∷ rest) none)
      else (b', [])

unfoldable pub pack_log : Flags → List Obj → List Obj
pack_log b [] = []
pack_log b (e ∷ rest) = let (b', out) = pack_entry b e rest in out ++ pack_log b' rest

-- A record whose object has no flag yet.
copy-Tracks :
    (b : Flags) (id : ℕ) (e : Obj) (rest : List Obj) (v w : Option (List ℕ))
    → All IsEntry (e ∷ rest)
    → leb e.size max_fobj_size ≡ true
    → Tracks b id v (latest id (e ∷ rest) none) w
    → let (b', out) = emit_latest b e.id (latest e.id (e ∷ rest) none) in
      Tracks b' id (latest id out v) (latest id rest none) w
copy-Tracks b id e rest v w oks whole t = elim (ℕ_discrete id e.id) [
  | no ne ↦
      emit-other b id e.id (latest e.id (e ∷ rest) none) v (latest id rest none) w ne
        (entry-pass b id e rest v w (λ m. absurd (ne (ground arith))) t)
  | yes eq ↦
      let same : matches id e ≡ true = ground arith in
      let last = latest-same id e rest same in
      let some_value : latest id (e ∷ rest) none ≢ none = rw last (or_else-ne-none _ _) in
      let value : visible (latest id (e ∷ rest) none) ≡ w = elim t.to_come [
        | inl gone ↦ absurd (some_value gone)
        | inr val ↦ val
      ] in
      subst
        (λ k.
          Tracks (emit_latest b k (latest k (e ∷ rest) none)).0 id
            (latest id (emit_latest b k (latest k (e ∷ rest) none)).1 v) (latest id rest none) w)
        eq
        (emit-same b id (latest id (e ∷ rest) none) v (latest id (e ∷ rest) none)
          (latest id rest none) w (λ bs h. latest-length id (e ∷ rest) none bs oks (λ xs p. cc) h)
          some_value value (later_of _ w e.bytes (rw last at t.to_come)) t)
]

pack_whole-Tracks :
    (b : Flags) (id : ℕ) (e : Obj) (rest : List Obj) (v w : Option (List ℕ))
    → IsEntry e
    → All IsEntry rest
    → leb e.size max_fobj_size ≡ true
    → Tracks b id v (latest id (e ∷ rest) none) w
    → let b' = check_flag_eep_id b e.id in
      let (b'', out) =
        if flag_value b' e.id == 0
        then emit_latest b' e.id (latest e.id (e ∷ rest) none)
        else (b', []) in
      Tracks b'' id (latest id out v) (latest id rest none) w
pack_whole-Tracks b id e rest v w ok oks whole t =
    let b' = check_flag_eep_id b e.id in
    let checked =
      Tracks-flags b b' id v (latest id (e ∷ rest) none) w (check-AreBytes b e.id t.bytes)
        (λ f. inr (check-IsFlag b e.id id t.bytes f)) t in
    elim (Bool-cases (flag_value b' e.id == 0)) [
      | inl new ↦ rw new (copy-Tracks b' id e rest v w (ok, oks) whole checked)
      | inr seen ↦ rw seen (
          unfold latest in
          entry-pass b' id e rest v w
            (λ m. inr (t.flagged (subst (IsFlag b) (ground arith) (IsFlag-of_check b e.id seen))))
            checked)
    ]

pack_entry-Tracks :
    (b : Flags) (id : ℕ) (e : Obj) (rest : List Obj) (v w : Option (List ℕ))
    → id < 255
    → IsEntry e
    → All IsEntry rest
    → Tracks b id v (latest id (e ∷ rest) none) w
    → let (b', out) = pack_entry b e rest in Tracks b' id (latest id out v) (latest id rest none) w
unfolding pack_entry
pack_entry-Tracks b id e rest v w small ok oks t = elim (Bool-cases (e.size == 0 || e.id == 0xff)) [
  | inl empty ↦ rw empty (
      unfold latest in
      entry-pass b id e rest v w (λ m. inl (nil_of_length e.bytes (ground (arith, ok.data_span))))
        t)
  | inr full ↦ rw full (elim (Bool-cases (ltb max_fobj_size e.size)) [
    | inl torn ↦
        rw torn (unfold latest in entry-pass b id e rest v w (λ m. absurd (ground arith)) t)
    | inr whole ↦ rw whole (pack_whole-Tracks b id e rest v w ok oks (ground arith) t)
  ])
]

pack_log-Tracks :
    (b : Flags) (id : ℕ) (log : List Obj) (v w : Option (List ℕ))
    → id < 255
    → All IsEntry log
    → Tracks b id v (latest id log none) w
    → visible (latest id (pack_log b log) v) ≡ w
unfolding pack_log
pack_log-Tracks b id [] v w small ok t = unfold latest in Tracks-end b id v w t
pack_log-Tracks b id (e ∷ rest) v w small ok t =
    let (b', out) = pack_entry b e rest in
    rw (latest-append id out (pack_log b' rest) v) (
      pack_log-Tracks b' id rest (latest id out v) w small ok.1
        (pack_entry-Tracks b id e rest v w small ok.0 ok.1 t))

-- Packing loses no value: every object has the value that it had, but for deleted objects, whose
-- deletion is not copied. This holds although checking one flag clears others.
pub visible-pack_log :
    (id : ℕ) (log : List Obj)
    → id < 255
    → All IsEntry log
    → visible (latest id (pack_log no_flags log) none) ≡ visible (latest id log none)
visible-pack_log id log small ok = pack_log-Tracks no_flags id log none _ small ok (record {
  bytes = λ i. omega arith;
  flagged = λ f. absurd (f (zero-bit_and (2 ^ (id % 8))));
  found = inr (refl, refl);
  to_come = inr refl;
})
