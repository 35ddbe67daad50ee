-- ===== src/Eep/Compact/Copying.antt =====
-- What copying one record of src/flash_eep.c does for the value of one object.
use b80_key.Prelude.{ℕ, ◌≤◌, ◌≡◌, ◌≢◌, ◌⊎◌, refl, inl, inr}
use b80_key.Prelude.{
  List, [], ◌∷◌, Option, none, some, Bool, true, false, ◌&&◌, arith, leb, ◌==◌, Bool-cases, length,
}
use b80_key.Eep.{Obj, max_fobj_size}
use b80_key.Eep.Log.{latest, IsEntry, All}
use b80_key.Eep.Pack.{Flags, set_flag_eep_id}
use b80_key.Eep.Flags.{IsFlag, AreBytes, set-AreBytes, set-IsFlag}

-- The records that are copied at the last value of an object, with the flags after it.
unfoldable pub emit_latest : Flags → ℕ → Option (List ℕ) → Flags × List Obj
emit_latest b id none = (b, [])
emit_latest b id (some []) = (set_flag_eep_id b id, [])
emit_latest b id (some (x ∷ xs)) =
    (set_flag_eep_id b id, record { id = id; size = length (x ∷ xs); bytes = x ∷ xs } ∷ [])

-- An object of size 0 is a deleted one.
abbrev pub visible : Option (List ℕ) → Option (List ℕ)
visible none = none
visible (some []) = none
visible (some (x ∷ xs)) = some (x ∷ xs)

abbrev pub or_else : Option (List ℕ) → Option (List ℕ) → Option (List ℕ)
or_else none o = o
or_else (some bs) o = some bs

pub latest-or_else :
    (id : ℕ) (log : List Obj) (o : Option (List ℕ))
    → latest id log o ≡ or_else (latest id log none) o
unfolding latest
latest-or_else id [] o = refl
latest-or_else id (e ∷ log) o = elim (Bool-cases (leb e.size max_fobj_size && e.id == id)) [
  | inl same ↦
      rw (same, latest-or_else id log (some e.bytes)) (or_else-some (latest id log none) e.bytes o)
  | inr other ↦ rw other (latest-or_else id log o)
]
  where
    or_else-some :
        (l : Option (List ℕ)) (bs : List ℕ) (o : Option (List ℕ))
        → or_else l (some bs) ≡ or_else (or_else l (some bs)) o
    or_else-some none bs o = refl
    or_else-some (some xs) bs o = refl

-- Where the copying stands for one object: `v` is its value among the records copied, `r` its
-- value among those to come, and `w` its value in the old sector.
pub record Tracks (b : Flags) (id : ℕ) (v r w : Option (List ℕ)) : Type 0 where
  pub bytes : AreBytes b
  pub flagged : IsFlag b id → visible v ≡ w
  pub found : (visible v ≡ w) ⊎ ((v ≡ none) × (visible r ≡ w))
  pub to_come : (r ≡ none) ⊎ (visible r ≡ w)

pub Tracks-end : (b : Flags) (id : ℕ) (v w : Option (List ℕ)) → Tracks b id v none w → visible v ≡ w
Tracks-end b id v w t = elim t.found [ inl e ↦ e | inr (e, f) ↦ rw e f ]

abbrev pub matches : ℕ → Obj → Bool
matches id e = leb e.size max_fobj_size && e.id == id

pub latest-same :
    (id : ℕ) (e : Obj) (rest : List Obj)
    → matches id e ≡ true
    → latest id (e ∷ rest) none ≡ or_else (latest id rest none) (some e.bytes)
unfolding latest
latest-same id e rest same = rw (same, latest-or_else id rest (some e.bytes)) refl

pub latest-other :
    (id : ℕ) (e : Obj) (rest : List Obj) (o : Option (List ℕ))
    → matches id e ≡ false
    → latest id (e ∷ rest) o ≡ latest id rest o
unfolding latest
latest-other id e rest o other = rw other refl

-- A record of the object may be passed over if it deletes the object or the value is copied.
pub Tracks-pass :
    (b : Flags) (id : ℕ) (v r w : Option (List ℕ)) (bs : List ℕ)
    → (bs ≡ []) ⊎ (visible v ≡ w)
    → Tracks b id v (or_else r (some bs)) w
    → Tracks b id v r w
Tracks-pass b id v none w bs why t = record {
  bytes = t.bytes;
  flagged = t.flagged;
  found = ground (arith, why, t.found);
  to_come = inl refl;
}
Tracks-pass b id v (some x) w bs why t = t

pub Tracks-flags :
    (b b' : Flags) (id : ℕ) (v r w : Option (List ℕ))
    → AreBytes b'
    → (IsFlag b' id → (visible v ≡ w) ⊎ IsFlag b id)
    → Tracks b id v r w
    → Tracks b' id v r w
Tracks-flags b b' id v r w bytes fewer t = record {
  bytes = bytes;
  flagged = λ f. elim (fewer f) [ inl e ↦ e | inr g ↦ t.flagged g ];
  found = t.found;
  to_come = t.to_come;
}

pub latest-length :
    (id : ℕ) (log : List Obj) (o : Option (List ℕ)) (bs : List ℕ)
    → All IsEntry log
    → ((xs : List ℕ) → o ≡ some xs → length xs ≤ max_fobj_size)
    → latest id log o ≡ some bs
    → length bs ≤ max_fobj_size
unfolding latest
latest-length id [] o bs ok start e = start bs e
latest-length id (x ∷ log) o bs ok start e =
    latest-length id log _ bs ok.1 (λ xs p. ground (arith, ok.0.data_span, start xs)) e

-- The copy of another object's value changes nothing for this one.
pub emit-other :
    (b : Flags) (id other : ℕ) (x v r w : Option (List ℕ))
    → id ≢ other
    → Tracks b id v r w
    → let (b', out) = emit_latest b other x in Tracks b' id (latest id out v) r w
unfolding emit_latest latest
emit-other b id other none v r w ne t = t
emit-other b id other (some []) v r w ne t =
    Tracks-flags b _ id v r w (set-AreBytes b other t.bytes)
      (λ f. ground (arith, ne, set-IsFlag b other id t.bytes f)) t
emit-other b id other (some (y ∷ ys)) v r w ne t =
    let no_match : (leb (length (y ∷ ys)) max_fobj_size && other == id) ≡ false = ground arith in
    rw no_match (
      Tracks-flags b _ id v r w (set-AreBytes b other t.bytes)
        (λ f. ground (arith, ne, set-IsFlag b other id t.bytes f)) t)

-- The copy of this object's value, `x`, when it is that of the old sector.
pub emit-same :
    (b : Flags) (id : ℕ) (x v r r' w : Option (List ℕ))
    → ((bs : List ℕ) → x ≡ some bs → length bs ≤ max_fobj_size)
    → x ≢ none
    → visible x ≡ w
    → (r' ≡ none) ⊎ (visible r' ≡ w)
    → Tracks b id v r w
    → let (b', out) = emit_latest b id x in Tracks b' id (latest id out v) r' w
unfolding emit_latest latest
emit-same b id none v r r' w short ne val later t = absurd (ne refl)
emit-same b id (some []) v r r' w short ne val later t =
    let copied : visible v ≡ w = ground (arith, val, t.found) in
    record {
      bytes = set-AreBytes b id t.bytes;
      flagged = λ f. copied;
      found = inl copied;
      to_come = later;
    }
emit-same b id (some (y ∷ ys)) v r r' w short ne val later t =
    let match : (leb (length (y ∷ ys)) max_fobj_size && id == id) ≡ true =
      ground (arith, short (y ∷ ys) refl) in
    rw match (record {
      bytes = set-AreBytes b id t.bytes;
      flagged = λ f. val;
      found = inl val;
      to_come = later;
    })

pub nil_of_length : (xs : List ℕ) → length xs ≡ 0 → xs ≡ []
nil_of_length [] h = refl
nil_of_length (x ∷ xs) h = absurd (omega arith)

pub entry-pass :
    (b : Flags) (id : ℕ) (e : Obj) (rest : List Obj) (v w : Option (List ℕ))
    → (matches id e ≡ true → (e.bytes ≡ []) ⊎ (visible v ≡ w))
    → Tracks b id v (latest id (e ∷ rest) none) w
    → Tracks b id v (latest id rest none) w
entry-pass b id e rest v w why t = elim (Bool-cases (matches id e)) [
  | inl same ↦
      Tracks-pass b id v (latest id rest none) w e.bytes (why same)
        (rw (latest-same id e rest same) at t)
  | inr other ↦ rw (latest-other id e rest none other) at t
]

pub later_of :
    (r w : Option (List ℕ)) (bs : List ℕ)
    → (or_else r (some bs) ≡ none) ⊎ (visible (or_else r (some bs)) ≡ w)
    → (r ≡ none) ⊎ (visible r ≡ w)
later_of none w bs h = inl refl
later_of (some x) w bs h = h

pub or_else-ne-none : (r : Option (List ℕ)) (bs : List ℕ) → or_else r (some bs) ≢ none
or_else-ne-none none bs e = cc
or_else-ne-none (some x) bs e = cc
