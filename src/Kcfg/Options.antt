-- ===== src/Kcfg/Options.antt =====
-- src/kcfg.c: what kcfg_set_val stores, kcfg_get_val reads again, and no other option is touched.
use mhuxd.Base.{
  ℕ, zero, suc, ◌+◌, ◌-◌, ◌/◌, ◌^◌, ◌≤◌, ◌<◌, ◌≡◌, ◌≢◌, ◌⊎◌, refl, sym, ◌∙◌, arith, true, false,
  not, ◌&&◌, none, some, List, [], ◌∷◌, ◌==◌, length, length-set, get_elem?, set, map,
  bytes_eq_sound, bytes_eq_refl, str_case_eq, lower, Bool-cases, Option-cases, each_below,
  each_below_lem, inl, inr, ==_iff,
}
use mhuxd.Kcfg.Items.{Citem}
use mhuxd.Kcfg.Settings.{
  Kcfg, SetResult, done, failed, find_citem, index_of, shift_of, put_field, get_field, set_item,
  set_val, item_val, get_val, width2mask, too_large, is_frozen,
}
use mhuxd.Kcfg.Fields.{get_field-put_field, get_field-put_field_apart}
use mhuxd.Kcfg.Layout.{
  fits, IsByte, IsKcfg, collide, clear_of, each_of, IsApart, found-each, found-key, get_elem?-set,
  get_elem?-set_other, All-get_elem?, All-set,
}

put_field-IsByte : (s w v c : ℕ) → IsByte (put_field s w v c)
unfolding put_field
put_field-IsByte s w v c = omega arith

-- the settings with the value in the option's field of the byte `c`
abbrev stored : Kcfg → Citem → ℕ → ℕ → Kcfg
stored k cp v c = record k {
  bytes = set k.bytes (index_of cp) (put_field (shift_of cp) cp.width v c);
}

set_val_found :
    (k : Kcfg) (key : List ℕ) (v : ℕ) (cp : Citem)
    → find_citem k.items key ≡ some cp
    → set_val k key v ≡ set_item k cp key v
unfolding set_val
set_val_found k key v cp e = rw (e, set_val)

set_val_missing :
    (k : Kcfg) (key : List ℕ) (v : ℕ)
    → find_citem k.items key ≡ none
    → set_val k key v ≡ (failed, k)
unfolding set_val
set_val_missing k key v e = rw (e, set_val)

get_val_found :
    (k : Kcfg) (key : List ℕ) (def c : ℕ) (cp : Citem)
    → find_citem k.items key ≡ some cp
    → get_elem? k.bytes (index_of cp) ≡ some c
    → get_val k key def ≡ get_field (shift_of cp) cp.width c
unfolding get_val item_val
get_val_found k key def c cp e at = rw (e, get_val) (rw (at, item_val))

get_val_missing :
    (k : Kcfg) (key : List ℕ) (def : ℕ) → find_citem k.items key ≡ none → get_val k key def ≡ def
unfolding get_val
get_val_missing k key def e = rw (e, get_val)

get_elem?-within : (xs : List ℕ) (i : ℕ) → i < length xs → (c : ℕ) × (get_elem? xs i ≡ some c)
get_elem?-within [] i h = absurd (omega arith)
get_elem?-within (x ∷ xs) zero h = (x, refl)
get_elem?-within (x ∷ xs) (suc i) h = get_elem?-within xs i (omega arith)

-- Either nothing is set, or an option is found, the value fits it and is stored.
abbrev Outcome : Kcfg → List ℕ → ℕ → SetResult × Kcfg → Type 0
Outcome k key v (r, k') =
    ((k' ≡ k) × (r ≢ done))
    ⊎ ((cp : Citem) × (c : ℕ) × (find_citem k.items key ≡ some cp)
        × (get_elem? k.bytes (index_of cp) ≡ some c)
        × (too_large v (width2mask cp.width) ≡ false)
        × (k' ≡ stored k cp v c))

set_item_lem :
    (k : Kcfg) (cp : Citem) (key : List ℕ) (v : ℕ)
    → find_citem k.items key ≡ some cp
    → Outcome k key v (set_item k cp key v)
unfolding set_item
set_item_lem k cp key v f = elim (Bool-cases (not (cp.preset == v) && is_frozen key)) [
  | inl y ↦ rw y (inl (refl, cc))
  | inr n ↦ rw n (elim (Option-cases (get_elem? k.bytes (index_of cp))) [
    | inl e ↦ rw e (inl (refl, cc))
    | inr (c, e) ↦ rw e (elim (Bool-cases (too_large v (width2mask cp.width))) [
      | inl y ↦ rw y (inl (refl, cc))
      | inr n' ↦ rw n' (inr (cp, c, f, e, n', refl))
    ])
  ])
]

set_val_lem : (k : Kcfg) (key : List ℕ) (v : ℕ) → Outcome k key v (set_val k key v)
set_val_lem k key v = elim (Option-cases (find_citem k.items key)) [
  | inl e ↦ rw (set_val_missing k key v e) (inl (refl, cc))
  | inr (cp, e) ↦ rw (set_val_found k key v cp e) (set_item_lem k cp key v e)
]

-- kcfg_set_val keeps the settings bytes, as many as before, and their options.
pub set_val-IsKcfg : (k : Kcfg) (key : List ℕ) (v : ℕ) → IsKcfg k → IsKcfg (set_val k key v).1
set_val-IsKcfg k key v h = elim (set_val_lem k key v) [
  | inl (same, _) ↦ rw same h
  | inr (cp, c, _, _, _, s) ↦ rw s (record {
    all_bytes = All-set k.bytes _ _ (put_field-IsByte (shift_of cp) cp.width v c) h.all_bytes;
    all_fit = rw (length-set k.bytes) h.all_fit;
    all_apart = h.all_apart;
  })
]

mask_table : each_below (λ w. 255 / 2 ^ (8 - w) + 1 == 2 ^ w) 9 ≡ true
unfolding each_below
mask_table = refl

-- the mask of `w` bits, as a bound
masks : (v w : ℕ) → w ≤ 8 → v < 2147483648 → too_large v (width2mask w) ≡ false → v < 2 ^ w
unfolding too_large width2mask
masks v w l n h =
    ground
      (arith, each_below_lem (λ w. 255 / 2 ^ (8 - w) + 1 == 2 ^ w) 9 w (omega arith) mask_table)

-- The place of an option in its byte.
place :
    (k : Kcfg) (key : List ℕ) (cp : Citem)
    → IsKcfg k
    → find_citem k.items key ≡ some cp
    → (shift_of cp + cp.width ≤ 8) × (0 < cp.width) × (index_of cp < length k.bytes)
place k key cp h f =
    let p = found-each (fits (length k.bytes)) k.items key cp f h.all_fit in
    (ground (arith, p), ground (arith, p), ground (arith, p))

-- In settings in order, when kcfg_set_val reports that it has set an option to a value that is not
-- negative, kcfg_get_val reads that value by the same name, whatever the value is that stands for an
-- unknown option.
pub set_val-get_val :
    (k : Kcfg) (key : List ℕ) (v def : ℕ)
    → IsKcfg k
    → v < 2147483648
    → (set_val k key v).0 ≡ done
    → get_val (set_val k key v).1 key def ≡ v
set_val-get_val k key v def h nonneg ok = elim (set_val_lem k key v) [
  | inl (same, undone) ↦ absurd (undone ok)
  | inr (cp, c, f, at, small, s) ↦
      let (place8, some_bits, _) = place k key cp h f in
      rw s (
        get_val_found (stored k cp v c) key def _ cp f (get_elem?-set k.bytes (index_of cp) _ c at)
        ∙ get_field-put_field (shift_of cp) cp.width c v place8 some_bits
            (All-get_elem? k.bytes (index_of cp) c h.all_bytes at)
            (masks v cp.width (ground arith) nonneg small))
]

-- The fields of two options that are found do not collide, unless they are of one name.
found_apart :
    (is : List Citem) (key other : List ℕ) (a b : Citem)
    → IsApart is
    → find_citem is key ≡ some a
    → find_citem is other ≡ some b
    → str_case_eq key other ≡ false
    → collide a b ≡ false
found_apart is key other a b apart fa fb differ = elim (Bool-cases (collide a b)) [
  | inr n ↦ n
  | inl y ↦ absurd (same_name y)
]
  where
    clear : clear_of a b ≡ true
    clear =
        found-each (clear_of a) is other b fb
          (found-each (λ a. each_of (clear_of a) is) is key a fa apart)

    same_name : collide a b ≡ true → ⊥
    same_name y = ground (
      arith,
      clear,
      y,
      bytes_eq_sound (map lower key) (map lower a.key) (found-key is key a fa),
      bytes_eq_sound (map lower other) (map lower b.key) (found-key is other b fb),
      bytes_eq_sound (map lower a.key) (map lower b.key),
      bytes_eq_refl (map lower other),
    )

module _ {k : Kcfg} (key other : List ℕ) {v c : ℕ} (def : ℕ) {cp o : Citem} (h : IsKcfg k)
    (nonneg : v < 2147483648) (f : find_citem k.items key ≡ some cp)
    (at : get_elem? k.bytes (index_of cp) ≡ some c)
    (small : too_large v (width2mask cp.width) ≡ false) (fo : find_citem k.items other ≡ some o)
    (apart : collide cp o ≡ false) where
  read_same_byte :
      (index_of cp == index_of o) ≡ true → get_val (stored k cp v c) other def ≡ get_val k other def
  read_same_byte y =
      let i : index_of cp ≡ index_of o = (==_iff _ _).0 y in
      let mine = place k key cp h f in
      let theirs = place k other o h fo in
      get_val_found (stored k cp v c) other def _ o fo
        (rw (← i) (get_elem?-set k.bytes (index_of cp) _ c at))
      ∙ get_field-put_field_apart (shift_of cp) cp.width c v mine.0 mine.1
          (All-get_elem? k.bytes (index_of cp) c h.all_bytes at)
          (masks v cp.width (omega (arith, mine.0)) nonneg small) (shift_of o) o.width theirs.0
          theirs.1 (ground (arith, y, apart))
      ∙ sym (get_val_found k other def c o fo (rw (← i) at))

  read_other_byte :
      (index_of cp == index_of o) ≡ false
      → get_val (stored k cp v c) other def ≡ get_val k other def
  read_other_byte n =
      let theirs = place k other o h fo in
      let (c', at') = get_elem?-within k.bytes (index_of o) theirs.2 in
      get_val_found (stored k cp v c) other def c' o fo
        (get_elem?-set_other k.bytes (index_of cp) (index_of o) _ n ∙ at')
      ∙ sym (get_val_found k other def c' o fo at')

  read_apart : get_val (stored k cp v c) other def ≡ get_val k other def
  read_apart = elim (Bool-cases (index_of cp == index_of o)) [
    | inl y ↦ read_same_byte y
    | inr n ↦ read_other_byte n
  ]

-- In settings in order, kcfg_set_val with a value that is not negative leaves what kcfg_get_val reads by
-- any name that differs in more than case as it is, known or not.
pub get_val-set_val_other :
    (k : Kcfg) (key other : List ℕ) (v def : ℕ)
    → IsKcfg k
    → v < 2147483648
    → str_case_eq key other ≡ false
    → get_val (set_val k key v).1 other def ≡ get_val k other def
get_val-set_val_other k key other v def h nonneg differ = elim (set_val_lem k key v) [
  | inl (same, undone) ↦ rw same
  | inr (cp, c, f, at, small, s) ↦ rw s (elim (Option-cases (find_citem k.items other)) [
    | inl e ↦ get_val_missing (stored k cp v c) other def e ∙ sym (get_val_missing k other def e)
    | inr (o, fo) ↦
        read_apart key other def h nonneg f at small fo
          (found_apart k.items key other cp o h.all_apart f fo differ)
  ])
]
