-- ===== src/Kcfg/Presets.antt =====
-- src/kcfg.c: the settings that kcfg_create makes, and what becomes of them.
use mhuxd.Base.{
  ℕ, zero, suc, ◌≡◌, refl, arith, true, false, some, List, [], ◌∷◌, if◌then◌else◌, length,
  length-set, replicate, set, All, All-get_or, Bool-cases, inl, inr, ◌||◌, codes,
}
use mhuxd.Mhinfo.{MhInfo, Keyer, is_keyer, has}
use mhuxd.Mhinfo.Flags.{has_r2}
use mhuxd.Kcfg.Items.{Citem}
use mhuxd.Kcfg.Settings.{Kcfg, get_val, set_val, is_mk_family}
use mhuxd.Kcfg.Create.{
  blank, set_presets, set_vals, put_frbase, frbase_state, mk1_set_frbase, adjust, dk_presets,
  mk2_presets, mod_cw, mod_digital, preset_family, preset_ptt, preset_audio, create, get_settings,
  update_keyer_mode, mk1_frbase_def, frbase_of,
}
use mhuxd.Kcfg.Layout.{fits, each_of, IsApart, IsByte, IsKcfg, All-set}
use mhuxd.Kcfg.Options.{set_val-IsKcfg}

blank-fits : (type : Keyer) → each_of (fits (length (blank type).bytes)) (blank type).items ≡ true
unfolding blank
blank-fits Keyer.unknown = refl
blank-fits Keyer.ck = refl
blank-fits Keyer.dk = refl
blank-fits Keyer.dk2 = refl
blank-fits Keyer.mk = refl
blank-fits Keyer.mk2 = refl
blank-fits Keyer.mk2r = refl
blank-fits Keyer.mk2rp = refl
blank-fits Keyer.sm = refl
blank-fits Keyer.smd = refl
blank-fits Keyer.u2r = refl
blank-fits Keyer.mk3 = refl

blank-IsApart : (type : Keyer) → IsApart (blank type).items
unfolding blank
blank-IsApart Keyer.unknown = refl
blank-IsApart Keyer.ck = refl
blank-IsApart Keyer.dk = refl
blank-IsApart Keyer.dk2 = refl
blank-IsApart Keyer.mk = refl
blank-IsApart Keyer.mk2 = refl
blank-IsApart Keyer.mk2r = refl
blank-IsApart Keyer.mk2rp = refl
blank-IsApart Keyer.sm = refl
blank-IsApart Keyer.smd = refl
blank-IsApart Keyer.u2r = refl
blank-IsApart Keyer.mk3 = refl

All-zeros : (n : ℕ) → All IsByte (replicate n 0)
All-zeros zero = tt
All-zeros (suc n) = (omega arith, All-zeros n)

blank-bytes : (type : Keyer) → All IsByte (blank type).bytes
unfolding blank
blank-bytes type = elim (Bool-cases (is_mk_family type)) [
  | inl y ↦ rw y (All-zeros 13)
  | inr n ↦ rw n (All-zeros _)
]

pub blank-IsKcfg : (type : Keyer) → IsKcfg (blank type)
blank-IsKcfg type = record {
  all_bytes = blank-bytes type;
  all_fit = blank-fits type;
  all_apart = blank-IsApart type;
}

set_presets-IsKcfg : (k : Kcfg) (is : List Citem) → IsKcfg k → IsKcfg (set_presets k is)
unfolding set_presets
set_presets-IsKcfg k [] h = h
set_presets-IsKcfg k (i ∷ is) h =
    set_presets-IsKcfg (set_val k i.key i.preset).1 is (set_val-IsKcfg k i.key i.preset h)

set_vals-IsKcfg : (k : Kcfg) (kvs : List (List ℕ × ℕ)) → IsKcfg k → IsKcfg (set_vals k kvs)
unfolding set_vals
set_vals-IsKcfg k [] h = h
set_vals-IsKcfg k ((key, val) ∷ kvs) h =
    set_vals-IsKcfg (set_val k key val).1 kvs (set_val-IsKcfg k key val h)

-- A byte that is written past the options.
set-IsKcfg :
    (k : Kcfg) (i v : ℕ) → IsByte v → IsKcfg k → IsKcfg (record k { bytes = set k.bytes i v })
set-IsKcfg k i v b h = record {
  all_bytes = All-set k.bytes i v b h.all_bytes;
  all_fit = rw (length-set k.bytes) h.all_fit;
  all_apart = h.all_apart;
}

frbase_state-IsByte : (mode sh f : ℕ) → IsByte f → IsByte (frbase_state mode sh f)
unfolding frbase_state
frbase_state-IsByte mode sh f b = ground arith

put_frbase-IsKcfg : (k : Kcfg) (m : ℕ) → IsKcfg k → IsKcfg (put_frbase k m)
unfolding put_frbase
put_frbase-IsKcfg k m h = set-IsKcfg _ 2 _ (omega arith) (
    set-IsKcfg k 0 _
      (frbase_state-IsByte mode 4 _ (
        frbase_state-IsByte mode 2 _ (
          frbase_state-IsByte mode 0 _
            (All-get_or IsByte 0 k.bytes (frbase_of m).1 (omega arith) h.all_bytes))))
      h)
  where
    mode : ℕ
    mode = (frbase_of m).0

mk1_set_frbase-IsKcfg : (mhi : MhInfo) (k : Kcfg) → IsKcfg k → IsKcfg (mk1_set_frbase mhi k)
unfolding mk1_set_frbase
mk1_set_frbase-IsKcfg mhi k h = elim (Bool-cases (is_keyer mhi.type Keyer.mk)) [
  | inl y ↦ rw y (put_frbase-IsKcfg k (get_val k (codes "r1KeyerMode") mod_digital) h)
  | inr n ↦ rw n (
      put_frbase-IsKcfg _ mode (
        set_val-IsKcfg _ (codes "r1KeyerMode") mode
          (set_val-IsKcfg k (codes "r1ForceKeyerMode") 0 h)))
]
  where
    mode : ℕ
    mode = if is_keyer mhi.type Keyer.ck then mod_cw else mod_digital

preset_family-IsKcfg : (type : Keyer) (k : Kcfg) → IsKcfg k → IsKcfg (preset_family type k)
unfolding preset_family mk1_frbase_def
preset_family-IsKcfg type k h = elim (Bool-cases (is_mk_family type)) [
  | inl y ↦ rw y (set-IsKcfg _ 12 149 (omega arith) (set-IsKcfg k 11 127 (omega arith) h))
  | inr n ↦ rw n h
]

preset_ptt-IsKcfg : (type : Keyer) (k : Kcfg) → IsKcfg k → IsKcfg (preset_ptt type k)
unfolding preset_ptt
preset_ptt-IsKcfg type k h = elim (Bool-cases (is_keyer type Keyer.dk2 || is_keyer type Keyer.dk)) [
  | inl y ↦ rw y (set_vals-IsKcfg k dk_presets h)
  | inr n ↦ rw n h
]

preset_audio-IsKcfg : (type : Keyer) (k : Kcfg) → IsKcfg k → IsKcfg (preset_audio type k)
unfolding preset_audio
preset_audio-IsKcfg type k h =
    elim (Bool-cases (is_keyer type Keyer.mk2 || is_keyer type Keyer.mk3)) [
      | inl y ↦ rw y (set_vals-IsKcfg k mk2_presets h)
      | inr n ↦ rw n h
    ]

adjust-IsKcfg : (mhi : MhInfo) (k : Kcfg) → IsKcfg k → IsKcfg (adjust mhi k)
unfolding adjust
adjust-IsKcfg mhi k h = elim (Bool-cases (is_mk_family mhi.type)) [
  | inl y ↦ rw y (mk1_set_frbase-IsKcfg mhi _ presets)
  | inr n ↦ rw n presets
]
  where
    presets : IsKcfg (preset_audio mhi.type (preset_ptt mhi.type (preset_family mhi.type k)))
    presets =
        preset_audio-IsKcfg mhi.type _
          (preset_ptt-IsKcfg mhi.type _ (preset_family-IsKcfg mhi.type k h))

create-IsKcfg : (mhi : MhInfo) (k : Kcfg) → create mhi ≡ some k → IsKcfg k
unfolding create
create-IsKcfg mhi k e = elim (Bool-cases (is_keyer mhi.type Keyer.unknown)) [
  | inl y ↦ absurd (ground (arith, y))
  | inr n ↦ rw (← made n) (
      adjust-IsKcfg mhi _
        (set_presets-IsKcfg (blank mhi.type) (blank mhi.type).items (blank-IsKcfg mhi.type)))
]
  where
    made :
        is_keyer mhi.type Keyer.unknown ≡ false
        → adjust mhi (set_presets (blank mhi.type) (blank mhi.type).items) ≡ k
    made n = ground (arith, n)

get_settings-IsKcfg : (mhi : MhInfo) (k : Kcfg) → IsKcfg k → IsKcfg (get_settings mhi k).1
unfolding get_settings
get_settings-IsKcfg mhi k h = elim (Bool-cases (is_mk_family mhi.type)) [
  | inl y ↦ rw y (mk1_set_frbase-IsKcfg mhi k h)
  | inr n ↦ rw n h
]

update_keyer_mode-IsKcfg :
    (mhi : MhInfo) (k : Kcfg) (cur r1 r2 : ℕ)
    → IsKcfg k
    → IsKcfg (update_keyer_mode mhi k cur r1 r2)
unfolding update_keyer_mode
update_keyer_mode-IsKcfg mhi k cur r1 r2 h = elim (Bool-cases (has mhi has_r2)) [
  | inl y ↦ rw y (set_val-IsKcfg _ _ r2 (set_val-IsKcfg k _ r1 h))
  | inr n ↦ rw n (set_val-IsKcfg k _ cur h)
]

-- The settings that a keyer of one type can have: those of kcfg_create, and what kcfg_set_val,
-- kcfg_get_settings and kcfg_update_keyer_mode make of them, with any arguments.
pub data Reachable (mhi : MhInfo) : Kcfg → Type 0 where
  created : {k : Kcfg} → create mhi ≡ some k → Reachable mhi k
  changed : {k : Kcfg} (key : List ℕ) (v : ℕ) → Reachable mhi k → Reachable mhi (set_val k key v).1
  sent : {k : Kcfg} → Reachable mhi k → Reachable mhi (get_settings mhi k).1
  updated :
      {k : Kcfg} (cur r1 r2 : ℕ)
      → Reachable mhi k
      → Reachable mhi (update_keyer_mode mhi k cur r1 r2)

-- However the settings of a keyer are made and used, they are bytes, every option is a field of bits
-- within one of them, and no two options whose names differ in more than case share a bit.
pub Reachable-IsKcfg : {mhi : MhInfo} {k : Kcfg} → Reachable mhi k → IsKcfg k
Reachable-IsKcfg (created e) = create-IsKcfg _ _ e
Reachable-IsKcfg (changed key v r) = set_val-IsKcfg _ key v (Reachable-IsKcfg r)
Reachable-IsKcfg (sent r) = get_settings-IsKcfg _ _ (Reachable-IsKcfg r)
Reachable-IsKcfg (updated cur r1 r2 r) = update_keyer_mode-IsKcfg _ _ cur r1 r2 (Reachable-IsKcfg r)
