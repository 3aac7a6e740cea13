-- ===== src/Ybin/Models.antt =====
-- src/cat_ybin.c, src/cat_ybin.h: the models and their families.
use mhuxd.Base.{
  ℕ, Bool, true, false, Option, none, some, List, [], ◌∷◌, if◌then◌else◌, bytes_eq, codes,
}

-- `enum family`
pub data Family : Type 0 where
  fam_757 fam_817 fam_847 fam_900 fam_920 fam_990 fam_1000 fam_mp : Family

-- `enum cat_ybin_model`
pub data Model : Type 0 where
  ft757gx2 ft817 ft857 ft897 ft847 ft840 ft890 ft900 ft920 ft990 ft1000 ft1000mp : Model

-- `struct ybin_model`; a length or a time of 0 is unknown.
pub record ModelInfo : Type 0 where
  pub id : List ℕ
  pub name : List ℕ
  pub fam : Family
  pub dump_len : ℕ
  pub hold_ms : ℕ

abbrev info : List ℕ → List ℕ → Family → ℕ → ℕ → ModelInfo
info id name fam dump_len hold_ms = record {
  id = id;
  name = name;
  fam = fam;
  dump_len = dump_len;
  hold_ms = hold_ms;
}

-- `models`
unfoldable pub models : Model → ModelInfo
models ft757gx2 = info (codes "ft757gx2") (codes "FT-757GXII") fam_757 0 150
models ft817 = info (codes "ft817") (codes "FT-817") fam_817 0 0
models ft857 = info (codes "ft857") (codes "FT-857") fam_817 0 0
models ft897 = info (codes "ft897") (codes "FT-897") fam_817 0 0
models ft847 = info (codes "ft847") (codes "FT-847") fam_847 0 0
models ft840 = info (codes "ft840") (codes "FT-840") fam_900 649 0
models ft890 = info (codes "ft890") (codes "FT-890") fam_900 649 0
models ft900 = info (codes "ft900") (codes "FT-900") fam_900 1941 0
models ft920 = info (codes "ft920") (codes "FT-920") fam_920 0 0
models ft990 = info (codes "ft990") (codes "FT-990") fam_990 1508 0
models ft1000 = info (codes "ft1000") (codes "FT-1000") fam_1000 1636 0
models ft1000mp = info (codes "ft1000mp") (codes "FT-1000MP") fam_mp 1863 0

abbrev pub fam_of : Model → Family
fam_of m = (models m).fam

-- `cat_ybin_model_str`, `cat_ybin_model_name`
unfoldable pub model_str : Model → List ℕ
model_str m = (models m).id

unfoldable pub model_name : Model → List ℕ
model_name m = (models m).name

-- the models in the order of the table
abbrev all_models : List Model
all_models =
    ft757gx2 ∷ ft817 ∷ ft857 ∷ ft897 ∷ ft847 ∷ ft840 ∷ ft890 ∷ ft900 ∷ ft920 ∷ ft990 ∷ ft1000
    ∷ ft1000mp ∷ []

unfoldable pub find_model : List ℕ → List Model → Option Model
find_model s [] = none
find_model s (m ∷ ms) = if bytes_eq s (models m).id then some m else find_model s ms

-- `cat_ybin_model_from_str`; `none` for -1
unfoldable pub model_from_str : List ℕ → Option Model
unfolding find_model
model_from_str s = find_model s all_models

abbrev pub is_fam_757 : Family → Bool
is_fam_757 fam_757 = true
is_fam_757 _ = false

abbrev pub is_fam_817 : Family → Bool
is_fam_817 fam_817 = true
is_fam_817 _ = false

abbrev pub is_fam_847 : Family → Bool
is_fam_847 fam_847 = true
is_fam_847 _ = false

abbrev pub is_fam_920 : Family → Bool
is_fam_920 fam_920 = true
is_fam_920 _ = false

abbrev pub is_fam_1000 : Family → Bool
is_fam_1000 fam_1000 = true
is_fam_1000 _ = false

abbrev pub is_fam_mp : Family → Bool
is_fam_mp fam_mp = true
is_fam_mp _ = false

-- `cfg.model == CAT_YBIN_FT817`
abbrev pub is_ft817 : Model → Bool
is_ft817 ft817 = true
is_ft817 _ = false
