-- ===== src/Tests/Settings.antt =====
-- src/kcfg.c, run on the settings of a CW keyer.
use mhuxd.Base.{◌≡◌, refl, arith, some, codes}
use mhuxd.Mhinfo.{MhInfo, Keyer, is_keyer}
use mhuxd.Kcfg.Settings.{Kcfg, done, set_val, get_val}
use mhuxd.Kcfg.Create.{create, blank, adjust, set_presets}
use mhuxd.Kcfg.Layout.{IsKcfg}
use mhuxd.Kcfg.Presets.{created, changed, Reachable-IsKcfg, blank-IsKcfg}
use mhuxd.Kcfg.Options.{set_val-get_val, get_val-set_val_other}

abbrev keyer : MhInfo
keyer = record {
  type = Keyer.ck;
  ver_fw_major = 0;
  ver_fw_minor = 0;
  ver_fw_beta = 0;
  ver_winkey = 0;
  flags = 0;
  type_str = codes "CW KEYER";
}

-- what kcfg_create makes
abbrev first : Kcfg
first = adjust keyer (set_presets (blank Keyer.ck) (blank Keyer.ck).items)

create-first : create keyer ≡ some first
unfolding create is_keyer
create-first = refl

Reachable-IsKcfg_example : IsKcfg (set_val first (codes "r1KeyerMode") 2).1
Reachable-IsKcfg_example =
    Reachable-IsKcfg {mhi = keyer} (changed (codes "r1KeyerMode") 2 (created create-first))

is_set : (set_val (blank Keyer.ck) (codes "r1KeyerMode") 2).0 ≡ done
unfolding set_val blank
is_set = refl

set_val-get_val_example :
    get_val (set_val (blank Keyer.ck) (codes "r1KeyerMode") 2).1 (codes "r1KeyerMode") 7 ≡ 2
set_val-get_val_example =
    set_val-get_val (blank Keyer.ck) (codes "r1KeyerMode") 2 7 (blank-IsKcfg Keyer.ck) (omega arith)
      is_set

get_val-set_val_other_example :
    get_val (set_val (blank Keyer.ck) (codes "r1KeyerMode") 2).1 (codes "r1ForceKeyerMode") 7
    ≡ get_val (blank Keyer.ck) (codes "r1ForceKeyerMode") 7
get_val-set_val_other_example =
    get_val-set_val_other (blank Keyer.ck) (codes "r1KeyerMode") (codes "r1ForceKeyerMode") 2 7
      (blank-IsKcfg Keyer.ck) (omega arith) refl
