-- ===== src/Ybin/Names.antt =====
-- src/cat_ybin.c: the names of the models.
use mhuxd.Base.{◌≡◌, refl, some}
use mhuxd.Ybin.Models.{Model, models, model_str, model_from_str, find_model, ft757gx2}

-- cat_ybin_model_from_str finds every model again from the name that cat_ybin_model_str gives it.
model_from_str-model_str : (m : Model) → model_from_str (model_str m) ≡ some m
unfolding model_from_str model_str models find_model
model_from_str-model_str ft757gx2 = refl
model_from_str-model_str m = refl
