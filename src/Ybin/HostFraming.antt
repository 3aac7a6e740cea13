-- ===== src/Ybin/HostFraming.antt =====
-- src/cat_ybin.c: a whole command.
use mathlib.Core.Path.{fun_ext}
use mhuxd.Base.{
  ℕ, ◌+◌, ◌<◌, ◌^◌, ◌≡◌, refl, ◌∙◌, ap, Bool, true, false, List, [], ◌∷◌, ◌++◌, arith, ◌==◌, ◌||◌,
  leb, u64, length, update, if◌then◌else◌, if_true, if_false,
}
use mhuxd.Cat.{Dir}
use mhuxd.Ybin.State.{Ybin, with_buf}
use mhuxd.Ybin.Pending.{is_empty}
use mhuxd.Ybin.Framer.{command, rx_expire, store_byte, host_byte, host_loop}

with_buf_twice :
    (y : Ybin) (i : ℕ) (b b' : List ℕ) (t t' : ℕ)
    → with_buf (with_buf y i b t) i b' t' ≡ with_buf y i b' t'
with_buf_twice y i b b' t t' = ap (λ f. record y { rx = f }) (fun_ext once)
  where
    once :
        (j : ℕ)
        → update (update y.rx i (record { buf = b; t_ms = t })) i (record { buf = b'; t_ms = t' }) j
          ≡ update y.rx i (record { buf = b'; t_ms = t' }) j
    once j = ground arith

buf-with_buf : (y : Ybin) (i : ℕ) (b : List ℕ) (t : ℕ) → ((with_buf y i b t).rx i).buf ≡ b
buf-with_buf y i b t = ground arith

time-with_buf : (y : Ybin) (i : ℕ) (b : List ℕ) (t : ℕ) → ((with_buf y i b t).rx i).t_ms ≡ t
time-with_buf y i b t = ground arith

module _ (dir : Dir) (client i t : ℕ) (w : t + 300 < 2 ^ 64) where
  rx_expire-in_time : (y : Ybin) (f : List ℕ) → rx_expire (with_buf y i f t) i t ≡ with_buf y i f t
  unfolding rx_expire
  rx_expire-in_time y f =
      rw (buf-with_buf y i f t, time-with_buf y i f t, in_time) (rw (either (is_empty f)) refl)
    where
      in_time : leb t (u64 (t + 300)) ≡ true
      in_time = ground (arith, w)

      either : (b : Bool) → (b || true) ≡ true
      either b = ground arith

  -- What `store_byte` does with a command of these bytes.
  abbrev stored : Ybin → List ℕ → Ybin
  stored y f =
      if length f == 5 then command (with_buf y i [] t) dir client f t else with_buf y i f t

  store_byte-next :
      (y : Ybin) (f : List ℕ) (b : ℕ)
      → (y.rx i).buf ≡ f
      → (length (f ++ b ∷ []) == 5) ≡ false
      → store_byte y dir client i b t ≡ with_buf y i (f ++ b ∷ []) t
  unfolding store_byte
  store_byte-next y f b e l =
      ap (λ a. stored y (a ++ b ∷ [])) e ∙ if_false (length (f ++ b ∷ []) == 5) _ _ l

  store_byte-last :
      (y : Ybin) (f : List ℕ) (b : ℕ)
      → (y.rx i).buf ≡ f
      → (length (f ++ b ∷ []) == 5) ≡ true
      → store_byte y dir client i b t ≡ command (with_buf y i [] t) dir client (f ++ b ∷ []) t
  unfolding store_byte
  store_byte-last y f b e l =
      ap (λ a. stored y (a ++ b ∷ [])) e ∙ if_true (length (f ++ b ∷ []) == 5) _ _ l

  rx_expire-empty : (y : Ybin) → (y.rx i).buf ≡ [] → rx_expire y i t ≡ y
  unfolding rx_expire
  rx_expire-empty y e = rw e refl

  host_byte-first :
      (y : Ybin) (b : ℕ)
      → (y.rx i).buf ≡ []
      → host_byte y dir client i b t ≡ with_buf y i (b ∷ []) t
  unfolding host_byte
  host_byte-first y b e =
      ap (λ z. store_byte z dir client i b t) (rx_expire-empty y e) ∙ store_byte-next y [] b e refl

  host_byte-next :
      (y : Ybin) (f : List ℕ) (b : ℕ)
      → (length (f ++ b ∷ []) == 5) ≡ false
      → host_byte (with_buf y i f t) dir client i b t ≡ with_buf y i (f ++ b ∷ []) t
  unfolding host_byte
  host_byte-next y f b l =
      ap (λ z. store_byte z dir client i b t) (rx_expire-in_time y f)
      ∙ store_byte-next (with_buf y i f t) f b (buf-with_buf y i f t) l
      ∙ with_buf_twice y i f (f ++ b ∷ []) t t

  host_byte-last :
      (y : Ybin) (f : List ℕ) (b : ℕ)
      → (length (f ++ b ∷ []) == 5) ≡ true
      → host_byte (with_buf y i f t) dir client i b t
        ≡ command (with_buf y i [] t) dir client (f ++ b ∷ []) t
  unfolding host_byte
  host_byte-last y f b l =
      ap (λ z. store_byte z dir client i b t) (rx_expire-in_time y f)
      ∙ store_byte-last (with_buf y i f t) f b (buf-with_buf y i f t) l
      ∙ ap (λ z. command z dir client (f ++ b ∷ []) t) (with_buf_twice y i f [] t t)

  -- A whole command that arrives at an empty framer is carried out exactly once, as it is, and
  -- leaves the framer empty.
  pub host_loop-whole :
      (y : Ybin) (b0 b1 b2 b3 b4 : ℕ)
      → (y.rx i).buf ≡ []
      → host_loop y dir client i (b0 ∷ b1 ∷ b2 ∷ b3 ∷ b4 ∷ []) t
        ≡ command (with_buf y i [] t) dir client (b0 ∷ b1 ∷ b2 ∷ b3 ∷ b4 ∷ []) t
  unfolding host_loop
  host_loop-whole y b0 b1 b2 b3 b4 e =
      ap (λ z. rest z (b1 ∷ b2 ∷ b3 ∷ b4 ∷ [])) (host_byte-first y b0 e)
      ∙ ap (λ z. rest z (b2 ∷ b3 ∷ b4 ∷ [])) (host_byte-next y (b0 ∷ []) b1 refl)
      ∙ ap (λ z. rest z (b3 ∷ b4 ∷ [])) (host_byte-next y (b0 ∷ b1 ∷ []) b2 refl)
      ∙ ap (λ z. rest z (b4 ∷ [])) (host_byte-next y (b0 ∷ b1 ∷ b2 ∷ []) b3 refl)
      ∙ host_byte-last y (b0 ∷ b1 ∷ b2 ∷ b3 ∷ []) b4 refl
    where
      rest : Ybin → List ℕ → Ybin
      rest z bs = host_loop z dir client i bs t
