-- ===== src/Ascii/Framing.antt =====
-- src/cat_ascii.c: the framer of one source, over a whole frame.
use mathlib.Core.Path.{fun_ext}
use mhuxd.Base.{
  ℕ, ◌+◌, ◌≤◌, ◌<◌, ◌≡◌, ◌≢◌, refl, ◌∙◌, sym, ap, false, List, [], ◌∷◌, arith, ◌==◌, ◌++◌, ◌||◌,
  ltb, leb, append-nil, length, length-append, append_assoc, All, update,
}
use mhuxd.Cat.{Dir}
use mhuxd.Ascii.State.{Ascii}
use mhuxd.Ascii.Framer.{process_frame, rx_byte, feed_loop, with_buf, is_blank}

-- A printable character that does not end a frame.
abbrev pub IsPlain : ℕ → Type 0
IsPlain b = (32 ≤ b) × (b < 127) × (b ≢ 59)

with_buf_twice :
    (a : Ascii) (i : ℕ) (b b' : List ℕ) (t t' : ℕ)
    → with_buf (with_buf a i b t) i b' t' ≡ with_buf a i b' t'
with_buf_twice a i b b' t t' = ap (λ f. record a { rx = f }) (fun_ext once)
  where
    once :
        (j : ℕ)
        → update (update a.rx i (record { buf = b; t_ms = t })) i (record { buf = b'; t_ms = t' }) j
          ≡ update a.rx i (record { buf = b'; t_ms = t' }) j
    once j = ground arith

buf-with_buf : (a : Ascii) (i : ℕ) (b : List ℕ) (t : ℕ) → ((with_buf a i b t).rx i).buf ≡ b
buf-with_buf a i b t = ground arith

plain_tests :
    (b n : ℕ)
    → IsPlain b
    → n + 1 < 64
    → ((b == 59) ≡ false) × ((ltb b 32 || leb 127 b || leb 64 (n + 1)) ≡ false)
plain_tests b n h l = (ground (arith, h), ground (arith, h, l))

module _ (dir : Dir) (client i t : ℕ) where
  rx_byte-first :
      (a : Ascii) (b : ℕ)
      → (a.rx i).buf ≡ []
      → IsPlain b
      → is_blank b ≡ false
      → rx_byte a dir client i b t ≡ with_buf a i (b ∷ []) t
  unfolding rx_byte
  rx_byte-first a b e h k =
      rw (e, (plain_tests b 0 h (omega arith)).0, k, (plain_tests b 0 h (omega arith)).1) refl

  rx_byte-next :
      (a : Ascii) (b x : ℕ) (f : List ℕ)
      → IsPlain b
      → length (x ∷ f) + 1 < 64
      → rx_byte (with_buf a i (x ∷ f) t) dir client i b t ≡ with_buf a i (x ∷ f ++ b ∷ []) t
  unfolding rx_byte
  rx_byte-next a b x f h l =
      rw
        (
          buf-with_buf a i (x ∷ f) t,
          (plain_tests b (length (x ∷ f)) h l).0,
          (plain_tests b (length (x ∷ f)) h l).1,
        )
        (with_buf_twice a i (x ∷ f) (x ∷ f ++ b ∷ []) t t)

  feed_loop-next :
      (a : Ascii) (x : ℕ) (f bs : List ℕ)
      → All IsPlain bs
      → length (x ∷ f) + length bs < 64
      → feed_loop (with_buf a i (x ∷ f) t) dir client i bs t ≡ with_buf a i (x ∷ f ++ bs) t
  unfolding feed_loop
  feed_loop-next a x f [] h l = ap (λ g. with_buf a i (x ∷ g) t) (sym (append-nil f))
  feed_loop-next a x f (b ∷ bs) h l =
      ap (λ a'. feed_loop a' dir client i bs t) (rx_byte-next a b x f h.0 (omega (arith, l)))
      ∙ feed_loop-next a x (f ++ b ∷ []) bs h.1 (omega (arith, l, length-append {0} f (b ∷ [])))
      ∙ ap (λ g. with_buf a i (x ∷ g) t) (append_assoc f (b ∷ []) bs)

  feed_loop-append :
      (a : Ascii) (xs ys : List ℕ)
      → feed_loop a dir client i (xs ++ ys) t
        ≡ feed_loop (feed_loop a dir client i xs t) dir client i ys t
  unfolding feed_loop
  feed_loop-append a [] ys = refl
  feed_loop-append a (x ∷ xs) ys = feed_loop-append (rx_byte a dir client i x t) xs ys

  rx_byte-end :
      (a : Ascii) (f : List ℕ)
      → rx_byte (with_buf a i f t) dir client i 59 t
        ≡ with_buf (process_frame (with_buf a i (f ++ 59 ∷ []) t) dir client f t) i [] t
  unfolding rx_byte
  rx_byte-end a f = rw (buf-with_buf a i f t) (
      ap (λ x. with_buf (process_frame x dir client f t) i [] t)
        (with_buf_twice a i f (f ++ 59 ∷ []) t t))

-- A whole command that arrives at an empty framer of the text decoder, at most 63 printable
-- characters of which the first is no space, and the `;`, is processed once, as the command that it
-- is, and the framer is empty again.
pub feed_loop-command :
    (dir : Dir) (client i t : ℕ) (a : Ascii) (x : ℕ) (s : List ℕ)
    → (a.rx i).buf ≡ []
    → IsPlain x
    → is_blank x ≡ false
    → All IsPlain s
    → length s < 63
    → feed_loop a dir client i (x ∷ s ++ 59 ∷ []) t
      ≡ with_buf (process_frame (with_buf a i (x ∷ s ++ 59 ∷ []) t) dir client (x ∷ s) t) i [] t
unfolding feed_loop
feed_loop-command dir client i t a x s e hx hb h l =
    ap (λ a'. feed_loop a' dir client i (s ++ 59 ∷ []) t) (rx_byte-first dir client i t a x e hx hb)
    ∙ feed_loop-append dir client i t (with_buf a i (x ∷ []) t) s (59 ∷ [])
    ∙ ap (λ a'. rx_byte a' dir client i 59 t)
        (feed_loop-next dir client i t a x [] s h (omega (arith, l)))
    ∙ rx_byte-end dir client i t a (x ∷ s)
