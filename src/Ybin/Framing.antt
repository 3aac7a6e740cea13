-- ===== src/Ybin/Framing.antt =====
-- src/cat_ybin.c: a whole answer.
use mhuxd.Base.{
  if-elim, Bool-cases, inl, inr, ℕ, zero, suc, ◌+◌, ◌≤◌, ◌<◌, ◌^◌, ◌≡◌, refl, ◌∙◌, sym, ap, Bool,
  true, false, not, ◌&&◌, List, [], ◌∷◌, ◌++◌, arith, ◌==◌, u16, length, length-append,
  append_assoc, if◌then◌else◌, if_true, if_false, if_cong,
}
use mhuxd.Cat.{Frame, reply, radio, unmatched}
use mhuxd.CatState.{select_vfo}
use mhuxd.Ybin.State.{Ybin, Pending, emit, bin_frame}
use mhuxd.Ybin.Pending.{pend_at, is_empty, pend_live, pend_expire, expire_loop, answer_complete}
use mhuxd.Ybin.Framer.{assume_vfo, answer_byte, radio_byte, radio_loop}

-- Nothing expires while the oldest command still has time.
pend_expire-live :
    (y : Ybin) (t : ℕ) → pend_live y.pacing_ms (pend_at y.pend 0) t ≡ true → pend_expire y t ≡ y
unfolding pend_expire expire_loop
pend_expire-live y t h = go (length y.pend)
  where
    stop : (b c : Bool) → c ≡ true → (not b && not c) ≡ false
    stop b c e = ground (arith, e)

    go : (n : ℕ) → expire_loop n y t ≡ y
    go zero = refl
    go (suc n) = rw (stop (is_empty y.pend) (pend_live y.pacing_ms (pend_at y.pend 0) t) h) refl

assume_vfo-valid : (y : Ybin) (t : ℕ) → y.st.vfo_ab.valid ≡ true → assume_vfo y t ≡ y
unfolding assume_vfo
assume_vfo-valid y t h = rw h refl

-- The decoder while the first bytes `a` of the answer to `p` are there, the last one at `t`.
abbrev pub part_of : Ybin → Pending → List Pending → List ℕ → ℕ → Ybin
part_of y p ps a t = record y { ans = a; pend = record p { got = length a; t_last = t } ∷ ps }

-- The oldest command, `p`, and the bytes of its answer.
abbrev pub at_answer : Ybin → Pending → List Pending → List ℕ → Ybin
at_answer y p ps a = record y { ans = a; pend = p ∷ ps }

count_got :
    (p : Pending) (a : List ℕ) (b : ℕ)
    → p.len ≤ 80
    → p.got ≡ length a
    → length a < p.len
    → u16 (p.got + 1) ≡ length (a ++ b ∷ [])
count_got p a b l e k = ground (arith, e, length-append {0} a (b ∷ []))

answer_byte-got :
    (y : Ybin) (p : Pending) (ps : List Pending) (a : List ℕ) (b t : ℕ)
    → p.len ≤ 80
    → p.got ≡ length a
    → length a < p.len
    → answer_byte (at_answer y p ps a) b t ≡ (
        if length (a ++ b ∷ []) == p.len
        then answer_complete (part_of y p ps (a ++ b ∷ []) t) t
        else part_of y p ps (a ++ b ∷ []) t)
unfolding answer_byte
answer_byte-got y p ps a b t l e k =
    ap body (count_got p a b l e k)
    ∙ if_cong (length (a ++ b ∷ []) == p.len) (λ _. refl)
        (λ f. if_false (length (a ++ b ∷ []) == 80) _ _ (short f))
  where
    body : ℕ → Ybin
    body n =
        let z = record y { ans = a ++ b ∷ []; pend = record p { got = n; t_last = t } ∷ ps } in
        if n == p.len
        then answer_complete z t
        else if length (a ++ b ∷ []) == 80
        then record (emit z (bin_frame reply radio (a ++ b ∷ []) false p.own p.client t)) {
          ans = [];
        }
        else z

    short : (length (a ++ b ∷ []) == p.len) ≡ false → (length (a ++ b ∷ []) == 80) ≡ false
    short f = ground (arith, f, l, k, length-append {0} a (b ∷ []))

module _ (y : Ybin) (ps : List Pending) (t : ℕ) (v : y.st.vfo_ab.valid ≡ true) where
  radio_byte-got :
      (p : Pending) (a : List ℕ) (b : ℕ)
      → p.len ≤ 80
      → p.got ≡ length a
      → length a < p.len
      → pend_live y.pacing_ms p t ≡ true
      → radio_byte (at_answer y p ps a) b t ≡ (
          if length (a ++ b ∷ []) == p.len
          then answer_complete (part_of y p ps (a ++ b ∷ []) t) t
          else part_of y p ps (a ++ b ∷ []) t)
  unfolding radio_byte
  radio_byte-got p a b l e k h =
      ap (λ z. if is_empty z.pend then emit z f else answer_byte (assume_vfo z t) b t)
        (pend_expire-live (at_answer y p ps a) t h)
      ∙ ap (λ z. answer_byte z b t) (assume_vfo-valid (at_answer y p ps a) t v)
      ∙ answer_byte-got y p ps a b t l e k
    where
      f : Frame
      f = bin_frame unmatched radio (b ∷ []) false false 0 t

  part_live :
      (p : Pending) (n : ℕ)
      → t + 100 + y.pacing_ms < 2 ^ 64
      → 1 ≤ n
      → pend_live y.pacing_ms (record p { got = n; t_last = t }) t ≡ true
  unfolding pend_live
  part_live p n w k = ground (arith, w, k)

  -- With a selected VFO, the rest of an answer completes it.
  pub radio_loop-valid :
      (p : Pending) (a bs : List ℕ) (b : ℕ)
      → t + 100 + y.pacing_ms < 2 ^ 64
      → p.len ≤ 80
      → p.got ≡ length a
      → p.len ≡ length (a ++ b ∷ bs)
      → pend_live y.pacing_ms p t ≡ true
      → radio_loop (at_answer y p ps a) (b ∷ bs) t
        ≡ answer_complete (part_of y p ps (a ++ b ∷ bs) t) t
  unfolding radio_loop
  radio_loop-valid p a [] b w l e n h =
      radio_byte-got p a b l e (ground (arith, n, length-append {0} a (b ∷ []))) h
      ∙ if_true (length (a ++ b ∷ []) == p.len) _ _ (ground (arith, n))
  radio_loop-valid p a (c ∷ bs) b w l e n h =
      ap (λ z. radio_loop z (c ∷ bs) t)
        (radio_byte-got p a b l e (ground (arith, n, long)) h
          ∙ if_false (length (a ++ b ∷ []) == p.len) _ _ (ground (arith, n, long, one)))
      ∙ radio_loop-valid (record p { got = length (a ++ b ∷ []); t_last = t }) (a ++ b ∷ []) bs c w
          l refl (n ∙ ap length (sym (append_assoc a (b ∷ []) (c ∷ bs))))
          (part_live p (length (a ++ b ∷ [])) w (omega (arith, one)))
      ∙ ap (λ f. answer_complete (part_of y p ps f t) t) (append_assoc a (b ∷ []) (c ∷ bs))
    where
      long : length (a ++ b ∷ c ∷ bs) ≡ length a + length (b ∷ c ∷ bs)
      long = length-append {0} a (b ∷ c ∷ bs)

      one : length (a ++ b ∷ []) ≡ length a + 1
      one = length-append {0} a (b ∷ [])

pub assume_vfo-valid_after : (y : Ybin) (t : ℕ) → (assume_vfo y t).st.vfo_ab.valid ≡ true
unfolding assume_vfo select_vfo
assume_vfo-valid_after y t = elim (Bool-cases y.st.vfo_ab.valid) [
  | inl e ↦ rw e refl
  | inr e ↦ rw e (ground arith)
]

assume_vfo-pacing : (y : Ybin) (t : ℕ) → (assume_vfo y t).pacing_ms ≡ y.pacing_ms
unfolding assume_vfo
assume_vfo-pacing y t =
    if-elim {A = Ybin} (λ z. z.pacing_ms ≡ y.pacing_ms) y.st.vfo_ab.valid y _ (λ _. refl)
      (λ _. refl)

assume_vfo-at_answer :
    (y : Ybin) (p : Pending) (ps : List Pending) (a : List ℕ) (t : ℕ)
    → assume_vfo (at_answer y p ps a) t ≡ at_answer (assume_vfo y t) p ps a
unfolding assume_vfo
assume_vfo-at_answer y p ps a t = elim (Bool-cases y.st.vfo_ab.valid) [
  | inl e ↦ rw e refl
  | inr e ↦ rw e refl
]

-- The first byte of an answer makes the VFO A the selected one, if none is known.
radio_byte-assume_vfo :
    (y : Ybin) (p : Pending) (ps : List Pending) (a : List ℕ) (b t : ℕ)
    → pend_live y.pacing_ms p t ≡ true
    → radio_byte (at_answer y p ps a) b t ≡ radio_byte (at_answer (assume_vfo y t) p ps a) b t
unfolding radio_byte
radio_byte-assume_vfo y p ps a b t h =
    ap step (pend_expire-live (at_answer y p ps a) t h)
    ∙ ap (λ z. answer_byte z b t)
        (assume_vfo-at_answer y p ps a t
          ∙ sym
              (assume_vfo-valid (at_answer (assume_vfo y t) p ps a) t (assume_vfo-valid_after y t)))
    ∙ sym (
        ap step
          (pend_expire-live (at_answer (assume_vfo y t) p ps a) t (rw (assume_vfo-pacing y t) h)))
  where
    step : Ybin → Ybin
    step z =
        if is_empty z.pend
        then emit z (bin_frame unmatched radio (b ∷ []) false false 0 t)
        else answer_byte (assume_vfo z t) b t

-- The whole rest of the oldest command's answer, which arrives before the radio is given up on,
-- completes it once, with the bytes as they came; the VFO A is the selected one then if none was known.
-- The answer fits one frame of 80 bytes, and the clock does not wrap.
pub radio_loop-whole :
    (y : Ybin) (p : Pending) (ps : List Pending) (a bs : List ℕ) (b t : ℕ)
    → t + 100 + y.pacing_ms < 2 ^ 64
    → p.len ≤ 80
    → p.got ≡ length a
    → p.len ≡ length (a ++ b ∷ bs)
    → pend_live y.pacing_ms p t ≡ true
    → radio_loop (at_answer y p ps a) (b ∷ bs) t
      ≡ answer_complete (part_of (assume_vfo y t) p ps (a ++ b ∷ bs) t) t
unfolding radio_loop
radio_loop-whole y p ps a bs b t w l e n h =
    ap (λ z. radio_loop z bs t) (radio_byte-assume_vfo y p ps a b t h)
    ∙ radio_loop-valid (assume_vfo y t) ps t (assume_vfo-valid_after y t) p a bs b
        (rw (assume_vfo-pacing y t) w) l e n (rw (assume_vfo-pacing y t) h)
