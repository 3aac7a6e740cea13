-- ===== src/Router/Invariant.antt =====
-- src/mhrouter.c: the invariant of the router, of PTT and of the producers that are read.
use mathlib.Core.Path.{subst}
use mhuxd.Base.{
  ℕ, zero, suc, ◌≡◌, refl, sym, ◌∙◌, arith, Bool, true, false, none, some, List, [], ◌∷◌,
  if◌then◌else◌, ◌==◌, All, ==_iff, bit_or, Bool-cases, inl, inr,
}
use mhuxd.Channel
use mhuxd.Router.State.{Router, Producer, create, is_open, may_read, put_producers}
use mhuxd.Router.Sends.{send_in}
use mhuxd.Router.Producers.{
  held_loop, without_ptt, push_ptt, process_ptt, ptt_loop, ptt_byte, ptt_mask_of, mask_at,
  with_mask,
}
use mhuxd.Router.Ptt.{
  SameHeld, bit_or-zero, with_mask-Masks, none_held, IsMask, Masks, held_loop-same,
  held_loop-IsMask,
}

-- A producer whose watcher is started may be read.
abbrev pub Allowed : Router → ℕ → Producer → Type 0
Allowed r ch p = p.reading ≡ true → may_read r ch p.fd ≡ true

-- The flags are what the producers hold together.
pub record IsRouter (r : Router) : Type 0 where
  pub allowed : (ch : ℕ) → All (Allowed r ch) (r.producers ch)
  pub masks : (ch : ℕ) → Masks (r.producers ch)
  pub keyed : r.wflag ≡ held_loop 14 0 r.producers 0

-- `send_in` leaves the producers, their turns and the flags as they are.
pub record Kept (r s : Router) : Type 0 where
  pub producers : s.producers ≡ r.producers
  pub hold : s.hold ≡ r.hold
  pub turn : s.turn ≡ r.turn
  pub wflag : s.wflag ≡ r.wflag

pub send_in-Kept : (r : Router) (bytes : List ℕ) (ch : ℕ) → Kept r (send_in r bytes ch).1
unfolding send_in
send_in-Kept r bytes ch = record {
  producers = ground arith;
  hold = ground arith;
  turn = ground arith;
  wflag = ground arith;
}

pub Kept-IsRouter : (r s : Router) → Kept r s → IsRouter r → IsRouter s
unfolding may_read
Kept-IsRouter r s k h = record {
  allowed = rw (k.producers, k.hold, k.turn) h.allowed;
  masks = rw k.producers h.masks;
  keyed = rw (k.wflag, k.producers) h.keyed;
}

pub if_IsRouter :
    (b : Bool) (r s : Router)
    → (b ≡ true → IsRouter r)
    → (b ≡ false → IsRouter s)
    → IsRouter (if b then r else s)
if_IsRouter true r s p q = p refl
if_IsRouter false r s p q = q refl

pub zero-IsMask : IsMask 0
zero-IsMask = record { small = omega arith; only = refl }

-- The flags may be behind what the producers hold.
pub record IsReady (r : Router) : Type 0 where
  pub allowed : (ch : ℕ) → All (Allowed r ch) (r.producers ch)
  pub masks : (ch : ℕ) → Masks (r.producers ch)
  pub flag : IsMask r.wflag

pub IsRouter-IsReady : (r : Router) → IsRouter r → IsReady r
IsRouter-IsReady r h = record {
  allowed = h.allowed;
  masks = h.masks;
  flag = rw h.keyed (held_loop-IsMask 14 0 0 r.producers zero-IsMask h.masks);
}

pub push_ptt-IsRouter : (r : Router) → IsReady r → IsRouter (push_ptt r)
unfolding push_ptt may_read
push_ptt-IsRouter r h =
    if_IsRouter (is_open r.fd) _ _
      (λ _. Kept-IsRouter r1 _ (send_in-Kept r1 (r1.wflag ∷ []) Channel.flags) sent) (λ _. sent)
  where
    held : ℕ
    held = held_loop 14 0 r.producers 0

    r1 : Router
    r1 = record r { wflag = bit_or (without_ptt r.wflag) held }

    cleared : without_ptt r.wflag ≡ 0
    cleared = omega (arith, h.flag.small, h.flag.only)

    joined : bit_or (without_ptt r.wflag) held ≡ held
    joined =
        rw cleared (bit_or-zero held (held_loop-IsMask 14 0 0 r.producers zero-IsMask h.masks)).1

    sent : IsRouter r1
    sent = record { allowed = h.allowed; masks = h.masks; keyed = joined }

-- A channel's list that is given anew.
pub put_producers-all :
    (P : ℕ → List Producer → Type 0) (r : Router) (channel : ℕ) (ps : List Producer)
    → ((ch : ℕ) → P ch (r.producers ch))
    → P channel ps
    → (ch : ℕ) → P ch ((put_producers r channel ps).producers ch)
put_producers-all P r channel ps h k ch = elim (Bool-cases (channel == ch)) [
  | inl e ↦ rw e (subst (λ c. P c ps) ((==_iff channel ch).0 e) k)
  | inr e ↦ rw e (h ch)
]

pub put_producers-IsReady :
    (r : Router) (channel : ℕ) (ps : List Producer)
    → IsReady r
    → All (Allowed r channel) ps
    → Masks ps
    → IsReady (put_producers r channel ps)
unfolding may_read
put_producers-IsReady r channel ps h a m = record {
  allowed = put_producers-all (λ ch qs. All (Allowed r ch) qs) r channel ps h.allowed a;
  masks = put_producers-all (λ ch qs. Masks qs) r channel ps h.masks m;
  flag = h.flag;
}

pub put_producers-IsRouter :
    (r : Router) (channel : ℕ) (ps : List Producer)
    → IsRouter r
    → All (Allowed r channel) ps
    → Masks ps
    → SameHeld ps (r.producers channel)
    → IsRouter (put_producers r channel ps)
unfolding may_read
put_producers-IsRouter r channel ps h a m s = record {
  allowed = put_producers-all (λ ch qs. All (Allowed r ch) qs) r channel ps h.allowed a;
  masks = masks;
  keyed =
      h.keyed
      ∙ sym (
          held_loop-same 14 0 0 (put_producers r channel ps).producers r.producers zero-IsMask masks
            same);
}
  where
    masks : (ch : ℕ) → Masks ((put_producers r channel ps).producers ch)
    masks = put_producers-all (λ ch qs. Masks qs) r channel ps h.masks m

    same : (ch : ℕ) → SameHeld ((put_producers r channel ps).producers ch) (r.producers ch)
    same = put_producers-all (λ ch qs. SameHeld qs (r.producers ch)) r channel ps (λ ch k i. refl) s

with_mask-Allowed :
    (r : Router) (ch m : ℕ) (ps : List Producer) (i : ℕ)
    → All (Allowed r ch) ps
    → All (Allowed r ch) (with_mask m ps i)
with_mask-Allowed r ch m [] i h = _
with_mask-Allowed r ch m (p ∷ ps) zero h = (h.0, h.1)
with_mask-Allowed r ch m (p ∷ ps) (suc i) h = (h.0, with_mask-Allowed r ch m ps i h.1)

mask_at-IsMask : (ps : List Producer) (i : ℕ) → Masks ps → IsMask (mask_at ps i)
mask_at-IsMask [] i m = zero-IsMask
mask_at-IsMask (p ∷ ps) zero m = m.0
mask_at-IsMask (p ∷ ps) (suc i) m = mask_at-IsMask ps i m.1

ptt_byte-IsMask :
    (channel focus c : ℕ) (s : ℕ × Bool)
    → IsMask s.0
    → IsMask
        (elim (ptt_byte channel focus c) as (λ _. ℕ × Bool) [ none ↦ s | some m ↦ (m, true) ]).0
unfolding ptt_byte ptt_mask_of
ptt_byte-IsMask channel focus c s h = record {
  small = ground (arith, h.small);
  only = ground (arith, h.only);
}

ptt_loop-IsMask :
    (channel focus : ℕ) (cs : List ℕ) (s : ℕ × Bool)
    → IsMask s.0
    → IsMask (ptt_loop channel focus cs s).0
unfolding ptt_loop
ptt_loop-IsMask channel focus [] s h = h
ptt_loop-IsMask channel focus (c ∷ cs) s h =
    ptt_loop-IsMask channel focus cs _ (ptt_byte-IsMask channel focus c s h)

pub process_ptt-IsRouter :
    (r : Router) (channel i : ℕ) (bytes : List ℕ)
    → IsRouter r
    → IsRouter (process_ptt r channel i bytes)
unfolding process_ptt may_read
process_ptt-IsRouter r channel i bytes h =
    if_IsRouter s.1 _ r
      (λ _. push_ptt-IsRouter (put_producers r channel (with_mask s.0 (r.producers channel) i)) (
        put_producers-IsReady r channel _ (IsRouter-IsReady r h)
          (with_mask-Allowed r channel s.0 (r.producers channel) i (h.allowed channel))
          (with_mask-Masks s.0 (r.producers channel) i
            (ptt_loop-IsMask channel r.wk_tx_focus bytes (mask_at (r.producers channel) i, false)
              (mask_at-IsMask (r.producers channel) i (h.masks channel)))
            (h.masks channel))))
      (λ _. h)
  where
    s : ℕ × Bool
    s = ptt_loop channel r.wk_tx_focus bytes (mask_at (r.producers channel) i, false)

pub create-IsRouter : (has_flags : Bool) → IsRouter (create has_flags)
unfolding create
create-IsRouter has_flags = record {
  allowed = λ ch. _;
  masks = λ ch. _;
  keyed = sym (none_held 14 0 (λ ch. []));
}
