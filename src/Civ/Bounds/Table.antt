-- ===== src/Civ/Bounds/Table.antt =====
-- src/cat_civ.c: the bounds of the table of pending commands, eight entries of 64 bytes.
use mhuxd.Base.{
  ℕ, zero, suc, ◌≤◌, ◌≡◌, refl, List, [], ◌∷◌, arith, if◌then◌else◌, Bool-cases, inl, inr, ◌==◌,
  ◌&&◌, length, length-append, All, All-append, All-erase_idx, length-erase_idx-le, erase_idx, set,
  length-set, false, ◌++◌,
}
use mhuxd.Cat.{Dir}
use mhuxd.Civ.State.{Pending, f_from, civ_col, civ_pre, civ_eom}
use mhuxd.Civ.Pending.{
  mark_lost, pend_expire, pend_add, drop_oldest, pend_consume, consume_loop, pend_at, waiting,
}

-- What stands inside a frame: any byte but a preamble, an end, or a jam.
abbrev pub IsPlain : ℕ → Type 0
IsPlain b = ((b == civ_col) ≡ false) × ((b == civ_pre) ≡ false) × ((b == civ_eom) ≡ false)

-- A frame that has begun: the preamble, and bytes inside.
abbrev pub IsBegun : List ℕ → Type 0
IsBegun f = (body : List ℕ) × (f ≡ civ_pre ∷ civ_pre ∷ body) × All IsPlain body

-- A frame from its preamble to its end.
abbrev pub IsWhole : List ℕ → Type 0
IsWhole f = (body : List ℕ) × (f ≡ civ_pre ∷ civ_pre ∷ body ++ civ_eom ∷ []) × All IsPlain body

-- A complete frame, of at least an empty command, and at most the array.
abbrev pub IsFrame : List ℕ → Type 0
IsFrame f = IsWhole f × (6 ≤ length f) × (length f ≤ 64)

abbrev pub IsPending : Pending → Type 0
IsPending p = IsFrame p.buf

pub record IsTable (ps : List Pending) : Type 0 where
  pub fits : length ps ≤ 8
  pub frames : All IsPending ps

pub erase-IsTable : (ps : List Pending) (i : ℕ) → IsTable ps → IsTable (erase_idx ps i)
erase-IsTable ps i h = record {
  fits = omega (arith, length-erase_idx-le ps i, h.fits);
  frames = All-erase_idx IsPending ps i h.frames;
}

pub expire-IsTable : (ps : List Pending) (t : ℕ) → IsTable ps → IsTable (pend_expire ps t)
unfolding pend_expire
expire-IsTable [] t h = h
expire-IsTable (p ∷ ps) t h = elim (Bool-cases (waiting p t)) [
  | inl e ↦ rw e h
  | inr e ↦
      rw e (expire-IsTable ps t (record { fits = omega (arith, h.fits); frames = h.frames.1 }))
]

-- Past a full table the oldest entry goes, so there is room for one more.
length-drop_oldest : (ps : List Pending) → length ps ≤ 8 → length (drop_oldest ps) ≤ 7
length-drop_oldest [] h = omega arith
length-drop_oldest (p ∷ ps) h = ground arith

drop_oldest-All : (ps : List Pending) → All IsPending ps → All IsPending (drop_oldest ps)
drop_oldest-All ps h = ground (arith, All-erase_idx IsPending ps 0 h)

pub add-IsTable :
    (ps : List Pending) (f : List ℕ) (dir : Dir) (client t : ℕ)
    → IsFrame f
    → IsTable ps
    → IsTable (pend_add ps f dir client t)
unfolding pend_add
add-IsTable ps f dir client t hf h = record {
  fits = omega (arith, length-append {0} (drop_oldest ps) (_ ∷ []), length-drop_oldest ps h.fits);
  frames = All-append IsPending (drop_oldest ps) (_ ∷ []) (drop_oldest-All ps h.frames) (hf, tt);
}

consume_loop-IsTable :
    (ctrl client n : ℕ) (ps : List Pending) → IsTable ps → IsTable (consume_loop ctrl client n ps)
unfolding consume_loop
consume_loop-IsTable ctrl client zero ps h = h
consume_loop-IsTable ctrl client (suc j) ps h =
    consume_loop-IsTable ctrl client j
      (if f_from (pend_at ps j).buf == ctrl && (pend_at ps j).client == client
        then erase_idx ps j
        else ps)
      (ground (arith, erase-IsTable ps j h))

pub consume-IsTable : (ps : List Pending) (i : ℕ) → IsTable ps → IsTable (pend_consume ps i)
unfolding pend_consume
consume-IsTable ps i h = consume_loop-IsTable _ _ (suc i) ps h

mark_lost-All : (ps : List Pending) (t : ℕ) → All IsPending ps → All IsPending (mark_lost ps t)
unfolding mark_lost
mark_lost-All [] t h = h
mark_lost-All (p ∷ ps) t h = (ground arith, mark_lost-All ps t h.1)

length-mark_lost : (ps : List Pending) (t : ℕ) → length (mark_lost ps t) ≡ length ps
unfolding mark_lost
length-mark_lost [] t = refl
length-mark_lost (p ∷ ps) t = omega (arith, length-mark_lost ps t)

pub mark-IsTable : (ps : List Pending) (t : ℕ) → IsTable ps → IsTable (mark_lost ps t)
mark-IsTable ps t h = record {
  fits = omega (arith, length-mark_lost ps t, h.fits);
  frames = mark_lost-All ps t h.frames;
}

-- An entry changed in place, its command kept.
set-All :
    (ps : List Pending) (i : ℕ) (p : Pending)
    → p.buf ≡ (pend_at ps i).buf
    → All IsPending ps
    → All IsPending (set ps i p)
set-All [] i p e h = h
set-All (q ∷ ps) zero p e h = (rw e h.0, h.1)
set-All (q ∷ ps) (suc i) p e h = (h.0, set-All ps i p e h.1)

pub set-IsTable :
    (ps : List Pending) (i : ℕ) (p : Pending)
    → p.buf ≡ (pend_at ps i).buf
    → IsTable ps
    → IsTable (set ps i p)
set-IsTable ps i p e h = record {
  fits = omega (arith, length-set {0} ps i p, h.fits);
  frames = set-All ps i p e h.frames;
}
