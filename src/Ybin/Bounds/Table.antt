-- ===== src/Ybin/Bounds/Table.antt =====
-- src/cat_ybin.c: the table of pending commands and the answer that is coming in.
use mhuxd.Base.{
  ℕ, suc, ◌+◌, ◌≤◌, ◌<◌, ◌≡◌, refl, sym, arith, Bool, true, false, List, [], ◌∷◌, ◌++◌, length,
  length-append, length-erase_idx-le, erase_idx, All, All-append, All-erase_idx, u16, if◌then◌else◌,
  ◌==◌, ltb, Bool-cases, inl, inr,
}
use mhuxd.Ybin.Models.{Model}
use mhuxd.Ybin.Lengths.{answer_len}
use mhuxd.Ybin.State.{Pending}
use mhuxd.Ybin.Pending.{due_from, new_pending, is_empty, pend_at}
use mhuxd.Ybin.Framer.{count_byte}
use mhuxd.Ybin.Bounds.Sizes.{answer_len-IsLength}

-- The length of a command that has no answer byte yet.
pub record IsFresh (m : Model) (p : Pending) : Type 0 where
  pub none_yet : p.got ≡ 0
  pub awaits : 1 ≤ p.len
  pub known : p.len ≡ (answer_len m p.cmd).0

-- The oldest command: its answer is not complete, and what is held of it is a piece, or everything
-- received where the answer fits.
pub record IsHead (m : Model) (p : Pending) (ans : List ℕ) : Type 0 where
  pub incomplete : p.got < p.len
  pub known : p.len ≡ (answer_len m p.cmd).0
  pub piece : length ans < 80
  pub whole : p.len ≤ 80 → length ans ≡ p.got

-- Nothing is held of an answer that no command awaits.
abbrev pub Awaits : Model → List Pending → List ℕ → Type 0
Awaits m [] ans = length ans ≡ 0
Awaits m (p ∷ ps) ans = IsHead m p ans × All (IsFresh m) ps

pub record IsTable (m : Model) (ps : List Pending) (ans : List ℕ) : Type 0 where
  pub few : length ps ≤ 8
  pub awaits : Awaits m ps ans

fresh-IsHead : (m : Model) (p : Pending) → IsFresh m p → IsHead m p []
fresh-IsHead m p f = record {
  incomplete = omega (arith, f.none_yet, f.awaits);
  known = f.known;
  piece = omega arith;
  whole = λ h. sym f.none_yet;
}

fresh-Awaits : (m : Model) (ps : List Pending) → All (IsFresh m) ps → Awaits m ps []
fresh-Awaits m [] f = refl
fresh-Awaits m (p ∷ ps) f = (fresh-IsHead m p f.0, f.1)

-- Only the oldest command has answer bytes.
abbrev pub FreshTail : Model → List Pending → Type 0
FreshTail m [] = Unit
FreshTail m (p ∷ ps) = All (IsFresh m) ps

pub IsTable-FreshTail :
    (m : Model) (ps : List Pending) (ans : List ℕ) → IsTable m ps ans → FreshTail m ps
IsTable-FreshTail m [] ans h = _
IsTable-FreshTail m (p ∷ ps) ans h = h.awaits.1

-- Without its oldest command, and what was held of the answer.
pub IsTable-tail :
    (m : Model) (ps : List Pending) → length ps ≤ 8 → FreshTail m ps → IsTable m (erase_idx ps 0) []
IsTable-tail m [] l h = record { few = l; awaits = refl }
IsTable-tail m (p ∷ ps) l h = record { few = omega (arith, l); awaits = fresh-Awaits m ps h }

-- Without a command that is not the oldest one.
pub IsTable-erase_idx :
    (m : Model) (ps : List Pending) (ans : List ℕ) (i : ℕ)
    → IsTable m ps ans
    → IsTable m (erase_idx ps (suc i)) ans
IsTable-erase_idx m [] ans i h = h
IsTable-erase_idx m (p ∷ ps) ans i h = record {
  few = omega (arith, h.few, length-erase_idx-le {0} ps i);
  awaits = (h.awaits.0, All-erase_idx (IsFresh m) ps i h.awaits.1);
}

due_IsHead :
    (m : Model) (p : Pending) (ans : List ℕ) (t : ℕ)
    → IsHead m p ans
    → IsHead m (if ltb p.t_ms t then record p { t_ms = t } else p) ans
due_IsHead m p ans t h = elim (Bool-cases (ltb p.t_ms t)) [
  | inl e ↦
      rw e (record { incomplete = h.incomplete; known = h.known; piece = h.piece; whole = h.whole })
  | inr e ↦ rw e h
]

pub due_from-IsTable :
    (m : Model) (ps : List Pending) (ans : List ℕ) (t : ℕ)
    → IsTable m ps ans
    → IsTable m (due_from t ps) ans
due_from-IsTable m [] ans t h = h
due_from-IsTable m (p ∷ ps) ans t h = record {
  few = h.few;
  awaits = (due_IsHead m p ans t h.awaits.0, h.awaits.1);
}

-- One command more.
pub new_pending-IsTable :
    (m : Model) (ps : List Pending) (ans c : List ℕ) (own : Bool) (client t : ℕ)
    → length ps < 8
    → 1 ≤ (answer_len m c).0
    → IsTable m ps ans
    → IsTable m (ps ++ new_pending c (answer_len m c) own client t ∷ []) ans
new_pending-IsTable m [] ans c own client t l k h = record {
  few = omega arith;
  awaits = (
    record { incomplete = k; known = refl; piece = omega (arith, h.awaits); whole = λ _. h.awaits },
    _,
  );
}
new_pending-IsTable m (p ∷ ps) ans c own client t l k h = record {
  few = omega (arith, l, length-append {0} ps (new_pending c (answer_len m c) own client t ∷ []));
  awaits = (
    h.awaits.0,
    All-append (IsFresh m) ps _ h.awaits.1
        (record { none_yet = refl; awaits = k; known = refl }, _),
  );
}

counted_IsHead :
    (m : Model) (p : Pending) (ans : List ℕ) (t n : ℕ)
    → IsHead m p ans
    → (u16 (p.got + 1) == p.len) ≡ false
    → n < 80
    → (p.len ≤ 80 → n ≡ p.got + 1)
    → (a : List ℕ) → length a ≡ n
    → IsHead m (record p { got = u16 (p.got + 1); t_last = t }) a
counted_IsHead m p ans t n h e l w a i = record {
  incomplete = ground (arith, e, h.incomplete, h.known, (answer_len-IsLength m p.cmd).fits);
  known = h.known;
  piece = omega (arith, i, l);
  whole = λ k. ground (arith, i, w k, h.incomplete, k);
}

-- One byte more of an answer that stays incomplete.
pub count_byte-IsTable :
    (m : Model) (ps : List Pending) (ans : List ℕ) (b t : ℕ)
    → IsTable m ps ans
    → is_empty ps ≡ false
    → ((pend_at (count_byte t ps) 0).got == (pend_at (count_byte t ps) 0).len) ≡ false
    → (length (ans ++ b ∷ []) == 80) ≡ false
    → IsTable m (count_byte t ps) (ans ++ b ∷ [])
count_byte-IsTable m [] ans b t h i e f = cc
count_byte-IsTable m (p ∷ ps) ans b t h i e f = record {
  few = h.few;
  awaits = (
    counted_IsHead m p ans t (length ans + 1) h.awaits.0 e
        (ground (arith, f, length-append {0} ans (b ∷ []), h.awaits.0.piece))
        (λ k. omega (arith, h.awaits.0.whole k)) (ans ++ b ∷ []) (length-append {0} ans (b ∷ [])),
    h.awaits.1,
  );
}

-- The same, when the piece that is held is passed on.
pub piece_IsTable :
    (m : Model) (ps : List Pending) (ans : List ℕ) (b t : ℕ)
    → IsTable m ps ans
    → is_empty ps ≡ false
    → ((pend_at (count_byte t ps) 0).got == (pend_at (count_byte t ps) 0).len) ≡ false
    → (length (ans ++ b ∷ []) == 80) ≡ true
    → IsTable m (count_byte t ps) []
piece_IsTable m [] ans b t h i e f = cc
piece_IsTable m (p ∷ ps) ans b t h i e f = record {
  few = h.few;
  awaits = (
    counted_IsHead m p ans t 0 h.awaits.0 e (omega arith)
        (λ k. ground (
          arith,
          e,
          f,
          k,
          h.awaits.0.whole k,
          h.awaits.0.incomplete,
          length-append {0} ans (b ∷ []),
        ))
        [] refl,
    h.awaits.1,
  );
}

pub count_byte-FreshTail :
    (m : Model) (ps : List Pending) (t : ℕ) → FreshTail m ps → FreshTail m (count_byte t ps)
count_byte-FreshTail m [] t h = h
count_byte-FreshTail m (p ∷ ps) t h = h

pub length-count_byte : (t : ℕ) (ps : List Pending) → length (count_byte t ps) ≡ length ps
length-count_byte t [] = refl
length-count_byte t (p ∷ ps) = refl

-- The last byte of an answer that fits: all of it is held.
pub counted_whole :
    (m : Model) (ps : List Pending) (ans : List ℕ) (b t : ℕ)
    → IsTable m ps ans
    → is_empty ps ≡ false
    → ((pend_at (count_byte t ps) 0).got == (pend_at (count_byte t ps) 0).len) ≡ true
    → (pend_at (count_byte t ps) 0).len ≤ 80
    → length (ans ++ b ∷ []) ≡ (answer_len m (pend_at (count_byte t ps) 0).cmd).0
counted_whole m [] ans b t h i e l = cc
counted_whole m (p ∷ ps) ans b t h i e l = ground (
  arith,
  e,
  h.awaits.0.whole l,
  h.awaits.0.known,
  h.awaits.0.incomplete,
  length-append {0} ans (b ∷ []),
)
