-- ===== src/Ybin/Discard.antt =====
-- src/cat_ybin.c: a client that is discarded.
use mhuxd.Base.{
  ℕ, zero, suc, ◌-◌, ◌≡◌, refl, sym, ap, ◌∙◌, arith, Bool, true, false, not, ◌&&◌, ◌||◌, List, [],
  ◌∷◌, length, map, if◌then◌else◌, ◌==◌, ltb, erase_idx, reject, sweep, sweep-all, any_of,
  any_of-reject, Bool-cases, inl, inr, update,
}
use mhuxd.Cat.{bad_client}
use mhuxd.Ybin.State.{Ybin, Pending, emit, with_buf}
use mhuxd.Ybin.Pending.{
  pend_at, no_pending, is_empty, pend_live, pend_remove, answer_ended, next_due, due_from,
}
use mhuxd.Ybin.Bounds.Steps.{discard_loop-Keeps}
use mhuxd.Ybin.Framer.{discard_loop, client_discard, client_busy, rx_partial}

abbrev pub of_client : ℕ → Pending → Bool
of_client client p = p.client == client && not p.own

-- A command without the time it was sent.
abbrev pub timeless : Pending → Pending
timeless p = record p { t_ms = 0 }

due_from-timeless : (t : ℕ) (ps : List Pending) → map timeless (due_from t ps) ≡ map timeless ps
due_from-timeless t [] = refl
due_from-timeless t (p ∷ ps) = elim (Bool-cases (ltb p.t_ms t)) [
  | inl e ↦ rw e refl
  | inr e ↦ rw e refl
]

answer_ended-timeless :
    (y : Ybin) (t : ℕ) → map timeless (answer_ended y t).pend ≡ map timeless (erase_idx y.pend 0)
unfolding answer_ended next_due pend_remove emit
answer_ended-timeless y t = elim (Bool-cases (is_empty y.ans)) [
  | inl e ↦ rw e (due_from-timeless t (erase_idx y.pend 0))
  | inr e ↦ rw e (due_from-timeless t (erase_idx y.pend 0))
]

suc_not_zero : (i : ℕ) → (suc i == 0) ≡ false
suc_not_zero i = ground arith

not_both : (a b : Bool) → (a && not b) ≡ true → (not a || b) ≡ false
not_both a b e = ground arith

either_not : (a b : Bool) → (a && not b) ≡ false → (not a || b) ≡ true
either_not a b e = ground arith

discard_loop-timeless :
    (client n : ℕ) (y : Ybin)
    → map timeless (discard_loop client n y).pend
      ≡ map timeless (sweep (of_client client) no_pending n y.pend)
unfolding discard_loop pend_remove
discard_loop-timeless client zero y = refl
discard_loop-timeless client (suc zero) y =
    elim (Bool-cases (of_client client (pend_at y.pend 0))) [
      | inl e ↦
          rw (e, not_both _ _ e)
            (elim (Bool-cases ((pend_at y.pend 0).got == 0)) [
              | inl f ↦ rw f refl
              | inr f ↦ rw f (answer_ended-timeless y (pend_at y.pend 0).t_last)
            ])
      | inr e ↦ rw (e, either_not _ _ e) refl
    ]
discard_loop-timeless client (suc (suc i)) y = elim (Bool-cases (of_client client p)) [
  | inl e ↦ rw e (
      ap (λ z. map timeless (discard_loop client (suc i) z).pend) (removed e)
      ∙ discard_loop-timeless client (suc i) (pend_remove y (suc i)))
  | inr e ↦ rw e (
      ap (λ z. map timeless (discard_loop client (suc i) z).pend) (kept e)
      ∙ discard_loop-timeless client (suc i) y)
]
  where
    p : Pending
    p = pend_at y.pend (suc i)

    round : Ybin
    round =
        if not (p.client == client) || p.own
        then y
        else if suc i == 0 && not (p.got == 0)
        then answer_ended y p.t_last
        else pend_remove y (suc i)

    removed : of_client client p ≡ true → round ≡ pend_remove y (suc i)
    removed e = rw (not_both _ _ e, suc_not_zero i) refl

    kept : of_client client p ≡ false → round ≡ y
    kept e = rw (either_not _ _ e) refl

-- A client with a valid number, when it is discarded, leaves exactly the pending commands of the
-- others and of mhuxd itself, in their order and unchanged but for the time from which an answer is
-- due.
pub client_discard-timeless :
    (y : Ybin) (client : ℕ)
    → bad_client client ≡ false
    → map timeless (client_discard y client).pend ≡ map timeless (reject (of_client client) y.pend)
unfolding client_discard
client_discard-timeless y client h = rw h (
    discard_loop-timeless client (length y.pend) _
    ∙ ap (map timeless) (sweep-all (of_client client) no_pending y.pend))

any_of-timeless :
    (client : ℕ) (ps : List Pending)
    → any_of (of_client client) (map timeless ps) ≡ any_of (of_client client) ps
any_of-timeless client [] = refl
any_of-timeless client (p ∷ ps) = ground (arith, any_of-timeless client ps)

-- A test that asks for more finds no more.
any_of-stronger :
    (q r : Pending → Bool) (ps : List Pending)
    → ((p : Pending) → q p ≡ true → r p ≡ true)
    → any_of r ps ≡ false
    → any_of q ps ≡ false
any_of-stronger q r [] h e = refl
any_of-stronger q r (p ∷ ps) h e = ground (arith, h p, e, any_of-stronger q r ps h)

none_left :
    (y : Ybin) (client : ℕ)
    → bad_client client ≡ false
    → any_of (of_client client) (client_discard y client).pend ≡ false
none_left y client h =
    sym (any_of-timeless client (client_discard y client).pend)
    ∙ ap (any_of (of_client client)) (client_discard-timeless y client h)
    ∙ any_of-timeless client (reject (of_client client) y.pend)
    ∙ any_of-reject (of_client client) (of_client client) y.pend (λ p e. e)

answer_ended-hold : (y : Ybin) (t : ℕ) → (answer_ended y t).hold ≡ y.hold
unfolding answer_ended next_due pend_remove emit
answer_ended-hold y t = elim (Bool-cases (is_empty y.ans)) [ inl e ↦ rw e refl | inr e ↦ rw e refl ]

if_hold :
    (b : Bool) (p q : Ybin) (h : ℕ → ℕ) → p.hold ≡ h → q.hold ≡ h → (if b then p else q).hold ≡ h
if_hold true p q h i j = i
if_hold false p q h i j = j

discard_loop-hold : (client n : ℕ) (y : Ybin) → (discard_loop client n y).hold ≡ y.hold
unfolding discard_loop pend_remove
discard_loop-hold client zero y = refl
discard_loop-hold client (suc i) y =
    discard_loop-hold client i _
    ∙ if_hold (not (p.client == client) || p.own) y _ y.hold refl (
        if_hold (i == 0 && not (p.got == 0)) (answer_ended y p.t_last) (pend_remove y i) y.hold
          (answer_ended-hold y p.t_last) refl)
  where
    p : Pending
    p = pend_at y.pend i

-- The decoder at the loop of `cat_ybin_client_discard`.
abbrev before : Ybin → ℕ → Ybin
before y client = record (with_buf y (client - 1) [] (y.rx (client - 1)).t_ms) {
  hold = update y.hold client 0;
}

discarded_idle :
    (y : Ybin) (client t : ℕ)
    → bad_client client ≡ false
    → (rx_partial ((client_discard y client).rx (client - 1)) t
        || ltb t ((client_discard y client).hold client))
      ≡ false
unfolding rx_partial client_discard
discarded_idle y client t e =
    rw
      (
        e,
        (discard_loop-Keeps client (length y.pend) (before y client)).rx,
        discard_loop-hold client (length y.pend) (before y client),
      )
      (ground arith)

idle_lem :
    (y : Ybin) (client t : ℕ)
    → (rx_partial (y.rx (client - 1)) t || ltb t (y.hold client)) ≡ false
    → any_of (of_client client) y.pend ≡ false
    → client_busy y client t ≡ false
unfolding client_busy
idle_lem y client t e f = elim (Bool-cases (bad_client client)) [
  | inl i ↦ rw i refl
  | inr i ↦
      rw (i, e)
        (any_of-stronger (λ p. p.client == client && not p.own && pend_live y.pacing_ms p t)
          (of_client client) y.pend (λ p k. ground (arith, k)) f)
]

-- A client that is discarded has nothing left to wait for, at any time: no command half received or
-- without an answer, and none that keeps the line.
pub client_busy-discarded :
    (y : Ybin) (client t : ℕ) → client_busy (client_discard y client) client t ≡ false
unfolding client_busy
client_busy-discarded y client t = elim (Bool-cases (bad_client client)) [
  | inl e ↦ rw e refl
  | inr e ↦
      idle_lem (client_discard y client) client t (discarded_idle y client t e)
        (none_left y client e)
]
