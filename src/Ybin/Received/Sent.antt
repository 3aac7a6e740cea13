-- ===== src/Ybin/Received/Sent.antt =====
-- src/cat_ybin.c: what `filler` is to commands and to the table of pending commands: nothing.
use mhuxd.Base.{
  ℕ, zero, suc, ◌+◌, ◌≡◌, refl, ◌∙◌, ap, Bool, true, false, not, ◌&&◌, ◌||◌, List, [], ◌∷◌, ◌++◌,
  length, if◌then◌else◌, ◌==◌, ltb, leb, u64,
}
use mhuxd.Cat.{Dir, is_own, FrameKind, Frame}
use mhuxd.CatState.{select_vfo}
use mhuxd.Ybin.Lengths.{Length, answer_len, op_of, u_of, has_pacing}
use mhuxd.Ybin.Fields.{Memory}
use mhuxd.Ybin.State.{Ybin, Pending, emit, with_buf, ybin_cmd_gap_ms, giveup_ms}
use mhuxd.Ybin.Pending.{
  pend_at, is_empty, pend_remove, pend_live, next_due, emit_answer, answer_ended, end_oldest,
  expire_loop, pend_expire, giveup_loop, pend_giveup, pend_add, new_pending,
}
use mhuxd.Ybin.Framer.{
  assume_vfo, set_pacing, await, take_command, command, rx_expire, store_byte, host_byte, host_loop,
}

-- The decoder with something else in the memory behind an answer.
abbrev pub with_filler : Memory → Ybin → Ybin
with_filler g y = record y { filler = g }

pub if_filler :
    (g : Memory) (b : Bool) (p q p' q' : Ybin)
    → (b ≡ true → p' ≡ with_filler g p)
    → (b ≡ false → q' ≡ with_filler g q)
    → (if b then p' else q') ≡ with_filler g (if b then p else q)
if_filler g true p q p' q' h k = h refl
if_filler g false p q p' q' h k = k refl

pub emit_filler :
    (g : Memory) (y : Ybin) (f : Frame) → emit (with_filler g y) f ≡ with_filler g (emit y f)
unfolding emit
emit_filler g y f = refl

pub emit_answer-filler :
    (g : Memory) (y : Ybin) (kind : FrameKind) (a : List ℕ) (applied : Bool) (p : Pending) (t : ℕ)
    → emit_answer (with_filler g y) kind a applied p t
      ≡ with_filler g (emit_answer y kind a applied p t)
unfolding emit
emit_answer-filler g y kind a applied p t =
    if_filler g (is_empty a) y (emit y _) _ _ (λ _. refl) (λ _. refl)

answer_ended-filler :
    (g : Memory) (y : Ybin) (t : ℕ)
    → answer_ended (with_filler g y) t ≡ with_filler g (answer_ended y t)
unfolding answer_ended next_due pend_remove
answer_ended-filler g y t =
    emit_answer-filler g (next_due y t) _ y.ans false (pend_at y.pend 0) (pend_at y.pend 0).t_last

end_oldest-filler :
    (g : Memory) (y : Ybin) (t : ℕ)
    → end_oldest (with_filler g y) t ≡ with_filler g (end_oldest y t)
unfolding end_oldest pend_remove
end_oldest-filler g y t =
    if_filler g ((pend_at y.pend 0).got == 0) (pend_remove y 0) (answer_ended y t) _ _ (λ _. refl)
      (λ _. answer_ended-filler g y t)

pub expire_loop-filler :
    (g : Memory) (n : ℕ) (y : Ybin) (t : ℕ)
    → expire_loop n (with_filler g y) t ≡ with_filler g (expire_loop n y t)
unfolding expire_loop
expire_loop-filler g zero y t = refl
expire_loop-filler g (suc n) y t =
    if_filler g (not (is_empty y.pend) && not (pend_live y.pacing_ms (pend_at y.pend 0) t))
      (expire_loop n (end_oldest y t) t) y _ _
      (λ _.
        ap (λ z. expire_loop n z t) (end_oldest-filler g y t)
        ∙ expire_loop-filler g n (end_oldest y t) t)
      (λ _. refl)

giveup_loop-filler :
    (g : Memory) (n : ℕ) (y : Ybin) (t : ℕ)
    → giveup_loop n (with_filler g y) t ≡ with_filler g (giveup_loop n y t)
unfolding giveup_loop pend_remove
giveup_loop-filler g zero y t = refl
giveup_loop-filler g (suc n) y t =
    if_filler g
      (not (is_empty y.pend)
        && (pend_at y.pend 0).got == 0
        && ltb (u64 ((pend_at y.pend 0).t_ms + giveup_ms)) t)
      (giveup_loop n (pend_remove y 0) t) y _ _ (λ _. giveup_loop-filler g n (pend_remove y 0) t)
      (λ _. refl)

abbrev with_new : Pending → Ybin → Ybin
with_new p y = record y { pend = y.pend ++ p ∷ [] }

pend_add-filler :
    (g : Memory) (y : Ybin) (c : List ℕ) (l : Length) (own : Bool) (client t : ℕ)
    → pend_add (with_filler g y) c l own client t ≡ with_filler g (pend_add y c l own client t)
unfolding pend_add
pend_add-filler g y c l own client t = ap (with_new (new_pending c l own client t)) (
    if_filler g (length y.pend == 8) (end_oldest y t) y _ _ (λ _. end_oldest-filler g y t)
      (λ _. refl))

await-filler :
    (g : Memory) (y : Ybin) (c : List ℕ) (l : Length) (own : Bool) (client t : ℕ)
    → await (with_filler g y) c l own client t ≡ with_filler g (await y c l own client t)
unfolding await
await-filler g y c l own client t =
    if_filler g (not (l.0 == 0) || l.1) (pend_add y c l own client t) _ _ _
      (λ _. pend_add-filler g y c l own client t) (λ _. refl)

pub assume_vfo-filler :
    (g : Memory) (y : Ybin) (t : ℕ)
    → assume_vfo (with_filler g y) t ≡ with_filler g (assume_vfo y t)
unfolding assume_vfo
assume_vfo-filler g y t =
    if_filler g y.st.vfo_ab.valid y (record y { st = select_vfo y.st false t }) _ _ (λ _. refl)
      (λ _. refl)

set_pacing-filler :
    (g : Memory) (y : Ybin) (c : List ℕ)
    → set_pacing (with_filler g y) c ≡ with_filler g (set_pacing y c)
set_pacing-filler g y c =
    if_filler g (op_of c == 0x0e && has_pacing y.model) (record y { pacing_ms = u_of c }) y _ _
      (λ _. refl) (λ _. refl)

-- The state in which a command is awaited.
abbrev ready : Ybin → List ℕ → ℕ → Ybin
ready y c t = set_pacing (pend_giveup (pend_expire (assume_vfo y t) t) t) c

ready_filler :
    (g : Memory) (y : Ybin) (c : List ℕ) (t : ℕ)
    → ready (with_filler g y) c t ≡ with_filler g (ready y c t)
unfolding pend_expire pend_giveup
ready_filler g y c t =
    ap (λ z. set_pacing (pend_giveup (pend_expire z t) t) c) (assume_vfo-filler g y t)
    ∙ ap (λ z. set_pacing (pend_giveup z t) c) (expire_loop-filler g (length y1.pend) y1 t)
    ∙ ap (λ z. set_pacing z c) (giveup_loop-filler g (length y2.pend) y2 t)
    ∙ set_pacing-filler g (pend_giveup y2 t) c
  where
    y1 : Ybin
    y1 = assume_vfo y t

    y2 : Ybin
    y2 = pend_expire y1 t

command_filler :
    (g : Memory) (y : Ybin) (dir : Dir) (client : ℕ) (c : List ℕ) (t : ℕ)
    → command (with_filler g y) dir client c t ≡ with_filler g (command y dir client c t)
unfolding command take_command emit
command_filler g y dir client c t =
    ap (λ z. take_command (await z c (answer_len y.model c) (is_own dir) client t) dir client c t)
      (ready_filler g y c t)
    ∙ ap (λ z. take_command z dir client c t)
        (await-filler g (ready y c t) c (answer_len y.model c) (is_own dir) client t)

rx_expire-filler :
    (g : Memory) (y : Ybin) (i t : ℕ)
    → rx_expire (with_filler g y) i t ≡ with_filler g (rx_expire y i t)
unfolding rx_expire emit
rx_expire-filler g y i t =
    if_filler g (is_empty (y.rx i).buf || leb t (u64 ((y.rx i).t_ms + ybin_cmd_gap_ms))) y _ _ _
      (λ _. refl) (λ _. refl)

store_byte-filler :
    (g : Memory) (y : Ybin) (dir : Dir) (client i b t : ℕ)
    → store_byte (with_filler g y) dir client i b t ≡ with_filler g (store_byte y dir client i b t)
unfolding store_byte
store_byte-filler g y dir client i b t =
    if_filler g (length ((y.rx i).buf ++ b ∷ []) == 5)
      (command (with_buf y i [] t) dir client ((y.rx i).buf ++ b ∷ []) t) _ _ _
      (λ _. command_filler g (with_buf y i [] t) dir client ((y.rx i).buf ++ b ∷ []) t) (λ _. refl)

pub host_loop-filler :
    (g : Memory) (y : Ybin) (dir : Dir) (client i : ℕ) (bs : List ℕ) (t : ℕ)
    → host_loop (with_filler g y) dir client i bs t ≡ with_filler g (host_loop y dir client i bs t)
unfolding host_loop host_byte
host_loop-filler g y dir client i [] t = refl
host_loop-filler g y dir client i (b ∷ bs) t =
    ap (λ z. host_loop (store_byte z dir client i b t) dir client i bs t) (rx_expire-filler g y i t)
    ∙ ap (λ z. host_loop z dir client i bs t)
        (store_byte-filler g (rx_expire y i t) dir client i b t)
    ∙ host_loop-filler g (host_byte y dir client i b t) dir client i bs t
