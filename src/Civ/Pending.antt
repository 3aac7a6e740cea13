-- ===== src/Civ/Pending.antt =====
-- src/cat_civ.c: the commands that wait for their answer. The radio answers in order.
use mhuxd.Base.{
  ℕ, zero, suc, ◌+◌, ◌-◌, Bool, true, false, not, ◌&&◌, ◌||◌, Option, none, some, List, [], ◌∷◌,
  ◌++◌, if◌then◌else◌, ◌==◌, leb, length, get_or, erase_idx, bytes_eq, u64, u8, find_idx, any_of,
}
use mhuxd.Cat.{Dir, is_radio, is_own, is_host, Waiting, bad_client, cat_max_clients}
use mhuxd.Civ.State.{
  f_to, f_from, f_cmd, f_data, Pending, Civ, Rx, RxState, idle, pend_max, pend_timeout_ms,
  civ_collision_ms,
}
use mhuxd.Civ.Decode.{has_sub, intent, is_query_intent, is_set_intent}

-- what a read past the entries would see; no index used is past them
abbrev pub no_pending : Pending
no_pending = record {
  buf = [];
  t_ms = 0;
  from_host = false;
  echoed = false;
  own = false;
  client = 0;
  lost = false;
  resends = 0;
}

abbrev pub pend_at : List Pending → ℕ → Pending
pend_at ps i = get_or ps i no_pending

-- `p->t_ms + PEND_TIMEOUT_MS >= t`
abbrev pub waiting : Pending → ℕ → Bool
waiting p t = leb t (u64 (p.t_ms + pend_timeout_ms))

-- `pend_remove` is `erase_idx`; `pend_expire` removes from the front.
unfoldable pub pend_expire : List Pending → ℕ → List Pending
pend_expire [] t = []
pend_expire (p ∷ ps) t = let rest = pend_expire ps t in if waiting p t then p ∷ ps else rest

abbrev pub drop_oldest : List Pending → List Pending
drop_oldest ps = if length ps == pend_max then erase_idx ps 0 else ps

-- `pend_add`
unfoldable pub pend_add : List Pending → List ℕ → Dir → ℕ → ℕ → List Pending
pend_add ps f dir client t =
    drop_oldest ps
    ++ record {
      buf = f;
      t_ms = t;
      from_host = not (is_radio dir);
      echoed = is_radio dir;
      own = is_own dir;
      client = if is_host dir then u8 client else 0;
      lost = false;
      resends = 0;
    }
      ∷ []

-- The loop of `pend_consume`, `for(j = i; j >= 0; j--)` with `n` = j + 1 rounds left.
unfoldable pub consume_loop : ℕ → ℕ → ℕ → List Pending → List Pending
consume_loop ctrl client zero ps = ps
consume_loop ctrl client (suc j) ps = consume_loop ctrl client j (
    if f_from (pend_at ps j).buf == ctrl && (pend_at ps j).client == client
    then erase_idx ps j
    else ps)

-- `pend_consume`
unfoldable pub pend_consume : List Pending → ℕ → List Pending
unfolding consume_loop
pend_consume ps i = consume_loop (f_from (pend_at ps i).buf) (pend_at ps i).client (suc i) ps

-- whether two frames have a data byte each, and the same first one
abbrev same_sub : List ℕ → List ℕ → Bool
same_sub [] r = false
same_sub (x ∷ p) [] = false
same_sub (x ∷ p) (y ∷ r) = x == y

-- What `pend_find_query` asks of an entry, for the reply `r`.
unfoldable pub answers : List ℕ → Pending → Bool
answers r p =
    f_from p.buf == f_to r
    && f_cmd p.buf == f_cmd r
    && (not (has_sub (f_cmd r)) || same_sub (f_data p.buf) (f_data r))
    && not (is_set_intent (intent p.buf))

-- `pend_find_query`; `none` for -1
unfoldable pub pend_find_query : List Pending → List ℕ → Option ℕ
unfolding answers
pend_find_query ps r = find_idx (answers r) ps

-- What `pend_find_ack` asks of an entry.
unfoldable pub acked : ℕ → Bool → Pending → Bool
acked ctrl ok p = f_from p.buf == ctrl && not (ok && is_query_intent (intent p.buf))

-- `pend_find_ack`
unfoldable pub pend_find_ack : List Pending → ℕ → Bool → Option ℕ
unfolding acked
pend_find_ack ps ctrl ok = find_idx (acked ctrl ok) ps

-- What `pend_find_echo` asks of an entry.
unfoldable pub echoes : List ℕ → Pending → Bool
echoes f p = p.from_host && not p.echoed && bytes_eq p.buf f

-- `pend_find_echo`
unfoldable pub pend_find_echo : List Pending → List ℕ → Option ℕ
unfolding echoes
pend_find_echo ps f = find_idx (echoes f) ps

-- what `mark_lost` asks of an entry
unfoldable pub collided : ℕ → Pending → Bool
collided t p = p.from_host && not p.echoed && leb t (u64 (p.t_ms + civ_collision_ms))

abbrev mark_one : ℕ → Pending → Pending
mark_one t p = if collided t p then record p { lost = true } else p

-- `mark_lost`
unfoldable pub mark_lost : List Pending → ℕ → List Pending
unfolding collided
mark_lost [] t = []
mark_lost (p ∷ ps) t = mark_one t p ∷ mark_lost ps t

-- `rx_partial`
abbrev pub is_idle : RxState → Bool
is_idle idle = true
is_idle _ = false

unfoldable pub rx_partial : Rx → ℕ → Bool
rx_partial rx t = not (is_idle rx.state) && leb t (u64 (rx.t_ms + pend_timeout_ms))

-- The first loop of `cat_civ_pending`, with `n` framers left.
unfoldable pub any_partial : ℕ → (ℕ → Rx) → ℕ → Bool
unfolding rx_partial
any_partial zero rx t = false
any_partial (suc n) rx t = rx_partial (rx n) t || any_partial n rx t

-- `cat_civ_pending`
unfoldable pub pending : Civ → ℕ → Waiting
unfolding any_partial
pending c t = record {
  client = any_partial cat_max_clients c.rx t || any_of (λ p. waiting p t && not p.own) c.pend;
  own = any_of (λ p. waiting p t && p.own) c.pend;
}

-- `cat_civ_client_busy`
unfoldable pub client_busy : Civ → ℕ → ℕ → Bool
unfolding rx_partial
client_busy c client t =
    if bad_client client
    then false
    else if rx_partial (c.rx (client - 1)) t
    then true
    else any_of (λ p. p.client == client && waiting p t) c.pend

-- The loop of `cat_civ_client_discard`, with `n` = i + 1 rounds left.
unfoldable pub discard_loop : ℕ → ℕ → List Pending → List Pending
discard_loop client zero ps = ps
discard_loop client (suc i) ps =
    discard_loop client i (if (pend_at ps i).client == client then erase_idx ps i else ps)

-- `cat_civ_lost`
unfoldable pub lost_count : List Pending → ℕ
lost_count [] = 0
lost_count (p ∷ ps) = (if p.lost then 1 else 0) + lost_count ps

-- What `cat_civ_resend` hands out.
pub record Resend : Type 0 where
  pub buf : List ℕ
  pub client : ℕ
  pub own : Bool

abbrev sent_again : ℕ → Pending → Pending
sent_again t p = record p { lost = false; resends = u8 (p.resends + 1); t_ms = t }

abbrev and_then : Pending → List Pending × Option Resend → List Pending × Option Resend
and_then p (ps, r) = (p ∷ ps, r)

-- The loop of `cat_civ_resend`; `max` is positive or zero.
unfoldable pub resend_loop : List Pending → ℕ → ℕ → List Pending × Option Resend
resend_loop [] max t = ([], none)
resend_loop (p ∷ ps) max t =
    let skipped = and_then p (resend_loop ps max t) in
    let given_up = and_then (record p { lost = false }) (resend_loop ps max t) in
    if not p.lost
    then skipped
    else if leb max p.resends
    then given_up
    else (sent_again t p ∷ ps, some (record { buf = p.buf; client = p.client; own = p.own }))
