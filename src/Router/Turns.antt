-- ===== src/Router/Turns.antt =====
-- src/mhrouter.c: the next producer with data waiting.
use mhuxd.Base.{
  ℕ, ◌≡◌, refl, arith, Bool, true, false, not, ◌&&◌, Option, none, some, List, [], ◌∷◌,
  if◌then◌else◌, if_cong, ◌==◌,
}
use mhuxd.Router.State.{Router, Producer, bad_channel}
use mhuxd.Router.Producers.{next_loop, next_waiting_producer}

-- The first producer with data waiting, but the one with a descriptor.
abbrev pub first_waiting : (ℕ → Bool) → ℕ → List Producer → Option ℕ
first_waiting waiting fd [] = none
first_waiting waiting fd (p ∷ ps) =
    let rest = first_waiting waiting fd ps in
    if not (p.fd == fd) && waiting p.fd then some p.fd else rest

-- The producers behind the first one with a descriptor.
abbrev pub behind : ℕ → List Producer → List Producer
behind fd [] = []
behind fd (p ∷ ps) = let rest = behind fd ps in if p.fd == fd then ps else rest

abbrev pub or_else : Option ℕ → Option ℕ → Option ℕ
or_else none o = o
or_else (some fd) o = some fd

next_loop-after :
    (waiting : ℕ → Bool) (fd : ℕ) (first : Option ℕ) (ps : List Producer)
    → next_loop waiting fd true first ps ≡ or_else (first_waiting waiting fd ps) first
unfolding next_loop
next_loop-after waiting fd first [] = refl
next_loop-after waiting fd first (p ∷ ps) = ground (arith, next_loop-after waiting fd first ps)

next_loop-kept :
    (waiting : ℕ → Bool) (fd x : ℕ) (ps : List Producer)
    → next_loop waiting fd false (some x) ps
      ≡ or_else (first_waiting waiting fd (behind fd ps)) (some x)
unfolding next_loop
next_loop-kept waiting fd x [] = refl
next_loop-kept waiting fd x (p ∷ ps) =
    ground (arith, next_loop-kept waiting fd x ps, next_loop-after waiting fd (some x) ps)

next_loop-before :
    (waiting : ℕ → Bool) (fd : ℕ) (ps : List Producer)
    → next_loop waiting fd false none ps
      ≡ or_else (first_waiting waiting fd (behind fd ps)) (first_waiting waiting fd ps)
unfolding next_loop
next_loop-before waiting fd [] = refl
next_loop-before waiting fd (p ∷ ps) = ground (
  arith,
  next_loop-before waiting fd ps,
  next_loop-kept waiting fd p.fd ps,
  next_loop-after waiting fd none ps,
)

-- The next producer after one, of those with data waiting: the first one behind it in the channel's
-- list, else the first one from the start of the list; none when no other producer waits, or the
-- channel is out of range. Whether a producer waits is asked of its socket.
pub next_waiting_producer_lem :
    (waiting : ℕ → Bool) (r : Router) (channel fd : ℕ)
    → next_waiting_producer waiting r channel fd ≡ (
        if bad_channel channel
        then none
        else or_else
            (first_waiting waiting fd (behind fd (r.producers channel)))
            (first_waiting waiting fd (r.producers channel)))
unfolding next_waiting_producer
next_waiting_producer_lem waiting r channel fd =
    if_cong (bad_channel channel) (λ _. refl)
      (λ _. next_loop-before waiting fd (r.producers channel))
