-- ===== src/Router/Consumers.antt =====
-- src/mhrouter.c: what connectors read from the keyer.
use mhuxd.Base.{
  ℕ, Bool, false, not, ◌&&◌, ◌||◌, Option, none, some, List, [], ◌∷◌, ◌++◌, if◌then◌else◌, ◌==◌,
  leb, map, update, length, ◌+◌, find_idx, erase_idx,
}
use mhuxd.Buffer.{alloc}
use mhuxd.Channel
use mhuxd.Router.State.{Router, Consumer, bad_channel, put_consumers}
use mhuxd.Router.Producers.{has_producer_fd, add_producer, rem_producer}

-- `mhr_add_consumer`
unfoldable pub add_consumer : Router → Option ℕ → ℕ → Option (List ℕ) → Router
add_consumer r none channel tag = r
add_consumer r (some fd) channel tag =
    if bad_channel channel || channel == Channel.flags && not r.has_flags_channel
    then r
    else put_consumers r channel (
        r.consumers channel
        ++ record { fd = fd; tag = tag; buf = alloc; flags = 0; writing = false } ∷ [])

abbrev without_consumer : Router → ℕ → ℕ → ℕ → Router
without_consumer r channel fd i =
    let r' = put_consumers r channel (erase_idx (r.consumers channel) i) in
    if has_producer_fd r fd channel then r' else record r' { closed = r.closed ++ fd ∷ [] }

-- `mhr_rem_consumer`
unfoldable pub rem_consumer : Router → ℕ → ℕ → Router
unfolding has_producer_fd
rem_consumer r fd channel =
    if bad_channel channel then r else elim (find_idx (λ c. c.fd == fd) (r.consumers channel)) [
      | none ↦ r
      | some i ↦ without_consumer r channel fd i
    ]

-- `mhr_add_endpoint_fd`, `mhr_rem_endpoint_fd`
unfoldable pub add_endpoint_fd : Router → Option ℕ → ℕ → Option (List ℕ) → Router
unfolding add_consumer add_producer
add_endpoint_fd r fd channel tag = add_producer (add_consumer r fd channel tag) fd channel tag

unfoldable pub rem_endpoint_fd : Router → ℕ → ℕ → Router
unfolding rem_consumer rem_producer
rem_endpoint_fd r fd channel = rem_consumer (rem_producer r fd channel) fd channel

-- `mhr_set_consumer_flags`
unfoldable pub set_consumer_flags : Router → ℕ → ℕ → ℕ → Router
set_consumer_flags r fd channel flags =
    if bad_channel channel
    then r
    else put_consumers r channel
        (map (λ c. if c.fd == fd then record c { flags = flags } else c) (r.consumers channel))

-- `mhr_intercept_consumers`
unfoldable pub intercept_consumers : Router → ℕ → Bool → Router
intercept_consumers r channel on =
    if leb 8 channel || channel == Channel.control
    then r
    else record r { intercept = update r.intercept channel on }

-- The loop of `mhr_count_consumers_flagged`; `flagged` is `(cns->flags & flags) != 0`.
unfoldable pub count_flagged : (ℕ → Bool) → List Consumer → ℕ
count_flagged flagged [] = 0
count_flagged flagged (c ∷ cs) = (if flagged c.flags then 1 else 0) + count_flagged flagged cs

-- `mhr_count_consumers_flagged`, with the flags of a mask given as a test
unfoldable pub count_consumers_flagged : Router → ℕ → (ℕ → Bool) → ℕ
unfolding count_flagged
count_consumers_flagged r channel flagged =
    if bad_channel channel then 0 else count_flagged flagged (r.consumers channel)

-- `mhr_count_producers`
unfoldable pub count_producers : Router → ℕ → ℕ
count_producers r channel = if bad_channel channel then 0 else length (r.producers channel)
