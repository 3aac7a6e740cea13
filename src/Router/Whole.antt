-- ===== src/Router/Whole.antt =====
-- src/mhrouter.c: data to the keyer are sent whole or not at all.
use mhuxd.Base.{
  ℕ, ◌-◌, ◌≤◌, ◌≡◌, refl, ap, ◌∙◌, arith, Bool, true, false, not, ◌&&◌, Option, none, some, List,
  ◌++◌, if◌then◌else◌, ◌==◌, ltb, length, take-length, ==_iff, take, min,
}
use mhuxd.Channel
use mhuxd.Buffer.{append, size_avail, buffer_capacity}
use mhuxd.Buffer.Contents.{IsValid, unread, append_refines}
use mhuxd.Router.State.{Router, bad_channel, is_open}
use mhuxd.Router.Sends.{send_in}

-- What `send_in` comes to: -1 and nothing changed, or all bytes behind those that wait.
abbrev pub SentOrNot : Router → List ℕ → ℕ → Option ℕ → Router → Type 0
SentOrNot r bytes ch none s = s ≡ r
SentOrNot r bytes ch (some n) s =
    (n ≡ length bytes) × IsValid (s.out ch) × (unread (s.out ch) ≡ unread (r.out ch) ++ bytes)

-- One more reason to refuse.
refuse :
    (r : Router) (bytes : List ℕ) (ch : ℕ) (b : Bool) (x : Option ℕ × Router)
    → (b ≡ false → SentOrNot r bytes ch x.0 x.1)
    → SentOrNot r bytes ch (if b then (none, r) else x).0 (if b then (none, r) else x).1
refuse r bytes ch true x h = refl
refuse r bytes ch false x h = h refl

appended :
    (r : Router) (bytes : List ℕ) (ch : ℕ)
    → IsValid (r.out ch)
    → ltb (size_avail (r.out ch)) (length bytes) ≡ false
    → let (n, b) = append (r.out ch) bytes in
      (n ≡ length bytes) × IsValid b × (unread b ≡ unread (r.out ch) ++ bytes)
appended r bytes ch v e = (
  n_eq,
  whole.2,
  whole.1 ∙ ap (λ q. unread (r.out ch) ++ q) (take-length bytes _ (omega (arith, n_eq))),
)
  where
    short : length bytes ≤ 4096 - (r.out ch).size
    short = ground (arith, e, v.fits)

    whole :
        ((append (r.out ch) bytes).0 ≡ min (length bytes) (4096 - (r.out ch).size))
        × (unread (append (r.out ch) bytes).1
            ≡ unread (r.out ch) ++ take (append (r.out ch) bytes).0 bytes)
        × IsValid (append (r.out ch) bytes).1
    whole = append_refines bytes v (omega (arith, short))

    n_eq : (append (r.out ch) bytes).0 ≡ length bytes
    n_eq = omega (arith, whole.0, short)

-- Either mhr_send_in returns -1 and changes nothing, or it returns the number of bytes, and all of
-- them wait behind those that the channel's buffer already held. The buffer was valid, and stays so.
pub send_in-whole :
    (r : Router) (bytes : List ℕ) (ch : ℕ)
    → IsValid (r.out ch)
    → SentOrNot r bytes ch (send_in r bytes ch).0 (send_in r bytes ch).1
unfolding send_in
send_in-whole r bytes ch v = refuse r bytes ch (bad_channel ch) _ (λ _.
    refuse r bytes ch (ch == Channel.flags && not r.has_flags_channel) _ (λ _.
      refuse r bytes ch (ltb buffer_capacity (length bytes)) _ (λ _.
        refuse r bytes ch (not (is_open r.fd)) _ (λ _.
          refuse r bytes ch (ltb (size_avail (r.out ch)) (length bytes)) _
            (λ e. rw ((==_iff ch ch).1 refl) (appended r bytes ch v e))))))
