-- ===== src/Buffer/Contents.antt =====
-- src/buffer.c: the representation invariant of `struct buffer`, and the queue of unread bytes that it stands
-- for: what each function does to that queue.
use mhuxd.Base.{
  ℕ, suc, ◌+◌, ◌-◌, ◌≤◌, ◌<◌, min, ◌≡◌, refl, ap, ◌∙◌, true, false, Option, none, some, List, [],
  ◌∷◌, ◌++◌, append-nil, append_assoc, arith, ◌==◌, u16, if◌then◌else◌, leb, length, get_or, set,
  take, drop, length-set, length-take, length-drop, take-set_next, drop-append, drop-get_or,
  get_or-take, drop-drop, take-drop, drop-nil_of_le, length-replicate,
}
use mhuxd.Buffer.{
  Buffer, buffer_capacity, alloc, size_avail, taken, add_size, consume, append_c, append, write,
  get_c, removed, remove_front,
}

-- `drained`: a buffer read to its end has been reset.
pub record IsValid (b : Buffer) : Type 0 where
  pub storage : length b.mem ≡ 4096
  pub fits : b.size ≤ 4096
  pub behind : b.rpos ≤ b.size
  pub drained : b.rpos ≡ b.size → b.size ≡ 0

-- all bytes up to `size`, and the ones of them not yet read
abbrev pub held : Buffer → List ℕ
held b = take b.size b.mem

abbrev pub unread : Buffer → List ℕ
unread b = drop b.rpos (held b)

pub length-write : (mem : List ℕ) (i : ℕ) (p : List ℕ) → length (write mem i p) ≡ length mem
unfolding write
length-write mem i [] = refl
length-write mem i (c ∷ p) = length-write (set mem i c) (suc i) p ∙ length-set mem i c

take-write :
    (mem : List ℕ) (i : ℕ) (p : List ℕ) (k : ℕ)
    → k ≡ i + length p
    → k ≤ length mem
    → take k (write mem i p) ≡ take i mem ++ p
unfolding write
take-write mem i [] k e h = ap (λ (j : ℕ). take j mem) (omega arith) ∙ append-nil-sym
  where
    append-nil-sym : take i mem ≡ take i mem ++ []
    append-nil-sym = ground (arith, append-nil (take i mem))
take-write mem i (c ∷ p) k e h =
    take-write (set mem i c) (suc i) p k (omega arith) (omega (arith, length-set mem i c))
    ∙ ground (arith, take-set_next mem i c (omega arith), append_assoc (take i mem) (c ∷ []) p)

pub length-held : {b : Buffer} → IsValid b → length (held b) ≡ b.size
length-held {b} v = omega (arith, length-take b.size b.mem, v.storage, v.fits)

-- A buffer fresh from `buf_alloc` is valid and holds nothing.
pub alloc-IsValid : IsValid alloc × (held alloc ≡ [])
unfolding alloc
alloc-IsValid = (
  record {
    storage = length-replicate {A = ℕ} 4096 0;
    fits = omega arith;
    behind = omega arith;
    drained = λ e. refl;
  },
  refl,
)

taken_lem :
    {b : Buffer} (p : List ℕ)
    → IsValid b
    → length p < 65536
    → taken b p ≡ min (length p) (4096 - b.size)
unfolding taken
taken_lem p v h = ground arith

pub size-append :
    {b : Buffer} (p : List ℕ)
    → IsValid b
    → length p < 65536
    → (append b p).1.size ≡ b.size + min (length p) (4096 - b.size)
unfolding append
size-append {b} p v h = omega (arith, taken_lem p v h, v.fits)

pub append-IsValid :
    {b : Buffer} (p : List ℕ) → IsValid b → length p < 65536 → IsValid (append b p).1
unfolding append
append-IsValid {b} p v h = record {
  storage = length-write b.mem b.size (take (taken b p) p) ∙ v.storage;
  fits = omega (arith, taken_lem p v h);
  behind = omega (arith, taken_lem p v h);
  drained = λ e. omega (arith, taken_lem p v h);
}

held-append :
    {b : Buffer} (p : List ℕ)
    → IsValid b
    → length p < 65536
    → held (append b p).1 ≡ held b ++ take (taken b p) p
unfolding append
held-append {b} p v h =
    take-write b.mem b.size (take (taken b p) p) (u16 (b.size + taken b p))
      (omega (arith, taken_lem p v h, length-take (taken b p) p)) (omega (arith, taken_lem p v h))

-- `buf_append` takes as many bytes as fit, adds exactly those behind the unread bytes, and
-- keeps the buffer valid.
pub append_refines :
    {b : Buffer} (p : List ℕ)
    → IsValid b
    → length p < 65536
    → let (n, b') = append b p in
      (n ≡ min (length p) (4096 - b.size)) × (unread b' ≡ unread b ++ take n p) × IsValid b'
append_refines {b} p v h = (
  unfold append in taken_lem p v h,
  rw (held-append p v h) (
      unfold append in
      drop-append (held b) (take (taken b p) p) b.rpos (omega (arith, length-held v))),
  append-IsValid p v h,
)

-- What `buf_get_c` returns: the oldest unread byte with the rest still unread, or -1 with nothing
-- unread and nothing changed.
abbrev pub Front : Option ℕ → Buffer → Buffer → Type 0
Front none b b' = (unread b ≡ []) × (b' ≡ b)
Front (some c) b b' = unread b ≡ c ∷ unread b'

unread-cons :
    {b : Buffer}
    → IsValid b
    → b.rpos < b.size
    → unread b ≡ get_or b.mem b.rpos 0 ∷ drop (suc b.rpos) (held b)
unread-cons {b} v h =
    drop-get_or (held b) b.rpos 0 (omega (arith, length-held v))
    ∙ ap (λ c. c ∷ drop (suc b.rpos) (held b)) (get_or-take b.mem b.size b.rpos 0 h)

pub get_c-IsValid : {b : Buffer} → IsValid b → IsValid (get_c b).1
unfolding get_c
get_c-IsValid v = ground arith

-- `buf_get_c` hands out the oldest unread byte and leaves the others unread, or returns -1 and
-- changes nothing if there is none. It keeps the buffer valid.
pub get_c_refines : {b : Buffer} → IsValid b → let (c, b') = get_c b in IsValid b' × Front c b b'
get_c_refines {b} v = (get_c-IsValid v, front)
  where
    front : Front (get_c b).0 b (get_c b).1
    front =
        unfold get_c in
        ground (
          arith,
          unread-cons v,
          drop-nil_of_le (held b) b.rpos,
          drop-nil_of_le (held b) (suc b.rpos),
          length-held v,
        )

-- `buf_consume` of no more than what is unread reads that many bytes, and keeps the buffer valid.
pub consume_refines :
    {b : Buffer} (n : ℕ)
    → IsValid b
    → n + b.rpos ≤ b.size
    → IsValid (consume b n) × (unread (consume b n) ≡ drop n (unread b))
unfolding consume
consume_refines {b} n v h = (
  ground arith,
  ground (
    arith,
    drop-drop (held b) b.rpos n (b.rpos + n) refl,
    drop-nil_of_le (held b) (b.rpos + n),
    length-held v,
  ),
)

-- `buf_append_c` is `buf_append` of one byte: it fails exactly on a full buffer, which it leaves
-- as it is, and otherwise changes the buffer as that call does.
pub append_c-append :
    {b : Buffer} (c : ℕ)
    → IsValid b
    → append_c b c
      ≡ (if b.size == buffer_capacity then (false, b) else (true, (append b (c ∷ [])).1))
unfolding append_c append taken write
append_c-append c v = ground arith

-- `buf_add_size` after `n` bytes were read into the free storage keeps the buffer valid, and the
-- bytes that stand there join the unread ones.
pub add_size_refines :
    {b : Buffer} (n : ℕ)
    → IsValid b
    → n ≤ size_avail b
    → IsValid (add_size b n) × (unread (add_size b n) ≡ drop b.rpos (take (b.size + n) b.mem))
unfolding add_size
add_size_refines n v h = (ground arith, ground arith)

module _ {b : Buffer} (len : ℕ) (v : IsValid b) (fits : len ≤ b.size) where
  held-removed : held (removed b len) ≡ drop len (held b)
  unfolding removed
  held-removed =
      take-write b.mem 0 (take (b.size - len) (drop len b.mem)) (b.size - len)
        (omega (
          arith,
          length-take (b.size - len) (drop len b.mem),
          length-drop len b.mem,
          v.storage,
          v.fits,
        ))
        (omega (arith, v.storage, v.fits))
      ∙ take-drop b.mem len (b.size - len) b.size (omega arith)

  removed-IsValid : IsValid (removed b len)
  unfolding removed
  removed-IsValid = ground (arith, v, length-write b.mem 0 (take (b.size - len) (drop len b.mem)))

  unread-removed : unread (removed b len) ≡ drop (if leb b.rpos len then len else b.rpos) (held b)
  unread-removed =
      rw held-removed
        (unfold removed in ground (arith, drop-drop (held b) len (b.rpos - len) b.rpos))

-- `buf_remove_front` of no more than what the buffer holds succeeds, keeps the buffer valid and
-- removes the first `len` bytes held: what was unread of them is lost, the rest stays unread.
pub remove_front_refines :
    {b : Buffer} (len : ℕ)
    → IsValid b
    → len ≤ b.size
    → (b' : Buffer) × (remove_front b len ≡ some b')
      × IsValid b'
      × (held b' ≡ drop len (held b))
      × (unread b' ≡ drop (if leb b.rpos len then len else b.rpos) (held b))
unfolding remove_front
remove_front_refines {b} len v fits = (
  removed b len,
  ground arith,
  removed-IsValid len v fits,
  held-removed len v fits,
  unread-removed len v fits,
)
