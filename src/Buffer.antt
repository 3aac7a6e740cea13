-- ===== src/Buffer.antt =====
-- src/buffer.c, src/buffer.h: a byte buffer of fixed capacity, filled at `size`, read at `rpos`.
-- A function that changes `*b` returns the new buffer beside its result. The storage `mem` is the
-- array `data`; `uint16_t` arithmetic wraps.
pub mod Contents
use mhuxd.Base.{
  ℕ, suc, ◌+◌, ◌-◌, Bool, true, false, Option, none, some, List, [], ◌∷◌, if◌then◌else◌, ◌==◌, ltb,
  leb, length, get_or, set, take, drop, replicate, u16,
}

abbrev pub buffer_capacity : ℕ
buffer_capacity = 4096

-- `struct buffer`
pub record Buffer : Type 0 where
  pub mem : List ℕ
  pub size : ℕ
  pub rpos : ℕ

-- `buf_alloc`: `calloc` gives zeros.
unfoldable pub alloc : Buffer
alloc = record { mem = replicate 4096 0; size = 0; rpos = 0 }

-- `buf_reset`
abbrev pub reset : Buffer → Buffer
reset b = record b { size = 0; rpos = 0 }

-- `buf_size_avail`
abbrev pub size_avail : Buffer → ℕ
size_avail b = u16 (65536 + buffer_capacity - b.size)

-- `buf_add_size`, after a read straight into the storage
unfoldable pub add_size : Buffer → ℕ → Buffer
add_size b n = record b { size = u16 (b.size + n) }

-- `buf_consume`
unfoldable pub consume : Buffer → ℕ → Buffer
consume b n =
    let b' = record b { rpos = u16 (b.rpos + n) } in if b'.rpos == b'.size then reset b' else b'

-- `buf_append_c`: true for 0, false for -1.
unfoldable pub append_c : Buffer → ℕ → Bool × Buffer
append_c b c =
    if b.size == buffer_capacity
    then (false, b)
    else (true, record b { mem = set b.mem b.size c; size = u16 (b.size + 1) })

-- `memcpy(mem + i, p, length p)`
unfoldable pub write : List ℕ → ℕ → List ℕ → List ℕ
write mem i [] = mem
write mem i (c ∷ p) = write (set mem i c) (suc i) p

-- The `len` that `buf_append` cuts to what is free.
unfoldable pub taken : Buffer → List ℕ → ℕ
taken b p = if ltb (size_avail b) (u16 (length p)) then size_avail b else u16 (length p)

-- `buf_append`: the number of bytes taken. `p` holds the `len` bytes that the caller passes.
unfoldable pub append : Buffer → List ℕ → ℕ × Buffer
append b p =
    let len = taken b p in
    (len, record b { mem = write b.mem b.size (take len p); size = u16 (b.size + len) })

-- `buf_get_c`: `none` for -1. The null check is the callers', who pass a buffer.
unfoldable pub get_c : Buffer → Option ℕ × Buffer
get_c b =
    if b.rpos == b.size
    then (none, b)
    else let b' = record b { rpos = u16 (b.rpos + 1) } in
      (some (get_or b.mem b.rpos 0), if b'.rpos == b'.size then reset b' else b')

-- The three assignments of `buf_remove_front`. The bytes behind the moved ones keep their values.
unfoldable pub removed : Buffer → ℕ → Buffer
removed b len = record b {
  mem = write b.mem 0 (take (b.size - len) (drop len b.mem));
  size = b.size - len;
  rpos = if leb b.rpos len then 0 else b.rpos - len;
}

-- `buf_remove_front`: `none` where `size - len` is negative, which `memmove` takes for a huge
-- length.
unfoldable pub remove_front : Buffer → ℕ → Option Buffer
unfolding removed
remove_front b len = if ltb b.size len then none else some (removed b len)
