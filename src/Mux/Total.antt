-- ===== src/Mux/Total.antt =====
-- src/mux.c: the loop of `mx_mux` and what it adds to the output buffer.
use mhuxd.Base.{
  ℕ, zero, suc, ◌+◌, ◌*◌, ◌%◌, ◌≤◌, ◌<◌, ◌≡◌, refl, Bool, true, false, Option, none, some, List,
  arith, inl, inr, if◌then◌else◌, ltb, length, take, length-take, Bool-cases,
}
use mhuxd.Buffer.{Buffer, size_avail, append}
use mhuxd.Buffer.Contents.{IsValid, size-append, append-IsValid}
use mhuxd.Mux.{
  Inputs, fill_frame, fill_frames, end_round, mux_loop, mux, MuxResult, max_sequence_size,
}

-- How many bytes of a sequence count: none, or the four of each frame up to the last one used.
abbrev IsSize : ℕ → Option ℕ → Type 0
IsSize n none = Unit
IsSize n (some m) = (4 ≤ m) × (m ≤ n * 4) × (m % 4 ≡ 0)

IsSize-weaken : (n j : ℕ) (size : Option ℕ) → n ≤ j → IsSize n size → IsSize j size
IsSize-weaken n j none le h = tt
IsSize-weaken n j (some m) le h = omega arith

IsSize-step :
    (used : Bool) (n : ℕ) (size : Option ℕ)
    → IsSize n size
    → IsSize (n + 1) (if used then some ((n + 1) * 4) else size)
IsSize-step true n size h = omega arith
IsSize-step false n size h = IsSize-weaken n (n + 1) size (omega arith) h

fill_frames-IsSize :
    (k n j : ℕ) (size : Option ℕ) (ibuf : Inputs)
    → j ≡ n + k
    → IsSize n size
    → IsSize j (fill_frames k n size ibuf).1
unfolding fill_frames
fill_frames-IsSize zero n j size ibuf e h = IsSize-weaken n j size (omega arith) h
fill_frames-IsSize (suc k) n j size ibuf e h =
    let f = fill_frame n ibuf in
    fill_frames-IsSize k (n + 1) j (if f.used then some ((n + 1) * 4) else size) f.rest
      (omega arith) (IsSize-step f.used n size h)

length-fill_frames :
    (k n : ℕ) (size : Option ℕ) (ibuf : Inputs) → length (fill_frames k n size ibuf).0 ≡ k * 4
unfolding fill_frames
length-fill_frames zero n size ibuf = omega arith
length-fill_frames (suc k) n size ibuf =
    let f = fill_frame n ibuf in
    omega (arith, length-fill_frames k (n + 1) (if f.used then some ((n + 1) * 4) else size) f.rest)

-- What `mx_mux` leaves: a valid buffer that has grown by the number of bytes reported, whole frames.
pub record IsDone (bout : Buffer) (start : ℕ) (r : MuxResult) : Type 0 where
  pub result : ℕ × Buffer × Inputs
  pub returns : r ≡ some result
  pub valid : IsValid result.1
  pub grown : result.1.size + start ≡ bout.size + result.0
  pub whole : result.0 % 4 ≡ 0

module _ {b : Buffer} (v : IsValid b) (seq : List ℕ) (n : ℕ) (len : length seq ≡ 20)
    (size : IsSize 5 (some n)) (room : 20 ≤ size_avail b) where
  append_sequence :
      IsValid (append b (take n seq)).1 × ((append b (take n seq)).1.size ≡ b.size + n)
  append_sequence = (
    append-IsValid (take n seq) v (omega (arith, length-take n seq)),
    omega (arith, size-append (take n seq) v, length-take n seq, v.fits),
  )

-- A later round, seen from the buffer before this one.
IsDone-extend :
    {b b' : Buffer} (out n : ℕ) {r : MuxResult}
    → b'.size ≡ b.size + n
    → IsDone b' (out + n) r
    → IsDone b out r
IsDone-extend out n e d = record {
  result = d.result;
  returns = d.returns;
  valid = d.valid;
  grown = omega (arith, d.grown);
  whole = d.whole;
}

-- the claim about `k` rounds
abbrev Ends : ℕ → (ℕ → Buffer → Inputs → MuxResult) → Type 0
Ends k loop =
    (out : ℕ) (b : Buffer) (ibuf : Inputs)
    → IsValid b
    → 20 ≤ size_avail b
    → size_avail b < 4 * k
    → out % 4 ≡ 0
    → IsDone b out (loop out b ibuf)

module _ {b : Buffer} (v : IsValid b) (room : 20 ≤ size_avail b) (seq : List ℕ)
    (len : length seq ≡ 20) (k out : ℕ) (fuel : size_avail b < 4 * suc k) (w : out % 4 ≡ 0)
    (loop : ℕ → Buffer → Inputs → MuxResult) (ends : Ends k loop) (ibuf : Inputs) where
  end_round-IsDone :
      (size : Option ℕ) → IsSize 5 size → IsDone b out (end_round loop out b seq size ibuf)
  unfolding end_round
  end_round-IsDone none h = record {
    result = (out, b, ibuf);
    returns = refl;
    valid = v;
    grown = omega arith;
    whole = w;
  }
  end_round-IsDone (some n) h =
      let a = append_sequence v seq n len h room in
      let b' = (append b (take n seq)).1 in
      elim (Bool-cases (ltb (size_avail b') max_sequence_size)) [
        | inl full ↦
            rw (full, end_round)
              (record {
                result = (out + n, b', ibuf);
                returns = refl;
                valid = a.0;
                grown = omega arith;
                whole = omega arith;
              })
        | inr more ↦
            rw (more, end_round)
              (IsDone-extend out n a.1
                (ends (out + n) b' ibuf a.0 (ground arith) (omega (arith, v.fits)) (omega arith)))
      ]

mux_loop_total : (k : ℕ) → Ends k (mux_loop k)
unfolding mux_loop
mux_loop_total zero out bout ibuf v room fuel w = absurd (omega arith)
mux_loop_total (suc k) out bout ibuf v room fuel w =
    end_round-IsDone v room (fill_frames 5 0 none ibuf).0 (length-fill_frames 5 0 none ibuf) k out
      fuel w (mux_loop k) (mux_loop_total k) (fill_frames 5 0 none ibuf).2
      (fill_frames 5 0 none ibuf).1 (fill_frames-IsSize 5 0 5 none ibuf refl tt)

-- `mx_mux` comes to an end for every valid output buffer and any inputs. It leaves the output buffer
-- valid, reports exactly the number of bytes by which that buffer grew, and adds whole frames only.
pub mux_total : (bout : Buffer) (ibuf : Inputs) → IsValid bout → IsDone bout 0 (mux bout ibuf)
unfolding mux
mux_total bout ibuf v = elim (Bool-cases (ltb (size_avail bout) max_sequence_size)) [
  | inl full ↦ rw full (record {
    result = (0, bout, ibuf);
    returns = refl;
    valid = v;
    grown = omega arith;
    whole = refl;
  })
  | inr more ↦
      rw more (mux_loop_total 1025 0 bout ibuf v (ground arith) (omega (arith, v.fits)) refl)
]
