-- ===== src/Vfs/Pipe/Fifo.antt =====
-- A pipe is a queue of at most 512 bytes.
use fantuan_kernel.Base.{
  bytes_from, copy_to, bytes_from-ext, bytes_from-append, length-bytes_from, copy_to_below,
  copy_to_lem, ℕ, zero, suc, ◌+◌, ◌-◌, ◌≤◌, ◌<◌, ◌≡◌, refl, sym, ap, ap₂, ◌∙◌, min, true, false,
  not, ◌||◌, List, [], ◌∷◌, ◌++◌, arith, ltb, ◌==◌, update, update_self, update_ne, length, ltb→le,
  eq_of_==, if_elim,
}
use fantuan_kernel.Vfs.Pipe.{
  Pipe, Answer, ok, bad_fd, broken, would_block, pipe_buf, shift_down, take, read_locked,
  write_locked,
}

-- The unread bytes, oldest first.
unfoldable pub contents : Pipe → List ℕ
contents p = bytes_from p.buf 0 p.len

-- The shift moves the entries from `n + i` on down to i, and touches nothing below i.
shift_down_below : (buf : ℕ → ℕ) (n i k j : ℕ) → j < i → shift_down buf n i k j ≡ buf j
unfolding shift_down
shift_down_below buf n i zero j l = refl
shift_down_below buf n i (suc k) j l =
    shift_down_below (update buf i (buf (n + i))) n (i + 1) k j (omega arith)
    ∙ update_ne buf i j (buf (n + i)) (omega arith)

shift_down_lem :
    (buf : ℕ → ℕ) (n i k m : ℕ) → m < k → shift_down buf n i k (i + m) ≡ buf (n + i + m)
unfolding shift_down
shift_down_lem buf n i zero m l = absurd (omega arith)
shift_down_lem buf n i (suc k) zero l =
    ap (shift_down (update buf i (buf (n + i))) n (i + 1) k) {x = i + 0} {y = i} (omega arith)
    ∙ (shift_down_below (update buf i (buf (n + i))) n (i + 1) k i (omega arith)
        ∙ (update_self buf i (buf (n + i)) ∙ ap buf {x = n + i} {y = n + i + 0} (omega arith)))
shift_down_lem buf n i (suc k) (suc m) l =
    let b = update buf i (buf (n + i)) in
    ap (shift_down b n (i + 1) k) {x = i + suc m} {y = i + 1 + m} (omega arith)
    ∙ (shift_down_lem b n (i + 1) k m (omega arith)
        ∙ (update_ne buf i (n + (i + 1) + m) (buf (n + i)) (omega arith)
            ∙ ap buf {x = n + (i + 1) + m} {y = n + i + suc m} (omega arith)))

length-take : (k : ℕ) (xs : List ℕ) → length (take k xs) ≡ min k (length xs)
length-take zero xs = omega arith
length-take (suc k) [] = omega arith
length-take (suc k) (x ∷ xs) = omega (arith, length-take k xs)

-- The reference counts and the used flag are as before.
abbrev pub SameEnds : Pipe → Pipe → Type 0
SameEnds p q = (q.used ≡ p.used) × (q.read_refs ≡ p.read_refs) × (q.write_refs ≡ p.write_refs)

-- The outcomes of one probe of a read with room for so many bytes.
abbrev pub Reads : Pipe → ℕ → Answer (List ℕ) × Pipe → Type 0
Reads p room (ok bs, q) =
    (p.used ≡ true)
    × (contents p ≡ bs ++ contents q)
    × (length bs ≡ min (length (contents p)) room)
    × SameEnds p q
Reads p room (bad_fd, q) = (p.used ≡ false) × (q ≡ p)
Reads p room (broken, q) = ⊥
Reads p room (would_block, q) = (contents p ≡ []) × (0 < p.write_refs) × (0 < room) × (q ≡ p)

-- The outcomes of one probe of a write.
abbrev pub Writes : Pipe → List ℕ → Answer ℕ × Pipe → Type 0
Writes p bytes (ok n, q) =
    (p.used ≡ true)
    × (0 < p.read_refs)
    × (length (contents p) < pipe_buf)
    × (contents q ≡ contents p ++ take n bytes)
    × (n ≡ min (pipe_buf - length (contents p)) (length bytes))
    × SameEnds p q
Writes p bytes (bad_fd, q) = (p.used ≡ false) × (q ≡ p)
Writes p bytes (broken, q) = (p.used ≡ true) × (p.read_refs ≡ 0) × (q ≡ p)
Writes p bytes (would_block, q) =
    (p.used ≡ true) × (0 < p.read_refs) × (length (contents p) ≡ pipe_buf) × (q ≡ p)

length-contents : (p : Pipe) → length (contents p) ≡ p.len
unfolding contents
length-contents p = length-bytes_from p.buf 0 p.len

no_bytes : (p : Pipe) → p.len ≡ 0 → contents p ≡ []
unfolding contents bytes_from
no_bytes p e = rw e

-- What a read leaves behind.
abbrev rest_of : Pipe → ℕ → Pipe
rest_of p n = record p { buf = shift_down p.buf n 0 (p.len - n); len = p.len - n }

contents-rest_of :
    (p : Pipe) (n : ℕ) → n ≤ p.len → contents p ≡ bytes_from p.buf 0 n ++ contents (rest_of p n)
unfolding contents
contents-rest_of p n l =
    ap (bytes_from p.buf 0) {x = p.len} {y = n + (p.len - n)} (omega arith)
    ∙ (bytes_from-append p.buf 0 n (p.len - n)
        ∙ ap (λ r. bytes_from p.buf 0 n ++ r)
            (bytes_from-ext p.buf (shift_down p.buf n 0 (p.len - n)) (0 + n) 0 (p.len - n) (λ m h.
              ap p.buf {x = 0 + n + m} {y = n + 0 + m} (omega arith)
              ∙ sym (shift_down_lem p.buf n 0 (p.len - n) m h))))

-- A read takes bytes from the front of the queue, as many as it has room for, in order; it finds
-- the end of file or an empty queue only when nothing is unread.
pub read_locked-Reads : (p : Pipe) (room : ℕ) → Reads p room (read_locked p room)
unfolding read_locked
read_locked-Reads p room =
    if_elim (Reads p room) (not p.used) (λ u. (ground arith, refl))
      λ u.
        if_elim (Reads p room) (ltb 0 p.len)
          (λ t. (
            ground arith,
            contents-rest_of p (min p.len room) (omega arith),
            omega (arith, length-bytes_from p.buf 0 (min p.len room), length-contents p),
            (refl, refl, refl),
          ))
          λ t.
            if_elim (Reads p room) (p.write_refs == 0 || room == 0)
              (λ e. (
                ground arith,
                refl,
                omega (arith, length-contents p, ltb→le 0 p.len t),
                (refl, refl, refl),
              ))
              (λ e.
                (no_bytes p (omega (arith, ltb→le 0 p.len t)), ground arith, ground arith, refl))

contents-copy :
    (p : Pipe) (bs : List ℕ)
    → contents (record p { buf = copy_to p.buf p.len bs; len = p.len + length bs })
      ≡ contents p ++ bs
unfolding contents
contents-copy p bs =
    bytes_from-append (copy_to p.buf p.len bs) 0 p.len (length bs)
    ∙ ap₂ ◌++◌
        (bytes_from-ext (copy_to p.buf p.len bs) p.buf 0 0 p.len
          (λ m l. copy_to_below p.buf p.len bs (0 + m) (omega arith)))
        (ap (λ i. bytes_from (copy_to p.buf p.len bs) i (length bs)) {x = 0 + p.len} {y = p.len}
            (omega arith)
          ∙ copy_to_lem p.buf p.len bs)

-- For a pipe with at most 512 unread bytes, a write does one of these: on an unused pipe it fails;
-- on a pipe in use that has no reader it fails as broken; with a reader and less than 512 unread
-- bytes it appends the first bytes that fit, in order; with a reader and 512 unread bytes it would
-- block. In all but the third it changes nothing.
pub write_locked-Writes :
    (p : Pipe) (bytes : List ℕ) → p.len ≤ pipe_buf → Writes p bytes (write_locked p bytes)
unfolding write_locked
write_locked-Writes p bytes v =
    if_elim (Writes p bytes) (not p.used) (λ u. (ground arith, refl))
      λ u.
        if_elim (Writes p bytes) (p.read_refs == 0) (λ r. (ground arith, eq_of_== _ _ r, refl))
          λ r.
            if_elim (Writes p bytes) (ltb 0 (pipe_buf - p.len))
              (λ t. (
                ground arith,
                ground arith,
                ground (arith, length-contents p),
                appended,
                omega (arith, length-contents p),
                (refl, refl, refl),
              ))
              (λ t. (
                ground arith,
                ground arith,
                omega (arith, length-contents p, ltb→le 0 (pipe_buf - p.len) t),
                refl,
              ))
  where
    n : ℕ
    n = min (min (pipe_buf - p.len) (length bytes)) pipe_buf

    appended :
        contents (record p { buf = copy_to p.buf p.len (take n bytes); len = p.len + n })
        ≡ contents p ++ take n bytes
    appended =
        ap (λ k. contents (record p { buf = copy_to p.buf p.len (take n bytes); len = p.len + k }))
          {x = n} {y = length (take n bytes)} (omega (arith, length-take n bytes))
        ∙ contents-copy p (take n bytes)
