-- ===== src/Stdio/Steps.antt =====
-- One stream operation at a known place of a file.
use ibchat.Prelude.{
  ℕ, suc, ◌∷◌, ◌+◌, ◌^◌, ◌<◌, ◌≡◌, some, Bytes, [], ◌++◌, length, arith, drop, length-append,
  take-append_eq, drop-append_eq, append_assoc, refl, ap, ◌-◌,
}
use ibchat.Stdio.{Stream, fread, fwrite, write_at, fseek, fread_bytes}

-- A stream whose position is the end of `before`.
abbrev pub at : Bytes → Bytes → Stream
at before after = record { bytes = before ++ after; pos = length before }

at_append :
    (before chunk after : Bytes) (p : ℕ)
    → p ≡ length before + length chunk
    → ◌≡◌ {A = Stream}
        (record { bytes = before ++ (chunk ++ after); pos = p })
        (at (before ++ chunk) after)
at_append before chunk after p h = rw (append_assoc, length-append, h)

pub fread-at :
    (n : ℕ) (before chunk after : Bytes)
    → 0 < n
    → length chunk ≡ n
    → fread n (at before (chunk ++ after)) ≡ (some chunk, at (before ++ chunk) after)
unfolding fread
fread-at n before chunk after pos size =
    rw
      (
        length-append,
        length-append,
        drop-append_eq _ before (chunk ++ after) refl,
        take-append_eq n chunk after size,
        ← at_append before chunk after (length before + n) (omega arith),
      )
      (ground arith)

write_at-length :
    (before after buf : Bytes)
    → write_at (before ++ after) (length before) buf ≡ before ++ (buf ++ drop (length buf) after)
unfolding write_at
write_at-length [] after buf =
    let z : 0 - length after ≡ 0 = omega arith in
    let e : 0 + length buf ≡ length buf = omega arith in rw (z, e)
write_at-length (x ∷ xs) after buf =
    let z : suc (length xs) - suc (length (xs ++ after)) ≡ length xs - length (xs ++ after) =
      omega arith in
    let e : suc (length xs) + length buf ≡ suc (length xs + length buf) = omega arith in
    rw (z, e) (ap (λ r. x ∷ r) (write_at-length xs after buf))

pub fwrite-at :
    (before after buf : Bytes)
    → 0 < length buf
    → fwrite buf (at before after) ≡ (some tt, at (before ++ buf) (drop (length buf) after))
unfolding fwrite
fwrite-at before after buf h =
    rw
      (
        write_at-length before after buf,
        ← at_append before buf (drop (length buf) after) (length before + length buf) refl,
      )
      (ground arith)

-- Seeking to another way to cut the same bytes.
pub fseek-at :
    (off : ℕ) (before after before' after' : Bytes)
    → before ++ after ≡ before' ++ after'
    → length before' ≡ off
    → off < 2 ^ 63
    → fseek off (at before after) ≡ (some tt, at before' after')
unfolding fseek
fseek-at off before after before' after' same place small = rw (same, ← place) (ground arith)

pub fread_bytes-at :
    (n : ℕ) (before chunk after : Bytes)
    → length chunk ≡ n
    → fread_bytes n (at before (chunk ++ after)) ≡ (some chunk, at (before ++ chunk) after)
unfolding fread_bytes
fread_bytes-at n before chunk after size =
    rw
      (
        length-append,
        length-append,
        drop-append_eq _ before (chunk ++ after) refl,
        take-append_eq n chunk after size,
        ← at_append before chunk after (length before + n) (omega arith),
      )
      (ground arith)
