-- ===== src/Stdio.antt =====
-- The stdio streams that the program reads and writes: a byte string with a position. An operation
-- that fails leaves the stream with what was written before, as the C code does when it jumps to
-- its error label. Buffered writes succeed; reads are short at the end of the file.
pub mod Steps
use ibchat.Prelude.{
  Fallible, ℕ, ◌+◌, ◌-◌, ◌^◌, Bool, true, false, ◌&&◌, Option, none, some, Bytes, ◌++◌, ltb, leb,
  length, take, drop, replicate, if◌then◌else◌,
}

pub record Stream : Type 0 where
  pub bytes : Bytes
  pub pos : ℕ

abbrev pub Io : Type 0 → Type 0
Io A = Fallible Stream A

-- fread(buf, n, 1, f) != 1, which also holds for n = 0
unfoldable pub fread : ℕ → Io Bytes
fread n s =
    if ltb 0 n && leb (s.pos + n) (length s.bytes)
    then (some (take n (drop s.pos s.bytes)), record s { pos = s.pos + n })
    else (none, s)

-- The bytes after a write at `pos`; a gap after the old end is filled with zeros.
unfoldable pub write_at : Bytes → ℕ → Bytes → Bytes
write_at old pos buf =
    take pos old ++ (replicate (pos - length old) 0 ++ (buf ++ drop (pos + length buf) old))

-- fwrite(buf, n, 1, f) != 1
unfoldable pub fwrite : Bytes → Io (Unit {0})
fwrite buf s =
    if ltb 0 (length buf)
    then (some tt, record { bytes = write_at s.bytes s.pos buf; pos = s.pos + length buf })
    else (none, s)

-- fseek(f, off, SEEK_SET), where `off` is the 64-bit pattern of a long: a negative one fails
unfoldable pub fseek : ℕ → Io (Unit {0})
fseek off s = if ltb off (2 ^ 63) then (some tt, record s { pos = off }) else (none, s)

-- fread(buf, 1, n, f) != n and fwrite(buf, 1, n, f) != n, which succeed for n = 0
unfoldable pub fread_bytes : ℕ → Io Bytes
fread_bytes n s =
    if leb (s.pos + n) (length s.bytes)
    then (some (take n (drop s.pos s.bytes)), record s { pos = s.pos + n })
    else (none, s)
