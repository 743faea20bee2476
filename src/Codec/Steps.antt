-- ===== src/Codec/Steps.antt =====
-- One step of a parser at a known place of the buffer.
use ibchat.Prelude.{
  drop-add, ℕ, suc, ◌+◌, ◌<◌, ◌≡◌, refl, Bytes, List, [], ◌∷◌, ◌++◌, length, arith, length-append,
  take-append_eq, drop, drop-append, drop-append_eq, append_assoc, append-nil, ltb, true, sym,
  subst,
}
use ibchat.Codec.{ok, Parse, bytes, items}

pub bytes-at :
    (n : ℕ) (before chunk after : Bytes) (pos : ℕ)
    → pos ≡ length before
    → length chunk ≡ n
    → bytes n (before ++ (chunk ++ after)) pos ≡ ok (chunk, pos + n)
unfolding bytes
bytes-at n before chunk after pos place size =
    rw
      (
        length-append,
        length-append,
        drop-append_eq pos before (chunk ++ after) (sym place),
        take-append_eq n chunk after size,
      )
      (ground arith)

-- The reader `p` reads `a` from the bytes `b` wherever they stand.
abbrev pub Reads : {A : Type 0} → Parse A → Bytes → A → Type 0
Reads p b a =
    (before after : Bytes)
    → p (before ++ (b ++ after)) (length before) ≡ ok (a, length before + length b)

-- At the offset `pos` of the buffer stands `rest`, up to the end.
pub record Stands (buf : Bytes) (pos : ℕ) (rest : Bytes) : Type 0 where
  pub cut : drop pos buf ≡ rest
  pub left : pos + length rest ≡ length buf

pub start-Stands : (before rest : Bytes) → Stands (before ++ rest) (length before) rest
start-Stands before rest = record {
  cut = drop-append before rest;
  left = sym (length-append before rest);
}

pub flat-Stands :
    (before whole after flat : Bytes)
    → whole ++ after ≡ flat
    → Stands (before ++ (whole ++ after)) (length before) flat
flat-Stands before whole after flat e =
    subst (λ r. Stands (before ++ (whole ++ after)) (length before) r) e
      (start-Stands before (whole ++ after))

pub bytes-Stands :
    {buf : Bytes} {pos : ℕ} {rest : Bytes} (n : ℕ) (chunk : Bytes)
    → length chunk ≡ n
    → Stands buf pos (chunk ++ rest)
    → (bytes n buf pos ≡ ok (chunk, pos + n)) × Stands buf (pos + n) rest
unfolding bytes
bytes-Stands {buf} {pos} {rest} n chunk size s =
    let total = length-append chunk rest in
    (
      rw (s.cut, take-append_eq n chunk rest size) (ground (arith, s.left, total)),
      record {
        cut = rw (drop-add pos n buf, s.cut) (drop-append_eq n chunk rest size);
        left = omega (arith, s.left, total);
      },
    )

-- What the reader of one item reads of the bytes of all items.
abbrev pub joined : {A : Type 0} → (A → Bytes) → List A → Bytes
joined write [] = []
joined write (a ∷ xs) = write a ++ joined write xs

pub joined-snoc :
    {A : Type 0} (write : A → Bytes) (xs : List A) (a : A)
    → joined write (xs ++ (a ∷ [])) ≡ joined write xs ++ write a
joined-snoc write [] a = append-nil (write a)
joined-snoc write (x ∷ xs) a =
    rw (joined-snoc write xs a) (sym (append_assoc (write x) (joined write xs) (write a)))

abbrev pub AllRead : {A : Type 0} → Parse A → (A → Bytes) → List A → Type 0
AllRead p write [] = Unit
AllRead p write (a ∷ xs) = (0 < length (write a)) × Reads p (write a) a × AllRead p write xs

-- The items of a list, and then those of what stands after them.
pub items-joined_then :
    {A : Type 0} (p : Parse A) (write : A → Bytes) (xs : List A) (before after : Bytes) (k : ℕ)
    (buf : Bytes) (ys : List A) (end : ℕ)
    → AllRead p write xs
    → before ++ (joined write xs ++ after) ≡ buf
    → items p k buf (length before + length (joined write xs)) ≡ ok (ys, end)
    → items p (length xs + k) buf (length before) ≡ ok (xs ++ ys, end)
unfolding items
items-joined_then p write [] before after k buf ys end h whole e =
    let none_more : 0 + k ≡ k = omega arith in
    let here : length before + 0 ≡ length before = omega arith in rw none_more (rw here at e)
items-joined_then p write (a ∷ xs) before after k buf ys end (full, reads, rest) whole e =
    let cut : before ++ (write a ++ (joined write xs ++ after)) ≡ buf =
      rw (append_assoc (write a) (joined write xs) after) at whole in
    let next : (before ++ write a) ++ (joined write xs ++ after) ≡ buf =
      rw (append_assoc before (write a) (joined write xs ++ after)) cut in
    let place : length before + length (write a ++ joined write xs)
        ≡ length (before ++ write a) + length (joined write xs) =
      omega (arith, length-append (write a) (joined write xs), length-append before (write a)) in
    let read : p buf (length before) ≡ ok (a, length before + length (write a)) =
      rw (← cut) (reads before (joined write xs ++ after)) in
    let more : ltb (length before) (length buf) ≡ true =
      rw
        (
          ← cut,
          length-append before (write a ++ (joined write xs ++ after)),
          length-append (write a) (joined write xs ++ after),
        )
        (ground arith) in
    let one : suc (length xs) + k ≡ suc (length xs + k) = omega arith in
    let ih =
      items-joined_then p write xs (before ++ write a) after k buf ys end rest next
        (rw place at e) in
    rw (one, more, read, ← length-append before (write a), ih) refl

pub items-joined :
    {A : Type 0} (p : Parse A) (write : A → Bytes) (xs : List A)
    → AllRead p write xs
    → items p (length xs) (joined write xs) 0 ≡ ok (xs, length (joined write xs))
unfolding items
items-joined p write xs h =
    let all : length xs + 0 ≡ length xs = omega arith in
    let start : 0 + length (joined write xs) ≡ length (joined write xs) = omega arith in
    let r =
      items-joined_then p write xs [] [] 0 (joined write xs) [] (0 + length (joined write xs)) h
        (append-nil (joined write xs)) refl in
    rw (all, append-nil xs, start) at r
