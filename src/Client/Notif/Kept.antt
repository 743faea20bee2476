-- ===== src/Client/Notif/Kept.antt =====
-- A notification's form in a file, written and read.
use ibchat.Prelude.{
  plenty, ℕ, ◌+◌, ◌^◌, ◌<◌, ◌≡◌, refl, ap, some, Bytes, List, [], ◌∷◌, ◌++◌, length, length-append,
  append_assoc, append-nil, arith,
}
use ibchat.External.{Libibur}
use ibchat.Codec.{ok, peek, skip}
use ibchat.Codec.Steps.{Reads, Stands, start-Stands, flat-Stands, bytes-Stands}
use ibchat.Client.Friend.{Friend}
use ibchat.Client.Account.{Account}
use ibchat.Client.Notif.{
  Friendreq, Notif, message, request, response, unknown, notif_bin_len, notif_bin_write,
  notif_bin_parse, parse_case, parse_message, parse_request, parse_friend, friend_by_uid,
}

-- A friend of the list that its id leads to: it has the length of an id, and no friend before it
-- has the same.
pub record IsFound (friends : List Friend) (f : Friend) : Type 0 where
  pub sized : length f.uid ≡ 0x20
  pub found : friend_by_uid f.uid friends ≡ some f

-- A notification that the account's friends account for, with sizes that the format can hold; not a
-- response and no unknown type.
abbrev pub IsKept : List Friend → Notif → Type 0
IsKept friends (message fr nunread) = IsFound friends fr × (nunread < 2 ^ 64)
IsKept friends (request freq) = (length freq.uname + length freq.pkey < 2 ^ 60)
IsKept friends (response fr) = ⊥
IsKept friends (unknown type) = ⊥

module _ (lib : Libibur) (acc : Account) where
  open lib use {encbe64, decbe64}

  -- A pointer that stands at a friend's id finds the friend.
  parse_friend-found :
      (make : Friend → Notif) (fr : Friend) (buf after : Bytes) (pos : ℕ) (fs : List Friend)
      → IsFound fs fr
      → Stands buf pos (fr.uid ++ after)
      → parse_friend lib plenty make fs buf pos ≡ ok (make fr, pos + 0x28)
  unfolding parse_friend peek skip friend_by_uid
  parse_friend-found make fr buf after pos [] known s = ground (arith, known.found)
  parse_friend-found make fr buf after pos (f ∷ fs) known s =
      let here : pos + 0 ≡ pos = omega arith in
      rw (here, (bytes-Stands 0x20 fr.uid known.sized s).0, known.found) refl

  -- What stands after the type byte is read by the case of that byte.
  notif_bin_parse-type :
      (type : ℕ) (buf rest : Bytes) (pos : ℕ)
      → Stands buf pos ((type ∷ []) ++ rest)
      → (notif_bin_parse lib plenty acc buf pos ≡ parse_case lib plenty acc type buf (pos + 1))
        × Stands buf (pos + 1) rest
  unfolding notif_bin_parse
  notif_bin_parse-type type buf rest pos s =
      let (read, next) = bytes-Stands 1 (type ∷ []) refl s in (rw read refl, next)

  message-Reads :
      (fr : Friend) (nunread : ℕ)
      → IsFound acc.friends fr
      → nunread < 2 ^ 64
      → Reads
          (notif_bin_parse lib plenty acc)
          (notif_bin_write lib plenty (message fr nunread))
          (message fr nunread)
  unfolding notif_bin_write parse_case parse_message peek
  message-Reads fr nunread known small before after =
      let n = encbe64 nunread in
      let whole = (1 ∷ []) ++ (fr.uid ++ n) in
      let flat : whole ++ after ≡ (1 ∷ []) ++ (fr.uid ++ (n ++ after)) = simp append_assoc in
      let start = flat-Stands before whole after _ flat in
      let (typed, s₁) = notif_bin_parse-type 1 _ (fr.uid ++ (n ++ after)) (length before) start in
      let (r₁, s₂) = bytes-Stands 0x20 fr.uid known.sized s₁ in
      let r₂ = (bytes-Stands 8 n (lib.length-encbe64 nunread) s₂).0 in
      let size : length whole ≡ 0x29 =
        rw (length-append fr.uid n, known.sized, lib.length-encbe64 nunread) refl in
      rw
        (
          typed,
          r₂,
          lib.decbe64-encbe64 nunread small,
          parse_friend-found (λ f. message f nunread) fr _ (n ++ after) (length before + 1)
              acc.friends known s₁,
        )
        (ap (λ (k : ℕ). ok (message fr nunread, k)) (omega (arith, size)))

  request-Reads :
      (freq : Friendreq)
      → length freq.uname + length freq.pkey < 2 ^ 60
      → Reads
          (notif_bin_parse lib plenty acc)
          (notif_bin_write lib plenty (request freq))
          (request freq)
  unfolding notif_bin_write parse_case parse_request
  request-Reads freq small before after =
      let n₁ = encbe64 (length freq.uname) in
      let n₂ = encbe64 (length freq.pkey) in
      let whole = (2 ∷ []) ++ (n₁ ++ (n₂ ++ (freq.uname ++ freq.pkey))) in
      let flat : whole ++ after ≡ (2 ∷ []) ++ (n₁ ++ (n₂ ++ (freq.uname ++ (freq.pkey ++ after)))) =
        simp append_assoc in
      let start = flat-Stands before whole after _ flat in
      let (typed, s₁) =
        notif_bin_parse-type 2 _ (n₁ ++ (n₂ ++ (freq.uname ++ (freq.pkey ++ after))))
          (length before) start in
      let (r₁, s₂) = bytes-Stands 8 n₁ (lib.length-encbe64 (length freq.uname)) s₁ in
      let (r₂, s₃) = bytes-Stands 8 n₂ (lib.length-encbe64 (length freq.pkey)) s₂ in
      let (r₃, s₄) = bytes-Stands (length freq.uname) freq.uname refl s₃ in
      let r₄ = (bytes-Stands (length freq.pkey) freq.pkey refl s₄).0 in
      let d₁ = lib.decbe64-encbe64 (length freq.uname) (omega arith) in
      let d₂ = lib.decbe64-encbe64 (length freq.pkey) (omega arith) in
      let size : length whole ≡ 17 + length freq.uname + length freq.pkey =
        rw
          (
            length-append, length-append, length-append, length-append, lib.length-encbe64,
            lib.length-encbe64,
          )
          (omega arith) in
      rw (typed, r₁, r₂, d₁, d₂, r₃, r₄)
        (ap (λ (k : ℕ). ok (request freq, k)) (omega (arith, size)))

  -- A notification of the two kinds is read as it was written.
  pub notif-Reads :
      (n : Notif)
      → IsKept acc.friends n
      → Reads (notif_bin_parse lib plenty acc) (notif_bin_write lib plenty n) n
  notif-Reads (message fr nunread) kept = message-Reads fr nunread kept.0 kept.1
  notif-Reads (request freq) kept = request-Reads freq kept
  notif-Reads (response fr) kept = ground arith
  notif-Reads (unknown type) kept = ground arith

  pub length-notif_bin_write :
      (n : Notif) → IsKept acc.friends n → length (notif_bin_write lib plenty n) ≡ notif_bin_len n
  unfolding notif_bin_write notif_bin_len
  length-notif_bin_write (message fr nunread) kept =
      rw (length-append fr.uid (encbe64 nunread), kept.0.sized, lib.length-encbe64 nunread) refl
  length-notif_bin_write (request freq) kept =
      rw
        (
          length-append, length-append, length-append, length-append, lib.length-encbe64,
          lib.length-encbe64,
        )
        (omega (arith, kept))
  length-notif_bin_write (response fr) kept = ground arith
  length-notif_bin_write (unknown type) kept = ground arith

  pub notif_bin_write-pos : (n : Notif) → 0 < length (notif_bin_write lib plenty n)
  unfolding notif_bin_write
  notif_bin_write-pos (message fr nunread) = omega arith
  notif_bin_write-pos (request freq) = omega arith
  notif_bin_write-pos (response fr) = omega arith
  notif_bin_write-pos (unknown type) = omega arith

  -- The form of a response is 33 bytes long, and reading it moves the pointer by 41.
  pub length-response :
      (fr : Friend) → length fr.uid ≡ 0x20 → length (notif_bin_write lib plenty (response fr)) ≡ 33
  unfolding notif_bin_write
  length-response fr size = rw size refl

  pub response-overrun :
      (fr : Friend) (before : Bytes)
      → IsFound acc.friends fr
      → notif_bin_parse lib plenty acc
          (before ++ notif_bin_write lib plenty (response fr))
          (length before)
        ≡ ok (response fr, length before + 41)
  unfolding notif_bin_write parse_case
  response-overrun fr before known =
      let whole = (3 ∷ []) ++ fr.uid in
      let start = start-Stands before whole in
      let (typed, s₁) = notif_bin_parse-type 3 _ fr.uid (length before) start in
      let s₂ : Stands (before ++ whole) (length before + 1) (fr.uid ++ []) =
        rw (append-nil fr.uid) s₁ in
      rw (typed, parse_friend-found response fr _ [] (length before + 1) acc.friends known s₂)
        (ap (λ (k : ℕ). ok (response fr, k)) (omega arith))
