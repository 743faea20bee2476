-- ===== src/Inet/Connection/Refusals.antt =====
-- The frames that `read_message` refuses.
use ibchat.Prelude.{
  ℕ, ◌^◌, ◌<◌, ◌≡◌, ◌≢◌, refl, Bool, false, ◌&&◌, none, Bytes, bytes_eq, bytes_eq→eq, ◌++◌, length,
  arith, Bool-cases, inl, inr, ◌⊎◌,
}
use ibchat.External.{Libibur, Ibcrypt}
use ibchat.Inet.AckMap.Counts.{waiting, ack_map_rm-unknown}
use ibchat.Inet.Connection.{Connection, remove_ack, read_message, dispatch}
use ibchat.Inet.Connection.Wire.{read_bytes-append}

module _ (lib : Libibur) (ib : Ibcrypt) (mem : ℕ → Bool) where
  open lib use {encbe32, decbe32, encbe64, decbe64}
  open ib use {sha256}

  -- The read fails, and what a caller can see of the connection stays as it was.
  abbrev pub Refused : Connection → Type 0
  Refused c =
      let r = read_message lib ib mem c in
      (r.0 ≡ none)
      × (r.1.in_queue ≡ c.in_queue)
      × (r.1.out_queue ≡ c.out_queue)
      × (r.1.sent ≡ c.sent)
      × (r.1.map ≡ c.map)

  read_message-wrong_digest :
      (seq body digest rest : Bytes) (c : Connection)
      → c.incoming ≡ encbe32 2 ++ (seq ++ (encbe64 (length body) ++ (body ++ (digest ++ rest))))
      → length seq ≡ 8
      → length digest ≡ 32
      → length body < 2 ^ 64
      → digest ≢ sha256 body
      → Refused c
  unfolding read_message dispatch
  read_message-wrong_digest seq body digest rest c arrived eight size len wrong =
      let at = λ (b : Bytes). record c { incoming = b } in
      let r₃ = body ++ (digest ++ rest) in
      let r₂ = encbe64 (length body) ++ r₃ in
      rw
        (
          read_bytes-append 4 (encbe32 2) (seq ++ r₂) c arrived (lib.length-encbe32 2),
          lib.decbe32-encbe32 2 (omega arith),
          read_bytes-append 8 seq r₂ (at (seq ++ r₂)) refl eight,
          read_bytes-append 8 (encbe64 (length body)) r₃ (at r₂) refl
              (lib.length-encbe64 (length body)),
          lib.decbe64-encbe64 (length body) len,
        )
        (elim (Bool-cases (mem 24 && mem (length body))) [
          | inr full ↦ rw full (refl, refl, refl, refl, refl)
          | inl space ↦
              let differs : bytes_eq digest (sha256 body) ≡ false =
                ground (arith, bytes_eq→eq digest (sha256 body)) in
              rw
                (
                  space,
                  read_bytes-append (length body) body (digest ++ rest) (at r₃) refl refl,
                  read_bytes-append 32 digest rest (at (digest ++ rest)) refl size,
                  differs,
                )
                (refl, refl, refl, refl, refl)
        ])

  read_message-unknown_ack :
      (n : ℕ) (rest : Bytes) (c : Connection)
      → c.incoming ≡ encbe32 1 ++ (encbe64 n ++ rest)
      → n < 2 ^ 64
      → waiting n c.map ≡ 0
      → Refused c
  unfolding read_message dispatch remove_ack
  read_message-unknown_ack n rest c arrived small absent =
      rw
        (
          read_bytes-append 4 (encbe32 1) (encbe64 n ++ rest) c arrived (lib.length-encbe32 1),
          lib.decbe32-encbe32 1 (omega arith),
          read_bytes-append 8 (encbe64 n) rest (record c { incoming = encbe64 n ++ rest }) refl
              (lib.length-encbe64 n),
          lib.decbe64-encbe64 n small,
          ack_map_rm-unknown c.map n absent,
        )
        (refl, refl, refl, refl, refl)

  read_message-unknown_type :
      (type : ℕ) (rest : Bytes) (c : Connection)
      → c.incoming ≡ encbe32 type ++ rest
      → type < 2 ^ 32
      → (type ≡ 0) ⊎ (3 < type)
      → Refused c
  unfolding read_message dispatch
  read_message-unknown_type type rest c arrived small unknown =
      rw
        (
          read_bytes-append 4 (encbe32 type) rest c arrived (lib.length-encbe32 type),
          lib.decbe32-encbe32 type small,
        )
        (ground (arith, unknown))

  -- A frame that cannot be accepted.
  pub data BadFrame (c : Connection) : Type 0 where
    wrong_digest :
        (seq body digest rest : Bytes)
        → c.incoming ≡ encbe32 2 ++ (seq ++ (encbe64 (length body) ++ (body ++ (digest ++ rest))))
        → length seq ≡ 8
        → length digest ≡ 32
        → length body < 2 ^ 64
        → digest ≢ sha256 body
        → BadFrame c
    unknown_ack :
        (n : ℕ) (rest : Bytes)
        → c.incoming ≡ encbe32 1 ++ (encbe64 n ++ rest)
        → n < 2 ^ 64
        → waiting n c.map ≡ 0
        → BadFrame c
    unknown_type :
        (type : ℕ) (rest : Bytes)
        → c.incoming ≡ encbe32 type ++ rest
        → type < 2 ^ 32
        → (type ≡ 0) ⊎ (3 < type)
        → BadFrame c

  -- A bad frame is refused, with the queues, what was sent and the map as they were: one whose
  -- digest is not that of its bytes, one that acknowledges a number that does not wait, and one of
  -- an unknown type.
  pub read_message-BadFrame : (c : Connection) → BadFrame c → Refused c
  read_message-BadFrame c (wrong_digest seq body digest rest e s d l w) =
      read_message-wrong_digest seq body digest rest c e s d l w
  read_message-BadFrame c (unknown_ack n rest e s w) = read_message-unknown_ack n rest c e s w
  read_message-BadFrame c (unknown_type type rest e s w) =
      read_message-unknown_type type rest c e s w
