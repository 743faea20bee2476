-- ===== src/Client/RsaMessage/Fields.antt =====
-- The fields of a message between users, as they are read again.
use ibchat.Prelude.{
  ◌+◌, ◌^◌, ◌<◌, ◌≡◌, refl, true, Bytes, ◌++◌, length, take, drop, take-append, take-append_eq,
  drop-append, drop-append_eq, drop-add, length-append, append_assoc, leb, plenty, arith,
}
use ibchat.External.{Libibur, Ibcrypt, RsaKeys, IdentityKeys, Oaep}
use ibchat.Crypto.Handshake.Flow.{Hs, go}
use ibchat.Client.Account.{Account}
use ibchat.Client.RsaMessage.{fields, read_fields}

module _ (lib : Libibur) (ib : Ibcrypt) (rsa : RsaKeys) (ids : IdentityKeys lib rsa)
    (oaep : Oaep lib rsa) where
  open lib use {encbe64, decbe64}

  module _ (acc : Account) (my_key ex : Bytes) where
    abbrev text : Bytes
    text = fields lib ib rsa ids oaep plenty acc my_key ex

    pub length-fields : length text ≡ 0x10 + length acc.uname + length my_key + length ex
    length-fields = omega (
      arith,
      lib.length-encbe64 (length acc.uname),
      lib.length-encbe64 (length my_key),
      length-append (encbe64 (length acc.uname))
          (encbe64 (length my_key) ++ (acc.uname ++ (my_key ++ ex))),
      length-append (encbe64 (length my_key)) (acc.uname ++ (my_key ++ ex)),
      length-append acc.uname (my_key ++ ex),
      length-append my_key ex,
    )

    pub read_fields-fields :
        (rest : Bytes) (s : Hs)
        → length acc.uname < 2 ^ 64
        → length my_key < 2 ^ 64
        → read_fields lib ib rsa ids oaep plenty (text ++ rest) (length ex) s
          ≡ (go (acc.uname, my_key, ex), s)
    unfolding read_fields
    read_fields-fields rest s small_u small_k =
        let e1 = encbe64 (length acc.uname) in
        let e2 = encbe64 (length my_key) in
        let flat : text ++ rest ≡ e1 ++ (e2 ++ (acc.uname ++ (my_key ++ (ex ++ rest)))) =
          rw
            (
              append_assoc e1 (e2 ++ (acc.uname ++ (my_key ++ ex))) rest,
              append_assoc e2 (acc.uname ++ (my_key ++ ex)) rest,
              append_assoc acc.uname (my_key ++ ex) rest,
              append_assoc my_key ex rest,
            )
            refl in
        let size = length-append text rest in
        let u_at : take 8 (text ++ rest) ≡ e1 =
          rw flat (take-append_eq 8 e1 _ (lib.length-encbe64 (length acc.uname))) in
        let after_u : drop 8 (text ++ rest) ≡ e2 ++ (acc.uname ++ (my_key ++ (ex ++ rest))) =
          rw flat (drop-append_eq 8 e1 _ (lib.length-encbe64 (length acc.uname))) in
        let at : drop 16 (text ++ rest) ≡ acc.uname ++ (my_key ++ (ex ++ rest)) =
          rw (drop-add 8 8 (text ++ rest), after_u)
            (drop-append_eq 8 e2 _ (lib.length-encbe64 (length my_key))) in
        let at_key : drop (16 + length acc.uname) (text ++ rest) ≡ my_key ++ (ex ++ rest) =
          rw (drop-add 16 (length acc.uname) (text ++ rest), at)
            (drop-append acc.uname (my_key ++ (ex ++ rest))) in
        let at_ex : drop (16 + length acc.uname + length my_key) (text ++ rest) ≡ ex ++ rest =
          rw (drop-add (16 + length acc.uname) (length my_key) (text ++ rest), at_key)
            (drop-append my_key (ex ++ rest)) in
        let room : leb 16 (length (text ++ rest)) ≡ true = ground (arith, size, length-fields) in
        let room_all : leb (16 + length acc.uname + length my_key + length ex)
              (length (text ++ rest))
            ≡ true =
          ground (arith, size, length-fields) in
        rw
          (
            room,
            u_at,
            after_u,
            take-append_eq 8 e2 (acc.uname ++ (my_key ++ (ex ++ rest)))
                (lib.length-encbe64 (length my_key)),
            lib.decbe64-encbe64 (length acc.uname) small_u,
            lib.decbe64-encbe64 (length my_key) small_k,
            room_all,
            at,
            at_key,
            at_ex,
            take-append acc.uname (my_key ++ (ex ++ rest)),
            take-append my_key (ex ++ rest),
            take-append ex rest,
          )
          refl
