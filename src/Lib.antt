-- ===== src/Lib.antt =====
-- ibchat is an encrypted chat server and its client, written in C. A client connects to the server,
-- shakes hands and logs in with its key; it then sends messages to other users through the server,
-- which passes them on at once or keeps them in a file until the user connects.
--
-- The parts of the program that are modelled, from the wire up:
--
--   * inet/protocol.c is the connection handler: frames of type 1 (acknowledgement), 2 (message) and
--     3 (keepalive) on a socket, and a hash map of the messages whose acknowledgement is awaited.
--     Inet/AckMap.antt is that map (ack_map_add, ack_map_rm and the scan for overdue entries) and
--     Inet/Connection.antt the reads and writes (send_bytes, read_bytes, write_messages,
--     read_message and what they call). Its children: Wire for the frames' bytes, Exchange for what
--     two sides do with them, Refusals for frames that are dropped.
--   * inet/message.c: the queue of messages, on a heap of elements (Inet/Queue.antt).
--   * crypto/crypto_layer.c seals a message with a nonce, a stream cipher and a MAC: Crypto/Layer.antt,
--     with Channel for what the other side receives.
--   * server/undelivered.c keeps the messages of a user who is away in a file whose MACs form a
--     chain: Server/Undelivered.antt. Its children: Image for the file's bytes, Add and Load for the
--     two operations, Delivery for both in sequence, Errors for the error paths.
--   * server/user_db.c: the file of one user (Server/UserFile.antt: write_user_file,
--     parse_user_file), the set-up of a new user (Server/NewUser.antt: user_init) and the table of
--     users (Server/UserDb.antt: resize, user_db_add and so on).
--   * server/client_handler.c: the table of connected clients (Server/HandlerTable.antt: get_handler,
--     add_handler, rem_handler, resize_handler_table, end_handlers) and the treatment of a client's
--     message (Server/Dispatch.antt: handle_message, send_u_notfound, send_undelivered).
--   * crypto/handshake.c agrees on the keys of a connection: Crypto/Handshake.antt (server_handshake,
--     client_handshake) on the control flow of Crypto/Handshake/Flow.antt, with Reply for the
--     server's response, Agree for both sides in sequence, and Trust for what the client knows of a
--     server that it does not trust.
--   * crypto/keyfile.c: RSA keys in files (Crypto/Keyfile.antt: write_pri_key, read_pri_key and the
--     public ones), with Sealed for the forms of a key and Kept for what is read again.
--   * server/client_auth.c and client/login_server.c are the two sides of a log-in, on the control
--     flow of the handshake (Crypto/Handshake/Passed.antt inverts it). Server/Auth.antt: auth_user and
--     what it calls, with Proven and Admitted for its checks, LogIn for its return, Accepts, Messages
--     and Welcomed for an honest client. Client/LogIn.antt: send_login_message, login_account and so
--     on, with connect_server (client/connect_server.c), Accepted and Entered for both sides in
--     sequence, Pinned for the server's fingerprint, and Unset for a handshake that ends early.
--   * client/friendreq.c: Client/RsaMessage.antt has the messages between users who are not friends
--     yet (send_rsa_message, parse_rsa_message), with Layout, Fields and Kept for what is parsed of
--     what was sent. Client/Friendreq.antt has the treatment of requests and responses
--     (parse_friendreq, parse_friendreq_response), its child Send what goes out (send_friendreq,
--     friendreq_response), Agreed both users in sequence, Confirmed the request. Client/Identity.antt
--     has the key of an account.
--   * client/conversation.c: the messages of a conversation (Client/Conversation.antt:
--     cmessage_send_server, parse_conv_message_payload), with Messages and Exchange.
--   * util/lock.c: the lock of many readers or one writer (Util/Lock.antt), as a step relation over
--     the threads that hold it, with Reach and Drains.
--   * client/datafile.c: encrypted files of items of any kind (Client/DataFile.antt: write_datafile,
--     read_datafile). Its children: Image for the contents, Kept for reading what was written,
--     Refused for files that are forged or lost. A format is a record of functions; three parts of
--     the client fill it: the friends of an account (client/friends.c: Client/Friend.antt for one
--     friend, Client/FriendFile.antt), the notifications (client/notifications.c: Client/Notif.antt
--     for one, Client/NotifFile.antt, with Messages for add_new_message), and the accounts in the
--     user's file (client/userfile.c and client/profile.c: Client/Profile.antt, with Keys for the keys
--     that a password gives; client/account.c: Client/Account.antt). Client/Uname.antt has the checks
--     of names and the ids (client/uname.c), Client/Paths.antt the paths of the files.
--
-- The items of a data file are parsed by a pointer that moves through a buffer: Codec.antt has these
-- parsers, Codec/Steps.antt one step of them at a known place. The server's two tables share
-- Buckets.antt: chains of entries by user id, where the entries stand (Buckets/Placed.antt) and how a
-- resize moves them (Buckets/Moved.antt). Prelude.antt passes on the names that all files use. The
-- handshake gives the keys that the crypto layer uses. Dispatch uses every other part of the server
-- and the crypto layer; the crypto layer's messages are those of the connection.
--
-- How the model corresponds to the code:
--
--   * A buffer with its length is a list of bytes, a 64-bit counter is a natural number with its
--     wrap-around written out, a pointer to a shared object (con_handle, keyset) is its address.
--   * External.antt has what is taken from the submodules libibur and ibcrypt, whose sources are not
--     in the repository: records of functions with the laws of their documentation (a decoder
--     inverts its encoder, lengths of digests, decryption inverts encryption, a signature that was
--     made verifies). Nothing is assumed about digests or MACs being hard to forge.
--     External/Samples.antt has functions that meet these laws, for the tests.
--   * The allocator's answers are parameters (`mem`), a Boolean for one request or a function of the
--     number of bytes. Theorems about error paths leave it open.
--   * Files.antt has the files by their paths; a path may be denied. Stdio.antt has the operations on
--     an open stream. Buffered writes succeed, reads are short at the end of a file.
--   * A socket has the bytes that have come in and the room that is left for bytes to go out; the
--     clock is any sequence of readings. The loops that retry a partial transfer are folded into one
--     step that ends with the whole transfer or with the failure.
--   * Code that jumps to an error label is `Fallible` in Prelude/Monad.antt: what was changed before
--     the jump stays changed.
--   * Undefined behaviour that the code can reach (a null pointer that is used, a read past the end
--     of a buffer) is the result `none` where a definition's comment says so, `undefined` in a
--     Verdict of the client's files, and `crash` in the handshake, the log-in and the friend requests.
--   * `malloc` gives a block of exactly the bytes that it is asked for; a write past them is
--     undefined behaviour.
--   * The answers of `cs_rand` are arguments, as are the user's answers to prompts and the messages
--     that the handshake, the log-in and the friend requests receive. A pointer to a friend in a
--     notification is the friend; where the code compares two such pointers, the comparison is a
--     parameter.
--   * The sources use `double` for load factors, whose values are exact for the sizes that occur;
--     they are written with natural division. A mask with 0xf is the remainder by 16.
--   * Every loop of the code that is modelled runs over a list or a counter, by structural recursion,
--     or over a queue that loses its first message in each round, and needs no fuel, but for the
--     loop of add_new_message, which does not move: count_message has fuel, and the theorem about it
--     is for each amount of fuel.
--   * Apart from util/lock.c itself, locks are left out: each operation of a table runs under its lock
--     from start to end. Where the network lock is refused, a Boolean argument says so.
--
-- Not modelled: the file and the display of a conversation (cfile_load, cfile_add and so on and
-- start_conversation in client/conversation.c), the prompts for a profile and its password
-- (login_profile in client/profile.c), the client's threads and its terminal (client/bg_manager.c,
-- client/cli.c, client/termctl.c), threads and the set-up of sockets (server/chat_server.c,
-- server/server_main.c, inet/connect.c, handle_connection in inet/protocol.c), the reading of the
-- users' directory (load_user_files in server/user_db.c), and the helpers under util/ for logging
-- and terminal input.
pub mod Util
pub mod Prelude
pub mod External
pub mod Stdio
pub mod Files
pub mod Codec
pub mod Buckets
pub mod Inet
pub mod Crypto
pub mod Server
pub mod Client
