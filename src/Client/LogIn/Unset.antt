-- ===== src/Client/LogIn/Unset.antt =====
-- A connection whose handshake returned before it wrote the server's key.
use ibchat.Client.Account.{Account}
