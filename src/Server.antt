-- ===== src/Server.antt =====
-- The server: files of undelivered messages, the table of connected clients, files and table of
-- users, the set-up of a new user, and the treatment of a message.
pub mod Undelivered
pub mod HandlerTable
pub mod UserFile
pub mod UserDb
pub mod Dispatch
pub mod NewUser
pub mod Auth
