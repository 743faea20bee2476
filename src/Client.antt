-- ===== src/Client.antt =====
-- The chat client's files and the lists it keeps in memory (client/).
pub mod DataFile
pub mod Uname
pub mod Friend
pub mod Account
pub mod Paths
pub mod FriendFile
pub mod Notif
pub mod NotifFile
pub mod Profile
pub mod Identity
pub mod RsaMessage
pub mod LogIn
pub mod Friendreq
pub mod Conversation
pub mod Samples
