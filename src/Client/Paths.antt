-- ===== src/Client/Paths.antt =====
-- The paths of the client's files (client/ibchat_client.c).
use ibchat.Prelude.{ℕ, ◌+◌, Bool, Option, none, some, Bytes, ◌++◌, length, if◌then◌else◌}
use ibchat.External.{Libibur}

-- `root_dir` is the string ROOT_DIR once it is expanded.
unfoldable pub file_path : Libibur → (ℕ → Bool) → Bytes → Bytes → Option Bytes
file_path lib mem root_dir id =
    if mem (length root_dir + 64 + 1) then some (root_dir ++ lib.to_hex id) else none
