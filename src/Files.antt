-- ===== src/Files.antt =====
-- The files of a server or a client by their paths. A path that is `denied` cannot be opened:
-- its directory is missing or closed to the process.
use ibchat.Prelude.{
  ◌≡◌, Bool, true, false, Option, none, some, Bytes, bytes_eq, bytes_eq_refl, bytes_eq→eq,
  if◌then◌else◌, refl, arith, ◌≢◌,
}

pub record Files : Type 0 where
  pub file : Bytes → Option Bytes
  pub denied : Bytes → Bool

-- `fclose` of a stream opened on `path` that now holds `contents`.
unfoldable pub store : Bytes → Bytes → Files → Files
store path contents fs = record fs {
  file = λ q. if bytes_eq path q then some contents else fs.file q;
}

-- fopen(path, "rb") and fopen(path, "rb+")
unfoldable pub open_old : Bytes → Files → Option Bytes
open_old path fs = if fs.denied path then none else fs.file path

-- whether fopen(path, "wb") succeeds; it then empties the file
unfoldable pub can_create : Bytes → Files → Bool
can_create path fs = if fs.denied path then false else true

-- What was stored is read back, where the path can be opened.
pub open_old-store_self :
    (path contents : Bytes) (fs : Files)
    → can_create path fs ≡ true
    → open_old path (store path contents fs) ≡ some contents
unfolding store open_old can_create
open_old-store_self path contents fs h = ground (arith, bytes_eq_refl path)

pub open_old-store_ne :
    (path contents q : Bytes) (fs : Files)
    → path ≢ q
    → open_old q (store path contents fs) ≡ open_old q fs
unfolding store open_old
open_old-store_ne path contents q fs h = ground (arith, bytes_eq→eq path q)

-- Storing does not change which paths can be opened.
pub can_create-store :
    (path contents q : Bytes) (fs : Files) → can_create q (store path contents fs) ≡ can_create q fs
unfolding store can_create
can_create-store path contents q fs = refl

pub open_old→can_create :
    (path contents : Bytes) (fs : Files)
    → open_old path fs ≡ some contents
    → can_create path fs ≡ true
unfolding open_old can_create
open_old→can_create path contents fs h = ground arith
