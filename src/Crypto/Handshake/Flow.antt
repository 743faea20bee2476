-- ===== src/Crypto/Handshake/Flow.antt =====
-- The control flow of the two functions of crypto/handshake.c: early returns, memory that is read
-- outside of a buffer, and what the caller sees: the key set, the messages sent, and `*res`.
use ibchat.Prelude.{ℕ, Bool, true, false, Option, none, some, List, [], ◌∷◌, ◌++◌, ℤ}
use ibchat.Inet.Connection.{Message}
use ibchat.Crypto.Layer.{Keyset}

pub record Hs : Type 0 where
  pub keys : Keyset
  pub sent : List Message
  pub res : ℕ

-- A value, a return, or a read outside of a buffer.
pub data Step (A : Type 0) : Type 0 where
  go : A → Step A
  exit : ℤ → Step A
  crash : Step A

abbrev pub Run : Type 0 → Type 0
Run A = Hs → Step A × Hs

abbrev pub pure : {A : Type 0} → A → Run A
pure a s = (go a, s)

abbrev pub continue : {A B : Type 0} → Step A × Hs → (A → Run B) → Step B × Hs
continue (go a, s) f = f a s
continue (exit c, s) f = (exit c, s)
continue (crash, s) f = (crash, s)

infixl 5 ◌>>=◌ ◌>>◌
abbrev pub ◌>>=◌ : {A B : Type 0} → Run A → (A → Run B) → Run B
◌>>=◌ m f s = continue (m s) f

abbrev pub ◌>>◌ : {B : Type 0} → Run (Unit {0}) → Run B → Run B
m >> k = m >>= λ _. k

-- if(!test) return code;
abbrev pub check : ℤ → Bool → Run (Unit {0})
check code true s = (go tt, s)
check code false s = (exit code, s)

-- A call that gives a value, or else return code.
abbrev pub attempt : {A : Type 0} → ℤ → Option A → Run A
attempt code (some a) s = (go a, s)
attempt code none s = (exit code, s)

-- The memory that is read next is inside the buffer.
abbrev pub within : Bool → Run (Unit {0})
within true s = (go tt, s)
within false s = (crash, s)

-- if(!test) { *res = r; return code; }
abbrev pub check_res : ℕ → ℤ → Bool → Run (Unit {0})
check_res r code true s = (go tt, s)
check_res r code false s = (exit code, record s { res = r })

-- The queue after add_message; with no memory for the queue's element the message is lost.
unfoldable pub pushed : Bool → List Message → Message → List Message
pushed true queue m = queue ++ (m ∷ [])
pushed false queue m = queue

abbrev pub send : Bool → Message → Run (Unit {0})
send granted m s = (go tt, record s { sent = pushed granted s.sent m })

abbrev pub set_keys : (Keyset → Keyset) → Run (Unit {0})
set_keys f s = (go tt, record s { keys = f s.keys })

abbrev pub set_res : ℕ → Run (Unit {0})
set_res r s = (go tt, record s { res = r })

abbrev pub get_res : Run ℕ
get_res s = (go s.res, s)
