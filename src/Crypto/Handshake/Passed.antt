-- ===== src/Crypto/Handshake/Passed.antt =====
-- What a run that returns a value has passed: each step before it went on.
use ibchat.Prelude.{◌≡◌, refl, Bool, true, false, Option, none, some, ℤ, arith}
use ibchat.Crypto.Handshake.Flow.{Run, Hs, Step, go, exit, crash, continue, check, attempt, pure}

pub continue-passed :
    {A B : Type 0} (r : Step A × Hs) (k : A → Run B) {end : Hs} {b : B}
    → continue r k ≡ (go b, end)
    → (a : A) × (mid : Hs) × (r ≡ (go a, mid)) × (k a mid ≡ (go b, end))
continue-passed (go a, mid) k e = (a, mid, refl, e)
continue-passed (exit c, mid) k e = absurd (ground arith)
continue-passed (crash, mid) k e = absurd (ground arith)

pub check-passed :
    (code : ℤ) (t : Bool) {u : Unit {0}} (s : Hs) {end : Hs}
    → check code t s ≡ (go u, end)
    → t ≡ true
check-passed code true s e = refl
check-passed code false s e = absurd (ground arith)

pub attempt-passed :
    {A : Type 0} (code : ℤ) (call : Option A) {a : A} (s : Hs) {end : Hs}
    → attempt code call s ≡ (go a, end)
    → call ≡ some a
attempt-passed code (some b) s e = ground arith
attempt-passed code none s e = absurd (ground arith)

pub pure-passed : {A : Type 0} (a : A) {b : A} (s : Hs) {end : Hs} → pure a s ≡ (go b, end) → a ≡ b
pure-passed a s e = ground arith
