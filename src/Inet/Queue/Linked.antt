-- ===== src/Inet/Queue/Linked.antt =====
-- The elements of a queue on the heap, in their order, and what writes to the heap do to them.
use ibchat.Prelude.{
  ℕ, ◌<◌, ◌≡◌, ◌≢◌, refl, sym, none, some, List, [], ◌∷◌, ◌++◌, ◌==◌, true, false, arith,
}
use ibchat.Inet.Queue.{Heap, write, free}

-- An element's address and its message.
pub record Cell : Type 0 where
  pub address : ℕ
  pub message : ℕ

abbrev pub head_of : List Cell → ℕ
head_of [] = 0
head_of (c ∷ cs) = c.address

-- The last of the cells that start with `c`.
abbrev pub last_of : Cell → List Cell → Cell
last_of c [] = c
last_of c (d ∷ cs) = last_of d cs

abbrev pub IsAbsent : ℕ → List Cell → Type 0
IsAbsent a [] = Unit
IsAbsent a (c ∷ cs) = (a ≢ c.address) × IsAbsent a cs

-- Each cell is on the heap, at an address of its own, and points to the next one.
abbrev pub IsLinked : Heap → List Cell → Type 0
IsLinked h [] = Unit
IsLinked h (c ∷ cs) =
    (0 < c.address)
    × (h c.address ≡ some (record { m = c.message; next = head_of cs }))
    × IsAbsent c.address cs
    × IsLinked h cs

pub differ : (a b : ℕ) → a ≢ b → (a == b) ≡ false
differ a b h = ground arith

pub same : (a : ℕ) → (a == a) ≡ true
same a = ground arith

pub fresh-IsAbsent :
    (h : Heap) (a : ℕ) (cs : List Cell) → IsLinked h cs → h a ≡ none → IsAbsent a cs
fresh-IsAbsent h a [] linked fresh = tt
fresh-IsAbsent h a (c ∷ cs) linked fresh =
    (λ e. absurd (cc (linked.1, fresh, e)), fresh-IsAbsent h a cs linked.3 fresh)

absent-last_of :
    (a : ℕ) (c : Cell) (cs : List Cell) → IsAbsent a (c ∷ cs) → a ≢ (last_of c cs).address
absent-last_of a c [] h = h.0
absent-last_of a c (d ∷ cs) h = absent-last_of a d cs h.1

IsAbsent-append :
    (a : ℕ) (cs : List Cell) (d : Cell)
    → IsAbsent a cs
    → a ≢ d.address
    → IsAbsent a (cs ++ (d ∷ []))
IsAbsent-append a [] d h ne = (ne, tt)
IsAbsent-append a (c ∷ cs) d h ne = (h.0, IsAbsent-append a cs d h.1 ne)

pub free-IsLinked :
    (h : Heap) (a : ℕ) (cs : List Cell) → IsAbsent a cs → IsLinked h cs → IsLinked (free a h) cs
free-IsLinked h a [] absent linked = tt
free-IsLinked h a (c ∷ cs) absent linked = (
  linked.0,
  rw (differ a c.address absent.0) linked.1,
  linked.2,
  free-IsLinked h a cs absent.1 linked.3,
)

-- What the last element holds.
pub read-last_of :
    (h : Heap) (c : Cell) (cs : List Cell)
    → IsLinked h (c ∷ cs)
    → h ((last_of c cs).address) ≡ some (record { m = (last_of c cs).message; next = 0 })
read-last_of h c [] linked = linked.1
read-last_of h c (d ∷ cs) linked = read-last_of h d cs linked.3

-- A new element that the last one is made to point to.
pub append-IsLinked :
    (h : Heap) (c d : Cell) (cs : List Cell)
    → IsLinked h (c ∷ cs)
    → h d.address ≡ none
    → 0 < d.address
    → IsLinked
        (write
          ((last_of c cs).address)
          (record { m = (last_of c cs).message; next = d.address })
          (write d.address (record { m = d.message; next = 0 }) h))
        ((c ∷ cs) ++ (d ∷ []))
append-IsLinked h c d [] linked fresh pos =
    let ne : c.address ≢ d.address = λ e. absurd (cc (linked.1, fresh, e)) in
    (
      linked.0,
      rw (same c.address) refl,
      (ne, tt),
      (pos, rw (differ c.address d.address ne, same d.address) refl, tt, tt),
    )
append-IsLinked h c d (e ∷ cs) linked fresh pos =
    let ne : c.address ≢ d.address = λ q. absurd (cc (linked.1, fresh, q)) in
    let ne' = absent-last_of c.address e cs linked.2 in
    (
      linked.0,
      rw
          (
            differ (last_of e cs).address c.address (λ q. ne' (sym q)),
            differ d.address c.address (λ q. ne (sym q)),
          )
          linked.1,
      IsAbsent-append c.address (e ∷ cs) d linked.2 ne,
      append-IsLinked h e d cs linked.3 fresh pos,
    )
