-- ===== src/Inet/AckMap/Counts.antt =====
-- The map as a bag: how often a sequence number waits for its acknowledgement.
use ibchat.Prelude.{
  ℕ, zero, suc, ◌+◌, ◌≤◌, ◌<◌, ◌≡◌, ◌≢◌, refl, Bool, true, false, none, some, List, [], ◌∷◌, ◌++◌,
  length, get_or, set, ◌==◌, if◌then◌else◌, success, failure, arith, length-set, get_or-set,
  get_or-replicate, ◌∙◌, Option-cases, inl, inr,
}
use ibchat.Inet.AckMap.{
  AckMapEl, AckMap, ack_lists, empty_map, list_index, ack_map_add, unlink, ack_map_rm,
}

-- The elements for `q` in one list.
unfoldable pub count : ℕ → List AckMapEl → ℕ
count q [] = 0
count q (el ∷ l) = (if el.seq_num == q then 1 else 0) + count q l

-- The elements for `q` in all lists.
unfoldable pub count_all : ℕ → List (List AckMapEl) → ℕ
count_all q [] = 0
count_all q (l ∷ ls) = count q l + count_all q ls

-- How often `q` waits in the map, wherever its elements stand.
abbrev pub waiting : ℕ → AckMap → ℕ
waiting q map = count_all q map.lists

-- There are sixteen lists, and a list holds only the numbers with its low bits.
pub record IsValid (map : AckMap) : Type 0 where
  pub width : length map.lists ≡ ack_lists
  pub placed : (q i : ℕ) → list_index q ≢ i → count q (get_or map.lists i []) ≡ 0

count-append : (q : ℕ) (a b : List AckMapEl) → count q (a ++ b) ≡ count q a + count q b
unfolding count
count-append q [] b = omega arith
count-append q (el ∷ a) b = omega (arith, count-append q a b)

count_all-set :
    (q i : ℕ) (l : List AckMapEl) (ls : List (List AckMapEl))
    → i < length ls
    → count_all q (set ls i l) + count q (get_or ls i []) ≡ count_all q ls + count q l
unfolding count_all
count_all-set q i l [] h = absurd (omega arith)
count_all-set q zero l (x ∷ ls) h = omega arith
count_all-set q (suc i) l (x ∷ ls) h = omega (arith, count_all-set q i l ls (omega arith))

count_all-le : (q i : ℕ) (ls : List (List AckMapEl)) → count q (get_or ls i []) ≤ count_all q ls
unfolding count_all count
count_all-le q i [] = omega arith
count_all-le q zero (x ∷ ls) = omega arith
count_all-le q (suc i) (x ∷ ls) = omega (arith, count_all-le q i ls)

count_all-nowhere :
    (q : ℕ) (ls : List (List AckMapEl))
    → ((i : ℕ) → count q (get_or ls i []) ≡ 0)
    → count_all q ls ≡ 0
unfolding count_all
count_all-nowhere q [] h = refl
count_all-nowhere q (x ∷ ls) h = omega (arith, h 0, count_all-nowhere q ls (λ i. h (suc i)))

-- Only the home list can hold a number.
count_all-home :
    (q j : ℕ) (ls : List (List AckMapEl))
    → ((i : ℕ) → j ≢ i → count q (get_or ls i []) ≡ 0)
    → count_all q ls ≡ count q (get_or ls j [])
unfolding count_all count
count_all-home q j [] h = refl
count_all-home q zero (x ∷ ls) h =
    omega (arith, count_all-nowhere q ls (λ i. h (suc i) (omega arith)))
count_all-home q (suc j) (x ∷ ls) h =
    omega (arith, h 0 (omega arith), count_all-home q j ls (λ i ne. h (suc i) (omega arith)))

pub empty_map-IsValid : IsValid empty_map
unfolding count
empty_map-IsValid = record {
  width = refl;
  placed = λ q i ne. rw (get_or-replicate {A = List AckMapEl} ack_lists i []);
}

pub waiting-empty_map : (q : ℕ) → waiting q empty_map ≡ 0
unfolding count_all count
waiting-empty_map q = refl

-- What `unlink` does to the counts.
unlink-some :
    (s q : ℕ) (l rest : List AckMapEl)
    → unlink s l ≡ some rest
    → count q rest + (if s == q then 1 else 0) ≡ count q l
unfolding unlink count
unlink-some s q [] rest h = absurd (cc h)
unlink-some s q (el ∷ l) rest h = elim (Option-cases (unlink s l)) [
  | inl e ↦ ground (arith, e)
  | inr (r, e) ↦ ground (arith, e, unlink-some s q l r e)
]

unlink-none : (s : ℕ) (l : List AckMapEl) → unlink s l ≡ none → count s l ≡ 0
unfolding unlink count
unlink-none s [] h = refl
unlink-none s (el ∷ l) h = ground (arith, unlink-none s l)

-- Adding a number to a valid map keeps the map valid and makes that number wait once more, and no
-- other; without memory the map stays as it is.
pub ack_map_add-waiting :
    (mem : Bool) (map : AckMap) (seq_num time q : ℕ)
    → IsValid map
    → (let r = ack_map_add mem map seq_num time in
        IsValid r.1
        × (waiting q r.1 ≡ waiting q map + (if mem then if seq_num == q then 1 else 0 else 0))
        × (r.0 ≡ (if mem then success else failure)))
unfolding ack_map_add
ack_map_add-waiting false map seq_num time q valid = (valid, omega arith, refl)
ack_map_add-waiting true map seq_num time q valid =
    let old = get_or map.lists (list_index seq_num) [] in
    let el : AckMapEl = record { seq_num = seq_num; time = time } in
    let spot : list_index seq_num < length map.lists = omega (arith, valid.width) in
    (
      record {
        width = length-set map.lists _ (old ++ (el ∷ [])) ∙ valid.width;
        placed = λ r i ne.
            rw (get_or-set map.lists (list_index seq_num) i (old ++ (el ∷ [])) [] spot)
              (unfold count in ground (arith, valid.placed r i, count-append r old (el ∷ [])));
      },
      unfold count in
          omega (
            arith,
            count_all-set q (list_index seq_num) (old ++ (el ∷ [])) map.lists spot,
            count-append q old (el ∷ []),
          ),
      refl,
    )

-- Acknowledging a number that waits in a valid map returns 0 and makes that number wait once less,
-- and no other.
pub ack_map_rm-waiting :
    (map : AckMap) (seq_num q : ℕ)
    → IsValid map
    → 0 < waiting seq_num map
    → (let r = ack_map_rm map seq_num in
        (r.0 ≡ success)
        × IsValid r.1
        × (waiting q r.1 + (if seq_num == q then 1 else 0) ≡ waiting q map))
unfolding ack_map_rm
ack_map_rm-waiting map seq_num q valid present =
    let old = get_or map.lists (list_index seq_num) [] in
    let spot : list_index seq_num < length map.lists = omega (arith, valid.width) in
    elim (Option-cases (unlink seq_num old)) [
      | inl e ↦ absurd (
          omega (
            arith,
            unlink-none seq_num old e,
            count_all-home seq_num (list_index seq_num) map.lists
                (λ i ne. valid.placed seq_num i ne),
          ))
      | inr (rest, e) ↦
          rw (e, ack_map_rm)
            (
              refl,
              record {
                width = length-set map.lists _ rest ∙ valid.width;
                placed = λ r i ne.
                    rw (get_or-set map.lists (list_index seq_num) i rest [] spot)
                      (ground (arith, valid.placed r i, unlink-some seq_num r old rest e));
              },
              omega (
                arith,
                count_all-set q (list_index seq_num) rest map.lists spot,
                unlink-some seq_num q old rest e,
              ),
            )
    ]

-- A number that does not wait is refused with -1, and the map stays as it is.
pub ack_map_rm-unknown :
    (map : AckMap) (seq_num : ℕ) → waiting seq_num map ≡ 0 → ack_map_rm map seq_num ≡ (failure, map)
unfolding ack_map_rm
ack_map_rm-unknown map seq_num absent =
    let old = get_or map.lists (list_index seq_num) [] in
    elim (Option-cases (unlink seq_num old)) [
      | inl e ↦ rw (e, ack_map_rm)
      | inr (rest, e) ↦ absurd (
          ground (
            arith,
            unlink-some seq_num seq_num old rest e,
            count_all-le seq_num (list_index seq_num) map.lists,
          ))
    ]
