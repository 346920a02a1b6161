-- ===== src/Go/Sets/Order.antt =====
-- Sorting the keys of a set gives a list in strict order with the same members, and there is
-- only one such list, whatever the order in which the map was read.
use lts_agent.Base.{
  ◌≡◌, refl, ◌∙◌, true, false, ◌||◌, Bytes, List, [], ◌∷◌, less, less_irrefl, less_trans,
  less_total, same, same_iff, contains, All, arith, Bool-cases, inl, inr,
}
use lts_agent.Go.Sets.{add, insert, sort_strings}

-- Each string is less than all behind it.
abbrev pub IsIncreasing : List Bytes → Type 0
IsIncreasing [] = Unit {0}
IsIncreasing (x ∷ xs) = All (λ y. less x y ≡ true) xs × IsIncreasing xs

-- No string stands twice.
abbrev pub IsUnique : List Bytes → Type 0
IsUnique [] = Unit {0}
IsUnique (x ∷ xs) = (contains x xs ≡ false) × IsUnique xs

pub contains-add :
    (a v : Bytes) (keys : List Bytes) → contains a (add v keys) ≡ (same a v || contains a keys)
unfolding add contains
contains-add a v keys = ground (arith, same_iff a v)

pub add-IsUnique : (v : Bytes) (keys : List Bytes) → IsUnique keys → IsUnique (add v keys)
unfolding add
add-IsUnique v keys h = ground arith

contains-insert :
    (a v : Bytes) (xs : List Bytes) → contains a (insert v xs) ≡ (same a v || contains a xs)
unfolding insert contains
contains-insert a v [] = refl
contains-insert a v (x ∷ xs) = ground (arith, contains-insert a v xs)

pub contains-sort_strings :
    (a : Bytes) (xs : List Bytes) → contains a (sort_strings xs) ≡ contains a xs
unfolding sort_strings contains
contains-sort_strings a [] = refl
contains-sort_strings a (x ∷ xs) =
    ground (arith, contains-insert a x (sort_strings xs), contains-sort_strings a xs)

All-insert :
    (P : Bytes → Type 0) (v : Bytes) (xs : List Bytes) → P v → All P xs → All P (insert v xs)
unfolding insert
All-insert P v [] h hs = (h, tt)
All-insert P v (x ∷ xs) h hs = ground (arith, All-insert P v xs h hs.1)

All-less :
    (a b : Bytes) (xs : List Bytes)
    → less a b ≡ true
    → All (λ y. less b y ≡ true) xs
    → All (λ y. less a y ≡ true) xs
All-less a b [] h hs = tt
All-less a b (x ∷ xs) h hs = (less_trans a b x h hs.0, All-less a b xs h hs.1)

insert-IsIncreasing :
    (v : Bytes) (xs : List Bytes)
    → contains v xs ≡ false
    → IsIncreasing xs
    → IsIncreasing (insert v xs)
unfolding insert contains
insert-IsIncreasing v [] n h = (tt, tt)
insert-IsIncreasing v (x ∷ xs) n h = elim (Bool-cases (less x v)) [
  | inl lt ↦
      rw lt
        (All-insert (λ y. less x y ≡ true) v xs lt h.0, insert-IsIncreasing v xs (ground arith) h.1)
  | inr ge ↦
      let lt : less v x ≡ true = less_total x v ge (ground (arith, same_iff v x, same_iff x v)) in
      rw ge ((lt, All-less v x xs lt h.0), h)
]

-- A set's keys, sorted, are in strict order.
pub sort_strings-IsIncreasing :
    (keys : List Bytes) → IsUnique keys → IsIncreasing (sort_strings keys)
unfolding sort_strings
sort_strings-IsIncreasing [] h = tt
sort_strings-IsIncreasing (x ∷ xs) h =
    insert-IsIncreasing x (sort_strings xs) (contains-sort_strings x xs ∙ h.0)
      (sort_strings-IsIncreasing xs h.1)

-- What is less than the head of a list in strict order is not in the list.
contains-below :
    (a x : Bytes) (xs : List Bytes)
    → less a x ≡ true
    → IsIncreasing (x ∷ xs)
    → contains a (x ∷ xs) ≡ false
unfolding contains
contains-below a x [] lt h = ground (arith, same_iff a x, less_irrefl a)
contains-below a x (y ∷ ys) lt h =
    ground
      (arith, same_iff a x, less_irrefl a, contains-below a y ys (less_trans a x y lt h.0.0) h.1)

not-contains-head : (x : Bytes) (xs : List Bytes) → IsIncreasing (x ∷ xs) → contains x xs ≡ false
not-contains-head x [] h = unfold contains in refl
not-contains-head x (y ∷ ys) h = contains-below x y ys h.0.0 h.1

-- Two lists in strict order with the same members are the same list.
pub IsIncreasing-ext :
    (xs ys : List Bytes)
    → IsIncreasing xs
    → IsIncreasing ys
    → ((a : Bytes) → contains a xs ≡ contains a ys)
    → xs ≡ ys
unfolding contains
IsIncreasing-ext [] [] h k e = refl
IsIncreasing-ext [] (y ∷ ys) h k e = absurd (ground (arith, e y, same_iff y y))
IsIncreasing-ext (x ∷ xs) [] h k e = absurd (ground (arith, e x, same_iff x x))
IsIncreasing-ext (x ∷ xs) (y ∷ ys) h k e =
    let heads : x ≡ y = ground (
      arith,
      e x,
      e y,
      same_iff x y,
      same_iff y x,
      same_iff x x,
      same_iff y y,
      contains-below x y ys,
      contains-below y x xs,
      less_total x y,
    ) in
    let tails : (a : Bytes) → contains a xs ≡ contains a ys = λ a. ground (
      arith,
      e a,
      same_iff a x,
      same_iff a y,
      not-contains-head x xs h,
      not-contains-head y ys k,
    ) in
    ground (arith, IsIncreasing-ext xs ys h.1 k.1 tails)
