-- ===== src/Prelude/Counts.antt =====
-- Lists of numbers as bags: membership, removal, and how often a number occurs.
use krot_vpn.Prelude.{
  ℕ, zero, suc, ◌+◌, ◌<◌, ◌≡◌, refl, ◌≢◌, ◌↔◌, Bool, true, false, ◌||◌, some, List, [], ◌∷◌, ◌++◌,
  arith, length, get_elem?, ◌==◌, if◌then◌else◌,
}

abbrev pub contains : ℕ → List ℕ → Bool
contains a [] = false
contains a (x ∷ xs) = (x == a) || contains a xs

-- Every occurrence goes.
abbrev pub remove : ℕ → List ℕ → List ℕ
remove a [] = []
remove a (x ∷ xs) = if x == a then remove a xs else x ∷ remove a xs

-- How often a number occurs.
abbrev pub count : (n : ℕ) (bag : List ℕ) → ℕ
count n (m ∷ bag) = (if m == n then 1 else 0) + count n bag
count n [] = 0

pub remove-count_self : (a : ℕ) (xs : List ℕ) → count a (remove a xs) ≡ 0
remove-count_self a [] = refl
remove-count_self a (x ∷ xs) = ground (arith, remove-count_self a xs)

pub remove-count_ne : (a b : ℕ) (xs : List ℕ) → a ≢ b → count b (remove a xs) ≡ count b xs
remove-count_ne a b [] h = refl
remove-count_ne a b (x ∷ xs) h = ground (arith, remove-count_ne a b xs)

pub contains-count : (a : ℕ) (xs : List ℕ) → (contains a xs ≡ true) ↔ (0 < count a xs)
contains-count a [] = ground arith
contains-count a (x ∷ xs) = ground (arith, contains-count a xs)

-- Two lists in a row hold a number as often as both together.
pub count-append :
    (n : ℕ) (before after : List ℕ) → count n before + count n after ≡ count n (before ++ after)
count-append n [] after = omega arith
count-append n (m ∷ before) after = let rest = count-append n before after in omega (arith, rest)

pub remove-length : (a : ℕ) (xs : List ℕ) → length (remove a xs) + count a xs ≡ length xs
remove-length a [] = refl
remove-length a (x ∷ xs) = ground (arith, remove-length a xs)

-- An element at a position occurs.
pub count-get : (i a : ℕ) (xs : List ℕ) → get_elem? xs i ≡ some a → 0 < count a xs
count-get i a [] h = cc
count-get zero a (x ∷ xs) h = ground arith
count-get (suc i) a (x ∷ xs) h = omega (arith, count-get i a xs h)

pub get_elem?-lt : (i : ℕ) (xs : List ℕ) → i < length xs → (a : ℕ) × (get_elem? xs i ≡ some a)
get_elem?-lt i [] h = elim h [ ]
get_elem?-lt zero (x ∷ xs) h = (x, refl)
get_elem?-lt (suc i) (x ∷ xs) h = get_elem?-lt i xs (omega arith)

pub count-remove :
    (a b : ℕ) (xs : List ℕ) → count b (remove a xs) ≡ (if a == b then 0 else count b xs)
count-remove a b xs = ground (arith, remove-count_self a xs, remove-count_ne a b xs)
