-- ===== src/Metrics/Percentile/Sorting.antt =====
-- The sorted samples, and their entries.
use mathlib.Core.Option.{none-ne-some, some-injective}
use mathlib.Core.List.{Memᴰ}
use pi_live_captions.Base.{
  ℕ, zero, suc, ◌<◌, ◌≤◌, List, [], ◌∷◌, ◌≡◌, refl, subst, some, ◌≤ℤ◌, leb_ℤ, length, get_elem?,
  last_or, if_cases, All, arith,
}
use pi_live_captions.Audio.Format.{Duration}
use pi_live_captions.Metrics.Percentile.{insert, sort}

abbrev pub Ascends : List Duration → Type 0
Ascends [] = Unit
Ascends (x ∷ xs) = All (λ y. x ≤ℤ y) xs × Ascends xs

pub All-insert :
    (P : Duration → Type 0) (d : Duration) (xs : List Duration)
    → P d
    → All P xs
    → All P (insert d xs)
All-insert P d [] p a = (p, tt)
All-insert P d (x ∷ xs) p (q, a) =
    if_cases (All P) (leb_ℤ d x) (λ e. (p, (q, a))) (λ e. (q, All-insert P d xs p a))

pub All-sort : (P : Duration → Type 0) (xs : List Duration) → All P xs → All P (sort xs)
All-sort P [] a = tt
All-sort P (x ∷ xs) (p, a) = All-insert P x (sort xs) p (All-sort P xs a)

pub above :
    (d x : Duration) (xs : List Duration) → d ≤ℤ x → All (λ y. x ≤ℤ y) xs → All (λ y. d ≤ℤ y) xs
above d x [] e a = tt
above d x (y ∷ ys) e (p, a) = (omega (arith, e, p), above d x ys e a)

pub insert-Ascends : (d : Duration) (xs : List Duration) → Ascends xs → Ascends (insert d xs)
insert-Ascends d [] a = (tt, tt)
insert-Ascends d (x ∷ xs) (p, a) =
    if_cases Ascends (leb_ℤ d x) (λ e. ((ground arith, above d x xs (ground arith) p), (p, a)))
      (λ e. (All-insert (λ y. x ≤ℤ y) d xs (ground arith) p, insert-Ascends d xs a))

pub sort-Ascends : (xs : List Duration) → Ascends (sort xs)
sort-Ascends [] = tt
sort-Ascends (x ∷ xs) = insert-Ascends x (sort xs) (sort-Ascends xs)

pub length-insert : (d : Duration) (xs : List Duration) → length (insert d xs) ≡ suc (length xs)
length-insert d [] = refl
length-insert d (x ∷ xs) =
    if_cases (λ ys. length ys ≡ suc (suc (length xs))) (leb_ℤ d x) (λ e. refl)
      (λ e. omega (arith, length-insert d xs))

pub length-sort : (xs : List Duration) → length (sort xs) ≡ length xs
length-sort [] = refl
length-sort (x ∷ xs) = omega (arith, length-insert x (sort xs), length-sort xs)

-- What every entry has, the entry read has.
pub read_has :
    (P : Duration → Type 0) (xs : List Duration) (i : ℕ) (x : Duration)
    → All P xs
    → get_elem? xs i ≡ some x
    → P x
read_has P [] i x a e = absurd (none-ne-some x e)
read_has P (y ∷ ys) zero x (p, a) e = subst P (some-injective y x e) p
read_has P (y ∷ ys) (suc i) x (p, a) e = read_has P ys i x a e

pub entry_exists :
    (xs : List Duration) (i : ℕ) → i < length xs → (x : Duration) × (get_elem? xs i ≡ some x)
entry_exists [] i h = absurd (omega arith)
entry_exists (x ∷ xs) zero h = (x, refl)
entry_exists (x ∷ xs) (suc i) h = entry_exists xs i (omega arith)

pub every_member : (xs : List Duration) → All (λ x. Memᴰ x xs) xs
every_member [] = tt
every_member (x ∷ xs) = (Memᴰ.head refl, later xs (every_member xs))
  where
    later : (ys : List Duration) → All (λ y. Memᴰ y xs) ys → All (λ y. Memᴰ y (x ∷ xs)) ys
    later [] a = tt
    later (y ∷ ys) (p, a) = (Memᴰ.tail p, later ys a)

-- What a sorted list's entries have, those of the list have.
pub each_of_insert :
    (P : Duration → Type 0) (d : Duration) (xs : List Duration)
    → All P (insert d xs)
    → P d × All P xs
each_of_insert P d [] (p, a) = (p, tt)
each_of_insert P d (x ∷ xs) a =
    if_cases (λ ys. All P ys → P d × (P x × All P xs)) (leb_ℤ d x) (λ e b. b)
      (λ e b. let r = each_of_insert P d xs b.1 in (r.0, (b.0, r.1))) a

pub each_of_sort : (P : Duration → Type 0) (xs : List Duration) → All P (sort xs) → All P xs
each_of_sort P [] a = tt
each_of_sort P (x ∷ xs) a = let r = each_of_insert P x (sort xs) a in (r.0, each_of_sort P xs r.1)

-- An entry of an ascending list is at most a later one.
pub ascending_entries :
    (xs : List Duration) (i j : ℕ) (a b : Duration)
    → Ascends xs
    → i ≤ j
    → get_elem? xs i ≡ some a
    → get_elem? xs j ≡ some b
    → a ≤ℤ b
ascending_entries [] i j a b s h e f = absurd (grind arith)
ascending_entries (x ∷ xs) zero zero a b s h e f = grind arith
ascending_entries (x ∷ xs) zero (suc j) a b (p, s) h e f =
    read_has (λ y. a ≤ℤ y) xs j b (subst (λ y. All (λ z. y ≤ℤ z) xs) (some-injective x a e) p) f
ascending_entries (x ∷ xs) (suc i) zero a b s h e f = absurd (omega arith)
ascending_entries (x ∷ xs) (suc i) (suc j) a b (p, s) h e f =
    ascending_entries xs i j a b s (omega arith) e f

-- The last of an ascending list is its greatest.
pub last_greatest :
    (x : Duration) (xs : List Duration) → Ascends (x ∷ xs) → All (λ y. y ≤ℤ last_or x xs) (x ∷ xs)
last_greatest x [] s = (omega arith, tt)
last_greatest x (y ∷ ys) ((p, q), s) =
    let (h, a) = last_greatest y ys s in (omega (arith, p, h), (h, a))

pub last_has :
    (P : Duration → Type 0) (x : Duration) (xs : List Duration) → All P (x ∷ xs) → P (last_or x xs)
last_has P x [] (p, a) = p
last_has P x (y ∷ ys) (p, a) = last_has P y ys a
