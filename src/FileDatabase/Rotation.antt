-- ===== src/FileDatabase/Rotation.antt =====
-- core/file_database.cpp: the rotation of a new file, and the retries of its opening.
use deeplog.Base.{
  Bool, Bool-cases, List, Option, [], arith, if◌then◌else◌, inl, inr, ltb, ltb→lt, none, some, sym,
  true, ℕ, ◌+◌, ◌∷◌, ◌≡◌, ◌≤◌,
}
use mathlib.Core.List.{Memᴰ}
use mathlib.Core.Path.{subst}
use deeplog.FileDatabase.{Opening}
use deeplog.FileDatabase.Operate.{max_by, last_rotation, attempt, Opened, not_made}

-- The rotations that are tried: the next one, and five more only from the tenth on.
pub candidates : ℕ → List ℕ
candidates last =
    if ltb last 9
    then ((last + 1) ∷ [])
    else ((last + 1) ∷ (last + 3) ∷ (last + 5) ∷ (last + 7) ∷ (last + 9) ∷ (last + 11) ∷ [])

-- The first candidate whose file does not exist yet decides.
pub first_free : (ℕ → Opening) → List ℕ → Option Opened
first_free try [] = none
first_free try (r ∷ []) = attempt r (λ e. some (not_made e)) (try r)
first_free try (r ∷ s ∷ rs) = attempt r (λ e. first_free try (s ∷ rs)) (try r)

-- The greatest key is not below the first one, nor below any other.
max_by-above {ℓ} :
    {A : Type ℓ} (key : A → ℕ) (best : A) (xs : List A) → key best ≤ key (max_by key best xs)
unfolding max_by
max_by-above key best [] = omega arith
max_by-above key best (x ∷ xs) = elim (Bool-cases (ltb (key best) (key x))) [
  | inl up ↦ rw up (omega (arith, max_by-above key x xs, ltb→lt (key best) (key x) up))
  | inr kept ↦ rw kept (max_by-above key best xs)
]

max_by-first {ℓ} :
    {A : Type ℓ} (key : A → ℕ) (best x : A) (xs : List A) → key x ≤ key (max_by key best (x ∷ xs))
unfolding max_by
max_by-first key best x xs = elim (Bool-cases (ltb (key best) (key x))) [
  | inl up ↦ rw up (max_by-above key x xs)
  | inr kept ↦ rw kept (ground (arith, max_by-above key best xs))
]

max_by-Memᴰ {ℓ} :
    {A : Type ℓ} (key : A → ℕ) (best y : A) (xs : List A)
    → Memᴰ y xs
    → key y ≤ key (max_by key best xs)
unfolding max_by
max_by-Memᴰ key best y [] mem = elim mem [ ]
max_by-Memᴰ key best y (x ∷ xs) (Memᴰ.tail mem) =
    max_by-Memᴰ key (if ltb (key best) (key x) then x else best) y xs mem
max_by-Memᴰ key best y (x ∷ xs) (Memᴰ.head e) =
    subst (λ z. key z ≤ key (max_by key best (x ∷ xs))) (sym e) (max_by-first key best x xs)

-- A new entry gets a rotation above those of the entries that share its sink (or its bus id).
pub last_rotation-above {ℓ} :
    {A : Type ℓ} (rotation : A → ℕ) (mine : A → Bool) (xs : List A) (y : A)
    → Memᴰ y xs
    → mine y ≡ true
    → rotation y ≤ last_rotation rotation mine xs
unfolding last_rotation
last_rotation-above rotation mine [] y mem same = elim mem [ ]
last_rotation-above {A} rotation mine (x ∷ xs) y mem same =
    let key : A → ℕ = λ z. if mine z then rotation z else 0 in
    let found = max_by key x xs in
    let greatest : key y ≤ key found = elim mem [
      | Memᴰ.head e ↦ subst (λ z. key z ≤ key found) (sym e) (max_by-above key x xs)
      | Memᴰ.tail rest ↦ max_by-Memᴰ key x y xs rest
    ] in
    elim (Bool-cases (mine found)) [
      | inl own ↦ rw (own, same) at greatest
      | inr other ↦ let nothing : rotation y ≤ 0 = rw (other, same) at greatest in omega arith
    ]
