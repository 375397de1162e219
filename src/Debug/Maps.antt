-- ===== src/Debug/Maps.antt =====
-- std::map and std::set over size_t, as lists in ascending order of their keys.
use atomic_proof_interpreter.Prelude.{
  ℕ, ◌<◌, ◌≡◌, refl, Bool, true, false, Option, none, some, List, [], ◌∷◌, ◌||◌, ltb, ◌==◌,
  if◌then◌else◌, All, arith,
}

abbrev pub Dict {ℓ} : Type ℓ → Type ℓ
Dict V = List (ℕ × V)

module _ {ℓ} {V : Type ℓ} where
  unfoldable pub lookup : ℕ → Dict V → Option V
  lookup k [] = none
  lookup k ((j, v) ∷ d) = if j == k then some v else lookup k d

  -- `d[k] = v`
  unfoldable pub insert : ℕ → V → Dict V → Dict V
  insert k v [] = (k, v) ∷ []
  insert k v ((j, w) ∷ d) =
      if k == j then (k, v) ∷ d else if ltb k j then (k, v) ∷ (j, w) ∷ d else (j, w) ∷ insert k v d

  -- A key stands once in a map, so that nothing but its entry goes.
  unfoldable pub erase : ℕ → Dict V → Dict V
  erase k [] = []
  erase k ((j, w) ∷ d) = if j == k then erase k d else (j, w) ∷ erase k d

  unfoldable pub keys : Dict V → List ℕ
  keys [] = []
  keys ((j, w) ∷ d) = j ∷ keys d

  pub lookup-insert :
      (k j : ℕ) (v : V) (d : Dict V)
      → lookup j (insert k v d) ≡ (if k == j then some v else lookup j d)
  unfolding lookup insert
  lookup-insert k j v [] = refl
  lookup-insert k j v ((i, w) ∷ d) = ground (arith, lookup-insert k j v d)

  pub lookup-erase :
      (k j : ℕ) (d : Dict V) → lookup j (erase k d) ≡ (if k == j then none else lookup j d)
  unfolding lookup erase
  lookup-erase k j [] = ground arith
  lookup-erase k j ((i, w) ∷ d) = ground (arith, lookup-erase k j d)

  -- The keys rise from one entry to the next.
  abbrev pub Above : ℕ → Dict V → Type 0
  Above k d = All (λ j. k < j) (keys d)

  abbrev pub Ascending : Dict V → Type 0
  Ascending [] = Unit {0}
  Ascending ((j, w) ∷ d) = Above j d × Ascending d

unfoldable pub contains : List ℕ → ℕ → Bool
contains [] n = false
contains (k ∷ ks) n = k == n || contains ks n

-- A set's insert keeps the order and takes no element twice.
unfoldable pub add_element : ℕ → List ℕ → List ℕ
add_element n [] = n ∷ []
add_element n (k ∷ ks) =
    if n == k then k ∷ ks else if ltb n k then n ∷ k ∷ ks else k ∷ add_element n ks

unfoldable pub remove_element : ℕ → List ℕ → List ℕ
remove_element n [] = []
remove_element n (k ∷ ks) = if k == n then remove_element n ks else k ∷ remove_element n ks

unfoldable pub is_empty {ℓ} : {A : Type ℓ} → List A → Bool
is_empty [] = true
is_empty (x ∷ xs) = false

pub contains-add_element :
    (n k : ℕ) (ks : List ℕ) → contains (add_element n ks) k ≡ (n == k || contains ks k)
unfolding contains add_element
contains-add_element n k [] = refl
contains-add_element n k (j ∷ ks) = ground (arith, contains-add_element n k ks)

pub contains-remove_element :
    (n k : ℕ) (ks : List ℕ)
    → contains (remove_element n ks) k ≡ (if n == k then false else contains ks k)
unfolding contains remove_element
contains-remove_element n k [] = ground arith
contains-remove_element n k (j ∷ ks) = ground (arith, contains-remove_element n k ks)

pub contains-is_empty : (k : ℕ) (ks : List ℕ) → contains ks k ≡ true → is_empty ks ≡ false
unfolding contains is_empty
contains-is_empty k [] h = ground arith
contains-is_empty k (j ∷ ks) h = refl

pub is_empty→contains : (k : ℕ) (ks : List ℕ) → is_empty ks ≡ true → contains ks k ≡ false
unfolding contains is_empty
is_empty→contains k [] h = refl
is_empty→contains k (j ∷ ks) h = ground arith

module _ {ℓ} {V : Type ℓ} where
  pub Above-weaken : (a b : ℕ) (d : Dict V) → a < b → Above b d → Above a d
  unfolding keys
  Above-weaken a b [] h k = tt
  Above-weaken a b ((j, w) ∷ d) h (k, ks) = (omega arith, Above-weaken a b d h ks)

  pub Above-insert : (a k : ℕ) (v : V) (d : Dict V) → a < k → Above a d → Above a (insert k v d)
  unfolding keys insert
  Above-insert a k v [] h t = (h, tt)
  Above-insert a k v ((j, w) ∷ d) h (x, xs) = ground (arith, Above-insert a k v d h xs)

  pub Ascending-insert : (k : ℕ) (v : V) (d : Dict V) → Ascending d → Ascending (insert k v d)
  unfolding keys insert
  Ascending-insert k v [] h = (tt, tt)
  Ascending-insert k v ((j, w) ∷ d) (a, s) = ground (
    arith,
    Ascending-insert k v d s,
    Above-insert j k v d,
    Above-weaken k j d,
    Above-weaken j k d,
  )

  pub Above-erase : (a k : ℕ) (d : Dict V) → Above a d → Above a (erase k d)
  unfolding keys erase
  Above-erase a k [] h = tt
  Above-erase a k ((j, w) ∷ d) (x, xs) = ground (arith, Above-erase a k d xs)

  pub Ascending-erase : (k : ℕ) (d : Dict V) → Ascending d → Ascending (erase k d)
  unfolding keys erase
  Ascending-erase k [] h = tt
  Ascending-erase k ((j, w) ∷ d) (a, s) = ground (arith, Ascending-erase k d s, Above-erase j k d a)

  pub Above-lookup : (k : ℕ) (d : Dict V) → Above k d → lookup k d ≡ none
  unfolding keys lookup
  Above-lookup k [] h = refl
  Above-lookup k ((j, w) ∷ d) (x, xs) = ground (arith, Above-lookup k d xs)
