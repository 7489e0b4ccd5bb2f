-- ===== src/Base/Lists.antt =====
-- Predicates, sums and replacements on lists.
use Prim.Native.Nat.{ℕ, suc}
use mathlib.Core.Path.{◌≡◌, refl, sym, ap, subst, ◌∙◌}
use mathlib.Core.Logic.{◌≢◌, ◌⊎◌, inl, inr}
use mathlib.Core.Bool.{Bool, true}
use mathlib.Core.List.{List, [], ◌∷◌, map, Memᴰ}
use mazadak_backend.Base.Money.{ℤ, pos, ◌+ℤ◌, int_laws}
use mazadak_backend.Base.Tests.{if◌then◌else◌, Bool-cases}

abbrev pub length {ℓ} : {A : Type ℓ} → List A → ℕ
length [] = 0
length (x ∷ xs) = suc (length xs)

abbrev pub All {ℓ κ} : {A : Type ℓ} → (A → Type κ) → List A → Type κ
All P [] = Unit
All P (x ∷ xs) = P x × All P xs

-- The keys are pairwise different.
abbrev pub Unique : List ℕ → Type 0
Unique [] = Unit
Unique (k ∷ ks) = All (λ j. j ≢ k) ks × Unique ks

abbrev pub sum_of {ℓ} : {A : Type ℓ} → (A → ℤ) → List A → ℤ
sum_of g [] = pos 0
sum_of g (x ∷ xs) = g x +ℤ sum_of g xs

-- `Replaced a b xs ys`: ys is xs with one occurrence of a replaced by b.
pub data Replaced {ℓ} {A : Type ℓ} (a b : A) : List A → List A → Type ℓ where
  here : {l : List A} → Replaced a b (a ∷ l) (b ∷ l)
  there : {x : A} {l k : List A} → Replaced a b l k → Replaced a b (x ∷ l) (x ∷ k)

-- `Inserted a xs ys`: ys is xs with a put in at some place.
pub data Inserted {ℓ} {A : Type ℓ} (a : A) : List A → List A → Type ℓ where
  front : {l : List A} → Inserted a l (a ∷ l)
  later : {x : A} {l k : List A} → Inserted a l k → Inserted a (x ∷ l) (x ∷ k)

module _ {ℓ κ} {A : Type ℓ} (P : A → Type κ) where
  pub All-Memᴰ : (a : A) (l : List A) → All P l → Memᴰ a l → P a
  All-Memᴰ a [] h m = elim m [ ]
  All-Memᴰ a (x ∷ l) h (Memᴰ.head e) = subst P (sym e) h.0
  All-Memᴰ a (x ∷ l) h (Memᴰ.tail m) = All-Memᴰ a l h.1 m

  pub All-Replaced : {a b : A} {l k : List A} → Replaced a b l k → All P l → P b → All P k
  All-Replaced here h p = (p, h.1)
  All-Replaced (there r) h p = (h.0, All-Replaced r h.1 p)

  pub All-Inserted : {a : A} {l k : List A} → Inserted a l k → All P l → P a → All P k
  All-Inserted front h p = (p, h)
  All-Inserted (later r) h p = (h.0, All-Inserted r h.1 p)

module _ {ℓ} {A : Type ℓ} (g : A → ℤ) where
  pub sum_of-Replaced :
      {a b : A} {l k : List A} → Replaced a b l k → sum_of g k +ℤ g a ≡ sum_of g l +ℤ g b
  sum_of-Replaced here = omega int_laws
  sum_of-Replaced (there r) = grind (int_laws, sum_of-Replaced r)

  pub sum_of-Inserted : {a : A} {l k : List A} → Inserted a l k → sum_of g k ≡ g a +ℤ sum_of g l
  sum_of-Inserted front = refl
  sum_of-Inserted (later r) = grind (int_laws, sum_of-Inserted r)

module _ {ℓ} {A : Type ℓ} where
  pub Replaced-Memᴰ : {a b : A} {l k : List A} → Replaced a b l k → Memᴰ a l
  Replaced-Memᴰ here = Memᴰ.head refl
  Replaced-Memᴰ (there r) = Memᴰ.tail (Replaced-Memᴰ r)

  pub Replaced-Memᴰ_new : {a b : A} {l k : List A} → Replaced a b l k → Memᴰ b k
  Replaced-Memᴰ_new here = Memᴰ.head refl
  Replaced-Memᴰ_new (there r) = Memᴰ.tail (Replaced-Memᴰ_new r)

  -- Where the elements of the one list are in the other.
  pub Inserted-Memᴰ : {a b : A} {l k : List A} → Inserted a l k → Memᴰ b k → (b ≡ a) ⊎ Memᴰ b l
  Inserted-Memᴰ front (Memᴰ.head e) = inl e
  Inserted-Memᴰ front (Memᴰ.tail m) = inr m
  Inserted-Memᴰ (later r) (Memᴰ.head e) = inr (Memᴰ.head e)
  Inserted-Memᴰ (later r) (Memᴰ.tail m) = elim (Inserted-Memᴰ r m) [
    | inl e ↦ inl e
    | inr n ↦ inr (Memᴰ.tail n)
  ]

  pub Inserted-Memᴰ_kept : {a b : A} {l k : List A} → Inserted a l k → Memᴰ b l → Memᴰ b k
  Inserted-Memᴰ_kept front m = Memᴰ.tail m
  Inserted-Memᴰ_kept (later r) (Memᴰ.head e) = Memᴰ.head e
  Inserted-Memᴰ_kept (later r) (Memᴰ.tail m) = Memᴰ.tail (Inserted-Memᴰ_kept r m)

  pub Replaced-Memᴰ_old :
      {a b c : A} {l k : List A} → Replaced a b l k → Memᴰ c k → (c ≡ b) ⊎ Memᴰ c l
  Replaced-Memᴰ_old here (Memᴰ.head e) = inl e
  Replaced-Memᴰ_old here (Memᴰ.tail m) = inr (Memᴰ.tail m)
  Replaced-Memᴰ_old (there r) (Memᴰ.head e) = inr (Memᴰ.head e)
  Replaced-Memᴰ_old (there r) (Memᴰ.tail m) = elim (Replaced-Memᴰ_old r m) [
    | inl e ↦ inl e
    | inr n ↦ inr (Memᴰ.tail n)
  ]

  pub Replaced-Memᴰ_kept :
      {a b c : A} {l k : List A} → Replaced a b l k → Memᴰ c l → (c ≡ a) ⊎ Memᴰ c k
  Replaced-Memᴰ_kept here (Memᴰ.head e) = inl e
  Replaced-Memᴰ_kept here (Memᴰ.tail m) = inr (Memᴰ.tail m)
  Replaced-Memᴰ_kept (there r) (Memᴰ.head e) = inr (Memᴰ.head e)
  Replaced-Memᴰ_kept (there r) (Memᴰ.tail m) = elim (Replaced-Memᴰ_kept r m) [
    | inl e ↦ inl e
    | inr n ↦ inr (Memᴰ.tail n)
  ]

  pub map-Replaced {κ} :
      {B : Type κ} (f : A → B) {a b : A} {l k : List A}
      → Replaced a b l k
      → f b ≡ f a
      → map f k ≡ map f l
  map-Replaced f here e = cc
  map-Replaced f (there {x = x} r) e = ap (◌∷◌ (f x)) (map-Replaced f r e)

  pub All-map :
      (f : A → ℕ) (i : ℕ) (a : A) (l : List A) → All (λ j. j ≢ i) (map f l) → Memᴰ a l → f a ≢ i
  All-map f i a [] h m = elim m [ ]
  All-map f i a (x ∷ l) h (Memᴰ.head e) = λ q. h.0 (cc (ap f e))
  All-map f i a (x ∷ l) h (Memᴰ.tail m) = All-map f i a l h.1 m

  -- A key that is unique decides the element.
  pub Unique-eq :
      (f : A → ℕ) (a b : A) (l : List A)
      → Unique (map f l)
      → Memᴰ a l
      → Memᴰ b l
      → f a ≡ f b
      → a ≡ b
  Unique-eq f a b [] u m n e = elim m [ ]
  Unique-eq f a b (x ∷ l) u (Memᴰ.head p) (Memᴰ.head q) e = p ∙ sym q
  Unique-eq f a b (x ∷ l) u (Memᴰ.head p) (Memᴰ.tail n) e =
      absurd (All-map f (f x) b l u.0 n (sym e ∙ ap f p))
  Unique-eq f a b (x ∷ l) u (Memᴰ.tail m) (Memᴰ.head q) e =
      absurd (All-map f (f x) a l u.0 m (e ∙ ap f q))
  Unique-eq f a b (x ∷ l) u (Memᴰ.tail m) (Memᴰ.tail n) e = Unique-eq f a b l u.1 m n e

module _ {ℓ} {A : Type ℓ} (q : A → Bool) where
  abbrev pub filter : List A → List A
  filter [] = []
  filter (x ∷ l) = let rest = filter l in if q x then x ∷ rest else rest

  kept-Memᴰ :
      (a x : A) (l : List A)
      → q x ≡ true
      → (Memᴰ a (filter l) → Memᴰ a l × (q a ≡ true))
      → Memᴰ a (x ∷ filter l)
      → Memᴰ a (x ∷ l) × (q a ≡ true)
  kept-Memᴰ a x l e ih (Memᴰ.head p) = (Memᴰ.head p, ap q p ∙ e)
  kept-Memᴰ a x l e ih (Memᴰ.tail n) = (Memᴰ.tail (ih n).0, (ih n).1)

  -- What a filter keeps stands in the list and passes the test.
  pub filter-Memᴰ : (a : A) (l : List A) → Memᴰ a (filter l) → Memᴰ a l × (q a ≡ true)
  filter-Memᴰ a [] m = elim m [ ]
  filter-Memᴰ a (x ∷ l) m = elim (Bool-cases (q x)) [
    | inl e ↦ kept-Memᴰ a x l e (filter-Memᴰ a l) (rw e at m)
    | inr e ↦ let (n, t) = filter-Memᴰ a l (rw e at m) in (Memᴰ.tail n, t)
  ]

  -- What holds of all that a filter keeps holds of all that passes the test.
  pub All-filter {κ} :
      (P : A → Type κ) (l : List A) → All P (filter l) → All (λ x. q x ≡ true → P x) l
  All-filter P [] h = tt
  All-filter P (x ∷ l) h = elim (Bool-cases (q x)) [
    | inl e ↦ let h' : All P (x ∷ filter l) = rw e at h in (λ _. h'.0, All-filter P l h'.1)
    | inr e ↦ (λ t. cc, All-filter P l (rw e at h))
  ]

  pub filter-All {κ} : (P : A → Type κ) (l : List A) → All P l → All P (filter l)
  filter-All P [] h = tt
  filter-All P (x ∷ l) h = elim (Bool-cases (q x)) [
    | inl e ↦ rw e (h.0, filter-All P l h.1)
    | inr e ↦ rw e (filter-All P l h.1)
  ]

-- A predicate weakened over a list.
pub All-imp {ℓ κ η} :
    {A : Type ℓ} (P : A → Type κ) (Q : A → Type η)
    → ((a : A) → P a → Q a)
    → (l : List A) → All P l
    → All Q l
All-imp P Q f [] h = tt
All-imp P Q f (x ∷ l) h = (f x h.0, All-imp P Q f l h.1)

pub map-Inserted {ℓ κ} :
    {A : Type ℓ} {B : Type κ} (f : A → B) {a : A} {l k : List A}
    → Inserted a l k
    → Inserted (f a) (map f l) (map f k)
map-Inserted f front = front
map-Inserted f (later r) = later (map-Inserted f r)

pub Unique-Inserted :
    {i : ℕ} {l k : List ℕ} → Inserted i l k → All (λ j. j ≢ i) l → Unique l → Unique k
Unique-Inserted front h u = (h, u)
Unique-Inserted (later {x = x} r) h u =
    (All-Inserted (λ j. j ≢ x) r u.0 (λ q. h.0 (sym q)), Unique-Inserted r h.1 u.1)

pub All-map_imp {ℓ κ η} :
    {A : Type ℓ} {P : A → Type κ} (Q : ℕ → Type η) (f : A → ℕ)
    → ((a : A) → P a → Q (f a))
    → (l : List A) → All P l
    → All Q (map f l)
All-map_imp Q f g [] h = tt
All-map_imp Q f g (x ∷ l) h = (g x h.0, All-map_imp Q f g l h.1)
