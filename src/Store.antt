-- ===== src/Store.antt =====
-- The MongoDB driver that the repositories call (mongoose's Model). It is not part of the
-- repository, so its operations are a parameter: which document of several matching ones is chosen
-- and where a new one is put is left open. The state of a collection is the list of its documents.
pub mod ListStore
pub mod Keyed
use mazadak_backend.Base.{
  ℕ, ◌≡◌, Bool, true, false, Option, none, some, List, All, Replaced, Inserted, length, filter,
  Unique, map, if◌then◌else◌,
}
use mathlib.Core.List.{Memᴰ}

-- `findOne(filter)`: a document that matches, or none matches.
abbrev pub Finds : {A : Type 0} → (A → Bool) → List A → Option A → Type 0
Finds p l none = All (λ a. p a ≡ false) l
Finds p l (some a) = (p a ≡ true) × Memᴰ a l

-- `findOneAndUpdate(filter, update, { returnDocument: 'after' })`: one matching document is
-- replaced by its update and returned, or none matches and nothing changes.
abbrev pub Updates : {A : Type 0} → (A → Bool) → (A → A) → List A → Option A × List A → Type 0
Updates p f l (none, k) = All (λ a. p a ≡ false) l × (k ≡ l)
Updates {A} p f l (some b, k) = (a : A) × (p a ≡ true) × (b ≡ f a) × Replaced a (f a) l k

pub record Driver : Type 1 where
  pub find_one : {A : Type 0} → (A → Bool) → List A → Option A
  pub find_one_and_update : {A : Type 0} → (A → Bool) → (A → A) → List A → Option A × List A
  -- `find(filter).limit(n)`
  pub find_some : {A : Type 0} → (A → Bool) → ℕ → List A → List A
  -- `find(filter)`, in an order of the database's
  pub find : {A : Type 0} → (A → Bool) → List A → List A
  -- `updateMany(filter, update)`
  pub update_many : {A : Type 0} → (A → Bool) → (A → A) → List A → List A
  pub count_documents : {A : Type 0} → (A → Bool) → List A → ℕ
  pub insert : {A : Type 0} → A → List A → List A
  -- The n-th identifier that the driver generates.
  pub object_id : ℕ → ℕ
  pub find_one_law : {A : Type 0} (p : A → Bool) (l : List A) → Finds p l (find_one p l)
  pub find_one_and_update_law :
      {A : Type 0} (p : A → Bool) (f : A → A) (l : List A)
      → Updates p f l (find_one_and_update p f l)
  pub find_some_law :
      {A : Type 0} (p : A → Bool) (n : ℕ) (l : List A)
      → All (λ a. (p a ≡ true) × Memᴰ a l) (find_some p n l)
  pub find_sound :
      {A : Type 0} (p : A → Bool) (l : List A) → All (λ a. (p a ≡ true) × Memᴰ a l) (find p l)
  pub find_complete :
      {A : Type 0} (p : A → Bool) (l : List A) → All (λ a. p a ≡ true → Memᴰ a (find p l)) l
  pub find_once :
      {A : Type 0} (p : A → Bool) (key : A → ℕ) (l : List A)
      → Unique (map key l)
      → Unique (map key (find p l))
  pub update_many_law :
      {A : Type 0} (p : A → Bool) (f : A → A) (l : List A)
      → update_many p f l ≡ map (λ a. if p a then f a else a) l
  pub count_documents_law :
      {A : Type 0} (p : A → Bool) (l : List A) → count_documents p l ≡ length (filter p l)
  pub insert_law : {A : Type 0} (a : A) (l : List A) → Inserted a l (insert a l)
  pub object_id_injective : (m n : ℕ) → object_id m ≡ object_id n → m ≡ n
