-- ===== src/Store/ListStore.antt =====
-- A driver that takes the first match and puts a new document at the end. It shows that the laws
-- of the driver can hold, and runs the model in the tests.
use mazadak_backend.Base.{
  ◌≢◌, Unique, if_cases, ℕ, zero, suc, true, All, All-imp, ◌≡◌, refl, Bool, false, Option, none,
  some, List, [], ◌∷◌, Inserted, length, filter, front, later, here, there, Bool-cases, inl, inr,
  if◌then◌else◌,
}
use mathlib.Core.List.{map, Memᴰ}
use mazadak_backend.Store.{Driver, Finds, Updates}

module _ {A : Type 0} where
  unfoldable pub find_first : (A → Bool) → List A → Option A
  find_first p [] = none
  find_first p (x ∷ l) = if p x then some x else find_first p l

  unfoldable pub update_first : (A → Bool) → (A → A) → List A → Option A × List A
  update_first p f [] = (none, [])
  update_first p f (x ∷ l) =
      let (r, k) = update_first p f l in if p x then (some (f x), f x ∷ l) else (r, x ∷ k)

  unfoldable pub append : A → List A → List A
  append a [] = a ∷ []
  append a (x ∷ l) = x ∷ append a l

  find_later :
      (p : A → Bool) (x : A) (l : List A) (r : Option A)
      → p x ≡ false
      → Finds p l r
      → Finds p (x ∷ l) r
  find_later p x l none e h = (e, h)
  find_later p x l (some a) e h = (h.0, Memᴰ.tail h.1)

  pub find_first-Finds : (p : A → Bool) (l : List A) → Finds p l (find_first p l)
  unfolding find_first
  find_first-Finds p [] = tt
  find_first-Finds p (x ∷ l) = elim (Bool-cases (p x)) [
    | inl e ↦ rw e (e, Memᴰ.head refl)
    | inr e ↦ rw e (find_later p x l (find_first p l) e (find_first-Finds p l))
  ]

  update_later :
      (p : A → Bool) (f : A → A) (x : A) (l : List A) (r : Option A × List A)
      → p x ≡ false
      → Updates p f l r
      → Updates p f (x ∷ l) (r.0, x ∷ r.1)
  update_later p f x l (none, k) e h = ((e, h.0), cc)
  update_later p f x l (some b, k) e (a, m, q, r) = (a, m, q, there r)

  pub update_first-Updates :
      (p : A → Bool) (f : A → A) (l : List A) → Updates p f l (update_first p f l)
  unfolding update_first
  update_first-Updates p f [] = (tt, refl)
  update_first-Updates p f (x ∷ l) = elim (Bool-cases (p x)) [
    | inl e ↦ rw e (x, e, refl, here)
    | inr e ↦ rw e (update_later p f x l (update_first p f l) e (update_first-Updates p f l))
  ]

  pub append-Inserted : (a : A) (l : List A) → Inserted a l (append a l)
  unfolding append
  append-Inserted a [] = front
  append-Inserted a (x ∷ l) = later (append-Inserted a l)

  unfoldable pub take_matches : (A → Bool) → ℕ → List A → List A
  take_matches p zero l = []
  take_matches p (suc n) [] = []
  take_matches p (suc n) (x ∷ l) = elim (p x) [
    | true ↦ x ∷ take_matches p n l
    | false ↦ take_matches p (suc n) l
  ]

  also_later :
      (p : A → Bool) (x : A) (l k : List A)
      → All (λ a. (p a ≡ true) × Memᴰ a l) k
      → All (λ a. (p a ≡ true) × Memᴰ a (x ∷ l)) k
  also_later p x l =
      All-imp (λ a. (p a ≡ true) × Memᴰ a l) (λ a. (p a ≡ true) × Memᴰ a (x ∷ l))
        (λ a h. (h.0, Memᴰ.tail h.1))

  pub take_matches-All :
      (p : A → Bool) (n : ℕ) (l : List A) → All (λ a. (p a ≡ true) × Memᴰ a l) (take_matches p n l)
  unfolding take_matches
  take_matches-All p zero l = tt
  take_matches-All p (suc n) [] = tt
  take_matches-All p (suc n) (x ∷ l) =
      go (p x) refl (take_matches-All p n l) (take_matches-All p (suc n) l)
    where
      go :
          (b : Bool)
          → p x ≡ b
          → All (λ a. (p a ≡ true) × Memᴰ a l) (take_matches p n l)
          → All (λ a. (p a ≡ true) × Memᴰ a l) (take_matches p (suc n) l)
          → All
              (λ a. (p a ≡ true) × Memᴰ a (x ∷ l))
              (elim b [ true ↦ x ∷ take_matches p n l | false ↦ take_matches p (suc n) l ])
      go true e h k = ((e, Memᴰ.head refl), also_later p x l _ h)
      go false e h k = also_later p x l _ k

  pub filter_sound : (p : A → Bool) (l : List A) → All (λ a. (p a ≡ true) × Memᴰ a l) (filter p l)
  filter_sound p [] = tt
  filter_sound p (x ∷ l) =
      if_cases (All (λ a. (p a ≡ true) × Memᴰ a (x ∷ l))) (p x) (x ∷ filter p l) (filter p l)
        (λ e. ((e, Memᴰ.head refl), also_later p x l (filter p l) (filter_sound p l)))
        (λ _. also_later p x l (filter p l) (filter_sound p l))

  pub filter_complete : (p : A → Bool) (l : List A) → All (λ a. p a ≡ true → Memᴰ a (filter p l)) l
  filter_complete p [] = tt
  filter_complete p (x ∷ l) =
      if_cases (λ k. All (λ a. p a ≡ true → Memᴰ a k) (x ∷ l)) (p x) (x ∷ filter p l) (filter p l)
        (λ e. (
          λ _. Memᴰ.head refl,
          All-imp (λ a. p a ≡ true → Memᴰ a (filter p l))
              (λ a. p a ≡ true → Memᴰ a (x ∷ filter p l)) (λ a h t. Memᴰ.tail (h t)) l
              (filter_complete p l),
        ))
        (λ e. (λ t. cc, filter_complete p l))

  map-All :
      (p : A → Bool) (key : A → ℕ) (Q : ℕ → Type 0) (l : List A)
      → All Q (map key l)
      → All Q (map key (filter p l))
  map-All p key Q [] h = tt
  map-All p key Q (x ∷ l) h =
      if_cases (λ k. All Q (map key k)) (p x) (x ∷ filter p l) (filter p l)
        (λ _. (h.0, map-All p key Q l h.1)) (λ _. map-All p key Q l h.1)

  pub filter-Unique :
      (p : A → Bool) (key : A → ℕ) (l : List A) → Unique (map key l) → Unique (map key (filter p l))
  filter-Unique p key [] u = tt
  filter-Unique p key (x ∷ l) u =
      if_cases (λ k. Unique (map key k)) (p x) (x ∷ filter p l) (filter p l)
        (λ _. (map-All p key (λ j. j ≢ key x) l u.0, filter-Unique p key l u.1))
        (λ _. filter-Unique p key l u.1)

unfoldable pub list_store : Driver
unfolding find_first update_first append take_matches
list_store = record {
  find_one = find_first;
  find_one_and_update = update_first;
  find_some = take_matches;
  find = filter;
  update_many = λ p f. map (λ a. if p a then f a else a);
  count_documents = λ p l. length (filter p l);
  insert = append;
  object_id = λ n. n;
  find_one_law = find_first-Finds;
  find_one_and_update_law = update_first-Updates;
  find_some_law = take_matches-All;
  find_sound = filter_sound;
  find_complete = filter_complete;
  find_once = filter-Unique;
  update_many_law = λ p f l. refl;
  count_documents_law = λ p l. refl;
  insert_law = append-Inserted;
  object_id_injective = λ m n e. e;
}
