-- ===== src/Store/Keyed.antt =====
-- Reading and updating by a key: the driver's laws as rules.
use mazadak_backend.Base.{
  ℕ, ◌≡◌, sym, ◌∙◌, subst, Bool, true, false, Option, none, some, List, ◌==◌, ==→eq, ==_refl,
  All-Memᴰ, Unique, Unique-eq, Replaced, Replaced-Memᴰ, map,
}
use mathlib.Core.List.{Memᴰ}
use mazadak_backend.Store.{Driver, Finds, Updates}

module _ (d : Driver) {A : Type 0} where
  open d use {find_one, find_one_law, find_one_and_update, find_one_and_update_law}

  pub find_rule {κ} :
      (p : A → Bool) (l : List A) (P : Option A → Type κ)
      → ((a : A) → p a ≡ true → Memᴰ a l → P (some a))
      → P none
      → P (find_one p l)
  find_rule p l P good bad = go (find_one p l) (find_one_law p l)
    where
      go : (o : Option A) → Finds p l o → P o
      go none h = bad
      go (some a) h = good a h.0 h.1

  pub search_rule {κ} :
      (p : A → Bool) (l : List A) (P : Option A → Type κ)
      → ((a : A) → p a ≡ true → Memᴰ a l → P (some a))
      → (((a : A) → Memᴰ a l → p a ≡ false) → P none)
      → P (find_one p l)
  search_rule p l P good bad = go (find_one p l) (find_one_law p l)
    where
      go : (o : Option A) → Finds p l o → P o
      go none h = bad (λ a m. All-Memᴰ (λ x. p x ≡ false) a l h m)
      go (some a) h = good a h.0 h.1

  -- The document with the key is there, and it is the one that is updated.
  pub update_rule {κ} :
      (key : A → ℕ) (f : A → A) (a : A) (i : ℕ) (l : List A) (P : Option A × List A → Type κ)
      → Unique (map key l)
      → Memᴰ a l
      → key a ≡ i
      → ((o : Option A) (k : List A) → Replaced a (f a) l k → P (o, k))
      → P (find_one_and_update (λ x. key x == i) f l)
  update_rule key f a i l P unique stored mine good =
      go (find_one_and_update p f l) (find_one_and_update_law p f l)
    where
      p : A → Bool
      p x = key x == i

      mine' : p a ≡ true
      mine' = subst (λ j. (key a == j) ≡ true) mine (==_refl (key a))

      differ : {X : Type κ} → p a ≡ false → X
      differ h = absurd (apart (sym mine' ∙ h))
        where
          apart : true ≡ false → ⊥
          apart q = cc q

      go : (x : Option A × List A) → Updates p f l x → P x
      go (none, k) h = differ (All-Memᴰ (λ x. p x ≡ false) a l h.0 stored)
      go (some b, k) (x, t, q, r) = good (some b) k (
          subst (λ v. Replaced v (f v) l k)
            (Unique-eq key x a l unique (Replaced-Memᴰ r) stored (==→eq (key x) i t ∙ sym mine)) r)

  pub find_key_rule {κ} :
      (key : A → ℕ) (a : A) (l : List A) (P : Option A → Type κ)
      → Unique (map key l)
      → Memᴰ a l
      → P (some a)
      → P (find_one (λ x. key x == key a) l)
  find_key_rule key a l P unique stored good =
      go (find_one (λ x. key x == key a) l) (find_one_law (λ x. key x == key a) l)
    where
      differ : {X : Type κ} → (key a == key a) ≡ false → X
      differ h = absurd (apart (sym (==_refl (key a)) ∙ h))
        where
          apart : true ≡ false → ⊥
          apart q = cc q

      go : (o : Option A) → Finds (λ x. key x == key a) l o → P o
      go none h = differ (All-Memᴰ (λ x. (key x == key a) ≡ false) a l h stored)
      go (some b) h =
          subst (λ x. P (some x))
            (Unique-eq key a b l unique stored h.1 (sym (==→eq (key b) (key a) h.0))) good
