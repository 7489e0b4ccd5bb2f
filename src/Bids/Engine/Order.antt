-- ===== src/Bids/Engine/Order.antt =====
-- The order in which the engine looks at the auto-bids.
use mazadak_backend.Base.{
  inl, inr, List, [], ◌∷◌, ◌≤ℤ◌, All, All-imp, Inserted, front, later, All-Inserted, Bool-cases,
  arith, ≤ℤ_trans,
}
use mathlib.Core.List.{Memᴰ}
use mazadak_backend.Bids.Engine.{AutoBidCandidate, sort_insert, sort_auto_bids, comes_first}

sort_insert-Inserted :
    (a : AutoBidCandidate) (l : List AutoBidCandidate) → Inserted a l (sort_insert a l)
unfolding sort_insert
sort_insert-Inserted a [] = front
sort_insert-Inserted a (b ∷ l) = elim (Bool-cases (comes_first a b)) [
  | inl e ↦ rw e front
  | inr e ↦ rw e (later (sort_insert-Inserted a l))
]

Inserted-Memᴰ :
    {a b : AutoBidCandidate} {l k : List AutoBidCandidate}
    → Inserted a l k
    → Memᴰ b k
    → Memᴰ b (a ∷ l)
Inserted-Memᴰ front m = m
Inserted-Memᴰ (later r) (Memᴰ.head e) = Memᴰ.tail (Memᴰ.head e)
Inserted-Memᴰ (later r) (Memᴰ.tail m) = swap_heads (Inserted-Memᴰ r m)
  where
    swap_heads :
        {a b x : AutoBidCandidate} {l : List AutoBidCandidate} → Memᴰ b (a ∷ l) → Memᴰ b (a ∷ x ∷ l)
    swap_heads (Memᴰ.head e) = Memᴰ.head e
    swap_heads (Memᴰ.tail m) = Memᴰ.tail (Memᴰ.tail m)

Inserted-All {κ} :
    (P : AutoBidCandidate → Type κ) {a : AutoBidCandidate} {l k : List AutoBidCandidate}
    → Inserted a l k
    → All P k
    → All P (a ∷ l)
Inserted-All P front h = h
Inserted-All P (later r) h = let (p, rest) = Inserted-All P r h.1 in (p, (h.0, rest))

-- The sorted list holds the same candidates.
pub sort-Memᴰ :
    (b : AutoBidCandidate) (l : List AutoBidCandidate) → Memᴰ b (sort_auto_bids l) → Memᴰ b l
unfolding sort_auto_bids
sort-Memᴰ b [] m = m
sort-Memᴰ b (a ∷ l) m =
    back (sort-Memᴰ b l) (Inserted-Memᴰ (sort_insert-Inserted a (sort_auto_bids l)) m)
  where
    back : {k : List AutoBidCandidate} → (Memᴰ b k → Memᴰ b l) → Memᴰ b (a ∷ k) → Memᴰ b (a ∷ l)
    back f (Memᴰ.head e) = Memᴰ.head e
    back f (Memᴰ.tail m) = Memᴰ.tail (f m)

pub sort-All {κ} :
    (P : AutoBidCandidate → Type κ) (l : List AutoBidCandidate) → All P (sort_auto_bids l) → All P l
unfolding sort_auto_bids
sort-All P [] h = h
sort-All P (a ∷ l) h =
    let (p, rest) = Inserted-All P (sort_insert-Inserted a (sort_auto_bids l)) h in
    (p, sort-All P l rest)

-- Every candidate stands before those with a maximum that is no larger.
abbrev pub Descending : List AutoBidCandidate → Type 0
Descending [] = Unit
Descending (a ∷ l) = All (λ b. b.max_amount ≤ℤ a.max_amount) l × Descending l

max_trans :
    (a b : AutoBidCandidate) (l : List AutoBidCandidate)
    → b.max_amount ≤ℤ a.max_amount
    → All (λ x. x.max_amount ≤ℤ b.max_amount) l
    → All (λ x. x.max_amount ≤ℤ a.max_amount) l
max_trans a b l h =
    All-imp (λ x. x.max_amount ≤ℤ b.max_amount) (λ x. x.max_amount ≤ℤ a.max_amount)
      (λ x k. ≤ℤ_trans x.max_amount b.max_amount a.max_amount k h) l

sort_insert-Descending :
    (a : AutoBidCandidate) (l : List AutoBidCandidate) → Descending l → Descending (sort_insert a l)
unfolding sort_insert
sort_insert-Descending a [] h = (tt, tt)
sort_insert-Descending a (b ∷ l) h = elim (Bool-cases (comes_first a b)) [
  | inl e ↦
      let le : b.max_amount ≤ℤ a.max_amount = ground arith in rw e ((le, max_trans a b l le h.0), h)
  | inr e ↦
      let le : a.max_amount ≤ℤ b.max_amount = ground arith in
      rw e (
        All-Inserted (λ x. x.max_amount ≤ℤ b.max_amount) (sort_insert-Inserted a l) h.0 le,
        sort_insert-Descending a l h.1,
      )
]

pub sort-Descending : (l : List AutoBidCandidate) → Descending (sort_auto_bids l)
unfolding sort_auto_bids
sort-Descending [] = tt
sort-Descending (a ∷ l) = sort_insert-Descending a (sort_auto_bids l) (sort-Descending l)
