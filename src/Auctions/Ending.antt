-- ===== src/Auctions/Ending.antt =====
-- The scheduled ending of auctions keeps what is due and the market in order.
use mathlib.Core.List.{Memᴰ}
use mazadak_backend.Base.{
  ◌⊎◌, ℕ, ◌≡◌, refl, sym, ap, subst, ◌∙◌, Bool, true, false, List, [], ◌∷◌, map, ◌==◌, ==→eq, inl,
  inr, if◌then◌else◌, if_cases, All-Memᴰ, Unique, Unique-eq, leb, Bool-cases,
}
use mazadak_backend.Store.{Driver}
use mazadak_backend.Database.{Bid, Auction, AuctionStatus, Database}
use mazadak_backend.Wallet.Effect.{and_left}
use mazadak_backend.Auctions.Schedule.{pending_running}
use mazadak_backend.Holds.{is_shut, is_closed}
use mazadak_backend.Holds.Closing.{same_stakes, nothing_closed}
use mazadak_backend.Holds.Market.{not_cancelled, IsMarket, apart}
use mazadak_backend.Bids.Repositories.{is_ended_auction, is_pending_auction, is_active_auction}
use mazadak_backend.Bids.Trading.{IsTrading}
use mazadak_backend.Auctions.{is_member, is_over, end_active_auctions}

map-Memᴰ :
    {A : Type 0} (f : A → A) (b : A) (l : List A)
    → Memᴰ b (map f l)
    → (a : A) × Memᴰ a l × (b ≡ f a)
map-Memᴰ f b [] m = elim m [ ]
map-Memᴰ f b (x ∷ l) (Memᴰ.head e) = (x, Memᴰ.head refl, e)
map-Memᴰ f b (x ∷ l) (Memᴰ.tail m) = let (a, n, e) = map-Memᴰ f b l m in (a, Memᴰ.tail n, e)

-- A change of some auctions from ACTIVE to ENDED.
record Ends (f : Auction → Auction) (l : List Auction) : Type 0 where
  pub same_id : (a : Auction) → (f a).id ≡ a.id
  pub same_price : (a : Auction) → (f a).current_price ≡ a.current_price
  pub same_final : (a : Auction) → (f a).is_finalized ≡ a.is_finalized
  pub status :
      (a : Auction)
      → Memᴰ a l
      → ((f a).status ≡ a.status)
        ⊎ ((is_active_auction a.status ≡ true) × ((f a).status ≡ AuctionStatus.ended))

same_shut :
    (f : Auction → Auction) (l : List Auction)
    → Ends f l
    → (a : Auction) → Memᴰ a l
    → is_shut (f a) ≡ is_shut a
same_shut f l e a m = by (e.status a m)
  where
    by :
        ((f a).status ≡ a.status)
          ⊎ ((is_active_auction a.status ≡ true) × ((f a).status ≡ AuctionStatus.ended))
        → is_shut (f a) ≡ is_shut a
    by (inl q) = rw (q, e.same_final a) refl
    by (inr (t, q)) = rw (q, e.same_final a, not_cancelled a.status t) refl

closed_map :
    (f : Auction → Auction) (i : ℕ) (l : List Auction)
    → ((a : Auction) → (f a).id ≡ a.id)
    → ((a : Auction) → Memᴰ a l → is_shut (f a) ≡ is_shut a)
    → is_closed i (map f l) ≡ is_closed i l
closed_map f i [] q e = refl
closed_map f i (a ∷ l) q e =
    rw (q a, e a (Memᴰ.head refl), closed_map f i l q (λ b m. e b (Memᴰ.tail m))) refl

same_ids :
    (f : Auction → Auction) (l : List Auction)
    → ((a : Auction) → (f a).id ≡ a.id)
    → map (λ a. a.id) (map f l) ≡ map (λ a. a.id) l
same_ids f [] q = refl
same_ids f (a ∷ l) q = rw (q a, same_ids f l q) refl

module _ {f : Auction → Auction} {l : List Auction} (e : Ends f l) (bs : List Bid) where
  -- A status of the changed list that is not ENDED was there before.
  unended :
      (a : Auction) → Memᴰ a l → is_ended_auction (f a).status ≡ false → (f a).status ≡ a.status
  unended a m t = elim (e.status a m) [
    | inl q ↦ q
    | inr (_, q) ↦ absurd (apart (sym (ap is_ended_auction q) ∙ t))
  ]

  Ends-IsMarket : IsMarket bs l → IsMarket bs (map f l)
  Ends-IsMarket h = record {
    auctions = subst Unique (sym (same_ids f l e.same_id)) h.auctions;
    running = λ x m t.
        let (a, n, q) = map-Memᴰ f x l m in
        subst (λ (y : Auction). y.is_finalized ≡ false) (sym q)
          (e.same_final a
            ∙ h.running a n
                (subst (λ st. is_ended_auction st ≡ false) (unended a n (ended q t)) (ended q t)));
    fresh = λ x m p c o t w.
        let (a, n, q) = map-Memᴰ f x l m in
        let p' : is_pending_auction (f a).status ≡ true =
          subst (λ (y : Auction). is_pending_auction y.status ≡ true) q p in
        h.fresh a n
          (subst (λ st. is_pending_auction st ≡ true)
            (unended a n (pending_running (f a).status p').0) p')
          c o t (w ∙ ap (λ (y : Auction). y.id) q ∙ e.same_id a);
    winners = h.winners;
    prices = λ b x o m t w.
        let (a, n, q) = map-Memᴰ f x l m in
        ap (λ (y : Auction). y.current_price) q
        ∙ e.same_price a
        ∙ h.prices b a o n t (sym (e.same_id a) ∙ sym (ap (λ (y : Auction). y.id) q) ∙ w);
  }
    where
      ended :
          {x a : Auction}
          → x ≡ f a
          → is_ended_auction x.status ≡ false
          → is_ended_auction (f a).status ≡ false
      ended q t = subst (λ (y : Auction). is_ended_auction y.status ≡ false) q t

is_member-Memᴰ :
    (i : ℕ) (l : List Auction)
    → is_member i (map (λ a. a.id) l) ≡ true
    → (a : Auction) × Memᴰ a l × (a.id ≡ i)
is_member-Memᴰ i [] t = absurd (apart (sym t))
is_member-Memᴰ i (a ∷ l) t = elim (Bool-cases (a.id == i)) [
  | inl e ↦ (a, Memᴰ.head refl, ==→eq a.id i e)
  | inr e ↦ let (b, m, q) = is_member-Memᴰ i l (rw e at t) in (b, Memᴰ.tail m, q)
]

-- Ending the auctions that are over keeps what is due and the market in order.
pub end_active_auctions-IsTrading :
    (d : Driver) (now : ℕ) (locked : Bool) (s : Database)
    → IsTrading d s
    → IsTrading d (end_active_auctions d locked now s)
unfolding end_active_auctions
end_active_auctions-IsTrading d now false s h = h
end_active_auctions-IsTrading d now true s h =
    subst (λ k. IsTrading d (record s { auctions = k }))
      (sym (d.update_many_law (λ a. is_member a.id ids) stop s.auctions))
      (
        same_stakes (map f s.auctions)
            (λ u.
              nothing_closed u s.bids s.auctions (map f s.auctions)
                (λ i. closed_map f i s.auctions ends.same_id (same_shut f s.auctions ends)))
            h.0,
        Ends-IsMarket ends s.bids h.1,
      )
  where
    over : List Auction
    over = d.find (is_over now) s.auctions

    ids : List ℕ
    ids = map (λ a. a.id) over

    stop : Auction → Auction
    stop a = record a { status = AuctionStatus.ended }

    f : Auction → Auction
    f a = if is_member a.id ids then stop a else a

    was_active :
        (a : Auction)
        → Memᴰ a s.auctions
        → is_member a.id ids ≡ true
        → is_active_auction a.status ≡ true
    was_active a m t =
        let (b, n, q) = is_member-Memᴰ a.id over t in
        let sound =
          All-Memᴰ (λ x. (is_over now x ≡ true) × Memᴰ x s.auctions) b over
            (d.find_sound (is_over now) s.auctions) n in
        subst (λ (x : Auction). is_active_auction x.status ≡ true)
          (Unique-eq (λ x. x.id) b a s.auctions h.1.auctions sound.1 m q)
          (and_left (is_active_auction b.status) (leb b.end_time now) sound.0)

    ends : Ends f s.auctions
    ends = record {
      same_id =
          λ a. if_cases (λ x. x.id ≡ a.id) (is_member a.id ids) (stop a) a (λ _. refl) (λ _. refl);
      same_price = λ a.
          if_cases (λ x. x.current_price ≡ a.current_price) (is_member a.id ids) (stop a) a
            (λ _. refl) (λ _. refl);
      same_final = λ a.
          if_cases (λ x. x.is_finalized ≡ a.is_finalized) (is_member a.id ids) (stop a) a
            (λ _. refl) (λ _. refl);
      status = λ a m.
          if_cases
            (λ x.
              (x.status ≡ a.status)
              ⊎ ((is_active_auction a.status ≡ true) × (x.status ≡ AuctionStatus.ended)))
            (is_member a.id ids) (stop a) a (λ t. inr (was_active a m t, refl)) (λ _. inl refl);
    }
