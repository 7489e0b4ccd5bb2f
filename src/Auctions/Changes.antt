-- ===== src/Auctions/Changes.antt =====
-- A change of an auction by its seller keeps what is due and the market in order.
use mazadak_backend.Base.{
  ℕ, refl, sym, subst, not, ◌||◌, Option, none, some, ◌==◌, ==→eq, if_cases, is_some, or_else, leb,
  ltb, ◌+◌,
}
use mazadak_backend.Store.{Driver}
use mazadak_backend.Store.Keyed.{find_rule, update_rule}
use mazadak_backend.Database.{
  Auction, Database, Error, Action, pure, or_throw, ◌>>=◌, ◌>>◌, throw_if, throw_if_rule, bind_rule,
}
use mazadak_backend.Database.Reading.{Reads, throw_if-Reads, both-Reads}
use mazadak_backend.Holds.Closing.{same_stakes, nothing_closed}
use mazadak_backend.Holds.Market.{restated-IsMarket, closed_same}
use mazadak_backend.Bids.Repositories.{is_pending_auction}
use mazadak_backend.Bids.Trading.{IsTrading}
use mazadak_backend.Auctions.{
  UpdateAuction, min_start_time, validate_times, check_new_times, with_update, write_update,
  update_auction,
}

module _ (d : Driver) (s : Database) (h : IsTrading d s) where
  validate_times-Reads : (now start end : ℕ) → Reads s (validate_times now start end s)
  validate_times-Reads now start end =
      both-Reads (throw_if (ltb start (now + min_start_time)) Error.auction_start_time_too_soon)
        (throw_if (leb end start) Error.auction_end_time_invalid) s
        (throw_if-Reads (ltb start (now + min_start_time)) Error.auction_start_time_too_soon s)
        (throw_if-Reads (leb end start) Error.auction_end_time_invalid s)

  pub update_auction-IsTrading :
      (i seller : ℕ) (input : UpdateAuction) (now : ℕ)
      → IsTrading d (update_auction d i seller input now s).1
  unfolding update_auction
  update_auction-IsTrading i seller input now =
      find_rule d (λ a. a.id == i) s.auctions
        (λ o. IsTrading d ((or_throw o Error.auction_not_found >>= owned) s).1)
        (λ a t' m.
          throw_if_rule (not (a.seller_id == seller)) Error.auction_forbidden s
            (λ x. IsTrading d x.1) (idle a)
            (λ _.
              throw_if_rule (not (is_pending_auction a.status)) Error.auction_not_pending s
                (λ x. IsTrading d x.1) (timed a)
                (λ _.
                  bind_rule (Reads s) (λ x. IsTrading d x.1) (check_new_times d input a now)
                    (λ _. written) s (times a)
                    (λ _ t e.
                      subst (λ u. IsTrading d (written u).1) (sym e)
                        (update_rule d (λ x. x.id) (with_update input) a i s.auctions
                          (λ y.
                            IsTrading d
                              (or_throw y.0 Error.auction_not_found
                                (record s { auctions = y.1 })).1)
                          h.1.auctions m (==→eq a.id i t')
                          (λ o k r.
                            returned o (record s { auctions = k })
                              (
                                same_stakes k
                                    (λ u.
                                      nothing_closed u s.bids s.auctions k
                                        (λ j. closed_same j r refl refl))
                                    h.0,
                                restated-IsMarket h.1 r refl refl (λ x. h.1.running a m x) (λ p. p),
                              ))))
                    (λ _ t e. subst (IsTrading d) (sym e) h))
                h)
            h)
        h
    where
      written : Action Auction
      written = write_update d i input >>= λ o. or_throw o Error.auction_not_found

      returned :
          (o : Option Auction) (u : Database)
          → IsTrading d u
          → IsTrading d (or_throw o Error.auction_not_found u).1
      returned none u q = q
      returned (some a) u q = q

      timed : Auction → Action Auction
      timed a = check_new_times d input a now >> written

      idle : Auction → Action Auction
      idle a = throw_if (not (is_pending_auction a.status)) Error.auction_not_pending >> timed a

      owned : Auction → Action Auction
      owned a = throw_if (not (a.seller_id == seller)) Error.auction_forbidden >> idle a

      times : (a : Auction) → Reads s (check_new_times d input a now s)
      times a =
          if_cases (λ (m : Action (Unit {0})). Reads s (m s))
            (is_some input.start_time || is_some input.end_time)
            (validate_times now (or_else input.start_time a.start_time)
              (or_else input.end_time a.end_time))
            (pure tt)
            (λ _.
              validate_times-Reads now (or_else input.start_time a.start_time)
                (or_else input.end_time a.end_time))
            (λ _. refl)
