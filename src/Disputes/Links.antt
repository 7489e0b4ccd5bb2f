-- ===== src/Disputes/Links.antt =====
-- The tie between the disputes and the escrows: an active dispute has its escrow DISPUTED, and no
-- other active dispute has that escrow.
use mazadak_backend.Base.{
  ℕ, ◌≡◌, sym, ap, ◌∙◌, subst, true, false, ◌⊎◌, inl, inr, List, map, Unique, Unique-eq, Replaced,
  Replaced-Memᴰ, Replaced-Memᴰ_new, Replaced-Memᴰ_old, Replaced-Memᴰ_kept, map-Replaced, Inserted,
  Inserted-Memᴰ,
}
use mathlib.Core.List.{Memᴰ}
use mazadak_backend.Database.{Dispute, Escrow, held, disputed}
use mazadak_backend.Disputes.{is_active}
use mazadak_backend.Escrow.{is_held}

pub record IsActiveIn (c : Dispute) (cs : List Dispute) : Type 0 where
  pub stored : Memᴰ c cs
  pub active : is_active c.status ≡ true

pub record HasDisputed (i : ℕ) (es : List Escrow) : Type 0 where
  pub escrow : Escrow
  pub stored : Memᴰ escrow es
  pub same_id : escrow.id ≡ i
  pub status : escrow.status ≡ disputed

pub record Links (cs : List Dispute) (es : List Escrow) : Type 0 where
  pub linked : (c : Dispute) → IsActiveIn c cs → HasDisputed c.escrow_id es
  pub single :
      (b c : Dispute) → IsActiveIn b cs → IsActiveIn c cs → b.escrow_id ≡ c.escrow_id → b ≡ c

-- The keys of both collections.
pub record Keys (cs : List Dispute) (es : List Escrow) : Type 0 where
  pub disputes : Unique (map (λ c. c.id) cs)
  pub escrows : Unique (map (λ e. e.id) es)

held≢disputed : (e : Escrow) → e.status ≡ held → e.status ≡ disputed → ⊥
held≢disputed e h k = absurd (apart (sym (ap is_held h) ∙ ap is_held k))
  where
    apart : true ≡ false → ⊥
    apart p = cc p

module _ {cs : List Dispute} {es : List Escrow} (k : Keys cs es) (l : Links cs es) where
  -- A DISPUTED escrow stays so when a HELD one changes.
  keep_disputed :
      {e e' : Escrow} {es' : List Escrow} (i : ℕ)
      → Replaced e e' es es'
      → e.status ≡ held
      → HasDisputed i es
      → HasDisputed i es'
  keep_disputed {e} i r h a = elim (Replaced-Memᴰ_kept r a.stored) [
    | inl q ↦ absurd (held≢disputed e h (ap (λ (x : Escrow). x.status) (sym q) ∙ a.status))
    | inr m ↦ record { escrow = a.escrow; stored = m; same_id = a.same_id; status = a.status }
  ]

  pub Links-held :
      {e e' : Escrow} {es' : List Escrow} → Replaced e e' es es' → e.status ≡ held → Links cs es'
  Links-held r h = record {
    linked = λ c a. keep_disputed c.escrow_id r h (l.linked c a);
    single = l.single;
  }

  -- A HELD escrow has no active dispute.
  no_active :
      (c : Dispute) (e : Escrow)
      → IsActiveIn c cs
      → Memᴰ e es
      → e.status ≡ held
      → c.escrow_id ≡ e.id
      → ⊥
  no_active c e a m h q =
      let b = l.linked c a in
      held≢disputed e h (
        ap (λ (x : Escrow). x.status)
          (Unique-eq (λ x. x.id) e b.escrow es k.escrows m b.stored (sym q ∙ sym b.same_id))
        ∙ b.status)

  pub Links-opened :
      {c : Dispute} {cs' : List Dispute} {e e' : Escrow} {es' : List Escrow}
      → Inserted c cs cs'
      → Replaced e e' es es'
      → e.status ≡ held
      → c.escrow_id ≡ e.id
      → e'.id ≡ e.id
      → e'.status ≡ disputed
      → Links cs' es'
  Links-opened {c} {cs'} {e} {e'} {es'} n r h q i t = record { linked = linked; single = single }
    where
      linked : (b : Dispute) → IsActiveIn b cs' → HasDisputed b.escrow_id es'
      linked b a = elim (Inserted-Memᴰ n a.stored) [
        | inl p ↦ record {
          escrow = e';
          stored = Replaced-Memᴰ_new r;
          same_id = i ∙ sym q ∙ ap (λ (x : Dispute). x.escrow_id) (sym p);
          status = t;
        }
        | inr m ↦
            keep_disputed b.escrow_id r h (l.linked b (record { stored = m; active = a.active }))
      ]

      alone : (b : Dispute) → Memᴰ b cs → is_active b.status ≡ true → b.escrow_id ≡ c.escrow_id → ⊥
      alone b m a p = no_active b e (record { stored = m; active = a }) (Replaced-Memᴰ r) h (p ∙ q)

      single :
          (a b : Dispute) → IsActiveIn a cs' → IsActiveIn b cs' → a.escrow_id ≡ b.escrow_id → a ≡ b
      single a b u v p = elim (Inserted-Memᴰ n u.stored) [
        | inl x ↦ elim (Inserted-Memᴰ n v.stored) [
          | inl y ↦ x ∙ sym y
          | inr m ↦ absurd (alone b m v.active (sym p ∙ ap (λ (z : Dispute). z.escrow_id) x))
        ]
        | inr m ↦ elim (Inserted-Memᴰ n v.stored) [
          | inl y ↦ absurd (alone a m u.active (p ∙ ap (λ (z : Dispute). z.escrow_id) y))
          | inr m' ↦
              l.single a b (record { stored = m; active = u.active })
                (record { stored = m'; active = v.active }) p
        ]
      ]

  module _ {c c' : Dispute} {cs' : List Dispute} (r : Replaced c c' cs cs') (same : c'.id ≡ c.id)
      (active : is_active c.status ≡ true) where
    -- A dispute of the new list is the new one, or an old one with another escrow.
    other :
        (b : Dispute)
        → IsActiveIn b cs'
        → (b ≡ c') ⊎ (IsActiveIn b cs × ((b.escrow_id ≡ c.escrow_id) → b ≡ c'))
    other b a = elim (Replaced-Memᴰ_old r a.stored) [
      | inl e ↦ inl e
      | inr m ↦ inr (
        record { stored = m; active = a.active },
        λ q.
            Unique-eq (λ x. x.id) b c' cs'
              (subst Unique (sym (map-Replaced (λ x. x.id) r same)) k.disputes) a.stored
              (Replaced-Memᴰ_new r)
              (ap (λ (x : Dispute). x.id)
                  (l.single b c (record { stored = m; active = a.active })
                    (record { stored = Replaced-Memᴰ r; active = active }) q)
                ∙ sym same),
      )
    ]

    pub Links-updated : c'.escrow_id ≡ c.escrow_id → Links cs' es
    Links-updated q = record { linked = linked; single = single }
      where
        old : IsActiveIn c cs
        old = record { stored = Replaced-Memᴰ r; active = active }

        linked : (b : Dispute) → IsActiveIn b cs' → HasDisputed b.escrow_id es
        linked b a = elim (other b a) [
          | inl e ↦
              subst (λ i. HasDisputed i es) (sym (ap (λ (x : Dispute). x.escrow_id) e ∙ q))
                (l.linked c old)
          | inr h ↦ l.linked b h.0
        ]

        single :
            (a b : Dispute)
            → IsActiveIn a cs'
            → IsActiveIn b cs'
            → a.escrow_id ≡ b.escrow_id
            → a ≡ b
        single a b u v p = elim (other a u) [
          | inl x ↦ elim (other b v) [
            | inl y ↦ x ∙ sym y
            | inr y ↦ x ∙ sym (y.1 (sym p ∙ ap (λ (z : Dispute). z.escrow_id) x ∙ q))
          ]
          | inr x ↦ elim (other b v) [
            | inl y ↦ x.1 (p ∙ ap (λ (z : Dispute). z.escrow_id) y ∙ q) ∙ sym y
            | inr y ↦ l.single a b x.0 y.0 p
          ]
        ]

    -- Once the dispute is closed, its escrow may have any status.
    pub Links-closed :
        {e e' : Escrow} {es' : List Escrow}
        → is_active c'.status ≡ false
        → Replaced e e' es es'
        → e.id ≡ c.escrow_id
        → Links cs' es'
    Links-closed {e} {e'} {es'} f re i = record { linked = linked; single = single }
      where
        closed : {X : Type 0} (b : Dispute) → IsActiveIn b cs' → b ≡ c' → X
        closed b a p =
            absurd (apart (sym a.active ∙ ap (λ (x : Dispute). is_active x.status) p ∙ f))
          where
            apart : true ≡ false → ⊥
            apart q = cc q

        linked : (b : Dispute) → IsActiveIn b cs' → HasDisputed b.escrow_id es'
        linked b a = elim (other b a) [
          | inl p ↦ closed b a p
          | inr h ↦
              let t = l.linked b h.0 in
              elim (Replaced-Memᴰ_kept re t.stored) [
                | inl p ↦ closed b a (h.1 (sym t.same_id ∙ ap (λ (x : Escrow). x.id) p ∙ i))
                | inr m ↦ record {
                  escrow = t.escrow;
                  stored = m;
                  same_id = t.same_id;
                  status = t.status;
                }
              ]
        ]

        single :
            (a b : Dispute)
            → IsActiveIn a cs'
            → IsActiveIn b cs'
            → a.escrow_id ≡ b.escrow_id
            → a ≡ b
        single a b u v p = elim (other a u) [
          | inl x ↦ closed a u x
          | inr x ↦ elim (other b v) [ inl y ↦ closed b v y | inr y ↦ l.single a b x.0 y.0 p ]
        ]
