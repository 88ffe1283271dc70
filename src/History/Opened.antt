-- ===== src/History/Opened.antt =====
-- What the detail of a stored transaction shows, and that there is one.
use mathlib.Core.Path.{subst}
use nestjs_ex.Entities.{Network, Transaction, member_status_eq}
use nestjs_ex.History.{title_key}
use nestjs_ex.History.Detail.{
  HistoryDetail, completed_detail, get_transaction_history_detail,
  get_transaction_history_detail_sql, head, is_sent, joined, title_of_sent,
}
use nestjs_ex.History.Parts.{status_of_transaction}
use nestjs_ex.Prelude.{
  All, All-concat_map, All-map, All-of, All-select, Has, Has-select, List, Option-cases, [], ap,
  concat_map, find_first, find_first-Has, find_first-eq-none, inl, inr, left_join, map, nat_eq,
  refl, select, select-Has, some, sym, text_eq, ℕ, ◌++◌, ◌==◌, ◌∙◌, ◌∷◌, ◌≡◌,
}
use nestjs_ex.Store.Keyed.{Keyed, Keyed-unique}
use nestjs_ex.World.{World, gets, history_detail_not_found, ok, transaction_not_found, ◌>>=◌}
use nestjs_ex.World.Running.{need-bind-run}

-- The rows of a query that is not empty.
abbrev IsFull : {A : Type 0} → List A → Type 0
IsFull [] = ⊥
IsFull (x ∷ xs) = Unit

module _ {A : Type 0} where
  Has-IsFull : (x : A) (xs : List A) → Has x xs → IsFull xs
  Has-IsFull x [] m = m
  Has-IsFull x (y ∷ ys) m = tt

  left_join-IsFull : (xs : List A) → IsFull (left_join xs)
  unfolding left_join
  left_join-IsFull [] = tt
  left_join-IsFull (x ∷ xs) = tt

  append-IsFull : (xs ys : List A) → IsFull xs → IsFull (xs ++ ys)
  append-IsFull [] ys h = absurd h
  append-IsFull (x ∷ xs) ys h = tt

module _ {A B : Type 0} where
  map-IsFull : (f : A → B) (xs : List A) → IsFull xs → IsFull (map f xs)
  map-IsFull f [] h = h
  map-IsFull f (x ∷ xs) h = tt

  concat_map-IsFull :
      (f : A → List B) (xs : List A)
      → ((x : A) → Has x xs → IsFull (f x))
      → IsFull xs
      → IsFull (concat_map f xs)
  unfolding concat_map
  concat_map-IsFull f [] g h = h
  concat_map-IsFull f (x ∷ xs) g h = append-IsFull (f x) (concat_map f xs) (g x (inl refl))

-- What the detail of a transaction shows, whatever the joins find.
abbrev pub Shows : ℕ → Transaction → HistoryDetail → Type 0
Shows user_id t d =
    (d.title ≡ title_of_sent (is_sent user_id t))
    × (d.status ≡ some (status_of_transaction t.transaction_status))
    × (d.created_at ≡ t.created_at)

head-All :
    (P : HistoryDetail → Type 0) (ds : List HistoryDetail)
    → IsFull ds
    → All P ds
    → (d : HistoryDetail) × (head ds ≡ some d) × P d
head-All P [] h a = absurd h
head-All P (d ∷ ds) h (p, a) = (d, refl, p)

module _ (user_id : ℕ) (w : World) (t : Transaction) where
  joined-Shows : (n : Network) → All (Shows user_id t) (joined user_id (is_sent user_id t) w t n)
  joined-Shows n =
      All-concat_map (λ b. Unit) _ _ _
        (λ b x.
          All-concat_map (λ uc. Unit) _ _ _
            (λ uc y.
              All-concat_map (λ uw. Unit) _ _ _
                (λ uw z.
                  All-map (λ u. Unit) _ _ _ (λ u a. (refl, refl, refl)) (All-of _ _ λ u m. tt))
                (All-of _ _ λ uw m. tt))
            (All-of _ _ λ uc m. tt))
        (All-of _ _ λ b m. tt)

  joined-IsFull : (n : Network) → IsFull (joined user_id (is_sent user_id t) w t n)
  joined-IsFull n =
      concat_map-IsFull _ _
        (λ b mb.
          concat_map-IsFull _ _
            (λ uc mc.
              concat_map-IsFull _ _ (λ uw mw. map-IsFull _ _ (left_join-IsFull _))
                (left_join-IsFull _))
            (left_join-IsFull _))
        (left_join-IsFull _)

-- A stored row is found by its key.
find_first-Keyed :
    (n : ℕ) (rows : List Transaction) (t : Transaction)
    → Keyed (λ (x : Transaction). x.id) n rows
    → Has t rows
    → find_first (λ x. x.id == t.id) rows ≡ some t
find_first-Keyed n rows t keyed m =
    elim (Option-cases (find_first (λ (x : Transaction). x.id == t.id) rows)) [
      | inl lost ↦
          let miss = find_first-eq-none _ rows t lost m in
          absurd (cc (sym ((nat_eq.same_iff t.id t.id).1 refl) ∙ miss))
      | inr (x, e) ↦
          let (mx, ex) = find_first-Has _ rows x e in
          e ∙ ap some (Keyed-unique _ n rows x t keyed mx m ((nat_eq.same_iff x.id t.id).0 ex))
    ]

module _ (user_id : ℕ) (w : World) (t : Transaction) (n : Network) where
  detail_rows-Shows :
      (k : ℕ)
      → Keyed (λ (x : Transaction). x.id) k w.transactions.rows
      → Has t w.transactions.rows
      → All
          (Shows user_id t)
          (get_transaction_history_detail_sql t.id (is_sent user_id t) user_id w)
  unfolding get_transaction_history_detail_sql
  detail_rows-Shows k keyed m =
      All-concat_map (λ x. x ≡ t) _ _ _
        (λ x same.
          subst
            (λ y. All (Shows user_id t) (
              concat_map (joined user_id (is_sent user_id t) w y)
                (select (λ z. z.id == y.network_id) w.networks)))
            (sym same)
            (All-concat_map (λ z. Unit) _ _ _ (λ z u. joined-Shows user_id w t z)
              (All-of _ _ λ z h. tt)))
        (All-select (λ x. Has x w.transactions.rows) (λ x. x ≡ t) _ _
          (λ x mx h.
            Keyed-unique _ k w.transactions.rows x t keyed mx m ((nat_eq.same_iff x.id t.id).0 h))
          (All-of _ w.transactions.rows λ x mx. mx))

  detail_rows-IsFull :
      (k : ℕ)
      → Keyed (λ (x : Transaction). x.id) k w.transactions.rows
      → Has t w.transactions.rows
      → Has n w.networks
      → n.id ≡ t.network_id
      → IsFull (get_transaction_history_detail_sql t.id (is_sent user_id t) user_id w)
  unfolding get_transaction_history_detail_sql
  detail_rows-IsFull k keyed m mn same =
      concat_map-IsFull _ _
        (λ x mx.
          let (stored, h) = Has-select _ w.transactions.rows x mx in
          let x_is =
            Keyed-unique (λ (z : Transaction). z.id) k w.transactions.rows t x keyed m stored
              (sym ((nat_eq.same_iff x.id t.id).0 h)) in
          subst
            (λ y. IsFull (
              concat_map (joined user_id (is_sent user_id t) w y)
                (select (λ z. z.id == y.network_id) w.networks)))
            x_is
            (concat_map-IsFull _ _ (λ z mz. joined-IsFull user_id w t z)
              (Has-IsFull n _
                (select-Has _ w.networks n mn ((nat_eq.same_iff n.id t.network_id).1 same)))))
        (Has-IsFull t _ (select-Has _ w.transactions.rows t m ((nat_eq.same_iff t.id t.id).1 refl)))

  pub get_transaction_history_detail-run :
      (k : ℕ)
      → Keyed (λ (x : Transaction). x.id) k w.transactions.rows
      → Has t w.transactions.rows
      → Has n w.networks
      → n.id ≡ t.network_id
      → (d : HistoryDetail) × (get_transaction_history_detail user_id t.id w
          ≡ (ok (completed_detail w d, title_key d.title), w))
        × Shows user_id t d
  unfolding get_transaction_history_detail gets ◌>>=◌
  get_transaction_history_detail-run k keyed m mn same =
      let (d, first, shows) =
        head-All (Shows user_id t) _ (detail_rows-IsFull k keyed m mn same)
          (detail_rows-Shows k keyed m) in
      (
        d,
        need-bind-run _ transaction_not_found _ t w (find_first-Keyed k _ t keyed m)
            ∙ need-bind-run _ history_detail_not_found _ d w first,
        shows,
      )
