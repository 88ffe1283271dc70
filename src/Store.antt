-- ===== src/Store.antt =====
-- A database table as the services use it through TypeORM: rows in the order of their primary key,
-- which AUTO_INCREMENT hands out, `save` of a new row, and `save` or `update` of a row that was read.
pub mod Keyed
pub mod Finding
use nestjs_ex.Prelude.{Bool, List, [], arith, if◌then◌else◌, length, refl, suc, ℕ, ◌++◌, ◌∷◌, ◌≡◌}

pub record Table (A : Type 0) : Type 0 where
  pub rows : List A
  pub next_id : ℕ

-- INSERT: the row is built from the key that the table assigns.
abbrev pub insert : {A : Type 0} → (ℕ → A) → Table A → Table A
insert mk t = record { rows = t.rows ++ mk t.next_id ∷ []; next_id = suc t.next_id }

-- Every row that meets the test is rewritten.
unfoldable pub update_where : {A : Type 0} → (A → Bool) → (A → A) → List A → List A
update_where p f [] = []
update_where p f (x ∷ xs) = (if p x then f x else x) ∷ update_where p f xs

abbrev pub update_rows : {A : Type 0} → (A → Bool) → (A → A) → Table A → Table A
update_rows p f t = record { rows = update_where p f t.rows; next_id = t.next_id }

pub length-update_where :
    {A : Type 0} (p : A → Bool) (f : A → A) (xs : List A) → length (update_where p f xs) ≡ length xs
unfolding update_where
length-update_where p f [] = refl
length-update_where p f (x ∷ xs) = omega (arith, length-update_where p f xs)
