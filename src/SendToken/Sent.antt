-- ===== src/SendToken/Sent.antt =====
-- src/transaction/services/transaction.service.ts, lines 334 to 437: what a token that was sent leaves.
use mathlib.Core.Path.{ap₂, subst}
use nestjs_ex.ChatHelper.Frame.{
  SameWorld, get_by_id-At, get_network_fee_by_level-At, is_shared_networks-At, kept,
}
use nestjs_ex.Entities.{
  Fee, Transaction, TransactionStatus, UserToken, UserWallet, WalletJob, member_status_eq,
}
use nestjs_ex.Network.{get_network_fee_by_level, get_network_fee_symbol, is_shared_networks}
use nestjs_ex.Network.Found.{get_by_id-ok}
use nestjs_ex.Prelude.{
  Bool, Has, Option, String, [], arith, find_first-Has, nat_beq_iff, nat_eq, refl, sym, text_eq,
  true, ℕ, ◌&&◌, ◌++◌, ◌==◌, ◌∙◌, ◌∷◌, ◌≡◌,
}
use nestjs_ex.RedPacket.{find_user_wallet_by_address_and_user_id, get_token_by_id, save_transaction}
use nestjs_ex.SendToken.{
  SendTokenInput, check_send_token, send_token_transaction, wallet_job, withdrawal,
}
use nestjs_ex.Store.{insert}
use nestjs_ex.World.{Env, Exec, World, modify, ok, pure, ◌>>=◌, ◌>>◌}
use nestjs_ex.World.Laws.{At, At-bind, At-pure}
use nestjs_ex.World.Outcome.{
  bind-ok, gets-bind-ok, guard-bind-ok, need-bind-ok, need-ok, pure-ok, same_outcome,
}

-- The transaction of the caller's wallet, and the job that names it.
pub record IsWithdrawn (user_id : ℕ) (input : SendTokenInput) (w v : World) (out : Transaction)
    : Type 0 where
  pub paid : Transaction
  pub shown : out ≡ record paid { amount = input.amount }
  pub wallet : UserWallet
  pub stored : Has wallet w.wallets.rows
  pub own : wallet.user_id ≡ user_id
  pub shared : is_shared_networks wallet.network_id input.network_id w ≡ (ok true, w)
  pub transactions : v.transactions.rows ≡ w.transactions.rows ++ paid ∷ []
  pub pending : paid.transaction_status ≡ TransactionStatus.pending
  pub payer : (paid.user_id ≡ user_id) × (paid.user_wallet_id ≡ wallet.id)
  pub receiver : paid.to_address ≡ input.to_address
  pub job : WalletJob
  pub wallet_queue : v.wallet_queue ≡ w.wallet_queue ++ job ∷ []
  pub names : job.transaction_id ≡ paid.id
  pub chat_queue : v.chat_queue ≡ w.chat_queue

and_right : (a b : Bool) → (a && b) ≡ true → b ≡ true
and_right a b h = ground arith

-- The checks found a wallet of the caller whose network is shared with that of the request.
abbrev MaySend : ℕ → SendTokenInput → UserWallet → World → Type 0
MaySend user_id input wallet w =
    Has wallet w.wallets.rows
    × (wallet.user_id ≡ user_id)
    × (is_shared_networks wallet.network_id input.network_id w ≡ (ok true, w))

check_send_token-ok :
    (user_id : ℕ) (input : SendTokenInput) (w v : World) (wallet : UserWallet)
    → check_send_token user_id input w ≡ (ok wallet, v)
    → MaySend user_id input wallet w × (v ≡ w)
unfolding check_send_token find_user_wallet_by_address_and_user_id
check_send_token-ok user_id input w v wallet h =
    let (x, ex, h1) = need-bind-ok _ _ _ w v wallet (gets-bind-ok _ _ w v wallet h) in
    let (stored, fits) = find_first-Has _ w.wallets.rows x ex in
    let (_, u, hn, h2) = bind-ok _ _ w v wallet h1 in
    let (_, u_is) = get_by_id-ok input.network_id w u _ hn in
    let (_, u1, hm, h3) = bind-ok _ _ u v wallet h2 in
    let (_, u1_is) = get_by_id-ok x.network_id u u1 _ hm in
    let start : u1 ≡ w = u1_is ∙ u_is in
    let (can, u2, hs, h4) = bind-ok _ _ u1 v wallet h3 in
    let u2_is : u2 ≡ u1 = kept _ u1 u2 can (is_shared_networks-At {F = SameWorld} _ _) hs in
    let (granted, h5) = guard-bind-ok _ _ _ u2 v wallet h4 in
    let (_, h6) = guard-bind-ok _ _ _ u2 v wallet (gets-bind-ok _ _ u2 v wallet h5) in
    let (x_is, v_is) = pure-ok x wallet u2 v h6 in
    let shared : is_shared_networks x.network_id input.network_id w ≡ (ok true, w) =
      subst (λ z. is_shared_networks x.network_id input.network_id z ≡ (ok true, z)) start
        (hs ∙ ap₂ (λ c z. (ok c, z)) granted u2_is) in
    (
      subst (λ z. MaySend user_id input z w) x_is
          (
            stored,
            (nat_beq_iff x.user_id user_id).0 (and_right _ (x.user_id == user_id) fits),
            shared,
          ),
      v_is ∙ u2_is ∙ start,
    )

get_network_fee_symbol-At : {w : World} (id : ℕ) → At SameWorld w (get_network_fee_symbol id)
unfolding get_network_fee_symbol
get_network_fee_symbol-At id = At-bind _ _ (get_by_id-At id) λ n u. At-pure _

abbrev after_paying :
    ℕ → SendTokenInput → UserWallet → UserToken → Fee → Option String → World → World
after_paying user_id input wallet token fee symbol w = record w {
  transactions = insert (withdrawal input user_id wallet token w.env) w.transactions;
  wallet_queue = w.wallet_queue ++ wallet_job input token fee symbol w.transactions.next_id ∷ [];
}

withdrawn :
    (user_id : ℕ) (input : SendTokenInput) (wallet : UserWallet) (token : UserToken) (fee : Fee)
    (symbol : Option String) (w : World)
    → MaySend user_id input wallet w
    → IsWithdrawn user_id input w
        (after_paying user_id input wallet token fee symbol w)
        (record (withdrawal input user_id wallet token w.env w.transactions.next_id) {
          amount = input.amount;
        })
withdrawn user_id input wallet token fee symbol w may = record {
  paid = withdrawal input user_id wallet token w.env w.transactions.next_id;
  shown = refl;
  wallet = wallet;
  stored = may.0;
  own = may.1;
  shared = may.2;
  transactions = refl;
  pending = refl;
  payer = (refl, refl);
  receiver = refl;
  job = wallet_job input token fee symbol w.transactions.next_id;
  wallet_queue = refl;
  names = refl;
  chat_queue = refl;
}

get_token_by_id-ok :
    (id : ℕ) (w v : World) (token : UserToken) → get_token_by_id id w ≡ (ok token, v) → v ≡ w
unfolding get_token_by_id
get_token_by_id-ok id w v token h = (need-ok _ _ w v token (gets-bind-ok _ _ w v token h)).1

-- The method after its reads.
abbrev pay :
    ℕ → SendTokenInput → UserWallet → UserToken → Fee → Option String → Env → Exec Transaction
pay user_id input wallet token fee symbol env = do
  paid ← save_transaction (withdrawal input user_id wallet token env)
  modify (λ w. record w {
    wallet_queue = w.wallet_queue ++ wallet_job input token fee symbol paid.id ∷ [];
  })
  pure (record paid { amount = input.amount })

pay-ok :
    (user_id : ℕ) (input : SendTokenInput) (wallet : UserWallet) (token : UserToken) (fee : Fee)
    (symbol : Option String) (w v : World) (out : Transaction)
    → pay user_id input wallet token fee symbol w.env w ≡ (ok out, v)
    → (record (withdrawal input user_id wallet token w.env w.transactions.next_id) {
      amount = input.amount;
    }
        ≡ out)
      × (v ≡ after_paying user_id input wallet token fee symbol w)
unfolding save_transaction ◌>>=◌
pay-ok user_id input wallet token fee symbol w v out h = same_outcome h

-- Where `sendTokenTransaction` returns, the caller has a wallet on a network that is shared with that of the
-- request; one pending transaction of that wallet to the address of the request is added, and one job of the wallet
-- queue that names it; the chat queue stays. The answer is that transaction with the amount of the request.
pub send_token_transaction-ok :
    (user_id : ℕ) (input : SendTokenInput) (w v : World) (out : Transaction)
    → send_token_transaction user_id input w ≡ (ok out, v)
    → IsWithdrawn user_id input w v out
unfolding send_token_transaction
send_token_transaction-ok user_id input w v out h =
    let (wallet, u, hc, h1) = bind-ok (check_send_token user_id input) _ w v out h in
    let (may, u_is) = check_send_token-ok user_id input w u wallet hc in
    let (token, u1, ht, h2) = bind-ok (get_token_by_id input.token_id) _ u v out h1 in
    let u1_is : u1 ≡ u = get_token_by_id-ok input.token_id u u1 token ht in
    let (fee, u2, hf, h3) =
      bind-ok (get_network_fee_by_level input.network_id input.fee_level) _ u1 v out h2 in
    let u2_is : u2 ≡ u1 = kept _ u1 u2 fee (get_network_fee_by_level-At {F = SameWorld} _ _) hf in
    let (symbol, u3, hy, h4) = bind-ok (get_network_fee_symbol input.network_id) _ u2 v out h3 in
    let u3_is : u3 ≡ u2 = kept _ u2 u3 symbol (get_network_fee_symbol-At _) hy in
    let start : u3 ≡ w = u3_is ∙ u2_is ∙ u1_is ∙ u_is in
    let (out_is, v_is) =
      pay-ok user_id input wallet token fee symbol u3 v out (gets-bind-ok _ _ u3 v out h4) in
    let made =
      withdrawn user_id input wallet token fee symbol u3
        (subst (λ z. MaySend user_id input wallet z) (sym start) may) in
    subst (λ z. IsWithdrawn user_id input z v out) start
      (subst (λ z. IsWithdrawn user_id input u3 z out) (sym v_is)
        (subst
          (λ z.
            IsWithdrawn user_id input u3 (after_paying user_id input wallet token fee symbol u3) z)
          out_is made))
