-- ===== src/UserWallets.antt =====
-- src/user-wallet/services/user-wallet.service.ts, lines 197 to 225: the network of a wallet.
use nestjs_ex.Entities.{UserWallet}
use nestjs_ex.Network.{get_by_id}
use nestjs_ex.Prelude.{find_first, nat_eq, ℕ, ◌==◌}
use nestjs_ex.Store.{update_rows}
use nestjs_ex.World.{Exec, gets, need, ok, wallet_not_found, ◌>>=◌, ◌>>◌}

-- `ChangeNetworkInput`
pub record ChangeNetworkInput : Type 0 where
  pub network_id : ℕ
  pub wallet_id : ℕ

abbrev pub moved_wallet : UserWallet → ℕ → ℕ → UserWallet
moved_wallet wallet network_id now = record wallet { network_id = network_id; updated_at = now }

-- `repository.save` of a row that is there
unfoldable pub update_wallet : UserWallet → Exec UserWallet
update_wallet wallet w =
    (ok wallet, record w { wallets = update_rows (λ x. x.id == wallet.id) (λ x. wallet) w.wallets })

-- `changeNetwork`; the id of the user is only passed on to it.
unfoldable pub change_network : ℕ → ChangeNetworkInput → Exec UserWallet
change_network user_id input = do
  found ← gets (λ w. find_first (λ x. x.id == input.wallet_id) w.wallets.rows)
  wallet ← need found wallet_not_found
  get_by_id input.network_id
  now ← gets (λ w. w.env.now)
  update_wallet (moved_wallet wallet input.network_id now)
