-- ===== src/Tests/Vaults.antt =====
-- The theorems on vaults and orders, at small amounts.
use starkex_data_availabilit.Prelude.{◌≤◌, ◌≡◌, ◌⊎◌, refl, arith, true, false}
use starkex_data_availabilit.Prelude.Int.{pos, negsuc, ◌+ℤ◌, leb_int}
use starkex_data_availabilit.Errors.{out_of_range_balance, invalid_vault, returned, raised}
use starkex_data_availabilit.Objects.{
  in_range, VaultUpdateData, VaultState, vault, make_vault, check_update, add, OrderUpdateData,
  OrderState, make_order, add_order,
}
use starkex_data_availabilit.Objects.Vault.{IsVault, add-IsVault}
use starkex_data_availabilit.Objects.Undo.{opposite, add-opposite}
use starkex_data_availabilit.Objects.Raises.{Mismatch, add-raised}
use starkex_data_availabilit.Objects.Order.{IsOrder, add_order_bounds}

-- All of the balance of a vault is taken out.
abbrev full_vault : VaultState
full_vault = vault (pos 5) (pos 7) (pos 3)

abbrev emptied_vault : VaultState
emptied_vault = vault (pos 0) (pos 0) (pos 0)

abbrev take_all : VaultUpdateData
take_all = record { vault_id = pos 1; stark_key = pos 5; token = pos 7; diff = negsuc 2 }

full_vault-IsVault : IsVault full_vault
full_vault-IsVault = record {
  amount = 3;
  balance_eq = refl;
  small = omega arith;
  empty = λ e. absurd (omega (arith, e));
  full = λ _. ((λ e. cc e), (λ e. cc e));
}

take_all-returned : add full_vault take_all ≡ returned emptied_vault
unfolding add check_update make_vault
take_all-returned = refl

add-IsVault_example : IsVault emptied_vault × (pos 0 ≡ pos 3 +ℤ negsuc 2)
add-IsVault_example = add-IsVault full_vault emptied_vault take_all take_all-returned

add-opposite_example : add emptied_vault (opposite take_all) ≡ returned full_vault
add-opposite_example =
    add-opposite full_vault emptied_vault take_all full_vault-IsVault take_all-returned

-- An update with another key.
abbrev wrong_key : VaultUpdateData
wrong_key = record { vault_id = pos 1; stark_key = pos 6; token = pos 7; diff = negsuc 2 }

wrong_key-raised : add full_vault wrong_key ≡ raised invalid_vault
unfolding add check_update make_vault
wrong_key-raised = refl

add-raised_example :
    ((invalid_vault ≡ out_of_range_balance) × (in_range (pos 3 +ℤ negsuc 2) ≡ false))
    ⊎ ((invalid_vault ≡ invalid_vault) × Mismatch full_vault wrong_key)
add-raised_example = add-raised full_vault wrong_key invalid_vault wrong_key-raised

abbrev an_order : OrderState
an_order = record { fulfilled_amount = pos 4 }

abbrev fulfilled_order : OrderState
fulfilled_order = record { fulfilled_amount = pos 10 }

abbrev fill_rest : OrderUpdateData
fill_rest = record { tree_index = pos 0; diff = pos 6; capacity = pos 10 }

abbrev an_order-IsOrder : IsOrder an_order
an_order-IsOrder = record { amount = 4; amount_eq = refl; small = omega arith }

fill_rest-returned : add_order an_order fill_rest ≡ returned fulfilled_order
unfolding add_order make_order
fill_rest-returned = refl

add_order_bounds_example :
    (w : IsOrder fulfilled_order) × (4 ≤ w.amount)
    × (pos 10 ≡ pos 4 +ℤ pos 6)
    × (leb_int (pos 10) (pos 10) ≡ true)
add_order_bounds_example =
    add_order_bounds an_order fulfilled_order fill_rest an_order-IsOrder fill_rest-returned
