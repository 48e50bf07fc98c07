-- ===== src/Errors.antt =====
-- src/starkware/starkware_utils/error_handling.py: results with error codes, and the assertions that
-- raise them. The messages are left out.
use starkex_data_availabilit.Prelude.{◌≡◌, ◌⊎◌, inl, inr, refl, Bool, true, false, not, Eq, ◌==◌}
use starkex_data_availabilit.Prelude.Int.{ℤ, ltb_int}

pub data StarkErrorCode : Type 0 where
  api_function_temporarily_disabled : StarkErrorCode
  batch_creation_failure : StarkErrorCode
  batch_full : StarkErrorCode
  batch_not_ready : StarkErrorCode
  batch_aborted : StarkErrorCode
  connection_error : StarkErrorCode
  duplicate_order : StarkErrorCode
  fact_not_registered : StarkErrorCode
  empty_transactions_list_in_multi_transaction : StarkErrorCode
  insufficient_onchain_balance : StarkErrorCode
  invalid_batch_id : StarkErrorCode
  invalid_claim_hash : StarkErrorCode
  invalid_committee_member : StarkErrorCode
  invalid_contract_address : StarkErrorCode
  invalid_deployment_info : StarkErrorCode
  invalid_eth_address : StarkErrorCode
  invalid_fact : StarkErrorCode
  invalid_fee_taken : StarkErrorCode
  invalid_batch_migration_info : StarkErrorCode
  invalid_multi_transaction : StarkErrorCode
  invalid_order_id : StarkErrorCode
  invalid_order_type : StarkErrorCode
  invalid_request : StarkErrorCode
  invalid_request_parameters : StarkErrorCode
  invalid_settlement_info : StarkErrorCode
  invalid_settlement_ratio : StarkErrorCode
  invalid_settlement_tokens : StarkErrorCode
  invalid_signature : StarkErrorCode
  invalid_token_type : StarkErrorCode
  invalid_transaction : StarkErrorCode
  invalid_transaction_id : StarkErrorCode
  invalid_vault : StarkErrorCode
  malformed_request : StarkErrorCode
  migrated_pipeline_object_missing : StarkErrorCode
  missing_blockchain_id : StarkErrorCode
  missing_endpoint_configuration : StarkErrorCode
  missing_fee_object : StarkErrorCode
  nested_multi_transaction : StarkErrorCode
  order_overdue : StarkErrorCode
  out_of_range_positive_amount : StarkErrorCode
  out_of_range_amount : StarkErrorCode
  out_of_range_balance : StarkErrorCode
  out_of_range_batch_id : StarkErrorCode
  out_of_range_eth_address : StarkErrorCode
  out_of_range_field_element : StarkErrorCode
  out_of_range_expiration_timestamp : StarkErrorCode
  out_of_range_nonce : StarkErrorCode
  out_of_range_oracle_price_quorum : StarkErrorCode
  out_of_range_order_id : StarkErrorCode
  out_of_range_public_key : StarkErrorCode
  out_of_range_signature_subfield : StarkErrorCode
  out_of_range_token_id : StarkErrorCode
  out_of_range_vault_id : StarkErrorCode
  replaced_before : StarkErrorCode
  request_failed : StarkErrorCode
  schema_validation_error : StarkErrorCode
  transaction_cancelled : StarkErrorCode
  transaction_pending : StarkErrorCode
  transaction_received : StarkErrorCode

-- The error codes of perpetual contracts, of services/perpetual/public/definitions/error_codes.py.
pub data StarkPerpetualErrorCode : Type 0 where
  illegal_position_transition_reducing_total_value_risk_ratio : StarkPerpetualErrorCode
  illegal_position_transition_no_risk_reduced_value : StarkPerpetualErrorCode
  invalid_asset_oracle_price : StarkPerpetualErrorCode
  invalid_collateral_asset_id : StarkPerpetualErrorCode
  invalid_fee_position_participation : StarkPerpetualErrorCode
  invalid_forced_transaction : StarkPerpetualErrorCode
  invalid_fulfillment_assets_ratio : StarkPerpetualErrorCode
  invalid_fulfillment_fee_ratio : StarkPerpetualErrorCode
  invalid_fulfillment_info : StarkPerpetualErrorCode
  invalid_funding_tick_rate : StarkPerpetualErrorCode
  invalid_funding_tick_timestamp : StarkPerpetualErrorCode
  invalid_liquidate : StarkPerpetualErrorCode
  invalid_order_assets : StarkPerpetualErrorCode
  invalid_order_is_buying_property : StarkPerpetualErrorCode
  invalid_public_key : StarkPerpetualErrorCode
  invalid_synthetic_asset_id : StarkPerpetualErrorCode
  invalid_tick_timestamp_distance_from_blockchain_time : StarkPerpetualErrorCode
  missing_global_funding_index : StarkPerpetualErrorCode
  missing_oracle_price : StarkPerpetualErrorCode
  missing_oracle_price_signed_in_time_range : StarkPerpetualErrorCode
  missing_signed_oracle_price : StarkPerpetualErrorCode
  missing_synthetic_asset_id : StarkPerpetualErrorCode
  out_of_range_asset_id : StarkPerpetualErrorCode
  out_of_range_asset_resolution : StarkPerpetualErrorCode
  out_of_range_collateral_asset_id : StarkPerpetualErrorCode
  out_of_range_contract_address : StarkPerpetualErrorCode
  out_of_range_external_price : StarkPerpetualErrorCode
  out_of_range_oracle_price_signed_asset_id : StarkPerpetualErrorCode
  out_of_range_fact : StarkPerpetualErrorCode
  out_of_range_funding_index : StarkPerpetualErrorCode
  out_of_range_funding_rate : StarkPerpetualErrorCode
  out_of_range_position_id : StarkPerpetualErrorCode
  out_of_range_price : StarkPerpetualErrorCode
  out_of_range_risk_factor : StarkPerpetualErrorCode
  out_of_range_timestamp : StarkPerpetualErrorCode
  out_of_range_total_risk : StarkPerpetualErrorCode
  out_of_range_total_value : StarkPerpetualErrorCode
  same_position_id : StarkPerpetualErrorCode
  system_time_decreasing : StarkPerpetualErrorCode
  too_many_synthetic_assets_in_position : StarkPerpetualErrorCode
  too_many_synthetic_assets_in_system : StarkPerpetualErrorCode
  transaction_received : StarkPerpetualErrorCode
  unfair_deleverage : StarkPerpetualErrorCode
  unassigned_position_funds : StarkPerpetualErrorCode
  undeleveragable_position : StarkPerpetualErrorCode
  unliquidatable_position : StarkPerpetualErrorCode

-- The two enums that stark_assert takes codes from.
pub data ErrorCode : Type 0 where
  stark : StarkErrorCode → ErrorCode
  perpetual : StarkPerpetualErrorCode → ErrorCode

-- What a call returns, or the code of the StarkException that it raises.
pub data Checked (E A : Type 0) : Type 0 where
  returned : A → Checked E A
  raised : E → Checked E A

infixl 5 ◌>>=◌ ◌>>◌
abbrev pub ◌>>=◌ : {E A B : Type 0} → Checked E A → (A → Checked E B) → Checked E B
returned a >>= f = f a
raised code >>= f = raised code

abbrev pub ◌>>◌ : {E A B : Type 0} → Checked E A → Checked E B → Checked E B
m >> k = m >>= λ _. k

module _ {E : Type 0} where
  abbrev pub stark_assert : Bool → E → Checked E (Unit {0})
  stark_assert true code = returned tt
  stark_assert false code = raised code

  -- `_stark_assert_not_symbol`, with the comparison made.
  abbrev pub stark_assert_not : Bool → E → Checked E (Unit {0})
  stark_assert_not compared code = stark_assert (not compared) code

  abbrev pub stark_assert_eq : {A : Type 0} ⦃keys : Eq A⦄ → A → A → E → Checked E (Unit {0})
  stark_assert_eq exp_val actual_val code = stark_assert_not (not (exp_val == actual_val)) code

  abbrev pub stark_assert_ne : {A : Type 0} ⦃keys : Eq A⦄ → A → A → E → Checked E (Unit {0})
  stark_assert_ne exp_val actual_val code = stark_assert_not (exp_val == actual_val) code

  -- `exp_val > actual_val` raises.
  abbrev pub stark_assert_le : ℤ → ℤ → E → Checked E (Unit {0})
  stark_assert_le exp_val actual_val code = stark_assert_not (ltb_int actual_val exp_val) code

  abbrev pub stark_assert_lt : ℤ → ℤ → E → Checked E (Unit {0})
  stark_assert_lt exp_val actual_val code = stark_assert_not (not (ltb_int exp_val actual_val)) code

  pub after_assert :
      {A : Type 0} (c : Bool) (code : E) (m : Checked E A) (a : A)
      → (stark_assert c code >> m) ≡ returned a
      → (c ≡ true) × (m ≡ returned a)
  after_assert true code m a e = (refl, e)
  after_assert false code m a e = absurd (cc e)

  pub after_raise :
      {A : Type 0} (c : Bool) (code e : E) (m : Checked E A)
      → (stark_assert c code >> m) ≡ raised e
      → ((c ≡ false) × (code ≡ e)) ⊎ ((c ≡ true) × (m ≡ raised e))
  after_raise true code e m h = inr (refl, h)
  after_raise false code e m h = inl (refl, cc h)

pub assert-returned :
    {E : Type 0} (c : Bool) (code : E) (u : Unit {0}) → stark_assert c code ≡ returned u → c ≡ true
assert-returned true code u e = refl
assert-returned false code u e = absurd (cc e)

pub >>=-returned :
    {E A B : Type 0} (m : Checked E A) (f : A → Checked E B) (b : B)
    → (m >>= f) ≡ returned b
    → (a : A) × (m ≡ returned a) × (f a ≡ returned b)
>>=-returned (returned a) f b h = (a, refl, h)
>>=-returned (raised e) f b h = absurd (cc h)

pub >>=-raised :
    {E A B : Type 0} (m : Checked E A) (f : A → Checked E B) (e : E)
    → (m >>= f) ≡ raised e
    → (m ≡ raised e) ⊎ ((a : A) × (m ≡ returned a) × (f a ≡ raised e))
>>=-raised (returned a) f e h = inr (a, refl, h)
>>=-raised (raised c) f e h = inl (cc h)
