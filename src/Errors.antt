-- ===== src/Errors.antt =====
-- The program's error codes: programs/clober/src/errors.rs.

pub data CloberError : Type 0 where
  arithmetic_overflow arithmetic_underflow : CloberError
  division_by_zero out_of_range non_finite : CloberError
  unauthorized already_initialized not_initialized : CloberError
  wrong_market wrong_trader stale_version : CloberError
  unexpected_account_type size_below_min_lot : CloberError
  price_not_on_tick zero_size zero_price : CloberError
  insufficient_collateral new_positions_paused : CloberError
  leverage_exceeded post_only_cross rate_limited : CloberError
  position_size_cap_exceeded open_interest_imbalance : CloberError
  lp_withdraw_undercollateralized missing_market_account : CloberError
  leverage_cap_exceeded sweep_requires_flat : CloberError
  vault_deposits_closed vault_deposit_too_small : CloberError
  vault_nav_non_positive vault_below_high_water_mark : CloberError
  oco_pair_mismatch adl_not_eligible : CloberError
  vault_nav_market_mismatch open_interest_cap_exceeded : CloberError
  mark_change_clamped fill_or_kill_not_filled : CloberError
  post_only_would_cross resting_order_too_far_from_oracle : CloberError
  buffer_full self_trade empty_batch : CloberError
  mark_outside_band trader_liquidatable : CloberError
  too_many_scenarios liquidation_stale not_liquidatable : CloberError
  stress_tier_uncovered backstop_tail_too_low : CloberError
  liquidation_over_close liq_restore_buffer_too_high : CloberError
  insurance_below_floor insurance_exhausted : CloberError
  protocol_insolvent not_delegated already_delegated : CloberError
  delegation_expired er_still_live oracle_too_stale : CloberError
  oracle_confidence_too_wide oracle_paused_confidence : CloberError
  oracle_quorum_dispersion_too_wide mark_too_stale : CloberError
  haircut_inverted_window haircut_window_too_large : CloberError
  haircut_zero_gain haircut_residual_underflow : CloberError
  haircut_not_initialized haircut_state_mismatch : CloberError
  haircut_nothing_to_mature haircut_nothing_to_convert : CloberError
  envelope_price_cap_invalid envelope_accrual_window_invalid : CloberError
  envelope_funding_cap_invalid envelope_maintenance_invalid : CloberError
  envelope_liq_fee_invalid envelope_violated : CloberError
  envelope_same_slot_move envelope_price_move_exceeds_cap : CloberError
  envelope_not_initialized trigger_slippage_exceeded : CloberError
  fill_seq_replay fill_not_committed fill_ring_full : CloberError
  fill_ring_empty fill_ring_corrupt lp_price_outside_band : CloberError
  fill_commitment_missing cross_liquidation_needs_portfolio : CloberError
  self_liquidation_forbidden order_seq_exhausted : CloberError
  baseline_already_stamped book_not_delegated : CloberError
  session_expired er_epoch_replay er_margin_reserved : CloberError
  use_x_domain_withdraw er_attestor_mismatch : CloberError
  er_margin_account_mismatch owner_force_undelegate_unavailable : CloberError
  fill_ring_not_drained fill_outbox_required : CloberError
  lp_pool_insolvent too_many_stress_scenarios : CloberError
  order_seq_exhausted_reseat reseat_requires_empty_book : CloberError
  market_paused haircut_residual_unbacked : CloberError
  oracle_lazer_replay refresh_too_soon : CloberError
  timelock_not_elapsed oracle_source_locked : CloberError
  oracle_pyth_replay lp_system_mode_conflict : CloberError
  er_margin_not_ready too_many_open_positions : CloberError
  reduce_only_no_position liquidation_order_not_cancelable : CloberError
  price_too_many_significant_figures order_notional_too_small : CloberError
  l1_fallback_requires_empty_book : CloberError
