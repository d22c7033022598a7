-- ===== src/Grammar/Events.antt =====
-- The completion, nulled and prediction events of a symbol in marpa.c. The three groups of
-- functions are copies of one another there, at different flags and error codes.
use marpa_r.Prelude.{Bool, true, false, ◌&&◌, not, ℤ, pos, pos_part, eqb_ℤ, of_bool}
use marpa_r.Grammar.{
  Env, M, Xsy, ErrorCode, not_completion_event, not_nulled_event, not_prediction_event, value, pure,
  update_xsy, ◌>>=◌, ◌>>◌, fail_if_fatal, fail_if_precomputed, fail_if_malformed_xsyid,
  soft_fail_if_no_xsy, fail_if_not_boolean, xsy_by_id,
}

-- The flags of one kind of event, with its error code.
pub record EventKind : Type 0 where
  pub is_event : Xsy → Bool
  pub set_event : Bool → Xsy → Xsy
  pub set_starts_active : Bool → Xsy → Xsy
  pub not_event : ErrorCode

abbrev pub completion : EventKind
completion = record {
  is_event = λ x. x.is_completion_event;
  set_event = λ b x. record x { is_completion_event = b };
  set_starts_active = λ b x. record x { completion_event_starts_active = b };
  not_event = not_completion_event;
}

abbrev pub nulled : EventKind
nulled = record {
  is_event = λ x. x.is_nulled_event;
  set_event = λ b x. record x { is_nulled_event = b };
  set_starts_active = λ b x. record x { nulled_event_starts_active = b };
  not_event = not_nulled_event;
}

abbrev pub prediction : EventKind
prediction = record {
  is_event = λ x. x.is_prediction_event;
  set_event = λ b x. record x { is_prediction_event = b };
  set_starts_active = λ b x. record x { prediction_event_starts_active = b };
  not_event = not_prediction_event;
}

module _ {T : Type 0} (env : Env T) (kind : EventKind) where
  unfoldable pub event_symbol : ℤ → M T ℤ
  unfolding fail_if_fatal fail_if_malformed_xsyid soft_fail_if_no_xsy
  event_symbol xsy_id = do
    fail_if_fatal env
    fail_if_malformed_xsyid xsy_id
    soft_fail_if_no_xsy xsy_id
    xsy ← xsy_by_id xsy_id
    pure (of_bool (kind.is_event xsy))

  unfoldable pub event_symbol_set : ℤ → ℤ → M T ℤ
  unfolding fail_if_fatal fail_if_precomputed fail_if_malformed_xsyid soft_fail_if_no_xsy
      fail_if_not_boolean
  event_symbol_set xsy_id v = do
    fail_if_fatal env
    fail_if_precomputed
    fail_if_malformed_xsyid xsy_id
    soft_fail_if_no_xsy xsy_id
    fail_if_not_boolean v
    let b = not (eqb_ℤ v (pos 0))
    update_xsy (pos_part xsy_id) (λ x. kind.set_event b (kind.set_starts_active b x))
    pure (of_bool b)

  -- `MARPA_ERROR` with no return after it.
  note_if : Bool → ErrorCode → M T (Unit {0})
  note_if true code g = value tt (record g { error = code })
  note_if false code g = value tt g

  unfoldable pub event_symbol_activate : ℤ → ℤ → M T ℤ
  unfolding fail_if_fatal fail_if_precomputed fail_if_malformed_xsyid soft_fail_if_no_xsy
      fail_if_not_boolean note_if
  event_symbol_activate xsy_id reactivate = do
    fail_if_fatal env
    fail_if_precomputed
    fail_if_malformed_xsyid xsy_id
    soft_fail_if_no_xsy xsy_id
    fail_if_not_boolean reactivate
    let b = not (eqb_ℤ reactivate (pos 0))
    xsy ← xsy_by_id xsy_id
    note_if (b && not (kind.is_event xsy)) kind.not_event
    update_xsy (pos_part xsy_id) (kind.set_starts_active b)
    pure (of_bool b)

module _ {T : Type 0} (env : Env T) where
  unfoldable pub marpa_g_symbol_is_completion_event : ℤ → M T ℤ
  unfolding event_symbol
  marpa_g_symbol_is_completion_event = event_symbol env completion

  unfoldable pub marpa_g_symbol_is_completion_event_set : ℤ → ℤ → M T ℤ
  unfolding event_symbol_set
  marpa_g_symbol_is_completion_event_set = event_symbol_set env completion

  unfoldable pub marpa_g_completion_symbol_activate : ℤ → ℤ → M T ℤ
  unfolding event_symbol_activate
  marpa_g_completion_symbol_activate = event_symbol_activate env completion

  unfoldable pub marpa_g_symbol_is_nulled_event : ℤ → M T ℤ
  unfolding event_symbol
  marpa_g_symbol_is_nulled_event = event_symbol env nulled

  unfoldable pub marpa_g_symbol_is_nulled_event_set : ℤ → ℤ → M T ℤ
  unfolding event_symbol_set
  marpa_g_symbol_is_nulled_event_set = event_symbol_set env nulled

  unfoldable pub marpa_g_nulled_symbol_activate : ℤ → ℤ → M T ℤ
  unfolding event_symbol_activate
  marpa_g_nulled_symbol_activate = event_symbol_activate env nulled

  unfoldable pub marpa_g_symbol_is_prediction_event : ℤ → M T ℤ
  unfolding event_symbol
  marpa_g_symbol_is_prediction_event = event_symbol env prediction

  unfoldable pub marpa_g_symbol_is_prediction_event_set : ℤ → ℤ → M T ℤ
  unfolding event_symbol_set
  marpa_g_symbol_is_prediction_event_set = event_symbol_set env prediction

  unfoldable pub marpa_g_prediction_symbol_activate : ℤ → ℤ → M T ℤ
  unfolding event_symbol_activate
  marpa_g_prediction_symbol_activate = event_symbol_activate env prediction
