-- ===== src/Feeder/Trigger/Tests.antt =====
-- internal/feeder/types.go: the theorem on a new height at a feeder in the first block of a round.
use price_feeder.Prelude.{ℕ, ◌≡◌, ◌⊎◌, refl, [], ◌∷◌, codes, nat_eq}
use price_feeder.Prelude.Int.{pos}
use price_feeder.Feeder.Sign.{get_next_nonce_and_update}
use price_feeder.Feeder.Round.{Round, calculate_round}
use price_feeder.Feeder.Price.{PriceInfo, is_zero}
use price_feeder.Feeder.Pieces.{next_sendable_piece_with_proofs}
use price_feeder.Feeder.State.{Feeder, Message, plain, sent, add_token_for_source, runs}
use price_feeder.Feeder.Second.{send_2nd_phase_tx}
use price_feeder.Feeder.Trigger.{
  TriggerHeights, fetched, convert_price, prepare_plain, prepare, first_message, finish_send,
  submit_price, set_feeder_round, first_phase, active_round, handle_trigger,
}
use price_feeder.Feeder.Trigger.Plain.{IsSubmission, plain_trigger}
use price_feeder.Feeder.Tests.{oracle, submit, feeder}

abbrev heights : TriggerHeights
heights = record { commit_height = pos 31; price_height = pos 0 }

abbrev raw_price : PriceInfo
raw_price = record { price = codes "25"; decimal = pos 0; timestamp = []; round_id = [] }

abbrev message : Message
message = plain 1 30 raw_price (pos 1)

abbrev after_send : Feeder ℕ
after_send = record feeder {
  round_id = 3;
  base_block = 30;
  last_sent = record { max_nonce = pos 3; round_id = 3; nonce = pos 1 };
}

triggers :
    handle_trigger oracle submit (fetched raw_price) heights feeder
    ≡ runs after_send (sent message ∷ [])
unfolding handle_trigger calculate_round active_round send_2nd_phase_tx
    next_sendable_piece_with_proofs set_feeder_round first_phase is_zero prepare prepare_plain
    convert_price submit_price get_next_nonce_and_update first_message finish_send
triggers = refl

plain_trigger_example :
    (sent message ∷ [] ≡ add_token_for_source (codes "chainlink") (codes "ethusdt") ∷ [])
    ⊎ ((r : Round) × (raw : PriceInfo) × (price : PriceInfo) × IsSubmission oracle submit
          (fetched raw_price)
          heights
          feeder
          after_send
          r
          raw
          price
          (sent message ∷ []))
plain_trigger_example =
    plain_trigger oracle submit (fetched raw_price) heights feeder after_send (sent message) [] refl
      triggers
