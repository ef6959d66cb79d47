-- ===== src/Client/Shapes.antt =====
-- imuaclient/tx.go and internal/feeder/types.go: the messages of the second phase that a feeder makes,
-- as the client takes them.
use price_feeder.Prelude.{
  ℕ, ◌≡◌, ◌≤◌, refl, List, [], ◌∷◌, none, some, ◌||◌, length, map, ltb, if◌then◌else◌, arith,
}
use price_feeder.Prelude.Int.{ℤ, pos}
use price_feeder.Feeder.Price.{PriceInfo}
use price_feeder.Feeder.TwoPhases.{PieceWithProof}
use price_feeder.Feeder.State.{Feeder}
use price_feeder.Feeder.Second.{piece_infos, piece_message}
use price_feeder.Client.Messages.{
  MsgCreatePrice, second_phase, phase_two_agg, Signer, without_decimal, message,
  create_price_2_phases, send_msg, send_tx_2_phases, submit,
}

length-piece_infos :
    (pwf : PieceWithProof) → (1 ≤ length (piece_infos pwf)) × (length (piece_infos pwf) ≤ 2)
unfolding piece_infos
length-piece_infos pwf = (ground arith, ground arith)

length-prices :
    (s : Signer) (prices : List PriceInfo) → length (map (without_decimal s) prices) ≡ length prices
length-prices s [] = refl
length-prices s (p ∷ prices) = omega (arith, length-prices s prices)

create_price_2_phases-second :
    (s : Signer) (feeder_id base_block : ℕ) (prices : List PriceInfo) (nonce : ℤ)
    → create_price_2_phases s feeder_id base_block prices phase_two_agg nonce ≡ (
        if ltb (length prices) 1 || ltb 2 (length prices)
        then none
        else some
            (message s second_phase feeder_id base_block (map (without_decimal s) prices) nonce))
unfolding create_price_2_phases
create_price_2_phases-second s feeder_id base_block [] nonce = refl
create_price_2_phases-second s feeder_id base_block (p ∷ []) nonce = refl
create_price_2_phases-second s feeder_id base_block (p ∷ q ∷ prices) nonce = refl

-- A piece of a feeder is never refused for its shape: the client signs and sends one message of the
-- second phase, for the feeder and its base block, with one or two prices.
pub submit-piece_message :
    {T : Type 0} (s : Signer) (pwf : PieceWithProof) (f : Feeder T)
    → (msg : MsgCreatePrice) × (submit s (piece_message pwf f) ≡ send_msg s msg)
      × (msg.kind ≡ second_phase)
      × (msg.feeder_id ≡ f.feeder_id)
      × (msg.base_block ≡ f.base_block)
      × (1 ≤ length msg.prices)
      × (length msg.prices ≤ 2)
unfolding submit send_tx_2_phases
submit-piece_message s pwf f =
    let (some_price, few) = length-piece_infos pwf in
    let same = length-prices s (piece_infos pwf) in
    (
      message s second_phase f.feeder_id f.base_block (map (without_decimal s) (piece_infos pwf))
          (pos 1),
      ground (
        arith,
        some_price,
        few,
        create_price_2_phases-second s f.feeder_id f.base_block (piece_infos pwf) (pos 1),
      ),
      refl,
      refl,
      refl,
      omega (arith, same, some_price),
      omega (arith, same, few),
    )
