-- ===== src/Policy/Quota/Credit.antt =====
-- Reserved amounts against what a request uses of them (policy/quota.go).
use Prim.Native.Nat.{min}
use llmgw.Base.{
  ℕ, ◌+◌, ◌-◌, ◌≤◌, ◌≡◌, ◌∙◌, ap, ℤ, pos, negsuc, pos_part, ◌-ℤ◌, max_int64, IsInt64, arith, min_ℤ,
  max_ℤ, ltb_ℤ, if◌then◌else◌,
}
use llmgw.Amounts.{zero64, positive_token_total}
use llmgw.Amounts.Laws.{capped_sum, positive_token_total_lem, saturating_usage_add_lem}
use llmgw.Store.Usage.{EstimatedUsage, ActualUsage, estimated_total_tokens}
use llmgw.Store.Ledger.Growth.{AreInt64}
use llmgw.Policy.Quota.{quota_top_up_delta, consume_reservation_credit}

abbrev pub tokens_of : ℤ → ℤ → ℕ
tokens_of input output = min max_int64 (pos_part input + pos_part output)

min_pos : (a b : ℕ) → min_ℤ (pos a) (pos b) ≡ pos (min a b)
min_pos a b = ground arith

less_min : (a b : ℕ) → a ≤ max_int64 → pos a -ℤ pos (min a b) ≡ pos (a - b)
unfolding ◌-ℤ◌
less_min a b h = ground arith

less_min_right : (a b : ℕ) → b ≤ max_int64 → pos b -ℤ pos (min a b) ≡ pos (b - a)
unfolding ◌-ℤ◌
less_min_right a b h = ground arith

less_input : (i n : ℕ) → n ≤ max_int64 → pos n -ℤ pos (min i n) ≡ pos (n - i)
unfolding ◌-ℤ◌
less_input i n h = ground arith

pub spend_left :
    (a b : ℤ)
    → IsInt64 a
    → IsInt64 b
    → max_ℤ (a -ℤ min_ℤ (max_ℤ a zero64) (max_ℤ b zero64)) zero64 ≡ pos (pos_part a - pos_part b)
unfolding ◌-ℤ◌
spend_left (pos a) (pos b) h k = ground arith
spend_left (pos a) (negsuc b) h k = ground arith
spend_left (negsuc a) (pos b) h k = ground arith
spend_left (negsuc a) (negsuc b) h k = ground arith

pub spend_left_right :
    (a b : ℤ)
    → IsInt64 a
    → IsInt64 b
    → max_ℤ (b -ℤ min_ℤ (max_ℤ a zero64) (max_ℤ b zero64)) zero64 ≡ pos (pos_part b - pos_part a)
unfolding ◌-ℤ◌
spend_left_right (pos a) (pos b) h k = ground arith
spend_left_right (pos a) (negsuc b) h k = ground arith
spend_left_right (negsuc a) (pos b) h k = ground arith
spend_left_right (negsuc a) (negsuc b) h k = ground arith

-- The tokens of what is applied, with `i` input tokens wanted and `n` tokens applied.
applied_tokens :
    (i n : ℕ) → i ≤ max_int64 → n ≤ max_int64 → capped_sum (pos (min i n)) (pos (n - i)) ≡ pos n
applied_tokens i n h k = ap pos (ground arith)

credit_left :
    (i w c : ℕ)
    → i ≤ max_int64
    → w ≤ max_int64
    → positive_token_total
        (min_ℤ (pos i) (pos w -ℤ min_ℤ (pos w) (pos c)))
        (pos w -ℤ min_ℤ (pos w) (pos c) -ℤ min_ℤ (pos i) (pos w -ℤ min_ℤ (pos w) (pos c)))
      ≡ pos (w - c)
credit_left i w c h k =
    rw (min_pos w c, less_min w c k, min_pos i (w - c), less_input i (w - c) (omega arith))
      (positive_token_total_lem (pos (min i (w - c))) (pos (w - c - i)) (ground arith)
          (ground arith)
        ∙ applied_tokens i (w - c) h (omega arith))

credit_kept :
    (w c : ℕ)
    → c ≤ max_int64
    → positive_token_total (pos c -ℤ min_ℤ (pos w) (pos c)) zero64 ≡ pos (c - w)
credit_kept w c h =
    rw (min_pos w c, less_min_right w c h)
      (positive_token_total_lem (pos (c - w)) zero64 (ground arith) (ground arith)
        ∙ ap pos (ground arith))

-- For int64 amounts and an input that is not negative: what is applied is what is wanted beyond the
-- credit, and what remains is the credit beyond what is wanted, in tokens and in money: each is the
-- exact difference, cut off at 0, of the totals (themselves cut off at the largest int64). So no
-- credit is used twice or lost, and nothing remains while something is applied.
pub consume_reservation_credit_lem :
    (want available : EstimatedUsage) (i : ℕ)
    → want.input_tokens ≡ pos i
    → AreInt64 want
    → AreInt64 available
    → (positive_token_total
          (consume_reservation_credit want available).0.input_tokens
          (consume_reservation_credit want available).0.reserved_output_tokens
        ≡ pos (
            tokens_of want.input_tokens want.reserved_output_tokens
            - tokens_of available.input_tokens available.reserved_output_tokens))
      × (positive_token_total
            (consume_reservation_credit want available).1.input_tokens
            (consume_reservation_credit want available).1.reserved_output_tokens
          ≡ pos (
              tokens_of available.input_tokens available.reserved_output_tokens
              - tokens_of want.input_tokens want.reserved_output_tokens))
      × ((consume_reservation_credit want available).0.estimated_spend_micros
          ≡ pos (pos_part want.estimated_spend_micros - pos_part available.estimated_spend_micros))
      × ((consume_reservation_credit want available).1.estimated_spend_micros
          ≡ pos (pos_part available.estimated_spend_micros - pos_part want.estimated_spend_micros))
unfolding consume_reservation_credit
consume_reservation_credit_lem want available i e h k =
    let wanted = tokens_of want.input_tokens want.reserved_output_tokens in
    let credit = tokens_of available.input_tokens available.reserved_output_tokens in
    (
      rw
          (
            positive_token_total_lem want.input_tokens want.reserved_output_tokens h.0 h.1,
            positive_token_total_lem available.input_tokens available.reserved_output_tokens k.0
                k.1,
            e,
          )
          (credit_left i (tokens_of (pos i) want.reserved_output_tokens) credit (rw e at h.0)
            (omega arith)),
      rw
          (
            positive_token_total_lem want.input_tokens want.reserved_output_tokens h.0 h.1,
            positive_token_total_lem available.input_tokens available.reserved_output_tokens k.0
                k.1,
          )
          (credit_kept wanted credit (omega arith)),
      spend_left want.estimated_spend_micros available.estimated_spend_micros h.2 k.2,
      spend_left_right want.estimated_spend_micros available.estimated_spend_micros h.2 k.2,
    )

delta_total :
    (h a : ℕ)
    → h ≤ max_int64
    → a ≤ max_int64
    → (if ltb_ℤ (pos h) (pos a) then pos a -ℤ pos h else zero64) ≡ pos (a - h)
unfolding ◌-ℤ◌
delta_total h a p q = ground arith

-- What is held and the top-up together cover the actual usage, exactly: the top-up is the difference
-- of the token totals and of the money, cut off at 0. The amounts are int64 values, and the money
-- is not negative.
pub quota_top_up_delta_lem :
    (held : EstimatedUsage) (actual : ActualUsage) (held_spend spend : ℕ)
    → AreInt64 held
    → IsInt64 actual.input_tokens
    → IsInt64 actual.output_tokens
    → held.estimated_spend_micros ≡ pos held_spend
    → actual.spend_micros ≡ pos spend
    → spend ≤ max_int64
    → (estimated_total_tokens (quota_top_up_delta held actual)
        ≡ pos (
            tokens_of actual.input_tokens actual.output_tokens
            - tokens_of held.input_tokens held.reserved_output_tokens))
      × ((quota_top_up_delta held actual).estimated_spend_micros ≡ pos (spend - held_spend))
unfolding quota_top_up_delta estimated_total_tokens
quota_top_up_delta_lem held actual held_spend spend h i o p q f =
    let reserved = tokens_of held.input_tokens held.reserved_output_tokens in
    let used = tokens_of actual.input_tokens actual.output_tokens in
    (
      rw
          (
            positive_token_total_lem held.input_tokens held.reserved_output_tokens h.0 h.1,
            positive_token_total_lem actual.input_tokens actual.output_tokens i o,
            delta_total reserved used (omega arith) (omega arith),
          )
          (saturating_usage_add_lem (pos (used - reserved)) zero64 (ground arith) (ground arith)
            ∙ ap pos (ground arith)),
      rw (p, q) (delta_total held_spend spend (rw p at h.2) f),
    )
