-- ===== src/Gateway/Usage/Totals.antt =====
-- The token counts of normalised usage (gateway/usage.go).
use Prim.Native.Nat.{min, max}
use llmgw.Base.{
  ℕ, zero, suc, ◌+◌, ◌≤◌, ◌≡◌, ap, ℤ, pos, negsuc, pos_part, ◌-ℤ◌, max_int64, IsInt64, arith, ltb,
  ltb→lt, ◌<◌, ◌∙◌, Bool-cases, inl, inr, ◌-◌,
}
use llmgw.Amounts.{nonneg, saturating_usage_add}
use llmgw.Amounts.Laws.{capped_sum, saturating_usage_add_lem}
use llmgw.Gateway.Usage.{Usage, explained, implied, balanced_tokens, normalize_attempt_usage}

rest_lem : (n c : ℕ) → n ≤ c → c ≤ max_int64 → pos c -ℤ pos n ≡ pos (c - n)
unfolding ◌-ℤ◌
rest_lem n c h k = ground arith

explained_lem :
    (i o c : ℕ)
    → i ≤ max_int64
    → o ≤ max_int64
    → c ≤ max_int64
    → explained (pos i) (pos o) (pos c) ≡ (pos (max o (c - i)), pos (max c (min max_int64 (i + o))))
unfolding explained
explained_lem i o c h k l =
    rw (saturating_usage_add_lem (pos i) (pos o) h k)
      (elim (Bool-cases (ltb (min max_int64 (i + o)) c)) [
        | inl p ↦
            let below : min max_int64 (i + o) < c = ltb→lt (min max_int64 (i + o)) c p in
            let grown : saturating_usage_add (pos o) (pos (c - min max_int64 (i + o)))
                ≡ pos (c - i) =
              saturating_usage_add_lem (pos o) (pos (c - min max_int64 (i + o))) k (omega arith)
              ∙ ap pos (omega arith) in
            let all : saturating_usage_add (pos i) (pos (c - i)) ≡ pos c =
              saturating_usage_add_lem (pos i) (pos (c - i)) h (omega arith)
              ∙ ap pos (omega arith) in
            rw (p, rest_lem (min max_int64 (i + o)) c (omega arith) l, grown, all) (ground arith)
        | inr p ↦ rw p (ground arith)
      ])

-- An absent count is what the total leaves for it.
abbrev pub implied_ℕ : ℕ → ℕ → ℕ → ℕ
implied_ℕ zero c b = c - b
implied_ℕ (suc a) c b = suc a

implied_lem : (a c b : ℕ) → c ≤ max_int64 → implied (pos a) (pos c) (pos b) ≡ pos (implied_ℕ a c b)
unfolding ◌-ℤ◌
implied_lem zero c b h = ground arith
implied_lem (suc a) c b h = ground arith

implied_ℕ-le : (a c b : ℕ) → a ≤ max_int64 → c ≤ max_int64 → implied_ℕ a c b ≤ max_int64
implied_ℕ-le zero c b h k = ground arith
implied_ℕ-le (suc a) c b h k = h

le-implied_ℕ : (a c b : ℕ) → a ≤ implied_ℕ a c b
le-implied_ℕ zero c b = ground arith
le-implied_ℕ (suc a) c b = ground arith

implied_ℕ-sum :
    (a b c : ℕ)
    → max c (min max_int64 (implied_ℕ a c b + implied_ℕ b c (implied_ℕ a c b)))
      ≡ max c (min max_int64 (a + b))
implied_ℕ-sum zero zero c = ground arith
implied_ℕ-sum zero (suc b) c = ground arith
implied_ℕ-sum (suc a) zero c = ground arith
implied_ℕ-sum (suc a) (suc b) c = ground arith

grown_sum :
    (i o c : ℕ) → c ≤ max_int64 → max c (min max_int64 (i + o)) ≡ min max_int64 (i + max o (c - i))
grown_sum i o c h = ground arith

-- What `normalizeAttemptUsage` makes of three counts that are not negative.
record IsBalanced (a b c : ℕ) (tokens : ℤ × ℤ × ℤ) : Type 0 where
  sum : tokens.2 ≡ capped_sum tokens.0 tokens.1
  total : tokens.2 ≡ pos (max c (min max_int64 (a + b)))
  input : a ≤ pos_part tokens.0
  output : b ≤ pos_part tokens.1

balanced_tokens-IsBalanced :
    (a b c : ℕ)
    → a ≤ max_int64
    → b ≤ max_int64
    → c ≤ max_int64
    → IsBalanced a b c (balanced_tokens (pos a) (pos b) (pos c))
unfolding balanced_tokens
balanced_tokens-IsBalanced a b c h k l =
    let i = implied_ℕ a c b in
    let o = implied_ℕ b c i in
    rw
      (
        implied_lem a c b l,
        implied_lem b c i l,
        explained_lem i o c (implied_ℕ-le a c b h l) (implied_ℕ-le b c i k l) l,
      )
      (record {
        sum = ap pos (grown_sum i o c l);
        total = ap pos (implied_ℕ-sum a b c);
        input = le-implied_ℕ a c b;
        output = ground (arith, le-implied_ℕ b c i);
      })

-- The three token counts are int64 values.
pub record AreCounts (u : Usage) : Type 0 where
  pub input : IsInt64 u.input_tokens
  pub output : IsInt64 u.output_tokens
  pub total : IsInt64 u.total_tokens

nonneg_lem : (z : ℤ) → nonneg z ≡ pos (pos_part z)
nonneg_lem (pos n) = ground arith
nonneg_lem (negsuc n) = ground arith

pos_part_le : (z : ℤ) → IsInt64 z → pos_part z ≤ max_int64
pos_part_le (pos n) h = ground arith
pos_part_le (negsuc n) h = ground arith

-- `normalizeAttemptUsage` never counts less than was reported: for every int64 counts, the total of
-- the result is the larger of the reported total and the sum of the reported input and output
-- (negative counts count as 0, and the sum is cut off at the largest int64), and it is exactly the
-- sum of the input and output of the result, neither of which is below its report.
pub normalize_attempt_usage-balances :
    (u : Usage)
    → AreCounts u
    → (normalize_attempt_usage u).total_tokens
        ≡ capped_sum
            (normalize_attempt_usage u).input_tokens
            (normalize_attempt_usage u).output_tokens
      × ((normalize_attempt_usage u).total_tokens
          ≡ pos (
              max
                (pos_part u.total_tokens)
                (min max_int64 (pos_part u.input_tokens + pos_part u.output_tokens))))
      × (pos_part u.input_tokens ≤ pos_part (normalize_attempt_usage u).input_tokens)
      × (pos_part u.output_tokens ≤ pos_part (normalize_attempt_usage u).output_tokens)
unfolding normalize_attempt_usage
normalize_attempt_usage-balances u h =
    let good : IsBalanced (pos_part u.input_tokens) (pos_part u.output_tokens)
        (pos_part u.total_tokens)
        (balanced_tokens (nonneg u.input_tokens) (nonneg u.output_tokens) (nonneg u.total_tokens)) =
      rw (nonneg_lem u.input_tokens, nonneg_lem u.output_tokens, nonneg_lem u.total_tokens)
        (balanced_tokens-IsBalanced (pos_part u.input_tokens) (pos_part u.output_tokens)
          (pos_part u.total_tokens) (pos_part_le u.input_tokens h.input)
          (pos_part_le u.output_tokens h.output) (pos_part_le u.total_tokens h.total)) in
    (good.sum, good.total, good.input, good.output)
