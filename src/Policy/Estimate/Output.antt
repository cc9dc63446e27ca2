-- ===== src/Policy/Estimate/Output.antt =====
-- The output tokens that a call may have (policy/token.go, reserveCandidateOutput).
use Prim.Native.Nat.{min}
use llmgw.Amounts.{zero64, saturating_multiply}
use llmgw.Amounts.Laws.{saturating_multiply_lem}
use llmgw.Base.{
  ℕ, zero, suc, ◌*◌, ◌≤◌, refl, ap, ◌∙◌, ◌⊎◌, inl, inr, pos, negsuc, max_int64, Option, none, some,
  leb_ℤ, arith, ◌≡◌, ℤ, ◌≤ℤ◌, if◌then◌else◌,
}
use llmgw.Policy.Candidate.{Candidate, effective_or}
use llmgw.Policy.Estimate.{reserved_output}

-- What one answer may have: the effective maximum, if there is a positive one, or else the requested one,
-- or else that of the route, or else 256 tokens.
abbrev pub IsUnset : Option ℤ → Type 0
IsUnset effective = (effective ≡ none) ⊎ ((m : ℤ) × (effective ≡ some m) × (m ≤ℤ zero64))

pub data MayHave (effective : Option ℤ) (asked declared : ℤ) : ℕ → Type 0 where
  of_builder : (m : ℕ) → effective ≡ some (pos (suc m)) → MayHave effective asked declared (suc m)
  of_request :
      (m : ℕ) → IsUnset effective → asked ≡ pos (suc m) → MayHave effective asked declared (suc m)
  of_route :
      (m : ℕ)
      → IsUnset effective
      → asked ≤ℤ zero64
      → declared ≡ pos (suc m)
      → MayHave effective asked declared (suc m)
  of_default :
      IsUnset effective
      → asked ≤ℤ zero64
      → declared ≤ℤ zero64
      → MayHave effective asked declared 256

-- The number of answers.
pub data HasAnswers (multiplicity : ℤ) : ℕ → Type 0 where
  one : multiplicity ≤ℤ zero64 → HasAnswers multiplicity 1
  many : (k : ℕ) → multiplicity ≡ pos (suc k) → HasAnswers multiplicity (suc k)

abbrev pub positive_or : ℤ → ℤ → ℤ
positive_or n other = if leb_ℤ n zero64 then other else n

positive_or-pos : (m : ℕ) (other : ℤ) → positive_or (pos (suc m)) other ≡ pos (suc m)
positive_or-pos m other = ground arith

positive_or-other : (n other : ℤ) → n ≤ℤ zero64 → positive_or n other ≡ other
positive_or-other (pos zero) other h = refl
positive_or-other (pos (suc m)) other h = ground arith
positive_or-other (negsuc m) other h = refl

effective_or-unset :
    (effective : Option ℤ) (asked : ℤ) → IsUnset effective → effective_or effective asked ≡ asked
effective_or-unset effective asked (inl h) = rw h refl
effective_or-unset effective asked (inr (pos zero, h, l)) = rw h refl
effective_or-unset effective asked (inr (pos (suc m), h, l)) = ground arith
effective_or-unset effective asked (inr (negsuc m, h, l)) = rw h refl

effective_or-set : (m : ℕ) (asked : ℤ) → effective_or (some (pos (suc m))) asked ≡ pos (suc m)
effective_or-set m asked = ground arith

MayHave-maximum :
    (effective : Option ℤ) (asked declared : ℤ) (n : ℕ)
    → MayHave effective asked declared n
    → positive_or (positive_or (effective_or effective asked) declared) (pos 256) ≡ pos n
MayHave-maximum effective asked declared _ (of_builder m h) =
    rw (h, effective_or-set m asked, positive_or-pos m declared) (positive_or-pos m (pos 256))
MayHave-maximum effective asked declared _ (of_request m u h) =
    rw (effective_or-unset effective asked u, h, positive_or-pos m declared)
      (positive_or-pos m (pos 256))
MayHave-maximum effective asked declared _ (of_route m u a h) =
    rw (effective_or-unset effective asked u, positive_or-other asked declared a, h)
      (positive_or-pos m (pos 256))
MayHave-maximum effective asked declared _ (of_default u a d) =
    rw (effective_or-unset effective asked u, positive_or-other asked declared a)
      (positive_or-other declared (pos 256) d)

HasAnswers-number :
    (multiplicity : ℤ) (k : ℕ)
    → HasAnswers multiplicity k
    → positive_or multiplicity (pos 1) ≡ pos k
HasAnswers-number multiplicity _ (one h) = positive_or-other multiplicity (pos 1) h
HasAnswers-number multiplicity _ (many k h) = rw h (positive_or-pos k (pos 1))

pub reserved_output_lem :
    (c : Candidate) (n k : ℕ)
    → MayHave c.effective c.hints.max_output_tokens c.route.capabilities.max_output_tokens n
    → HasAnswers c.hints.output_multiplicity k
    → n ≤ max_int64
    → k ≤ max_int64
    → reserved_output c ≡ pos (min max_int64 (n * k))
reserved_output_lem c n k m a i j =
    ap (λ x. saturating_multiply x (positive_or c.hints.output_multiplicity (pos 1)))
      (MayHave-maximum c.effective c.hints.max_output_tokens c.route.capabilities.max_output_tokens
        n m)
    ∙ ap (saturating_multiply (pos n)) (HasAnswers-number c.hints.output_multiplicity k a)
    ∙ saturating_multiply_lem (pos n) (pos k) i j
