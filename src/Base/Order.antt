-- ===== src/Base/Order.antt =====
-- The order of Base/Int's integers, as the code tests it.
use mathlib.Core.Path.{◌≡◌, refl}
use mathlib.Core.Bool.{true}
use native.Mathlib.Omega.{arith}
use llmgw.Base.Int.{ℤ, pos, negsuc, leb_ℤ, eqb_ℤ, max_ℤ}

infix 50 ◌≤ℤ◌
abbrev pub ◌≤ℤ◌ : ℤ → ℤ → Type 0
a ≤ℤ b = leb_ℤ a b ≡ true

pub le_ℤ_refl : (a : ℤ) → a ≤ℤ a
le_ℤ_refl (pos n) = ground arith
le_ℤ_refl (negsuc n) = ground arith

pub le_ℤ_trans : (a b c : ℤ) → a ≤ℤ b → b ≤ℤ c → a ≤ℤ c
le_ℤ_trans (pos a) (pos b) (pos c) h k = ground arith
le_ℤ_trans (pos a) (pos b) (negsuc c) h k = absurd cc
le_ℤ_trans (pos a) (negsuc b) c h k = absurd cc
le_ℤ_trans (negsuc a) b (pos c) h k = refl
le_ℤ_trans (negsuc a) (pos b) (negsuc c) h k = absurd cc
le_ℤ_trans (negsuc a) (negsuc b) (negsuc c) h k = ground arith

pub max_ℤ-left : (a b : ℤ) → a ≤ℤ max_ℤ a b
max_ℤ-left (pos a) (pos b) = ground arith
max_ℤ-left (pos a) (negsuc b) = ground arith
max_ℤ-left (negsuc a) (pos b) = refl
max_ℤ-left (negsuc a) (negsuc b) = ground arith

pub max_ℤ-right : (a b : ℤ) → b ≤ℤ max_ℤ a b
max_ℤ-right (pos a) (pos b) = ground arith
max_ℤ-right (pos a) (negsuc b) = refl
max_ℤ-right (negsuc a) (pos b) = ground arith
max_ℤ-right (negsuc a) (negsuc b) = ground arith

pub eqb_ℤ→eq : (a b : ℤ) → eqb_ℤ a b ≡ true → a ≡ b
eqb_ℤ→eq (pos a) (pos b) h = ground arith
eqb_ℤ→eq (pos a) (negsuc b) h = absurd cc
eqb_ℤ→eq (negsuc a) (pos b) h = absurd cc
eqb_ℤ→eq (negsuc a) (negsuc b) h = ground arith

pub eqb_ℤ_refl : (a : ℤ) → eqb_ℤ a a ≡ true
eqb_ℤ_refl (pos a) = ground arith
eqb_ℤ_refl (negsuc a) = ground arith
