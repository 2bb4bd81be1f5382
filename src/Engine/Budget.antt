-- ===== src/Engine/Budget.antt =====
-- pkg/engine/budget.go. `depth` and the total are Go's 64-bit `int`, with the wrap-around of the
-- bonus written out. The float64 products with 0.5, 0.25 and 0.15, cut to an `int`, are exact for the
-- totals up to the cap that arise without wrap-around (multiples of 20), and are written as
-- divisions that cut toward zero.
use codesight.Prelude.{
  ℕ, suc, ◌+◌, ◌-◌, ◌*◌, ◌/◌, ◌%◌, ◌^◌, ◌≤◌, ◌<◌, ◌≡◌, ◌∙◌, ap, Bool, arith, if◌then◌else◌, min,
}
use codesight.Prelude.Int.{ℤ, pos, negsuc, sub_ℕ, ◌-ℤ◌, ltb_ℤ, ◌≤ℤ◌, ◌<ℤ◌, pos_part, to_int64}
use codesight.Text.{Text, str, eqt}
use codesight.Engine.{SymBudget}

abbrev pub budget_small_total : ℕ
budget_small_total = 80

abbrev pub budget_medium_total : ℕ
budget_medium_total = 120

abbrev pub budget_large_total : ℕ
budget_large_total = 160

abbrev pub budget_hard_cap : ℕ
budget_hard_cap = 240

abbrev pub depth_bonus_lines : ℕ
depth_bonus_lines = 20

abbrev pub is_deep : ℤ → Bool
is_deep depth = ltb_ℤ (pos 1) depth

unfoldable pub base_total : Text → ℤ → ℕ
unfolding eqt
base_total flag depth =
    if eqt flag (str "small")
    then budget_small_total
    else if eqt flag (str "medium")
    then budget_medium_total
    else if eqt flag (str "large")
    then budget_large_total
    else if is_deep depth
    then budget_medium_total
    else budget_small_total

-- `total` after the bonus, before the cap.
abbrev pub total_with_bonus : Text → ℤ → ℤ
total_with_bonus flag depth =
    if is_deep depth
    then to_int64 ((base_total flag depth + depth_bonus_lines * (pos_part depth - 1)) % 2 ^ 64)
    else pos (base_total flag depth)

-- The share of `k` hundredths of a total, cut toward zero.
abbrev share : ℕ → ℤ → ℤ
share k (pos n) = pos (n * k / 100)
share k (negsuc n) = sub_ℕ 0 (suc n * k / 100)

unfoldable pub allocate : ℤ → SymBudget
unfolding ◌-ℤ◌
allocate total = record {
  total_lines = total;
  definition_lines = share 50 total;
  reference_lines = share 25 total;
  caller_lines = share 15 total;
  meta_lines = total -ℤ share 50 total -ℤ share 25 total -ℤ share 15 total;
}

unfoldable pub compute_budget : Text → ℤ → SymBudget
unfolding base_total allocate
compute_budget flag depth =
    let total = total_with_bonus flag depth in
    allocate (if ltb_ℤ (pos budget_hard_cap) total then pos budget_hard_cap else total)

base_total_bounds :
    (flag : Text) (depth : ℤ) → (80 ≤ base_total flag depth) × (base_total flag depth ≤ 160)
unfolding base_total
base_total_bounds flag depth = ground arith

-- The lines that the budget grants, as naturals, where nothing wraps around.
abbrev pub granted : Text → ℕ → ℕ
granted flag d = min budget_hard_cap (base_total flag (pos d) + depth_bonus_lines * (d - 1))

abbrev capped : ℤ → ℤ
capped total = if ltb_ℤ (pos budget_hard_cap) total then pos budget_hard_cap else total

total_capped :
    (flag : Text) (d : ℕ)
    → d < 2 ^ 58
    → capped (total_with_bonus flag (pos d)) ≡ pos (granted flag d)
total_capped flag d h = ground (arith, base_total_bounds flag (pos d))

total_lines-compute_budget :
    (flag : Text) (d : ℕ)
    → d < 2 ^ 58
    → (compute_budget flag (pos d)).total_lines ≡ pos (granted flag d)
unfolding compute_budget
total_lines-compute_budget flag d h = total_capped flag d h

compute_budget-allocate :
    (flag : Text) (d : ℕ)
    → d < 2 ^ 58
    → compute_budget flag (pos d) ≡ allocate (pos (granted flag d))
compute_budget-allocate flag d h = unfold compute_budget in ap allocate (total_capped flag d h)

base_total_mono :
    (flag : Text) (d e : ℕ) → d ≤ e → base_total flag (pos d) ≤ base_total flag (pos e)
unfolding base_total
base_total_mono flag d e h = ground arith

-- The five fields of an allocation, in closed form.
allocate_pos :
    (n : ℕ)
    → allocate (pos n) ≡ record {
      total_lines = pos n;
      definition_lines = pos (n / 2);
      reference_lines = pos (n / 4);
      caller_lines = pos (3 * n / 20);
      meta_lines = pos (n - n / 2 - n / 4 - 3 * n / 20);
    }
unfolding allocate
allocate_pos n = ground arith

-- Without wrap-around (depth below 2^58) the budget lies between 80 and 240 lines and is the base
-- of the flag with 20 lines for each further level, cut at 240; the definition gets half of it, the
-- references a quarter, the callers three twentieths, and the meta section exactly the rest.
pub compute_budget-shares :
    (flag : Text) (d : ℕ)
    → d < 2 ^ 58
    → (80 ≤ granted flag d)
      × (granted flag d ≤ 240)
      × (compute_budget flag (pos d) ≡ record {
        total_lines = pos (granted flag d);
        definition_lines = pos (granted flag d / 2);
        reference_lines = pos (granted flag d / 4);
        caller_lines = pos (3 * granted flag d / 20);
        meta_lines =
            pos
              (granted flag d - granted flag d / 2 - granted flag d / 4 - 3 * granted flag d / 20);
      })
      × (granted flag d / 2 + granted flag d / 4 + 3 * granted flag d / 20 ≤ granted flag d)
compute_budget-shares flag d h =
    let b = base_total_bounds flag (pos d) in
    (
      omega (arith, b),
      omega (arith, b),
      compute_budget-allocate flag d h ∙ allocate_pos (granted flag d),
      omega arith,
    )

-- A deeper query never gets a smaller budget (depths below 2^58).
pub compute_budget_mono :
    (flag : Text) (d e : ℕ)
    → d ≤ e
    → e < 2 ^ 58
    → (compute_budget flag (pos d)).total_lines ≤ℤ (compute_budget flag (pos e)).total_lines
compute_budget_mono flag d e h k =
    rw (total_lines-compute_budget flag d (omega arith), total_lines-compute_budget flag e k)
      (omega (arith, base_total_mono flag d e h))

-- A depth whose bonus passes 2^63 wraps around: the total is negative, and the cap does not catch it.
pub compute_budget_overflow :
    (flag : Text) (d : ℕ)
    → 2 ^ 63 ≤ base_total flag (pos d) + 20 * (d - 1)
    → base_total flag (pos d) + 20 * (d - 1) < 2 ^ 64
    → (compute_budget flag (pos d)).total_lines <ℤ pos 0
unfolding compute_budget
compute_budget_overflow flag d h k = ground (arith, base_total_bounds flag (pos d))
