-- ===== src/Lsp/Order.antt =====
-- The comparisons by one field after another that the language server queries sort with.
use codesight.Prelude.{◌≡◌, Bool, true, false, if◌then◌else◌, arith}
use codesight.Prelude.Int.{ℤ, ltb_ℤ, eqb_ℤ}
use codesight.Prelude.Sort.{IsWeakOrder}
use codesight.Text.{Text, eqt, less_text, eqt→eq, eqt_refl}
use codesight.Text.Order.{less_text-IsWeakOrder, less_text_tied, less_text_refl}

-- Where a field is the same, the later fields decide.
abbrev pub by : Bool → Bool → Bool → Bool
by same less later = if same then later else less

-- The test for the same field and the order of a field agree.
pub record IsFieldOrder {A : Type 0} (same less : A → A → Bool) : Type 0 where
  pub weak : IsWeakOrder less
  pub irreflexive : (a b : A) → same a b ≡ true → less a b ≡ false
  pub irreflexive_back : (a b : A) → same a b ≡ true → less b a ≡ false
  pub tied : (a b : A) → less a b ≡ false → less b a ≡ false → same a b ≡ true

module _ {A : Type 0} (same less : A → A → Bool) (field : IsFieldOrder same less)
    (later : A → A → Bool) (rest : IsWeakOrder later) where
  pub by-IsWeakOrder : IsWeakOrder (λ a b. by (same a b) (less a b) (later a b))
  by-IsWeakOrder = record {
    asym = λ a b h. ground (
      arith,
      field.weak.asym a b,
      field.irreflexive b a,
      field.irreflexive_back b a,
      field.irreflexive a b,
      field.irreflexive_back a b,
      field.tied a b,
      field.tied b a,
      rest.asym a b,
    );
    trans = λ a b c h k. ground (
      arith,
      field.weak.trans a b c,
      field.weak.trans b c a,
      field.weak.trans c a b,
      field.irreflexive b a,
      field.irreflexive_back b a,
      field.irreflexive c b,
      field.irreflexive_back c b,
      field.irreflexive c a,
      field.irreflexive_back c a,
      field.tied b a,
      field.tied c b,
      field.tied c a,
      rest.trans a b c,
    );
  }

module _ {A : Type 0} where
  pub text-IsFieldOrder :
      (key : A → Text)
      → IsFieldOrder (λ a b. eqt (key a) (key b)) (λ a b. less_text (key a) (key b))
  text-IsFieldOrder key = record {
    weak = record {
      asym = λ a b h. less_text-IsWeakOrder.asym (key a) (key b) h;
      trans = λ a b c h k. less_text-IsWeakOrder.trans (key a) (key b) (key c) h k;
    };
    irreflexive = λ a b h. rw (eqt→eq (key a) (key b) h) (less_text_refl (key b));
    irreflexive_back = λ a b h. rw (eqt→eq (key a) (key b) h) (less_text_refl (key b));
    tied = λ a b h k. rw (less_text_tied (key a) (key b) h k) (eqt_refl (key b));
  }

  pub int-IsFieldOrder :
      (key : A → ℤ) → IsFieldOrder (λ a b. eqb_ℤ (key a) (key b)) (λ a b. ltb_ℤ (key a) (key b))
  int-IsFieldOrder key = record {
    weak = record { asym = λ a b h. ground arith; trans = λ a b c h k. ground arith };
    irreflexive = λ a b h. ground arith;
    irreflexive_back = λ a b h. ground arith;
    tied = λ a b h k. ground arith;
  }

  pub text-IsWeakOrder : (key : A → Text) → IsWeakOrder (λ a b. less_text (key a) (key b))
  text-IsWeakOrder key = (text-IsFieldOrder key).weak
