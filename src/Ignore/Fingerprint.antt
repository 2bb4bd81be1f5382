-- ===== src/Ignore/Fingerprint.antt =====
-- The fingerprint of a set of rules.
use mathlib.Core.List.{Perm}
use codesight.Prelude.{◌≡◌, ap, List, [], ◌∷◌}
use codesight.Prelude.Sort.{sort-perm_eq}
use codesight.Text.{Text, join}
use codesight.Text.Order.{less_text-IsWeakOrder, less_text_tied}
use codesight.Ignore.{PathHost, fingerprint_for_patterns}

Text-set : IsSet Text
Text-set = hlevel

-- The order in which rules stand does not change their fingerprint, whatever the hash.
pub fingerprint_for_patterns-perm :
    (host : PathHost) (ps qs : List Text)
    → Perm ps qs
    → fingerprint_for_patterns host ps ≡ fingerprint_for_patterns host qs
unfolding fingerprint_for_patterns
fingerprint_for_patterns-perm host ps qs p =
    ap (λ sorted. host.hash (join (0 ∷ []) sorted))
      (sort-perm_eq _ less_text-IsWeakOrder less_text_tied Text-set p)
