-- ===== src/Lsp/Formatter/Distinct.antt =====
-- References without repetitions, in order.
use codesight.Prelude.{List}
use codesight.Prelude.Sort.{IsWeakOrder}
use codesight.Lsp.Order.{by-IsWeakOrder, text-IsFieldOrder, int-IsFieldOrder, text-IsWeakOrder}
use codesight.Lsp.Distinct.{IsDistinct, distinct_by-IsDistinct}
use codesight.Lsp.Formatter.{
  ReferenceLine, before_reference, reference_key, dedupe_and_sort_references,
}

before_reference-IsWeakOrder : IsWeakOrder before_reference
unfolding before_reference
before_reference-IsWeakOrder =
    by-IsWeakOrder _ _ (text-IsFieldOrder (λ (r : ReferenceLine). r.path)) _ (
      by-IsWeakOrder _ _ (int-IsFieldOrder (λ (r : ReferenceLine). r.line)) _
        (text-IsWeakOrder (λ (r : ReferenceLine). r.snippet)))

-- The references are sorted by path, line and snippet; each key stands once, each reference is one of
-- those given, and every given reference has its key among them.
pub dedupe_and_sort_references-IsDistinct :
    (references : List ReferenceLine)
    → IsDistinct reference_key before_reference references (dedupe_and_sort_references references)
unfolding dedupe_and_sort_references
dedupe_and_sort_references-IsDistinct references =
    distinct_by-IsDistinct reference_key before_reference before_reference-IsWeakOrder references
