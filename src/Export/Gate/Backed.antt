-- ===== src/Export/Gate/Backed.antt =====
-- The precision of a span and what is recorded of it.
use knovaryn.Base.{◌≡◌, true, ◌↔◌, ◌⊎◌, none, arith, is_some}
use knovaryn.Export.Gate.{
  exact_page, page_range, Span, rank, derived, of_span, own_or_derived, at_least,
}

derived-is_backed :
    (s : Span)
    → ((at_least (own_or_derived none s) exact_page ≡ true) ↔ (is_some s.page_number ≡ true))
      × ((at_least (own_or_derived none s) page_range ≡ true) ↔ (
          (is_some s.page_number ≡ true)
          ⊎ ((is_some s.page_start ≡ true) × (is_some s.page_end ≡ true))))
unfolding at_least rank own_or_derived derived
derived-is_backed s = (ground arith, ground arith)

-- A span that carries no precision of its own is at least as precise as a page exactly if it has a
-- page number, and as a page range exactly if it has a page number or both ends of a range.
pub of_span-is_backed :
    (s : Span)
    → s.own ≡ none
    → ((at_least (of_span s) exact_page ≡ true) ↔ (is_some s.page_number ≡ true))
      × ((at_least (of_span s) page_range ≡ true) ↔ (
          (is_some s.page_number ≡ true)
          ⊎ ((is_some s.page_start ≡ true) × (is_some s.page_end ≡ true))))
unfolding of_span
of_span-is_backed s h = rw h (derived-is_backed s)
