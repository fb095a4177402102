-- ===== src/Export/Gate/Traceable.antt =====
-- What the gate asks of the examples.
use knovaryn.Base.{
  ◌≡◌, ◌≢◌, refl, ap, ◌∙◌, Bool, true, false, not, ◌↔◌, String, str_eq, eq_iff, List, [], ◌∷◌,
  Option, none, some, contains, arith, All,
}
use knovaryn.Export.Gate.{
  Example, Resolver, Hashed, ExportError, hash_mismatch, and_next, raise_if, for_each, has_none,
  recompute_content_hash, check_source, check_parsed, check_span, check_candidate, verify_example,
  verify_provenance_before_export,
}

and_next-none : (a b : Option ExportError) → (and_next a b ≡ none) ↔ ((a ≡ none) × (b ≡ none))
unfolding and_next
and_next-none none b = (λ h. (refl, h), λ h. h.1)
and_next-none (some e) b = (λ h. absurd (cc h), λ h. absurd (cc h.0))

raise_if-none : (b : Bool) (e : ExportError) → (raise_if b e ≡ none) ↔ (b ≡ false)
unfolding raise_if
raise_if-none true e = (λ h. absurd (cc h), λ h. absurd (cc h))
raise_if-none false e = (λ h. refl, λ h. refl)

-- Two tests that pass exactly under two conditions pass together exactly under both.
and_next-both {κ} :
    {P : Type 0} {Q : Type κ} {a b : Option ExportError}
    → ((a ≡ none) ↔ P)
    → ((b ≡ none) ↔ Q)
    → (and_next a b ≡ none) ↔ (P × Q)
and_next-both {a = a} {b = b} f g =
    let n = and_next-none a b in (λ h. (f.0 (n.0 h).0, g.0 (n.0 h).1), λ h. n.1 (f.1 h.0, g.1 h.1))

has_none-none : (xs : List String) → (has_none xs ≡ false) ↔ (xs ≢ [])
has_none-none [] = ground arith
has_none-none (x ∷ xs) = ground arith

nonempty-none : (xs : List String) (e : ExportError) → (raise_if (has_none xs) e ≡ none) ↔ (xs ≢ [])
nonempty-none xs e =
    let r = raise_if-none (has_none xs) e in
    let n = has_none-none xs in (λ h. n.0 (r.0 h), λ h. r.1 (n.1 h))

some-inj : {a b : String} → some a ≡ some b → a ≡ b
some-inj h = cc h

for_each-none {ℓ} :
    {A : Type ℓ} (check : A → Option ExportError) (P : A → Type 0) (xs : List A)
    → ((x : A) → (check x ≡ none) ↔ P x)
    → (for_each check xs ≡ none) ↔ All P xs
unfolding for_each
for_each-none check P [] f = (λ h. tt, λ h. refl)
for_each-none check P (x ∷ xs) f =
    let n = and_next-none (check x) (for_each check xs) in
    let r = for_each-none check P xs f in
    (λ h. ((f x).0 (n.0 h).0, r.0 (n.0 h).1), λ h. n.1 ((f x).1 h.0, r.1 h.1))

module _ (cfg_hash : Hashed → String) (resolver : Resolver) where
  -- The span is of a parsed document of a source document that the example cites.
  abbrev pub IsCited : Example → String → Type 0
  IsCited ex span_id =
      (parsed_id : String) × (source : String) × (resolver.spans span_id ≡ some parsed_id)
      × (resolver.parsed parsed_id ≡ some source)
      × (contains ex.source_document_ids source ≡ true)

  -- The lineage of an example resolves, within its project, and its hash is that of its content.
  abbrev pub IsTraceable : Example → Type 0
  IsTraceable ex =
      (recompute_content_hash cfg_hash resolver ex ≡ ex.content_hash)
      × ((ex.source_document_ids ≢ [])
          × ((ex.source_span_ids ≢ [])
              × ((ex.generation_candidate_ids ≢ [])
                  × (All (λ sid. resolver.sources sid ≡ some ex.project_id) ex.source_document_ids
                      × (All (IsCited ex) ex.source_span_ids
                          × All (λ cid. resolver.candidates cid ≡ some ex.project_id)
                              ex.generation_candidate_ids)))))

  check_source-none :
      (ex : Example) (sid : String) (o : Option String)
      → (check_source cfg_hash resolver ex sid o ≡ none) ↔ (o ≡ some ex.project_id)
  unfolding check_source
  check_source-none ex sid none = (λ h. absurd (cc h), λ h. absurd (cc h))
  check_source-none ex sid (some p) = ground (arith, eq_iff p ex.project_id)

  check_candidate-none :
      (ex : Example) (cid : String) (o : Option String)
      → (check_candidate cfg_hash resolver ex cid o ≡ none) ↔ (o ≡ some ex.project_id)
  unfolding check_candidate
  check_candidate-none ex cid none = (λ h. absurd (cc h), λ h. absurd (cc h))
  check_candidate-none ex cid (some p) = ground (arith, eq_iff p ex.project_id)

  check_parsed-none :
      (ex : Example) (span_id : String) (o : Option String)
      → (check_parsed cfg_hash resolver ex span_id o ≡ none)
        ↔ ((source : String) × (o ≡ some source) × (contains ex.source_document_ids source ≡ true))
  unfolding check_parsed
  check_parsed-none ex span_id none = (λ h. absurd (cc h), λ h. absurd (cc h.1))
  check_parsed-none ex span_id (some s) =
      (λ h. (s, refl, ground (arith, h)), λ h. ground (arith, h.1, h.2))

  check_span-none :
      (ex : Example) (span_id : String) (o : Option String)
      → (check_span cfg_hash resolver ex span_id o ≡ none) ↔ (
          (parsed_id : String) × (source : String) × (o ≡ some parsed_id)
          × (resolver.parsed parsed_id ≡ some source)
          × (contains ex.source_document_ids source ≡ true))
  unfolding check_span
  check_span-none ex span_id none = (λ h. absurd (cc h), λ h. absurd (cc h.2))
  check_span-none ex span_id (some p) =
      let n = check_parsed-none ex span_id (resolver.parsed p) in
      (
        λ h. let c = n.0 h in (p, c.0, refl, c.1, c.2),
        λ h. n.1 (h.1, ap resolver.parsed (some-inj h.2) ∙ h.3, h.4),
      )

  hash-none :
      (ex : Example)
      → (raise_if
            (not (str_eq (recompute_content_hash cfg_hash resolver ex) ex.content_hash))
            (hash_mismatch ex.id)
          ≡ none)
        ↔ (recompute_content_hash cfg_hash resolver ex ≡ ex.content_hash)
  hash-none ex = ground (
    arith,
    raise_if-none (not (str_eq (recompute_content_hash cfg_hash resolver ex) ex.content_hash))
        (hash_mismatch ex.id),
    eq_iff (recompute_content_hash cfg_hash resolver ex) ex.content_hash,
  )

  verify_example-none :
      (ex : Example) → (verify_example cfg_hash resolver ex ≡ none) ↔ IsTraceable ex
  unfolding verify_example
  verify_example-none ex = and_next-both (hash-none ex) (
      and_next-both (nonempty-none ex.source_document_ids _) (
        and_next-both (nonempty-none ex.source_span_ids _) (
          and_next-both (nonempty-none ex.generation_candidate_ids _) (
            and_next-both
              (for_each-none _ _ ex.source_document_ids
                (λ sid. check_source-none ex sid (resolver.sources sid)))
              (and_next-both
                (for_each-none _ (IsCited ex) ex.source_span_ids
                  (λ span_id. check_span-none ex span_id (resolver.spans span_id)))
                (for_each-none _ _ ex.generation_candidate_ids
                  (λ cid. check_candidate-none ex cid (resolver.candidates cid))))))))

  -- An export passes the gate exactly if every example is traceable: its hash is that of its content,
  -- it cites at least one document, span and candidate, the documents and candidates are of its
  -- project, and each span leads to a document that it cites.
  pub verify_provenance_iff :
      (examples : List Example)
      → (verify_provenance_before_export cfg_hash resolver examples ≡ none)
        ↔ All IsTraceable examples
  unfolding verify_provenance_before_export
  verify_provenance_iff examples =
      for_each-none (verify_example cfg_hash resolver) IsTraceable examples verify_example-none
