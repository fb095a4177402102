-- ===== src/Intake/Archive/Accepts.antt =====
-- Which archives are accepted.
use knovaryn.Base.{
  ℕ, ◌+◌, ◌*◌, ◌≤◌, ltb, Bool, true, false, not, ◌&&◌, List, [], ◌∷◌, Option, none, some,
  if◌then◌else◌, ◌≡◌, ◌↔◌, ◌⊎◌, inl, inr, refl, sym, ap, ◌∙◌, arith, All, sum_by, length,
}
use knovaryn.Dict.{Dict, put}
use knovaryn.Intake.Archive.{
  ZipInfo, Member, Validated, accepted, too_many, absolute_path, traversal, nested, suspicious,
  too_large, max_members, max_ratio, is_absolute, climbs, is_nested, is_suspicious, member_of,
  validate_members, validate_zip_archive,
}

-- A member that no check refuses.
abbrev pub IsSafe : Bool → ZipInfo → Type 0
IsSafe allow_nested i =
    (is_absolute (i.filename) ≡ false)
    × (climbs (i.filename) ≡ false)
    × ((allow_nested ≡ true) ⊎ (is_nested i ≡ false))
    × ((i.compress_size ≡ 0) ⊎ (i.file_size ≤ max_ratio * i.compress_size))

unfoldable pub table_onto : Dict Member → List ZipInfo → Dict Member
unfolding put
table_onto d [] = d
table_onto d (i ∷ is) = table_onto (put d (i.filename) (member_of i)) is

abbrev pub total_size : List ZipInfo → ℕ
total_size is = sum_by (λ i. i.file_size) is

abbrev is_accepted : Validated → Bool
is_accepted (accepted d) = true
is_accepted v = false

accepted_eq : (d r : Dict Member) → accepted d ≡ accepted r → d ≡ r
accepted_eq d r e = cc

passed_by :
    (b : Bool) (e r : Validated) (d : Dict Member)
    → is_accepted e ≡ false
    → (if b then e else r) ≡ accepted d
    → (b ≡ false) × (r ≡ accepted d)
passed_by true e r d ne h = absurd (let k : false ≡ true = sym ne ∙ ap is_accepted h in cc)
passed_by false e r d ne h = (refl, h)

not_nested :
    (allow_nested : Bool) (i : ZipInfo)
    → (not allow_nested && is_nested i) ≡ false
    → (allow_nested ≡ true) ⊎ (is_nested i ≡ false)
not_nested true i e = inl refl
not_nested false i e = inr e

nested_false :
    (allow_nested : Bool) (i : ZipInfo)
    → (allow_nested ≡ true) ⊎ (is_nested i ≡ false)
    → (not allow_nested && is_nested i) ≡ false
nested_false true i h = refl
nested_false false i (inl e) = absurd cc
nested_false false i (inr e) = e

is_suspicious_iff :
    (i : ZipInfo)
    → (is_suspicious i ≡ false)
      ↔ ((i.compress_size ≡ 0) ⊎ (i.file_size ≤ max_ratio * i.compress_size))
unfolding is_suspicious
is_suspicious_iff i = ground arith

module _ (limit : ℕ) (allow_nested : Bool) where
  members-IsSafe :
      (is : List ZipInfo) (total : ℕ) (d r : Dict Member)
      → validate_members limit allow_nested is total d ≡ accepted r
      → total ≤ limit
      → All (IsSafe allow_nested) is × (total + total_size is ≤ limit) × (table_onto d is ≡ r)
  unfolding validate_members table_onto
  members-IsSafe [] total d r e l = (tt, omega arith, accepted_eq d r e)
  members-IsSafe (i ∷ is) total d r e l =
      let p1 = passed_by (is_absolute (i.filename)) (absolute_path (i.filename)) _ r refl e in
      let p2 = passed_by (climbs (i.filename)) (traversal (i.filename)) _ r refl p1.1 in
      let p3 = passed_by (not allow_nested && is_nested i) (nested (i.filename)) _ r refl p2.1 in
      let p4 = passed_by (is_suspicious i) (suspicious (i.filename)) _ r refl p3.1 in
      let p5 = passed_by (ltb limit (total + i.file_size)) too_large _ r refl p4.1 in
      let fits : total + i.file_size ≤ limit = ground (arith, p5.0) in
      let rest =
        members-IsSafe is (total + i.file_size) (put d (i.filename) (member_of i)) r p5.1 fits in
      (
        ((p1.0, p2.0, not_nested allow_nested i p3.0, (is_suspicious_iff i).0 p4.0), rest.0),
        omega (arith, rest.1),
        rest.2,
      )

  IsSafe-members :
      (is : List ZipInfo) (total : ℕ) (d : Dict Member)
      → All (IsSafe allow_nested) is
      → total + total_size is ≤ limit
      → validate_members limit allow_nested is total d ≡ accepted (table_onto d is)
  unfolding validate_members table_onto
  IsSafe-members [] total d a l = refl
  IsSafe-members (i ∷ is) total d a l =
      let h = a.0 in
      let fits : ltb limit (total + i.file_size) ≡ false = ground (arith, l) in
      rw (h.0, h.1, nested_false allow_nested i h.2, (is_suspicious_iff i).1 h.3, fits)
        (IsSafe-members is (total + i.file_size) (put d (i.filename) (member_of i)) a.1
          (omega (arith, l)))

  counted :
      (infos : List ZipInfo) → length infos ≤ max_members → ltb max_members (length infos) ≡ false
  counted infos few = ground (arith, few)

  -- An archive is accepted exactly if it can be read, has at most 2000 members and no more bytes in all
  -- than the limit, and no member has an absolute path, a path that climbs, more than 200 bytes for each
  -- compressed one, or, unless they are allowed, the suffix of an archive; the table has its members.
  pub validate_zip_archive_iff :
      (archive : Option (List ZipInfo)) (members : Dict Member)
      → (validate_zip_archive limit allow_nested archive ≡ accepted members) ↔ (
          (infos : List ZipInfo) × (archive ≡ some infos)
          × (length infos ≤ max_members)
          × All (IsSafe allow_nested) infos
          × (total_size infos ≤ limit)
          × (table_onto [] infos ≡ members))
  unfolding validate_zip_archive
  validate_zip_archive_iff archive members = (of_accepted archive, of_safe)
    where
      of_accepted :
          (a : Option (List ZipInfo))
          → validate_zip_archive limit allow_nested a ≡ accepted members
          → (infos : List ZipInfo) × (a ≡ some infos)
            × (length infos ≤ max_members)
            × All (IsSafe allow_nested) infos
            × (total_size infos ≤ limit)
            × (table_onto [] infos ≡ members)
      of_accepted none e = absurd (let k : false ≡ true = ap is_accepted e in cc)
      of_accepted (some infos) e =
          let p = passed_by (ltb max_members (length infos)) too_many _ members refl e in
          let h = members-IsSafe infos 0 [] members p.1 (omega arith) in
          (infos, refl, ground (arith, p.0), h.0, omega (arith, h.1), h.2)

      of_safe :
          ((infos : List ZipInfo) × (archive ≡ some infos)
            × (length infos ≤ max_members)
            × All (IsSafe allow_nested) infos
            × (total_size infos ≤ limit)
            × (table_onto [] infos ≡ members))
          → validate_zip_archive limit allow_nested archive ≡ accepted members
      of_safe (infos, e, few, safe, fits, table) =
          ap (validate_zip_archive limit allow_nested) e
          ∙ rw (counted infos few) (IsSafe-members infos 0 [] safe (omega (arith, fits)))
          ∙ ap accepted table
