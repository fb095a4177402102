-- ===== src/Intake/Paths/Local.antt =====
-- Which local paths are allowed.
use knovaryn.Base.{
  ℕ, ◌≤◌, ◌≡◌, ◌↔◌, refl, sym, ap, subst, ◌∙◌, arith, Bool, true, false, not, ◌&&◌, List, [], ◌∷◌,
  ◌++◌, map, Option, none, some, if◌then◌else◌, Bool-cases, ltb, inl, inr,
}
use mathlib.Core.List.{append_assoc}
use knovaryn.Intake.Paths.{
  FilePath, FileSystem, Checked, allowed, denied, PathRefusal, has_shell_syntax, is_under,
  candidate, is_within, has_link, reject_hardlinks, check_real, validate_local_path, unresolved,
  shell_syntax, symlink_component, outside, symlink, escapes, missing, special_file,
}
use knovaryn.Intake.Paths.Under.{IsUnder, is_under-IsUnder, IsUnder-is_under}

split_last :
    (p : List ℕ) (ps : FilePath)
    → (front : FilePath) × (part : List ℕ) × (p ∷ ps ≡ front ++ part ∷ [])
split_last p [] = ([], p, refl)
split_last p (q ∷ ps) =
    let (front, part, e) = split_last q ps in (p ∷ front, part, ap (λ r. p ∷ r) e)

guard_iff :
    (b : Bool) (r : PathRefusal) (x : Checked) (p : FilePath)
    → ((if b then denied r else x) ≡ allowed p) ↔ ((b ≡ false) × (x ≡ allowed p))
guard_iff true r x p = (λ e. absurd cc, λ (e, h). absurd cc)
guard_iff false r x p = (λ e. (refl, e), λ (e, h). h)

module _ (fs : FileSystem) where
  -- No part leads to a link.
  abbrev pub IsUnlinked : FilePath → FilePath → Type 0
  IsUnlinked current parts =
      (front : FilePath) (part : List ℕ) (back : FilePath)
      → parts ≡ front ++ part ∷ back
      → fs.is_symlink (current ++ (front ++ part ∷ [])) ≡ false

  has_link-IsUnlinked :
      (current parts : FilePath) → has_link fs current parts ≡ false → IsUnlinked current parts
  unfolding has_link
  has_link-IsUnlinked current [] h [] part back e = absurd cc
  has_link-IsUnlinked current [] h (f ∷ front) part back e = absurd cc
  has_link-IsUnlinked current (p ∷ parts) h [] part back e =
      let same : p ≡ part = cc in
      let first : fs.is_symlink (current ++ p ∷ []) ≡ false = ground (arith, h) in
      subst (λ q. fs.is_symlink (current ++ q ∷ []) ≡ false) same first
  has_link-IsUnlinked current (p ∷ parts) h (f ∷ front) part back e =
      let same : p ≡ f = cc in
      let below : parts ≡ front ++ part ∷ back = cc in
      let rest : has_link fs (current ++ p ∷ []) parts ≡ false = ground (arith, h) in
      let r = has_link-IsUnlinked (current ++ p ∷ []) parts rest front part back below in
      subst (λ q. fs.is_symlink (current ++ (q ∷ (front ++ part ∷ []))) ≡ false) same
        (subst (λ q. fs.is_symlink q ≡ false) (append_assoc current (p ∷ []) (front ++ part ∷ []))
          r)

  IsUnlinked-has_link :
      (current parts : FilePath) → IsUnlinked current parts → has_link fs current parts ≡ false
  unfolding has_link
  IsUnlinked-has_link current [] f = refl
  IsUnlinked-has_link current (p ∷ parts) f =
      let first : fs.is_symlink (current ++ p ∷ []) ≡ false = f [] p parts refl in
      let rest = IsUnlinked-has_link (current ++ p ∷ []) parts (λ front part back e.
        subst (λ q. fs.is_symlink q ≡ false)
          (sym (append_assoc current (p ∷ []) (front ++ part ∷ [])))
          (f (p ∷ front) part back (ap (λ q. p ∷ q) e))) in
      ground (arith, first, rest)

  -- What an allowed path is, for the real path p.
  pub record IsLocal (s : List ℕ) (allowed_roots : List (List ℕ)) (follow : Bool) (p : FilePath)
      : Type 0 where
    pub no_syntax : has_shell_syntax s ≡ false
    pub unlinked : follow ≡ false → IsUnlinked [] (candidate fs s)
    pub real : fs.real_path (candidate fs s) ≡ some p
    pub under : IsUnder (map (fs.resolve_root) allowed_roots) p
    pub there : fs.is_there p ≡ true
    pub ordinary : fs.is_special p ≡ false
    pub count : ℕ
    pub counted : fs.links p ≡ some count
    pub single : count ≤ 1

  -- A real path is its own, as resolve gives it, and the root is no link.
  pub record IsSound : Type 0 where
    pub real_again : (p q : FilePath) → fs.real_path p ≡ some q → fs.real_path q ≡ some q
    pub root_plain : fs.is_symlink [] ≡ false

  reject_hardlinks_iff :
      (p : FilePath) (o : Option ℕ) (q : FilePath)
      → (reject_hardlinks fs p o ≡ allowed q) ↔ ((p ≡ q) × (n : ℕ) × (o ≡ some n) × (n ≤ 1))
  unfolding reject_hardlinks
  reject_hardlinks_iff p none q = (λ e. absurd cc, λ (same, n, e, h). absurd cc)
  reject_hardlinks_iff p (some n) q = (
    λ e. elim (Bool-cases (ltb 1 n)) [
      | inl h ↦ absurd cc
      | inr h ↦ let same : p ≡ q = cc in (same, n, refl, ground (arith, h))
    ],
    λ (same, m, e, h).
        let again : n ≡ m = cc in
        let few : ltb 1 n ≡ false = ground (arith, again, h) in rw few (ap allowed same),
  )

  check_real_iff :
      (roots : List FilePath) (p q : FilePath)
      → (check_real fs roots p ≡ allowed q) ↔ (
          (is_within fs roots p ≡ true)
          × (fs.is_there p ≡ true)
          × (fs.is_special p ≡ false)
          × (p ≡ q)
          × (n : ℕ) × (fs.links p ≡ some n)
          × (n ≤ 1))
  unfolding check_real
  check_real_iff roots p q = (
    λ e.
        let (a, e1) = (guard_iff (not (is_within fs roots p)) escapes _ q).0 e in
        let (b, e2) = (guard_iff (not (fs.is_there p)) missing _ q).0 e1 in
        let (c, e3) = (guard_iff (fs.is_special p) special_file _ q).0 e2 in
        let (same, n, counted, few) = (reject_hardlinks_iff p (fs.links p) q).0 e3 in
        (ground (arith, a), ground (arith, b), c, same, n, counted, few),
    λ (a, b, c, same, n, counted, few). (guard_iff (not (is_within fs roots p)) escapes _ q).1 (
      ground (arith, a),
      (guard_iff (not (fs.is_there p)) missing _ q).1 (
        ground (arith, b),
        (guard_iff (fs.is_special p) special_file _ q).1
            (c, (reject_hardlinks_iff p (fs.links p) q).1 (same, n, counted, few)),
      ),
    ),
  )

  is_within-is_under :
      (roots : List FilePath) (p q : FilePath)
      → fs.real_path p ≡ some q
      → is_within fs roots p ≡ is_under roots q
  unfolding is_within
  is_within-is_under roots p q e = ap (λ o. elim o [ none ↦ false | some r ↦ is_under roots r ]) e

  last_unlinked : (p : FilePath) → IsSound → IsUnlinked [] p → fs.is_symlink p ≡ false
  last_unlinked [] sound f = sound.root_plain
  last_unlinked (p ∷ ps) sound f =
      let (front, part, e) = split_last p ps in
      subst (λ q. fs.is_symlink q ≡ false) (sym e) (f front part [] e)

  real_path-check_real :
      (roots : List FilePath) (o : Option FilePath) (p : FilePath)
      → elim o [ none ↦ denied unresolved | some q ↦ check_real fs roots q ] ≡ allowed p
      → (q : FilePath) × (o ≡ some q) × (check_real fs roots q ≡ allowed p)
  real_path-check_real roots none p e = absurd cc
  real_path-check_real roots (some q) p e = (q, refl, e)

  validate_local_path-IsLocal :
      (s : List ℕ) (allowed_roots : List (List ℕ)) (follow : Bool) (p : FilePath)
      → validate_local_path fs s allowed_roots follow ≡ allowed p
      → IsLocal s allowed_roots follow p
  unfolding validate_local_path
  validate_local_path-IsLocal s allowed_roots follow p e =
      let c = candidate fs s in
      let roots = map (fs.resolve_root) allowed_roots in
      let (a, e1) = (guard_iff (has_shell_syntax s) shell_syntax _ p).0 e in
      let (b, e2) = (guard_iff (not follow && has_link fs [] c) symlink_component _ p).0 e1 in
      let (w, e3) = (guard_iff (not (is_within fs roots c)) outside _ p).0 e2 in
      let (l, e4) = (guard_iff (fs.is_symlink c && not follow) symlink _ p).0 e3 in
      let (q, real, e5) = real_path-check_real roots (fs.real_path c) p e4 in
      let (again, there, ordinary, same, count, counted, single) =
        (check_real_iff roots q p).0 e5 in
      let real_p : fs.real_path c ≡ some p = real ∙ ap some same in
      record {
        no_syntax = a;
        unlinked = λ h. has_link-IsUnlinked [] c (ground (arith, b, h));
        real = real_p;
        under =
            is_under-IsUnder roots p
              (sym (is_within-is_under roots c p real_p) ∙ ground (arith, w));
        there = subst (λ r. fs.is_there r ≡ true) same there;
        ordinary = subst (λ r. fs.is_special r ≡ false) same ordinary;
        count = count;
        counted = subst (λ r. fs.links r ≡ some count) same counted;
        single = single;
      }

  unlinked-passes :
      (c : FilePath) (follow : Bool)
      → IsSound
      → (follow ≡ false → IsUnlinked [] c)
      → ((not follow && has_link fs [] c) ≡ false) × ((fs.is_symlink c && not follow) ≡ false)
  unlinked-passes c true sound h = (refl, ground arith)
  unlinked-passes c false sound h =
      let none_met = IsUnlinked-has_link [] c (h refl) in
      let last = last_unlinked c sound (h refl) in (ground (arith, none_met), ground (arith, last))

  IsLocal-validate_local_path :
      (s : List ℕ) (allowed_roots : List (List ℕ)) (follow : Bool) (p : FilePath)
      → IsSound
      → IsLocal s allowed_roots follow p
      → validate_local_path fs s allowed_roots follow ≡ allowed p
  unfolding validate_local_path
  IsLocal-validate_local_path s allowed_roots follow p sound h =
      let c = candidate fs s in
      let roots = map (fs.resolve_root) allowed_roots in
      let (root, tail, m, below) = h.under in
      let under = IsUnder-is_under roots p root tail m below in
      let w : is_within fs roots c ≡ true = is_within-is_under roots c p (h.real) ∙ under in
      let again : is_within fs roots p ≡ true =
        is_within-is_under roots p p (sound.real_again c p (h.real)) ∙ under in
      let (no_component, no_end) = unlinked-passes c follow sound (h.unlinked) in
      let checked =
        (check_real_iff roots p p).1
          (again, h.there, h.ordinary, refl, h.count, h.counted, h.single) in
      (guard_iff (has_shell_syntax s) shell_syntax _ p).1 (
        h.no_syntax,
        (guard_iff (not follow && has_link fs [] c) symlink_component _ p).1 (
          no_component,
          (guard_iff (not (is_within fs roots c)) outside _ p).1 (
            ground (arith, w),
            (guard_iff (fs.is_symlink c && not follow) symlink _ p).1 (no_end, rw (h.real) checked),
          ),
        ),
      )

  -- On a file system where a real path is its own and the root is no link, a path is allowed exactly if it has
  -- none of the shell's signs, no part of it leads to a link, unless links are to be followed, and what it
  -- resolves to is the path that is returned, which is a root or stands below one, is there, is no special file
  -- and has one link at most.
  pub validate_local_path_iff :
      (s : List ℕ) (allowed_roots : List (List ℕ)) (follow : Bool) (p : FilePath)
      → IsSound
      → (validate_local_path fs s allowed_roots follow ≡ allowed p)
        ↔ IsLocal s allowed_roots follow p
  validate_local_path_iff s allowed_roots follow p sound = (
    validate_local_path-IsLocal s allowed_roots follow p,
    IsLocal-validate_local_path s allowed_roots follow p sound,
  )
