-- ===== src/Intake/Paths/Tests.antt =====
-- The policy on local paths run on a file system that has one link, /r/l, to /etc.
use knovaryn.Base.{
  ℕ, Bool-cases, inl, inr, subst, if◌then◌else◌, ◌≡◌, ◌↔◌, refl, Bool, true, false, List, [], ◌∷◌,
  some,
}
use knovaryn.Text.{codes, starts, text_eq}
use knovaryn.Intake.Archive.{path_parts, split_slash}
use knovaryn.Intake.Paths.{
  FilePath, FileSystem, allowed, denied, symlink_component, outside, shell_syntax,
  validate_local_path,
}
use knovaryn.Intake.Paths.Local.{IsLocal, validate_local_path_iff}

abbrev is_the_link : FilePath → Bool
is_the_link (r ∷ l ∷ []) = text_eq l (codes "l")
is_the_link p = false

abbrev fs : FileSystem
fs = record {
  cwd = codes "w" ∷ [];
  real_path = λ p. if is_the_link p then some (codes "etc" ∷ []) else some p;
  is_symlink = is_the_link;
  is_there = λ p. true;
  is_special = λ p. false;
  links = λ p. some 1;
  resolve_root = path_parts;
}

abbrev roots : List (List ℕ)
roots = codes "/r" ∷ []

inside : validate_local_path fs (codes "/r/./a") roots false ≡ allowed (codes "r" ∷ codes "a" ∷ [])
unfolding validate_local_path text_eq starts path_parts split_slash
inside = refl

linked : validate_local_path fs (codes "/r/l") roots false ≡ denied symlink_component
unfolding validate_local_path text_eq starts path_parts split_slash
linked = refl

followed : validate_local_path fs (codes "/r/l") roots true ≡ denied outside
unfolding validate_local_path text_eq starts path_parts split_slash
followed = refl

piped : validate_local_path fs (codes "/r/a|b") roots true ≡ denied shell_syntax
unfolding validate_local_path text_eq starts path_parts split_slash
piped = refl

real_twice : (p q : FilePath) → fs.real_path p ≡ some q → fs.real_path q ≡ some q
real_twice p q e = elim (Bool-cases (is_the_link p)) [
  | inl h ↦
      let same : codes "etc" ∷ [] ≡ q = cc (rw h at e) in
      subst (λ r. fs.real_path r ≡ some r) same refl
  | inr h ↦
      let same : p ≡ q = cc (rw h at e) in
      let plain : fs.real_path p ≡ some p = rw h refl in
      subst (λ r. fs.real_path r ≡ some r) same plain
]

validate_local_path_iff_example :
    (validate_local_path fs (codes "/r/a") roots false ≡ allowed (codes "r" ∷ codes "a" ∷ []))
    ↔ IsLocal fs (codes "/r/a") roots false (codes "r" ∷ codes "a" ∷ [])
validate_local_path_iff_example =
    validate_local_path_iff fs (codes "/r/a") roots false (codes "r" ∷ codes "a" ∷ [])
      (record { real_again = real_twice; root_plain = refl })
