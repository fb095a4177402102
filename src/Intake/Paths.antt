-- ===== src/Intake/Paths.antt =====
-- knovaryn/infrastructure/intake/paths.py: the policy on local paths. A path is the list of its parts under /.
--
-- `FileSystem` is what the code asks of the file system. `resolve_root` stands for expanduser and resolve of a
-- configured root, whose folder is made if it is not there.
pub mod Under
pub mod Local
mod Tests
use knovaryn.Base.{
  ℕ, ltb, ◌==◌, Bool, true, false, not, ◌&&◌, ◌||◌, List, [], ◌∷◌, ◌++◌, map, any, Option, none,
  some, if◌then◌else◌, is_some,
}
use knovaryn.Text.{codes, starts, text_eq}
use knovaryn.Intake.Archive.{path_parts}

abbrev pub FilePath : Type 0
FilePath = List (List ℕ)

-- resolve(strict=False) is none where it raises OSError, and so is st_nlink.
pub record FileSystem : Type 0 where
  pub cwd : FilePath
  pub real_path : FilePath → Option FilePath
  pub is_symlink : FilePath → Bool
  pub is_there : FilePath → Bool
  pub is_special : FilePath → Bool
  pub links : FilePath → Option ℕ
  pub resolve_root : List ℕ → FilePath

pub data PathRefusal : Type 0 where
  shell_syntax symlink_component outside symlink unresolved escapes missing : PathRefusal
  special_file no_stat hard_linked : PathRefusal

pub data Checked : Type 0 where
  allowed : FilePath → Checked
  denied : PathRefusal → Checked

abbrev is_shell : ℕ → Bool
is_shell c = c == b'$' || c == b'`' || c == b';' || c == b'|' || c == 10

unfoldable pub has_shell_syntax : List ℕ → Bool
has_shell_syntax s = any is_shell s

-- child.relative_to(root), none where it raises ValueError
unfoldable pub relative_to : FilePath → FilePath → Option FilePath
relative_to [] child = some child
relative_to (r ∷ root) [] = none
relative_to (r ∷ root) (c ∷ child) =
    let rest = relative_to root child in if text_eq r c then rest else none

unfoldable pub is_under : List FilePath → FilePath → Bool
unfolding relative_to
is_under roots p = any (λ root. is_some (relative_to root p)) roots

module _ (fs : FileSystem) where
  unfoldable pub candidate : List ℕ → FilePath
  candidate s = if starts (codes "/") s then path_parts s else fs.cwd ++ path_parts s

  unfoldable pub is_within : List FilePath → FilePath → Bool
  unfolding is_under
  is_within roots child = elim (fs.real_path child) [ none ↦ false | some p ↦ is_under roots p ]

  -- _reject_symlink_components: whether the path so far leads to a link by one of the parts.
  unfoldable pub has_link : FilePath → FilePath → Bool
  has_link current [] = false
  has_link current (part ∷ parts) =
      let next = current ++ part ∷ [] in fs.is_symlink next || has_link next parts

  unfoldable pub reject_hardlinks : FilePath → Option ℕ → Checked
  reject_hardlinks p none = denied no_stat
  reject_hardlinks p (some n) = if ltb 1 n then denied hard_linked else allowed p

  unfoldable pub check_real : List FilePath → FilePath → Checked
  unfolding is_within reject_hardlinks
  check_real roots p =
      if not (is_within roots p)
      then denied escapes
      else if not (fs.is_there p)
      then denied missing
      else if fs.is_special p
      then denied special_file
      else reject_hardlinks p (fs.links p)

  unfoldable pub validate_local_path : List ℕ → List (List ℕ) → Bool → Checked
  unfolding has_shell_syntax candidate is_within has_link check_real
  validate_local_path s allowed_roots follow_symlinks =
      let roots = map (fs.resolve_root) allowed_roots in
      let p = candidate s in
      if has_shell_syntax s
      then denied shell_syntax
      else if not follow_symlinks && has_link [] p
      then denied symlink_component
      else if not (is_within roots p)
      then denied outside
      else if fs.is_symlink p && not follow_symlinks
      then denied symlink
      else elim (fs.real_path p) [ none ↦ denied unresolved | some q ↦ check_real roots q ]
