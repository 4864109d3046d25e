-- ===== src/Storage/Opening/Tests.antt =====
-- An empty data directory is opened, and the theorem at it.
use ipa_now.Common.{◌≡◌, refl, true, false, none, some, if◌then◌else◌, ◌==◌}
use ipa_now.Storage.Opening.{
  Tree, symlink, system, require, create, make_all, lstat, is_private_directory, is_private_file,
  is_lock, open_lock, flock, make_private, make_each, take_lock, open_root, ◌>>=◌,
}
use ipa_now.Storage.Opening.Opened.{Ends, IsOpen, open_root-IsOpen}

abbrev a_tree : Tree
a_tree = record { node = λ _. none; taken = false; held = false; fails = λ _. false; done = 0 }

opens : (open_root a_tree).0 ≡ some tt
unfolding open_root make_private make_all lstat require system create is_private_directory
    is_private_file is_lock take_lock open_lock flock make_each ◌>>=◌
opens = refl

-- `secrets` is a link to a directory.
abbrev a_link : Tree
a_link = record a_tree {
  node = λ p. if p == "secrets" then some (record { kind = symlink true; perm = 448 }) else none;
}

refuses_link : (open_root a_link).0 ≡ none
unfolding open_root make_private make_all lstat require system create is_private_directory
    is_private_file is_lock take_lock open_lock flock make_each ◌>>=◌
refuses_link = refl

open_root-IsOpen_example : Ends false IsOpen (open_root a_tree)
open_root-IsOpen_example = open_root-IsOpen a_tree refl
