-- ===== src/Vfs/Dirs/Tests.antt =====
-- Directories at concrete inputs.
use scomp_agent.Common.{equal, lookup, ◌≡◌, refl, ◌≢◌, true, none, [], ◌∷◌, Bytes, text}
use scomp_agent.Vfs.Paths.{
  resolve, has_nul, clean, elements, prepend, clean_from, pushed, climb, joined, is_rooted,
  split_last, under, has_prefix,
}
use scomp_agent.Vfs.Tree.{Config, empty, not_exist, stat, stat_file}
use scomp_agent.Vfs.Dirs.{
  mkdir, done, out_of_fuel, failed, is_dir, make_parents, is_dir_stat, ended, and_then,
}
use scomp_agent.Vfs.Write.{make_dir, make_stat, make_checked, check_create}
use scomp_agent.Vfs.Dirs.Parents.{mkdir_parents}

abbrev config : Config
config = record {
  base_tree = none;
  extra_dirs = text "/tmp" ∷ [];
  static = (text "/etc/motd", text "hi") ∷ [];
  generated = [];
  user = text "root";
  home = text "/root";
  writable = [];
  private_paths = [];
  base_time = 0;
  max_entries = 4;
  max_bytes = 5;
}

abbrev target : Bytes
target = resolve (text "/tmp") (text "b/a")

mkdir_parents_example :
    ((mkdir config 3 empty target true).1 ≢ out_of_fuel)
    × ((mkdir config 3 empty target true).1 ≡ done
        → is_dir config 3 (mkdir config 3 empty target true).0 target ≡ true)
mkdir_parents_example = mkdir_parents config 3 empty (text "/tmp") (text "b/a")

-- A path with a zero byte is refused, and is not out of fuel.
mkdir_nul : (mkdir config 3 empty (resolve (text "/") (0 ∷ [])) true).1 ≡ failed not_exist
unfolding mkdir make_parents make_dir make_stat make_checked check_create stat stat_file is_dir
    is_dir_stat ended and_then resolve has_nul clean elements prepend clean_from pushed climb joined
    is_rooted split_last under has_prefix equal lookup
mkdir_nul = refl
