-- ===== src/Vfs/Write/Tests.antt =====
-- The file tree at concrete inputs.
use scomp_agent.Common.{
  equal, lookup, erase, ◌+◌, ◌≤◌, ◌≡◌, refl, ◌⊎◌, true, false, none, List, [], ◌∷◌, arith, Bytes,
  length, weigh, text,
}
use scomp_agent.Vfs.Paths.{
  dot_dot, resolve, clean, elements, prepend, clean_from, pushed, joined, is_rooted, has_nul,
  split_last, under, has_prefix, climb,
}
use scomp_agent.Vfs.Resolve.Walk.{path_of, resolve_walk}
use scomp_agent.Vfs.Resolve.{IsClean, NoZero, resolve-IsClean}
use scomp_agent.Vfs.Tree.{
  ok, Config, Fs, empty, has, stat, stat_file, read_file, is_private, under_any, mode_of,
  is_extra_dir, generated_parent, owner_of,
}
use scomp_agent.Vfs.Write.{
  write_file, write_over, write_new, store_checked, check_create, check_parent, store, is_writable,
}
use scomp_agent.Vfs.Write.Runs.{Op, fill, make, remove, run, run_within}
use scomp_agent.Vfs.Write.Access.{read_file-write_file, MayCreate, write_file-MayCreate}

abbrev config : Config
config = record {
  base_tree = none;
  extra_dirs = text "/tmp" ∷ [];
  static = (text "/etc/motd", text "hi") ∷ [];
  generated = [];
  user = text "review";
  home = text "/home/review";
  writable = text "/tmp" ∷ [];
  private_paths = text "/root" ∷ [];
  base_time = 0;
  max_entries = 2;
  max_bytes = 5;
}

abbrev note : Bytes
note = text "/tmp/a"

resolve-climb : resolve (text "/tmp") (text "../../etc/./motd") ≡ text "/etc/motd"
unfolding resolve clean elements prepend clean_from pushed climb joined is_rooted has_nul equal
resolve-climb = refl

resolve-IsClean_example :
    ((¬ NoZero (text "../..")) × (resolve (text "/tmp") (text "../..") ≡ []))
    ⊎ (NoZero (text "../..") × IsClean (resolve (text "/tmp") (text "../..")))
resolve-IsClean_example = resolve-IsClean (text "/tmp") (text "../..")

resolve_walk_example :
    (resolve (text "/x") (path_of (text "tmp" ∷ [])) ≡ path_of (text "tmp" ∷ []))
    × (resolve (path_of (text "tmp" ∷ [])) (text "a") ≡ path_of (text "a" ∷ text "tmp" ∷ []))
    × (resolve (path_of (text "a" ∷ text "tmp" ∷ [])) dot_dot ≡ path_of (text "tmp" ∷ []))
unfolding joined
resolve_walk_example =
    resolve_walk (text "/x") (text "tmp" ∷ []) (text "a")
      (
        ((λ e. ground arith), (λ e. ground arith), (λ e. ground arith), (refl, tt)),
        (
          (
            (λ e. ground arith),
            (λ e. ground arith),
            (λ e. ground arith),
            (refl, (refl, (refl, tt))),
          ),
          tt,
        ),
      )
      ((λ e. ground arith), ((λ e. ground arith), ((λ e. ground arith), ((λ e. ground arith), tt))))
      ((λ e. ground arith), tt)

abbrev written : Fs
written = record { files = (note, 1 ∷ 2 ∷ []) ∷ []; dirs = []; mtime = (note, 7) ∷ []; used = 2 }

write-note : write_file config 7 empty note (1 ∷ 2 ∷ []) ≡ ok written
unfolding write_file write_over write_new store_checked check_create check_parent store stat
    stat_file is_writable is_private under_any mode_of is_extra_dir generated_parent owner_of clean
    elements prepend clean_from pushed climb joined is_rooted split_last under has_prefix lookup
    erase equal
write-note = refl

not-private : is_private config note ≡ false
unfolding is_private under_any under has_prefix equal
not-private = refl

read_file-write_file_example : read_file config 9 written note ≡ ok (1 ∷ 2 ∷ [])
read_file-write_file_example =
    read_file-write_file config 7 9 empty note (1 ∷ 2 ∷ []) written write-note refl not-private

write_file-MayCreate_example :
    (has (lookup note empty.files) ≡ true) ⊎ MayCreate config 7 empty note
write_file-MayCreate_example =
    write_file-MayCreate config 7 empty note (1 ∷ 2 ∷ []) written write-note

abbrev script : List Op
script =
    fill 1 note (1 ∷ 2 ∷ 3 ∷ [])
    ∷ fill 2 (text "/tmp/b") (4 ∷ 5 ∷ 6 ∷ [])
    ∷ make 3 (text "/tmp/c/d") true
    ∷ remove 4 note false
    ∷ []

run_within_example :
    (weigh length (run config empty script).files ≡ (run config empty script).used)
    × ((run config empty script).used ≤ 5)
    × (length (run config empty script).files + length (run config empty script).dirs ≤ 2)
run_within_example = run_within config script
