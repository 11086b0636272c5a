-- ===== src/Vfs/Tree.antt =====
-- fakeshell/vfs/vfs.go: `FS`, what it tells of a path.
-- The base tree is an interface of the standard library: its answers are fields of `Base`. `now`
-- is what `cfg.Now` answers during a call.
use scomp_agent.Common.{
  equal, lookup, ℕ, ◌*◌, Bool, true, false, not, ◌&&◌, ◌||◌, Option, none, some, List, [], ◌∷◌,
  ◌==◌, if◌then◌else◌, Bytes, length, Map, text,
}
use scomp_agent.Vfs.Paths.{base, base_path, under, has_suffix}

pub data FsError : Type 0 where
  not_exist exist not_dir is_dir_error permission not_empty no_space invalid : FsError

pub data Result (A : Type 0) : Type 0 where
  ok : A → Result A
  err : FsError → Result A

pub record Info : Type 0 where
  pub name : Bytes
  pub path : Bytes
  pub is_dir : Bool
  pub mode : ℕ
  pub owner : Bytes
  pub size : ℕ
  pub mod_time : ℕ

-- `fs.Stat` tells whether an entry is a directory, and its size; `fs.ReadDir` tells the names of
-- the entries.
pub record Base : Type 0 where
  pub stat_of : Bytes → Option (Bool × ℕ)
  pub content_of : Bytes → Option Bytes
  pub names_of : Bytes → Option (List Bytes)

-- The configuration as `New` leaves it; `base_tree` is `none` for nil.
pub record Config : Type 0 where
  pub base_tree : Option Base
  pub extra_dirs : List Bytes
  pub static : Map Bytes
  pub generated : Map (ℕ → Bytes)
  pub user : Bytes
  pub home : Bytes
  pub writable : List Bytes
  pub private_paths : List Bytes
  pub base_time : ℕ
  pub max_entries : ℕ
  pub max_bytes : ℕ

pub record Fs : Type 0 where
  pub files : Map Bytes
  pub dirs : Map Bool
  pub mtime : Map ℕ
  pub used : ℕ

abbrev pub default_max_entries : ℕ
default_max_entries = 128

abbrev pub default_max_bytes : ℕ
default_max_bytes = 256 * 1024

-- What `New` does to its configuration.
unfoldable pub with_defaults : Config → Config
with_defaults cfg = record cfg {
  max_entries = if cfg.max_entries == 0 then default_max_entries else cfg.max_entries;
  max_bytes = if cfg.max_bytes == 0 then default_max_bytes else cfg.max_bytes;
  user = if length cfg.user == 0 then text "root" else cfg.user;
}

abbrev pub empty : Fs
empty = record { files = []; dirs = []; mtime = []; used = 0 }

-- `Reset`
abbrev pub reset : Fs → Fs
reset f = empty

abbrev pub has : {V : Type 0} → Option V → Bool
has none = false
has (some v) = true

-- `f.dirs[p]`
abbrev pub is_set : Option Bool → Bool
is_set none = false
is_set (some b) = b

unfoldable pub under_any : List Bytes → Bytes → Bool
under_any [] p = false
under_any (d ∷ ds) p = if under p d then true else under_any ds p

is_one_of : List Bytes → Bytes → Bool
is_one_of [] p = false
is_one_of (d ∷ ds) p = if equal d p then true else is_one_of ds p

-- A key of the map lies below `p`.
key_below : {V : Type 0} → Map V → Bytes → Bool
key_below [] p = false
key_below ((g, v) ∷ m) p = if under g p && not (equal g p) then true else key_below m p

module _ (cfg : Config) where
  unfoldable pub is_private : Bytes → Bool
  unfolding under_any
  is_private p = if equal cfg.user (text "root") then false else under_any cfg.private_paths p

  unfoldable pub owner_of : Fs → Bytes → Bytes
  owner_of f p =
      if has (lookup p f.files)
        || is_set (lookup p f.dirs)
        || (not (length cfg.home == 0) && under p cfg.home)
      then cfg.user
      else text "root"

  unfoldable pub mode_of : Bytes → Bool → ℕ
  unfolding is_private
  mode_of p is_dir =
      if is_private p && is_dir
      then 448
      else if is_private p
      then 384
      else if is_dir && (equal p (text "/tmp") || equal p (text "/var/tmp"))
      then 511
      else if is_dir
      then 493
      else if has_suffix p (text ".sh")
      then 493
      else 420

  unfoldable pub is_extra_dir : Bytes → Bool
  unfolding is_one_of
  is_extra_dir p = is_one_of cfg.extra_dirs p

  unfoldable pub generated_parent : Bytes → Bool
  unfolding key_below
  generated_parent p = if key_below cfg.generated p then true else key_below cfg.static p

  abbrev pub blank : Fs → Bytes → Info
  blank f p = record {
    name = base p;
    path = p;
    is_dir = false;
    mode = 0;
    owner = owner_of f p;
    size = 0;
    mod_time = elim (lookup p f.mtime) [ none ↦ cfg.base_time | some t ↦ t ];
  }

  -- The cases of `Stat` from the last one on.
  stat_parent : Fs → Bytes → Result Info
  unfolding generated_parent
  stat_parent f p =
      if generated_parent p
      then ok (record (blank f p) { is_dir = true; mode = 365 })
      else err not_exist

  stat_base : Fs → Bytes → Option Base → Result Info
  unfolding stat_parent mode_of
  stat_base f p none = stat_parent f p
  stat_base f p (some b) = elim (b.stat_of (base_path p)) [
    | none ↦ stat_parent f p
    | some st ↦ ok (record (blank f p) {
      is_dir = st.0;
      mode = mode_of p st.0;
      size = if st.0 then 4096 else st.1;
    })
  ]

  stat_static : Fs → Bytes → Option Bytes → Result Info
  unfolding stat_base mode_of
  stat_static f p none = stat_base f p cfg.base_tree
  stat_static f p (some content) =
      ok (record (blank f p) { size = length content; mode = mode_of p false })

  stat_generated : ℕ → Fs → Bytes → Option (ℕ → Bytes) → Result Info
  unfolding stat_static
  stat_generated now f p none = stat_static f p (lookup p cfg.static)
  stat_generated now f p (some gen) =
      ok (record (blank f p) { size = length (gen now); mode = 292; mod_time = now })

  unfoldable pub stat_file : ℕ → Fs → Bytes → Option Bytes → Result Info
  unfolding stat_generated mode_of is_extra_dir
  stat_file now f p (some content) =
      ok (record (blank f p) { size = length content; mode = mode_of p false })
  stat_file now f p none =
      if is_set (lookup p f.dirs) || is_extra_dir p
      then ok (record (blank f p) { is_dir = true; mode = mode_of p true; size = 4096 })
      else stat_generated now f p (lookup p cfg.generated)

  unfoldable pub stat : ℕ → Fs → Bytes → Result Info
  unfolding stat_file
  stat now f p = if length p == 0 then err not_exist else stat_file now f p (lookup p f.files)

  -- `ReadFile` behind its tests.
  read_base : Bytes → Option Base → Result Bytes
  read_base p none = err not_exist
  read_base p (some b) = elim (b.content_of (base_path p)) [
    | none ↦ err not_exist
    | some content ↦ ok content
  ]

  unfoldable pub read_found : ℕ → Fs → Bytes → Result Bytes
  unfolding read_base
  read_found now f p = elim (lookup p f.files) [
    | some content ↦ ok content
    | none ↦ elim (lookup p cfg.generated) [
      | some gen ↦ ok (gen now)
      | none ↦ elim (lookup p cfg.static) [
        | some content ↦ ok content
        | none ↦ read_base p cfg.base_tree
      ]
    ]
  ]

  unfoldable pub read_stat : ℕ → Fs → Bytes → Result Info → Result Bytes
  unfolding read_found is_private
  read_stat now f p (err e) = err e
  read_stat now f p (ok st) =
      if st.is_dir
      then err is_dir_error
      else if is_private p
      then err permission
      else read_found now f p

  unfoldable pub read_file : ℕ → Fs → Bytes → Result Bytes
  unfolding stat read_stat
  read_file now f p = read_stat now f p (stat now f p)
