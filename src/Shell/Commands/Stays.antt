-- ===== src/Shell/Commands/Stays.antt =====
-- Each command keeps the working directory inside the tree.
use scomp_agent.Common.{
  equal, lookup, ℕ, ◌≡◌, refl, sym, ap, ◌∙◌, inl, inr, Bool, true, false, not, ◌&&◌, Option, none,
  some, List, [], ◌∷◌, ◌==◌, if◌then◌else◌, Bytes, length, Map, text,
}
use scomp_agent.Vfs.Paths.{resolve, clean}
use scomp_agent.Vfs.Resolve.{IsClean, resolve-IsClean}
use scomp_agent.Vfs.Tree.{read_file, Result, ok, err, Config, Fs, stat}
use scomp_agent.Vfs.Tree
use scomp_agent.Vfs.Dirs
use scomp_agent.Vfs.Dirs.Keeps.{mkdir-IsValid, remove-IsValid}
use scomp_agent.Vfs.Write.Quota.{IsValid, After, touch_stat-IsValid}
use scomp_agent.Strings.{is_nil}
use scomp_agent.Vfs.Write.{touch}
use scomp_agent.Shell.Files.{
  LineArgs, bad_args, lines_of, cmd_mkdir, make_each, mkdir_args, rm_stat, rm_each, cmd_rm, rm_args,
  rmdir_each, cmd_rmdir, read_found, read_files, head_tail_args,
}
use scomp_agent.Vfs.Dirs.{remove}
use scomp_agent.Shell.Commands.{
  Machine, shell_home, say, abs, for_each, settled, cd_listed, cd_stat, cd_to, cd_dash, cmd_cd,
  touched, env_found, cmd_env, cmd_touch,
}

module _ (cfg : Config) where
  -- The files stay within their limits, and the working directory is a clean path.
  pub record Stays (m : Machine) : Type 0 where
    pub tree : IsValid cfg m.fs
    pub inside : IsClean m.cwd

  abbrev pub StaysAfter : ℕ × Machine → Type 0
  StaysAfter r = Stays r.1

  pub Stays-say : (s : Bytes) (m : Machine) → Stays m → Stays (say s m)
  Stays-say s m h = record { tree = h.tree; inside = h.inside }

  pub Stays-env : (env : Map Bytes) (m : Machine) → Stays m → Stays (record m { env = env })
  Stays-env env m h = record { tree = h.tree; inside = h.inside }

  Stays-fs : (f : Fs) (m : Machine) → IsValid cfg f → Stays m → Stays (record m { fs = f })
  Stays-fs f m v h = record { tree = v; inside = h.inside }

  Stays-if :
      (b : Bool) (x y : ℕ × Machine) → StaysAfter x → StaysAfter y → StaysAfter (if b then x else y)
  Stays-if true x y h k = h
  Stays-if false x y h k = k

  Stays-for_each :
      (one : Bytes → Machine → ℕ × Machine) (names : List Bytes) (status : ℕ) (m : Machine)
      → ((n : Bytes) (m : Machine) → Stays m → StaysAfter (one n m))
      → Stays m
      → StaysAfter (for_each one names status m)
  unfolding for_each
  Stays-for_each one [] status m step h = h
  Stays-for_each one (n ∷ names) status m step h =
      Stays-for_each one names _ (one n m).1 step (step n m h)

  module _ (now : ℕ) where
    stat_empty : (f : Fs) → stat cfg now f [] ≡ err Tree.not_exist
    unfolding stat
    stat_empty f = refl

    -- A path that `stat` knows is clean if it comes from `resolve`.
    known-IsClean :
        (f : Fs) (cwd target : Bytes) (st : Tree.Info)
        → stat cfg now f (resolve cwd target) ≡ ok st
        → IsClean (resolve cwd target)
    known-IsClean f cwd target st known = elim (resolve-IsClean cwd target) [
      | inl (zero_in, nul) ↦
          let clash : err Tree.not_exist ≡ ok st =
            sym (stat_empty f) ∙ ap (stat cfg now f) (sym nul) ∙ known in
          cc
      | inr (plain, clean) ↦ clean
    ]

    Stays-cd_listed :
        (target p : Bytes) (m : Machine) (r : Result (List Tree.Info))
        → IsClean p
        → Stays m
        → StaysAfter (cd_listed cfg now target p m r)
    unfolding cd_listed
    Stays-cd_listed target p m (err e) clean h = Stays-say _ m h
    Stays-cd_listed target p m (ok entries) clean h = record { tree = h.tree; inside = clean }

    Stays-cd_stat :
        (target : Bytes) (m : Machine) (r : Result Tree.Info)
        → stat cfg now m.fs (abs m target) ≡ r
        → Stays m
        → StaysAfter (cd_stat cfg now target (abs m target) m r)
    unfolding cd_stat
    Stays-cd_stat target m (err e) known h = Stays-say _ m h
    Stays-cd_stat target m (ok st) known h =
        Stays-if (not st.is_dir) _ _ (Stays-say _ m h)
          (Stays-cd_listed target (abs m target) m _ (known-IsClean m.fs m.cwd target st known) h)

    Stays-cd_to : (target : Bytes) (m : Machine) → Stays m → StaysAfter (cd_to cfg now target m)
    unfolding cd_to
    Stays-cd_to target m h = Stays-cd_stat target m (stat cfg now m.fs (abs m target)) refl h

    pub Stays-cmd_cd :
        (args : List Bytes) (m : Machine) → Stays m → StaysAfter (cmd_cd cfg now args m)
    unfolding cmd_cd cd_dash
    Stays-cmd_cd [] m h = Stays-cd_to shell_home m h
    Stays-cmd_cd (target ∷ []) m h =
        Stays-if (equal target (text "-")) _ (cd_to cfg now target m)
          (Stays-if (is_nil m.oldpwd) _ _ (Stays-say _ m h)
            (Stays-cd_to m.oldpwd _ (Stays-say _ m h)))
          (Stays-cd_to target m h)
    Stays-cmd_cd (a ∷ b ∷ args) m h = Stays-say _ m h

    Stays-settled :
        (before n : Bytes) (m : Machine) (r : Fs × Dirs.End)
        → IsValid cfg r.0
        → Stays m
        → StaysAfter (settled before n m r)
    unfolding settled
    Stays-settled before n m (f, Dirs.done) v h = Stays-fs f m v h
    Stays-settled before n m (f, Dirs.out_of_fuel) v h = Stays-fs f m v h
    Stays-settled before n m (f, Dirs.failed e) v h = record { tree = v; inside = h.inside }

    Stays-touched :
        (n : Bytes) (m : Machine) (r : Result Fs)
        → After cfg r
        → Stays m
        → StaysAfter (touched cfg now n m r)
    unfolding touched
    Stays-touched n m (ok f) v h = Stays-fs f m v h
    Stays-touched n m (err e) v h = Stays-say _ m h

    pub Stays-cmd_touch :
        (args : List Bytes) (m : Machine) → Stays m → StaysAfter (cmd_touch cfg now args m)
    unfolding cmd_touch touch
    Stays-cmd_touch [] m h = Stays-say _ m h
    Stays-cmd_touch (a ∷ args) m h =
        Stays-for_each (λ n m. touched cfg now n m (touch cfg now m.fs (abs m n))) (a ∷ args) 0 m
          (λ n m h.
            Stays-touched n m (touch cfg now m.fs (abs m n))
              (touch_stat-IsValid cfg now m.fs (abs m n) (stat cfg now m.fs (abs m n)) h.tree) h)
          h

    pub Stays-cmd_mkdir :
        (args : List Bytes) (m : Machine) → Stays m → StaysAfter (cmd_mkdir cfg now args m)
    unfolding cmd_mkdir make_each
    Stays-cmd_mkdir args m h =
        let (parents, names) = mkdir_args args in
        Stays-if (length names == 0) _ _ (Stays-say _ m h) (
          Stays-for_each (make_each cfg now parents) names 0 m
            (λ n m h.
              Stays-settled (text "mkdir: cannot create directory '") n m _
                (mkdir-IsValid cfg now m.fs (abs m n) parents h.tree) h)
            h)

    Stays-remove :
        (before n : Bytes) (recursive : Bool) (m : Machine)
        → Stays m
        → StaysAfter (settled before n m (remove cfg now m.fs (abs m n) recursive))
    Stays-remove before n recursive m h =
        Stays-settled before n m _ (remove-IsValid cfg now m.fs (abs m n) recursive h.tree) h

    Stays-rm_stat :
        (recursive force : Bool) (n : Bytes) (m : Machine) (r : Result Tree.Info)
        → Stays m
        → StaysAfter (rm_stat cfg now recursive force n m r)
    unfolding rm_stat
    Stays-rm_stat recursive force n m (err e) h = Stays-if force (0, m) _ h (Stays-say _ m h)
    Stays-rm_stat recursive force n m (ok st) h =
        Stays-if (st.is_dir && not recursive) _ _ (Stays-say _ m h)
          (Stays-remove (text "rm: cannot remove '") n recursive m h)

    pub Stays-cmd_rm :
        (args : List Bytes) (m : Machine) → Stays m → StaysAfter (cmd_rm cfg now args m)
    unfolding cmd_rm rm_each
    Stays-cmd_rm args m h =
        let (recursive, force, names) = rm_args args in
        Stays-if (length names == 0) _ _ (Stays-say _ m h) (
          Stays-for_each (rm_each cfg now recursive force) names 0 m
            (λ n m h. Stays-rm_stat recursive force n m _ h) h)

    pub Stays-cmd_rmdir :
        (args : List Bytes) (m : Machine) → Stays m → StaysAfter (cmd_rmdir cfg now args m)
    unfolding cmd_rmdir rmdir_each
    Stays-cmd_rmdir args m h =
        Stays-for_each (rmdir_each cfg now) args 0 m
          (λ n m h. Stays-remove (text "rmdir: failed to remove '") n false m h) h

    Stays-read_found :
        (prog : Bytes) (show : Bytes → Bytes → Bytes) (n : Bytes) (m : Machine) (r : Result Bytes)
        → Stays m
        → StaysAfter (read_found cfg now prog show n m r)
    unfolding read_found
    Stays-read_found prog show n m (err e) h = Stays-say _ m h
    Stays-read_found prog show n m (ok content) h = Stays-say _ m h

    pub Stays-read_files :
        (prog : Bytes) (names : List Bytes) (show : Bytes → Bytes → Bytes) (m : Machine)
        → Stays m
        → StaysAfter (read_files cfg now prog names show m)
    unfolding read_files
    Stays-read_files prog [] show m h = Stays-say _ m h
    Stays-read_files prog (n ∷ names) show m h =
        Stays-for_each (λ n m. read_found cfg now prog show n m (read_file cfg now m.fs (abs m n)))
          (n ∷ names) 0 m
          (λ n m h. Stays-read_found prog show n m (read_file cfg now m.fs (abs m n)) h) h

    pub Stays-head_tail_args :
        (prog : Bytes) (tail : Bool) (r : LineArgs) (m : Machine)
        → Stays m
        → StaysAfter (head_tail_args cfg now prog tail r m)
    unfolding head_tail_args
    Stays-head_tail_args prog tail (bad_args msg) m h = Stays-say _ m h
    Stays-head_tail_args prog tail (lines_of n names) m h = Stays-read_files prog names _ m h

    pub Stays-cmd_env : (args : List Bytes) (m : Machine) → Stays m → StaysAfter (cmd_env args m)
    unfolding cmd_env
    Stays-cmd_env [] m h = Stays-say _ m h
    Stays-cmd_env (name ∷ args) m h = env_found_stays (lookup name m.env)
      where
        env_found_stays : (o : Option Bytes) → StaysAfter (env_found o m)
        env_found_stays none = h
        env_found_stays (some v) = Stays-say _ m h
