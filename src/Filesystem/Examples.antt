-- ===== src/Filesystem/Examples.antt =====
-- Tests of manager.go and its theorems at concrete inputs. The system of the tests keeps a log of
-- the paths that it is called with.
use cloudnan_agent.Base.{ℕ, false, List, [], ◌∷◌, Bytes, codes, ok, err, ◌≡◌, ◌⊎◌, refl}
use cloudnan_agent.Filesystem.Manager.Calls.{OneCall, changes_confined, Copied, copy-Copied}
use cloudnan_agent.Filesystem.Manager.Confinement.{Confined, resolve_path-Confined}
use cloudnan_agent.Filesystem.Manager.{
  Os, access_denied, resolve_path, write_bytes, delete, mkdir, copy,
}
use cloudnan_agent.Text.FilePath.{clean, join_paths}

abbrev logging : Os (List Bytes) ℕ
logging = record {
  read_file = λ p s. ok p;
  write_file = λ p content mode s. (p ∷ s, ok tt);
  remove_all = λ p s. (p ∷ s, ok tt);
  mkdir_all = λ p mode s. (p ∷ s, ok tt);
  open_file = λ p s. ok tt;
  stat_file = λ p s. ok (false, 0o600);
  create = λ p s. (p ∷ s, ok tt);
  copy_contents = λ p q s. (p ∷ s, ok tt);
  chmod = λ p mode s. (p ∷ s, ok tt);
}

abbrev srv : Bytes
srv = codes "/srv/app/"

abbrev deny : Bytes
deny = codes "../app2/x"

abbrev etc_x : Bytes
etc_x = codes "a/../etc//./x"

clean_test : clean (codes "/a/./b//../c/..") ≡ codes "/a"
unfolding clean
clean_test = refl

clean_relative_test : clean (codes "../x/../../y") ≡ codes "../../y"
unfolding clean
clean_relative_test = refl

join_paths_test : join_paths ([] ∷ codes "a" ∷ codes "../b" ∷ []) ≡ codes "b"
unfolding join_paths
join_paths_test = refl

sibling_test : resolve_path logging srv deny ≡ err access_denied
unfolding resolve_path
sibling_test = refl

inside_test : resolve_path logging srv etc_x ≡ ok (codes "/srv/app/etc/x")
unfolding resolve_path
inside_test = refl

resolve_path-Confined_example : Confined (clean srv) (codes "/srv/app/etc/x")
resolve_path-Confined_example = resolve_path-Confined logging srv etc_x refl inside_test

changes_confined_example :
    OneCall logging srv refl
      (write_bytes logging srv etc_x [] [])
      (λ q. logging.write_file q [] 0o644 [])
      []
    × OneCall logging srv refl (delete logging srv etc_x []) (λ q. logging.remove_all q []) []
    × OneCall logging srv refl (mkdir logging srv etc_x []) (λ q. logging.mkdir_all q 0o755 []) []
changes_confined_example = changes_confined logging srv refl etc_x [] []

copy-Copied_example :
    (copy logging srv etc_x (codes "y") [] ≡ ([], err access_denied))
    ⊎ ((p q : Bytes) × Confined (clean srv) p
        × Confined (clean srv) q
        × (resolve_path logging srv etc_x ≡ ok p)
        × (resolve_path logging srv (codes "y") ≡ ok q)
        × Copied logging srv refl p q [] (copy logging srv etc_x (codes "y") []))
copy-Copied_example = copy-Copied logging srv refl etc_x (codes "y") []
