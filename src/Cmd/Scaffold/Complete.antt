-- ===== src/Cmd/Scaffold/Complete.antt =====
-- What stands on the disk behind `Write` and behind `gotchi init`.
use mathlib.Core.Path.{subst}
use gotchi.Base.{
  ◌≡◌, refl, Bool, true, false, Option, none, some, [], ◌∷◌, any, All, Once, Text, same, same_self,
  arith,
}
use gotchi.Errors.{Result, ok, err}
use gotchi.Cmd.Disk.{
  Disk, Node, file, directory, Outcome, works, refused, stops, outcome, read_file, write_with,
  write_at, write_file, make_all, readable,
}
use gotchi.Cmd.Export.Kept.{At, make_all-At, write_with-At}
use gotchi.Cmd.Export.Written.{AllReadable, write_at-AllReadable, make_all-AllReadable}
use gotchi.Cmd.Scaffold.{FileMap, then_next, write_one, write_files}

write_at-elsewhere :
    (p : Text) (k : Node) (path content : Text) (d : Disk) (o : Option Node)
    → same p path ≡ false
    → At p k d
    → At p k (write_at path content d o).1
write_at-elsewhere p k path content d (some directory) other h = h
write_at-elsewhere p k path content d (some (file r old)) other h =
    write_with-At p k path r content d (outcome d.outcomes) other h
write_at-elsewhere p k path content d none other h =
    write_with-At p k path true content d (outcome d.outcomes) other h

module _ (path content : Text) (d : Disk) where
  write_with-there :
      (o : Outcome) (u : Unit {0})
      → (write_with path true content d o).0 ≡ ok u
      → At path (file true content) (write_with path true content d o).1
  write_with-there works u e = rw (same_self path)
  write_with-there refused u e = absurd (cc)
  write_with-there (stops part) u e = absurd (cc)

  write_at-there :
      (o : Option Node) (u : Unit {0})
      → readable o ≡ true
      → (write_at path content d o).0 ≡ ok u
      → At path (file true content) (write_at path content d o).1
  write_at-there (some directory) u fine e = absurd (cc)
  write_at-there (some (file true old)) u fine e = write_with-there (outcome d.outcomes) u e
  write_at-there (some (file false old)) u fine e = absurd (cc)
  write_at-there none u fine e = write_with-there (outcome d.outcomes) u e

pub then_next-ok {ℓ} :
    {A : Type ℓ} (f : Disk → Result A × Disk) (r : Result (Unit {0}) × Disk) (a : A) (d' : Disk)
    → then_next f r ≡ (ok a, d')
    → (u : Unit {0}) × (r.0 ≡ ok u) × (f r.1 ≡ (ok a, d'))
then_next-ok f (ok u, d) a d' e = (u, refl, e)
then_next-ok f (err x, d) a d' e = absurd (cc)

then_next-At {ℓ} :
    {A : Type ℓ} (p : Text) (k : Node) (f : Disk → Result A × Disk) (r : Result (Unit {0}) × Disk)
    → ((d : Disk) → At p k d → At p k (f d).1)
    → At p k r.1
    → At p k (then_next f r).1
then_next-At p k f (ok u, d) g h = g d h
then_next-At p k f (err x, d) g h = h

then_next-AllReadable {ℓ} :
    {A : Type ℓ} (f : Disk → Result A × Disk) (r : Result (Unit {0}) × Disk)
    → ((d : Disk) → AllReadable d → AllReadable (f d).1)
    → AllReadable r.1
    → AllReadable (then_next f r).1
then_next-AllReadable f (ok u, d) g h = g d h
then_next-AllReadable f (err x, d) g h = h

module _ (join : Text → Text → Text) (dir : Text → Text) (root : Text) where
  -- two entries with one target
  abbrev pub clash : Text × Text → Text × Text → Bool
  clash f g = same (join root f.0) (join root g.0)

  write_one-elsewhere :
      (p : Text) (k : Node) (target content : Text) (d : Disk)
      → same p target ≡ false
      → At p k d
      → At p k (write_one join dir target content d).1
  unfolding write_one write_file
  write_one-elsewhere p k target content d other h =
      then_next-At p k (write_file target content) (make_all (dir target) d)
        (λ d1 h1. write_at-elsewhere p k target content d1 (d1.node target) other h1)
        (make_all-At p k (dir target) d h)

  write_one-AllReadable :
      (target content : Text) (d : Disk)
      → AllReadable d
      → AllReadable (write_one join dir target content d).1
  unfolding write_one write_file
  write_one-AllReadable target content d h =
      then_next-AllReadable (write_file target content) (make_all (dir target) d)
        (λ d1 h1. write_at-AllReadable target content d1 (d1.node target) (h1 target) h1)
        (make_all-AllReadable (dir target) d h)

  write_one-there :
      (target content : Text) (d : Disk) (u : Unit {0})
      → AllReadable d
      → (write_one join dir target content d).0 ≡ ok u
      → At target (file true content) (write_one join dir target content d).1
  unfolding write_one write_file
  write_one-there target content d u h e =
      go (make_all (dir target) d) (make_all-AllReadable (dir target) d h) e
    where
      go :
          (r : Result (Unit {0}) × Disk)
          → AllReadable r.1
          → (then_next (write_file target content) r).0 ≡ ok u
          → At target (file true content) (then_next (write_file target content) r).1
      go (ok v, d1) h1 e1 = write_at-there target content d1 (d1.node target) u (h1 target) e1
      go (err x, d1) h1 e1 = absurd (cc)

  rest-elsewhere :
      (f : Text × Text) (k : Node) (rest : FileMap) (d : Disk)
      → any (clash f) rest ≡ false
      → At (join root f.0) k d
      → At (join root f.0) k (write_files join dir root rest d).1
  unfolding write_files
  rest-elsewhere f k [] d free h = h
  rest-elsewhere f k (g ∷ rest) d free h =
      then_next-At (join root f.0) k (write_files join dir root rest)
        (write_one join dir (join root g.0) g.1 d)
        (λ d1 h1. rest-elsewhere f k rest d1 (ground arith) h1)
        (write_one-elsewhere (join root f.0) k (join root g.0) g.1 d (ground arith) h)

  -- Where every file on the disk can be read and no two paths of the map have one target, each file
  -- has its content behind a Write that succeeds, in whatever order the map is ranged over.
  pub write_files_complete :
      (files : FileMap) (d d' : Disk)
      → AllReadable d
      → Once clash files
      → write_files join dir root files d ≡ (ok tt, d')
      → All (λ f. read_file (join root f.0) d' ≡ ok f.1) files
  unfolding write_files read_file
  write_files_complete [] d d' h apart e = tt
  write_files_complete ((path, content) ∷ rest) d d' h (free, apart) e =
      let one = write_one join dir (join root path) content d in
      let (u, e1, e2) = then_next-ok (write_files join dir root rest) one tt d' e in
      let there = write_one-there (join root path) content d u h e1 in
      let still = rest-elsewhere (path, content) (file true content) rest one.1 free there in
      let at = subst (λ r. At (join root path) (file true content) r.1) e2 still in
      (
        rw at,
        write_files_complete rest one.1 d' (write_one-AllReadable (join root path) content d h)
            apart e2,
      )
