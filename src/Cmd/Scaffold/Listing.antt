-- ===== src/Cmd/Scaffold/Listing.antt =====
-- FileList of internal/scaffold/scaffold.go as a function of the map, which knows no order.
use mathlib.Core.Quot
use mathlib.Core.Quot.{Quot}
use mathlib.Core.List.{Perm, Permᴰ}
use native.Mathlib.Nat.{ℕ_set}
use gotchi.Base.{◌≡◌, refl, ap, ◌∙◌, true, false, List, [], ◌∷◌, map, Text, arith}
use gotchi.Db.Migrations.FlatFs.{less, insert_name, sort_strings}
use gotchi.Db.Migrations.FlatFs.Sorted.{
  IsOrdered, less_asymm, sort_strings-IsOrdered, sort_strings-perm,
}
use gotchi.Cmd.Scaffold.{FileMap, file_list}

less_trans : (s t u : Text) → less s t ≡ true → less t u ≡ true → less s u ≡ true
unfolding less
less_trans s [] u h k = absurd (cc)
less_trans s (d ∷ t) [] h k = absurd (cc)
less_trans [] (d ∷ t) (e ∷ u) h k = refl
less_trans (c ∷ s) (d ∷ t) (e ∷ u) h k = ground (arith, less_trans s t u)

less_antisymm : (s t : Text) → less s t ≡ false → less t s ≡ false → s ≡ t
unfolding less
less_antisymm [] [] h k = refl
less_antisymm [] (d ∷ t) h k = absurd (cc)
less_antisymm (c ∷ s) [] h k = absurd (cc)
less_antisymm (c ∷ s) (d ∷ t) h k = ground (arith, less_antisymm s t)

-- two names are put in place in either order
insert_name_comm :
    (a b : Text) (names : List Text)
    → insert_name a (insert_name b names) ≡ insert_name b (insert_name a names)
unfolding insert_name
insert_name_comm a b [] = ground (arith, less_asymm a b, less_antisymm a b)
insert_name_comm a b (m ∷ names) = ground (
  arith,
  less_asymm a b,
  less_antisymm a b,
  less_trans a b m,
  less_trans b a m,
  less_trans a m b,
  less_trans b m a,
  insert_name_comm a b names,
)

sort_strings-same :
    (xs ys : FileMap)
    → Permᴰ xs ys
    → sort_strings (map (λ f. f.0) xs) ≡ sort_strings (map (λ f. f.0) ys)
unfolding sort_strings
sort_strings-same _ _ Permᴰ.nil = refl
sort_strings-same (x ∷ xs) (y ∷ ys) (Permᴰ.cons e p) =
    rw (ap (λ f. f.0) e, sort_strings-same xs ys p)
sort_strings-same (a ∷ b ∷ xs) (c ∷ d ∷ _) (Permᴰ.swap e f) =
    rw (ap (λ f. f.0) e, ap (λ f. f.0) f)
      (insert_name_comm d.0 c.0 (sort_strings (map (λ f. f.0) xs)))
sort_strings-same _ _ (Permᴰ.trans {l₂} p q) = sort_strings-same _ l₂ p ∙ sort_strings-same l₂ _ q

-- A map[string]string: the lists of its pairs, in whatever order.
abbrev pub GoMap : Type 0
GoMap = Quot (Permᴰ {A = Text × Text})

list_of : GoMap → List Text
unfolding file_list
list_of = Quot.lift (hlevel ℕ_set) file_list sort_strings-same

IsOrdered-prop : (names : List Text) → IsProp (IsOrdered names)
IsOrdered-prop [] = hlevel
IsOrdered-prop (a ∷ []) = hlevel
IsOrdered-prop (a ∷ b ∷ names) = hlevel (IsOrdered-prop (b ∷ names))

list_of-IsOrdered : (m : GoMap) → IsOrdered (list_of m)
unfolding list_of file_list
list_of-IsOrdered =
    Quot.ind (λ m. IsOrdered-prop (list_of m))
      (λ files. sort_strings-IsOrdered (map (λ f. f.0) files))

-- FileList is a function of the map itself: one list for every order in which the map is ranged
-- over. This list has the paths of the files, each as often as in the range, and no other text, in
-- the order of their bytes.
pub file_list-factors :
    (f : GoMap → List Text) × ((files : FileMap) → f (Quot.mk files) ≡ file_list files)
    × ((files : FileMap) → Perm (f (Quot.mk files)) (map (λ x. x.0) files))
    × ((m : GoMap) → IsOrdered (f m))
unfolding list_of file_list
file_list-factors = (
  list_of,
  (λ files. refl),
  (λ files. sort_strings-perm (map (λ x. x.0) files)),
  list_of-IsOrdered,
)
