-- ===== src/BounceStore/Summary/Top.antt =====
-- src/bounce_store.rs: which recipients `summary` puts on top.
use mathlib.Core.List.Perm
use mathlib.Core.List.{Perm}
use nexo_plugin_email.Base.{
  ℕ, zero, suc, min, Str, Bool, true, false, some, List, [], ◌∷◌, ◌++◌, ◌≡◌, refl, sym, subst,
  arith, if◌then◌else◌, filter_by, length, take, drop, All, length-take, take-append-drop,
  insert_by, sort_by,
}
use nexo_plugin_email.BounceStore.Summary.{is_selected, outranks, top_rows}
use nexo_plugin_email.BounceStore.{BounceKey, BounceRow, BounceTable}

abbrev pub Row : Type 0
Row = BounceKey × BounceRow

abbrev pub IsAbove : Row → List Row → Type 0
IsAbove a rows = All (λ b. outranks a b ≡ true) rows

abbrev pub IsRanked : List Row → Type 0
IsRanked [] = Unit {0}
IsRanked (a ∷ rows) = IsAbove a rows × IsRanked rows

outranks_trans : (a b c : Row) → outranks a b ≡ true → outranks b c ≡ true → outranks a c ≡ true
unfolding outranks
outranks_trans a b c h k = ground arith

outranks_total : (a b : Row) → outranks a b ≡ false → outranks b a ≡ true
unfolding outranks
outranks_total a b h = ground arith

IsAbove-trans :
    (a b : Row) (rows : List Row) → outranks a b ≡ true → IsAbove b rows → IsAbove a rows
IsAbove-trans a b [] h below = tt
IsAbove-trans a b (c ∷ rows) h below =
    (outranks_trans a b c h below.0, IsAbove-trans a b rows h below.1)

IsAbove-insert_by :
    (a x : Row) (rows : List Row)
    → outranks a x ≡ true
    → IsAbove a rows
    → IsAbove a (insert_by outranks x rows)
unfolding insert_by
IsAbove-insert_by a x [] h below = (h, tt)
IsAbove-insert_by a x (y ∷ ys) h below = by_test (outranks x y) (IsAbove-insert_by a x ys h below.1)
  where
    by_test :
        (b : Bool)
        → IsAbove a (insert_by outranks x ys)
        → IsAbove a (if b then x ∷ y ∷ ys else y ∷ insert_by outranks x ys)
    by_test true rest = (h, below)
    by_test false rest = (below.0, rest)

insert_by-IsRanked :
    (x : Row) (rows : List Row) → IsRanked rows → IsRanked (insert_by outranks x rows)
unfolding insert_by
insert_by-IsRanked x [] ranked = (tt, tt)
insert_by-IsRanked x (y ∷ ys) ranked =
    by_test (outranks x y) refl (insert_by-IsRanked x ys ranked.1)
  where
    by_test :
        (b : Bool)
        → outranks x y ≡ b
        → IsRanked (insert_by outranks x ys)
        → IsRanked (if b then x ∷ y ∷ ys else y ∷ insert_by outranks x ys)
    by_test true h rest = ((h, IsAbove-trans x y ys h ranked.0), ranked)
    by_test false h rest = (IsAbove-insert_by y x ys (outranks_total x y h) ranked.0, rest)

insert_by-Perm : (x : Row) (rows : List Row) → Perm (x ∷ rows) (insert_by outranks x rows)
unfolding insert_by
insert_by-Perm x [] = Perm.rfl
insert_by-Perm x (y ∷ ys) = by_test (outranks x y) (insert_by-Perm x ys)
  where
    by_test :
        (b : Bool)
        → Perm (x ∷ ys) (insert_by outranks x ys)
        → Perm (x ∷ y ∷ ys) (if b then x ∷ y ∷ ys else y ∷ insert_by outranks x ys)
    by_test true rest = Perm.rfl
    by_test false rest = Perm.trans (Perm.swap y x ys) (Perm.cons y rest)

sort_by-IsRanked : (rows : List Row) → IsRanked (sort_by outranks rows)
unfolding sort_by
sort_by-IsRanked [] = tt
sort_by-IsRanked (x ∷ rows) = insert_by-IsRanked x (sort_by outranks rows) (sort_by-IsRanked rows)

sort_by-Perm : (rows : List Row) → Perm rows (sort_by outranks rows)
unfolding sort_by
sort_by-Perm [] = Perm.rfl
sort_by-Perm (x ∷ rows) =
    Perm.trans (Perm.cons x (sort_by-Perm rows)) (insert_by-Perm x (sort_by outranks rows))

take-IsAbove : (n : ℕ) (a : Row) (rows : List Row) → IsAbove a rows → IsAbove a (take n rows)
take-IsAbove zero a rows h = tt
take-IsAbove (suc n) a [] h = tt
take-IsAbove (suc n) a (b ∷ rows) h = (h.0, take-IsAbove n a rows h.1)

drop-IsAbove : (n : ℕ) (a : Row) (rows : List Row) → IsAbove a rows → IsAbove a (drop n rows)
drop-IsAbove zero a rows h = h
drop-IsAbove (suc n) a [] h = tt
drop-IsAbove (suc n) a (b ∷ rows) h = drop-IsAbove n a rows h.1

take-IsRanked : (n : ℕ) (rows : List Row) → IsRanked rows → IsRanked (take n rows)
take-IsRanked zero rows h = tt
take-IsRanked (suc n) [] h = tt
take-IsRanked (suc n) (a ∷ rows) h = (take-IsAbove n a rows h.0, take-IsRanked n rows h.1)

take-IsAbove-drop :
    (n : ℕ) (rows : List Row) → IsRanked rows → All (λ a. IsAbove a (drop n rows)) (take n rows)
take-IsAbove-drop zero rows h = tt
take-IsAbove-drop (suc n) [] h = tt
take-IsAbove-drop (suc n) (a ∷ rows) h = (drop-IsAbove n a rows h.0, take-IsAbove-drop n rows h.1)

-- The rows of the instance are the listed ones, and others that no listed one is below.
abbrev pub IsTopOf : ℕ → List Row → List Row → Type 0
IsTopOf n rows top =
    (length top ≡ min n (length rows))
    × IsRanked top
    × ((left : List Row) × Perm rows (top ++ left) × All (λ a. IsAbove a left) top)

length-insert_by :
    (x : Row) (rows : List Row) → length (insert_by outranks x rows) ≡ suc (length rows)
unfolding insert_by
length-insert_by x [] = refl
length-insert_by x (y ∷ ys) = ground (arith, length-insert_by x ys)

length-sort_by : (rows : List Row) → length (sort_by outranks rows) ≡ length rows
unfolding sort_by
length-sort_by [] = refl
length-sort_by (x ∷ rows) =
    omega (arith, length-insert_by x (sort_by outranks rows), length-sort_by rows)

-- The top recipients of an instance are as many rows of it as there are, up to the limit, those
-- with more bounces first and the later one first where these are equal, and none of the rows of
-- the instance that are left out comes before one of them.
pub top_rows_lem :
    (limit : ℕ) (inst : Str) (t : BounceTable)
    → IsTopOf limit (filter_by (is_selected (some inst)) t) (top_rows limit inst t)
unfolding top_rows
top_rows_lem limit inst t =
    let rows = filter_by (is_selected (some inst)) t in
    let sorted = sort_by outranks rows in
    (
      omega (arith, length-take limit sorted, length-sort_by rows),
      take-IsRanked limit sorted (sort_by-IsRanked rows),
      (
        drop limit sorted,
        subst (λ l. Perm rows l) (sym (take-append-drop limit sorted)) (sort_by-Perm rows),
        take-IsAbove-drop limit sorted (sort_by-IsRanked rows),
      ),
    )
