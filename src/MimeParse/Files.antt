-- ===== src/MimeParse/Files.antt =====
-- src/mime_parse.rs, `write_dedup`: what is under a name after some of its writes.
use nexo_plugin_email.Base.{
  ℕ, zero, suc, Str, Bool, true, false, not, ◌&&◌, ◌||◌, Option, none, some, List, [], ◌∷◌, ◌++◌,
  ◌≡◌, ◌⊎◌, inl, inr, refl, sym, ap, ◌∙◌, subst, arith, leb, ◌==◌, if◌then◌else◌, any, str_eq,
  str_is_eq, str_eq_iff, codes, take, lookup, insert, remove, lookup-insert, lookup-remove,
  lookup-insert_same, Bool-cases,
}
use nexo_plugin_email.MimeParse.{
  Files, FileSystem, FileWrite, put, rename, write_file, write_files, temporary, file_writes,
  write_dedup,
}

unfoldable pub has_dot : Str → Bool
unfolding any
has_dot s = any (λ c. c == b'.') s

any-append : (p : ℕ → Bool) (s t : Str) → any p (s ++ t) ≡ (any p s || any p t)
unfolding any
any-append p [] t = refl
any-append p (c ∷ s) t = ground (arith, any-append p s t)

temporary-has_dot : (fs : FileSystem) (name : Str) → has_dot (temporary fs name) ≡ true
unfolding has_dot any
temporary-has_dot fs name =
    ground (arith, any-append (λ c. c == b'.') name (codes ".tmp." ++ fs.uuid name))

other_name : (s t : Str) → has_dot s ≡ true → has_dot t ≡ false → str_eq s t ≡ false
other_name s t h k = elim (Bool-cases (str_eq s t)) [
  | inl same ↦ absurd (cc ((str_eq_iff s t).0 same))
  | inr other ↦ other
]

lookup-put :
    (tmp k : Str) (b : List ℕ) (files : Files)
    → str_eq tmp k ≡ false
    → lookup k (write_file (put tmp b) files) ≡ lookup k files
unfolding write_file
lookup-put tmp k b files other =
    lookup-insert tmp k b files ∙ ap (λ t. if t then some b else lookup k files) other

lookup-put_same :
    (tmp : Str) (b : List ℕ) (files : Files) → lookup tmp (write_file (put tmp b) files) ≡ some b
unfolding write_file
lookup-put_same tmp b files = lookup-insert_same tmp b files

lookup-rename :
    (tmp name k : Str) (b : List ℕ) (files : Files)
    → str_eq tmp k ≡ false
    → lookup tmp files ≡ some b
    → lookup k (write_file (rename tmp name) files)
      ≡ (if str_eq name k then some b else lookup k files)
unfolding write_file
lookup-rename tmp name k b files other there =
    subst
      (λ o.
        lookup k (elim o [ none ↦ files | some x ↦ insert name x (remove tmp files) ])
        ≡ (if str_eq name k then some b else lookup k files))
      (sym there)
      (lookup-insert name k b (remove tmp files)
        ∙ ap (λ (o : Option (List ℕ)). if str_eq name k then some b else o)
            (lookup-remove tmp k files ∙ ap (λ t. if t then none else lookup k files) other))

take-nil : (n : ℕ) → take {A = FileWrite} n [] ≡ []
take-nil zero = refl
take-nil (suc n) = refl

-- Under a name without a dot there is, after n of the three writes, what was there before, but for
-- the name of the file itself after all three.
pub lookup-file_writes :
    (fs : FileSystem) (name k : Str) (b : List ℕ) (files : Files) (n : ℕ)
    → has_dot k ≡ false
    → lookup k (write_files (take n (file_writes (temporary fs name) name b)) files)
      ≡ (if leb 3 n && str_eq name k then some b else lookup k files)
unfolding write_files
lookup-file_writes fs name k b files zero plain = refl
lookup-file_writes fs name k b files (suc zero) plain =
    lookup-put _ k [] files (other_name _ k (temporary-has_dot fs name) plain)
lookup-file_writes fs name k b files (suc (suc zero)) plain =
    let other : str_eq (temporary fs name) k ≡ false =
      other_name _ k (temporary-has_dot fs name) plain in
    lookup-put _ k b (write_file (put (temporary fs name) []) files) other
    ∙ lookup-put _ k [] files other
lookup-file_writes fs name k b files (suc (suc (suc n))) plain =
    let tmp = temporary fs name in
    let other : str_eq tmp k ≡ false = other_name _ k (temporary-has_dot fs name) plain in
    let first = write_file (put tmp []) files in
    let second = write_file (put tmp b) first in
    let there : lookup tmp second ≡ some b = lookup-put_same tmp b first in
    let before : lookup k second ≡ lookup k files =
      lookup-put tmp k b first other ∙ lookup-put tmp k [] files other in
    let all : leb 3 (suc (suc (suc n))) ≡ true = ground arith in
    rw (take-nil n, all)
      (lookup-rename tmp name k b second other there
        ∙ ap (λ (o : Option (List ℕ)). if str_eq name k then some b else o) before)

-- The file of this name and these bytes, put under a name without a dot.
pub lookup-write_dedup :
    (fs : FileSystem) (name k : Str) (b : List ℕ) (files : Files)
    → has_dot k ≡ false
    → (lookup k (write_dedup fs name b files).0 ≡ lookup k files)
      ⊎ ((name ≡ k) × (lookup k files ≡ none) × (lookup k (write_dedup fs name b files).0 ≡ some b))
unfolding write_dedup
lookup-write_dedup fs name k b files plain = by_lookup fs.create_dir_all (lookup name files) refl
  where
    Case : Files → Type 0
    Case after =
        (lookup k after ≡ lookup k files)
        ⊎ ((name ≡ k) × (lookup k files ≡ none) × (lookup k after ≡ some b))

    written : Files
    written = write_files (take (fs.written name) (file_writes (temporary fs name) name b)) files

    at_test :
        (t : Bool)
        → (lookup k written ≡ (if t && str_eq name k then some b else lookup k files))
        → lookup name files ≡ none
        → Case written
    at_test false e absent = inl e
    at_test true e absent = elim (Bool-cases (str_eq name k)) [
      | inl same ↦
          let named : name ≡ k = (str_eq_iff name k).0 same in
          inr (
            named,
            subst (λ x. lookup x files ≡ none) named absent,
            e ∙ ap (λ t. if t then some b else lookup k files) same,
          )
      | inr other ↦ inl (e ∙ ap (λ t. if t then some b else lookup k files) other)
    ]

    by_lookup :
        (dir : Bool) (o : Option (List ℕ))
        → lookup name files ≡ o
        → (let s : Files × Bool =
              (if not dir then (files, false) else elim o [
                | some _ ↦ (files, true)
                | none ↦ (written, leb 3 (fs.written name))
              ]) in
            Case s.0)
    by_lookup false o e = inl refl
    by_lookup true (some x) e = inl refl
    by_lookup true none e =
        at_test (leb 3 (fs.written name))
          (lookup-file_writes fs name k b files (fs.written name) plain) e

-- A write that succeeds leaves a file of its name.
pub write_dedup-there :
    (fs : FileSystem) (name : Str) (b : List ℕ) (files : Files)
    → has_dot name ≡ false
    → (write_dedup fs name b files).1 ≡ true
    → (x : List ℕ) × (lookup name (write_dedup fs name b files).0 ≡ some x)
unfolding write_dedup
write_dedup-there fs name b files plain = by_lookup fs.create_dir_all (lookup name files) refl
  where
    written : Files
    written = write_files (take (fs.written name) (file_writes (temporary fs name) name b)) files

    by_lookup :
        (dir : Bool) (o : Option (List ℕ))
        → lookup name files ≡ o
        → (let s : Files × Bool =
              (if not dir then (files, false) else elim o [
                | some _ ↦ (files, true)
                | none ↦ (written, leb 3 (fs.written name))
              ]) in
            s.1 ≡ true → (x : List ℕ) × (lookup name s.0 ≡ some x))
    by_lookup false o e h = absurd (cc)
    by_lookup true (some x) e h = (x, e)
    by_lookup true none e h = (
      b,
      lookup-file_writes fs name name b files (fs.written name) plain
          ∙ ap (λ t. if t && str_eq name name then some b else lookup name files) h
          ∙ ap (λ t. if t then some b else lookup name files) ((str_eq_iff name name).1 refl),
    )
