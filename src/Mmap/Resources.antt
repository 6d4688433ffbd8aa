-- ===== src/Mmap/Resources.antt =====
-- Descriptors and mappings are neither lost nor given back twice.
use ume.Prelude.{
  ℕ, zero, suc, ◌+◌, ◌≡◌, refl, ap, subst, ◌∙◌, ◌≢◌, inl, inr, Option, none, some, List, [], ◌∷◌,
  ◌++◌, arith, ◌==◌, Bool-cases, get_elem?, set,
}
use ume.Mmap.{
  MmapFile, Log, no_file, Answers, move_assign, Program, Operation, constructs, opens, flushes,
  closes, move_constructs, move_assigns, close_at, open_at, move_construct_at, move_assign_at,
  perform, perform_all,
}
use ume.Mmap.Moves.{count, held, sum_of, IsFile, AllFiles, Moves, close-Moves, open_file-Moves}

-- Every descriptor was closed as often as it was opened, but for the objects that hold it now, and
-- likewise every mapping.
pub record IsBalanced (p : Program) : Type 0 where
  pub descriptors :
      (x : ℕ) → count x p.log.opened ≡ count x p.log.closed + sum_of (λ f. held x f.fd) p.files
  pub mappings :
      (x : ℕ)
      → count x p.log.mapped ≡ count x p.log.unmapped + sum_of (λ f. held x f.data_address) p.files
  pub are_files : AllFiles p.files

abbrev the : Option MmapFile → MmapFile
the none = no_file
the (some f) = f

-- An object of the list, and the list with another in its place.
sum_of-set :
    (w : MmapFile → ℕ) (fs : List MmapFile) (i : ℕ) (f g : MmapFile)
    → get_elem? fs i ≡ some f
    → sum_of w (set fs i g) + w f ≡ sum_of w fs + w g
sum_of-set w [] i f g e = absurd (ground arith)
sum_of-set w (h ∷ fs) zero f g e = omega (arith, ap (λ o. w (the o)) e)
sum_of-set w (h ∷ fs) (suc i) f g e = omega (arith, sum_of-set w fs i f g e)

sum_of-snoc :
    (w : MmapFile → ℕ) (fs : List MmapFile) (f : MmapFile)
    → sum_of w (fs ++ f ∷ []) ≡ sum_of w fs + w f
sum_of-snoc w [] f = omega arith
sum_of-snoc w (h ∷ fs) f = omega (arith, sum_of-snoc w fs f)

AllFiles-get :
    (fs : List MmapFile) (i : ℕ) (f : MmapFile) → get_elem? fs i ≡ some f → AllFiles fs → IsFile f
AllFiles-get [] i f e h = absurd (ground arith)
AllFiles-get (g ∷ fs) zero f e (h, hs) = subst IsFile (ap the e) h
AllFiles-get (g ∷ fs) (suc i) f e (h, hs) = AllFiles-get fs i f e hs

AllFiles-set :
    (fs : List MmapFile) (i : ℕ) (f : MmapFile) → IsFile f → AllFiles fs → AllFiles (set fs i f)
AllFiles-set [] i f h hs = tt
AllFiles-set (g ∷ fs) zero f h (hg, hs) = (h, hs)
AllFiles-set (g ∷ fs) (suc i) f h (hg, hs) = (hg, AllFiles-set fs i f h hs)

AllFiles-snoc :
    (fs : List MmapFile) (f : MmapFile) → IsFile f → AllFiles fs → AllFiles (fs ++ f ∷ [])
AllFiles-snoc [] f h hs = (h, tt)
AllFiles-snoc (g ∷ fs) f h (hg, hs) = (hg, AllFiles-snoc fs f h hs)

-- A move of one object.
set-IsBalanced :
    (p : Program) (i : ℕ) (f f' : MmapFile) (log' : Log)
    → get_elem? p.files i ≡ some f
    → Moves f p.log f' log'
    → IsBalanced p
    → IsBalanced (record { files = set p.files i f'; log = log' })
set-IsBalanced p i f f' log' e m b = record {
  descriptors = λ x.
      omega
        (arith, b.descriptors x, m.descriptors x, sum_of-set (λ f. held x f.fd) p.files i f f' e);
  mappings = λ x.
      omega (
        arith,
        b.mappings x,
        m.mappings x,
        sum_of-set (λ f. held x f.data_address) p.files i f f' e,
      );
  are_files = AllFiles-set p.files i f' m.is_file b.are_files;
}

get_elem?-set_ne :
    (fs : List MmapFile) (i j : ℕ) (g : MmapFile)
    → i ≢ j
    → get_elem? (set fs i g) j ≡ get_elem? fs j
get_elem?-set_ne [] i j g h = refl
get_elem?-set_ne (f ∷ fs) zero zero g h = absurd (h refl)
get_elem?-set_ne (f ∷ fs) zero (suc j) g h = refl
get_elem?-set_ne (f ∷ fs) (suc i) zero g h = refl
get_elem?-set_ne (f ∷ fs) (suc i) (suc j) g h = get_elem?-set_ne fs i j g (λ e. h (ap suc e))

no_file-IsFile : IsFile no_file
no_file-IsFile e = refl

constructs-IsBalanced : (p : Program) → IsBalanced p → IsBalanced (perform constructs p)
constructs-IsBalanced p b = record {
  descriptors = λ x. omega (arith, b.descriptors x, sum_of-snoc (λ f. held x f.fd) p.files no_file);
  mappings =
      λ x. omega (arith, b.mappings x, sum_of-snoc (λ f. held x f.data_address) p.files no_file);
  are_files = AllFiles-snoc p.files no_file no_file-IsFile b.are_files;
}

close_at-IsBalanced :
    (p : Program) (i : ℕ) (o : Option MmapFile)
    → get_elem? p.files i ≡ o
    → IsBalanced p
    → IsBalanced (close_at i o p)
close_at-IsBalanced p i none e b = b
close_at-IsBalanced p i (some f) e b =
    set-IsBalanced p i f _ _ e (close-Moves f p.log (AllFiles-get p.files i f e b.are_files)).0 b

open_at-IsBalanced :
    (p : Program) (i : ℕ) (answers : Answers) (size : ℕ) (o : Option MmapFile)
    → get_elem? p.files i ≡ o
    → IsBalanced p
    → IsBalanced (open_at i answers size o p)
open_at-IsBalanced p i answers size none e b = b
open_at-IsBalanced p i answers size (some f) e b =
    set-IsBalanced p i f _ _ e
      (open_file-Moves answers size f p.log (AllFiles-get p.files i f e b.are_files)) b

move_construct_at-IsBalanced :
    (p : Program) (i : ℕ) (o : Option MmapFile)
    → get_elem? p.files i ≡ o
    → IsBalanced p
    → IsBalanced (move_construct_at i o p)
move_construct_at-IsBalanced p i none e b = b
move_construct_at-IsBalanced p i (some f) e b = record {
  descriptors = λ x. omega (
    arith,
    b.descriptors x,
    sum_of-set (λ f. held x f.fd) p.files i f no_file e,
    sum_of-snoc (λ f. held x f.fd) (set p.files i no_file) f,
  );
  mappings = λ x. omega (
    arith,
    b.mappings x,
    sum_of-set (λ f. held x f.data_address) p.files i f no_file e,
    sum_of-snoc (λ f. held x f.data_address) (set p.files i no_file) f,
  );
  are_files =
      AllFiles-snoc (set p.files i no_file) f (AllFiles-get p.files i f e b.are_files)
        (AllFiles-set p.files i no_file no_file-IsFile b.are_files);
}

move_assign_at-IsBalanced :
    (p : Program) (i j : ℕ) (o q : Option MmapFile)
    → i ≢ j
    → get_elem? p.files i ≡ o
    → get_elem? p.files j ≡ q
    → IsBalanced p
    → IsBalanced (move_assign_at i j o q p)
unfolding move_assign
move_assign_at-IsBalanced p i j none q ne ei ej b = b
move_assign_at-IsBalanced p i j (some f) none ne ei ej b = b
move_assign_at-IsBalanced p i j (some f) (some other) ne ei ej b =
    let (m, (ed, ea)) = close-Moves f p.log (AllFiles-get p.files i f ei b.are_files) in
    let there = get_elem?-set_ne p.files i j other ne ∙ ej in
    record {
      descriptors = λ x. omega (
        arith,
        b.descriptors x,
        m.descriptors x,
        ap (held x) ed,
        sum_of-set (λ f. held x f.fd) p.files i f other ei,
        sum_of-set (λ f. held x f.fd) (set p.files i other) j other no_file there,
      );
      mappings = λ x. omega (
        arith,
        b.mappings x,
        m.mappings x,
        ap (held x) ea,
        sum_of-set (λ f. held x f.data_address) p.files i f other ei,
        sum_of-set (λ f. held x f.data_address) (set p.files i other) j other no_file there,
      );
      are_files =
          AllFiles-set (set p.files i other) j no_file no_file-IsFile (
            AllFiles-set p.files i other (AllFiles-get p.files j other ej b.are_files) b.are_files);
    }

perform-IsBalanced : (o : Operation) (p : Program) → IsBalanced p → IsBalanced (perform o p)
perform-IsBalanced constructs p b = constructs-IsBalanced p b
perform-IsBalanced (opens i answers size) p b =
    open_at-IsBalanced p i answers size (get_elem? p.files i) refl b
perform-IsBalanced (flushes i synced) p b = b
perform-IsBalanced (closes i) p b = close_at-IsBalanced p i (get_elem? p.files i) refl b
perform-IsBalanced (move_constructs i) p b =
    move_construct_at-IsBalanced p i (get_elem? p.files i) refl b
perform-IsBalanced (move_assigns i j) p b = elim (Bool-cases (i == j)) [
  | inl same ↦ rw same b
  | inr other ↦ simp other (
      move_assign_at-IsBalanced p i j (get_elem? p.files i) (get_elem? p.files j)
        (λ e. absurd (ground (arith, e, other))) refl refl b)
]

-- Whatever objects are made, opened (with whatever answers of the system), flushed, closed, moved
-- and assigned: if it was so before, then afterwards every descriptor that the system gave was
-- closed exactly as often, but for the objects that hold it; every mapping likewise; and no object
-- holds a descriptor without a mapping. Failed openings lose nothing, and nothing is given back
-- twice.
pub perform_all-IsBalanced :
    (os : List Operation) (p : Program) → IsBalanced p → IsBalanced (perform_all os p)
perform_all-IsBalanced [] p b = b
perform_all-IsBalanced (o ∷ os) p b =
    perform_all-IsBalanced os (perform o p) (perform-IsBalanced o p b)
