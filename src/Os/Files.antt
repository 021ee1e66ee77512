-- ===== src/Os/Files.antt =====
-- Paths, and the tree of files that they name.
use photon_container.Base.{
  ℕ, String, ◌<>◌, ◌≡◌, refl, ap, sym, ◌∙◌, append_assoc, subst, append-nil, Bool, true, false,
  ◌||◌, Option, none, some,
}
use photon_container.Base.{List, [], ◌∷◌, ◌++◌, arith, str_eq, eq_iff, eq_refl, if◌then◌else◌}
use photon_container.Base.Time.{Time}

-- An absolute path, as the names on the way from the root.
abbrev pub FilePath : Type 0
FilePath = List String

-- `filepath.Dir`
abbrev pub parent : FilePath → FilePath
parent [] = []
parent (s ∷ []) = []
parent (s ∷ t ∷ p) = s ∷ parent (t ∷ p)

-- A text put behind a path, as in `m.dataDir + ".old"`.
abbrev pub with_suffix : FilePath → String → FilePath
with_suffix [] e = e ∷ []
with_suffix (s ∷ []) e = (s <> e) ∷ []
with_suffix (s ∷ t ∷ p) e = s ∷ with_suffix (t ∷ p) e

-- One element of a joined path, cleaned as `filepath.Clean` does.
abbrev pub push : FilePath → String → FilePath
push p s =
    if str_eq s "" || str_eq s "." then p else if str_eq s ".." then parent p else p ++ s ∷ []

-- `filepath.Join(p, name)`, with the name as its elements between slashes.
abbrev pub join : FilePath → List String → FilePath
join p [] = p
join p (s ∷ rest) = join (push p s) rest

-- What is left of the second path below the first.
unfoldable pub strip : FilePath → FilePath → Option FilePath
strip [] q = some q
strip (s ∷ p) [] = none
strip (s ∷ p) (t ∷ q) = let rest = strip p q in if str_eq s t then rest else none

abbrev pub under : FilePath → FilePath → Bool
under p q = elim (strip p q) [ none ↦ false | some _ ↦ true ]

abbrev pub Bytes : Type 0
Bytes = List ℕ

-- A directory, or a regular file with its modification time. That of a directory, which changes with
-- each entry that is put into it or taken out, and which the program never reads, is left out.
pub data Node : Type 0 where
  dir : Node
  file : Bytes → Time → Node

-- An `io.Reader`: the bytes that it delivers, and whether an error follows them in place of EOF.
pub record Reader : Type 0 where
  pub content : Bytes
  pub broken : Bool

abbrev pub Files : Type 0
Files = FilePath → Option Node

-- The tree with the node at `p` put or replaced.
abbrev pub put_node : Files → FilePath → Option Node → Files
put_node fs p n q = elim (strip p q) [ none ↦ fs q | some r ↦ elim r [ [] ↦ n | _ ∷ _ ↦ fs q ] ]

-- The tree with everything at and below `src` moved to `dst`.
abbrev pub move_tree : Files → FilePath → FilePath → Files
move_tree fs src dst q = elim (strip dst q) [
  | some r ↦ fs (src ++ r)
  | none ↦ elim (strip src q) [ some _ ↦ none | none ↦ fs q ]
]

-- The tree without what is at and below `p`.
abbrev pub cut_tree : Files → FilePath → Files
cut_tree fs p q = elim (strip p q) [ some _ ↦ none | none ↦ fs q ]

-- Some path from `acc` down to `acc ++ rest` is marked.
abbrev pub marked_above : (FilePath → Bool) → FilePath → FilePath → Bool
marked_above gone acc [] = gone acc
marked_above gone acc (s ∷ rest) = gone acc || marked_above gone (acc ++ s ∷ []) rest

-- The tree after a removal of `p` that stopped half way: a path is gone with all below it.
abbrev pub thin_tree : (FilePath → Bool) → Files → FilePath → Files
thin_tree gone fs p q = elim (strip p q) [
  | some r ↦ if marked_above gone p r then none else fs q
  | none ↦ fs q
]

pub strip_self_append : (p q : FilePath) → strip p (p ++ q) ≡ some q
unfolding strip
strip_self_append [] q = refl
strip_self_append (s ∷ p) q = simp eq_refl (strip_self_append p q)

pub strip-append_left : (p a b : FilePath) → strip (p ++ a) (p ++ b) ≡ strip a b
unfolding strip
strip-append_left [] a b = refl
strip-append_left (s ∷ p) a b = simp eq_refl (strip-append_left p a b)

pub strip_sound : (p q r : FilePath) → strip p q ≡ some r → q ≡ p ++ r
unfolding strip
strip_sound [] q r h = ground arith
strip_sound (s ∷ p) [] r h = ground arith
strip_sound (s ∷ p) (t ∷ q) r h = ground (arith, eq_iff s t, strip_sound p q r)

pub parent-append : (p : FilePath) (s : String) → parent (p ++ s ∷ []) ≡ p
parent-append [] s = refl
parent-append (a ∷ []) s = refl
parent-append (a ∷ b ∷ p) s = ap (λ t. a ∷ t) (parent-append (b ∷ p) s)

pub strip_other :
    (s t : String) (p q : FilePath) → str_eq s t ≡ false → strip (s ∷ p) (t ∷ q) ≡ none
unfolding strip
strip_other s t p q h = rw h

pub parent-append_right :
    (p : FilePath) (s : String) (q : FilePath) → parent (p ++ (s ∷ q)) ≡ p ++ parent (s ∷ q)
parent-append_right [] s q = refl
parent-append_right (a ∷ []) s q = refl
parent-append_right (a ∷ b ∷ p) s q = ap (λ t. a ∷ t) (parent-append_right (b ∷ p) s q)

-- What is not at or below a path is not below one that is.
pub strip-append_none : (p r q : FilePath) → strip p q ≡ none → strip (p ++ r) q ≡ none
unfolding strip
strip-append_none [] r q h = ground (arith, h)
strip-append_none (s ∷ p) r [] h = refl
strip-append_none (s ∷ p) r (t ∷ q) h = ground (arith, h, strip-append_none p r q)

-- A path is not at or below one that is longer.
pub strip-longer : (p : FilePath) (s : String) (q : FilePath) → strip (p ++ (s ∷ q)) p ≡ none
unfolding strip
strip-longer p s q =
    subst (λ r. strip (p ++ (s ∷ q)) r ≡ none) (append-nil p) (strip-append_left p (s ∷ q) [])

-- Nor at or below one that lies in a directory at or below it.
pub strip-beyond : (r p q : FilePath) (n : String) → r ≡ p ++ q → strip (r ++ n ∷ []) p ≡ none
strip-beyond r p [] n e =
    subst (λ d. strip (d ++ n ∷ []) p ≡ none) (sym (e ∙ append-nil p)) (strip-longer p n [])
strip-beyond r p (s ∷ q) n e =
    ap (λ d. strip d p) (ap (λ d. d ++ n ∷ []) e ∙ append_assoc p (s ∷ q) (n ∷ []))
    ∙ strip-longer p s (q ++ n ∷ [])
