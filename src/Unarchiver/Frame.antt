-- ===== src/Unarchiver/Frame.antt =====
-- internal/unarchiver/unarchiver.go: what the loop over an archive leaves alone, which is unpacked
-- into the temporary directory.
use photon_container.Base.{
  ◌≡◌, refl, sym, subst, ap, ◌∙◌, ◌≢◌, String, Bool, true, false, Option, none, some, List, [], ◌∷◌,
  ◌++◌, arith, str_eq, append_assoc, append-nil, if◌then◌else◌, ◌||◌, ◌&&◌, not,
}
use photon_container.Base.Time.{Time}
use photon_container.Os.Calls.{temp_name}
use photon_container.Os.Files.{
  FilePath, Reader, parent, parent-append, parent-append_right, push, join, strip,
  strip-append_left,
}
use photon_container.Os.Frames.{
  at, IsTemp, stat-At, close-At, copy-At, remove-At, mkdir-At, chtimes-At, rename-At,
  create_temp-At, strip-temp_name,
}
use photon_container.Photondata.Layout.{data_at, temp_at}
use photon_container.Unarchiver.Extract.{
  TypeFlag, type_dir, type_reg, type_other, Entry, discard, atomic_write, make_dir, touch,
  extract_as, extract, extract_all,
}
use photon_container.World.{Error, is_not_exist}
use photon_container.World.Rules.{Ensures-wrapped}
use photon_container.World.Frames.{
  Keeping, Keeping-pure, Keeping-raise, Keeping-if, Keeping-wrapped, Keeping-bind, Keeping-bind_on,
  Keeping-ignored, Keeping-deferred, Keeping-recover,
}

-- No name of a header leads upwards.
abbrev is_plain : List String → Bool
is_plain [] = true
is_plain (s ∷ rest) = not (str_eq s "..") && is_plain rest

abbrev plain_entry : Option Entry → Bool
plain_entry none = true
plain_entry (some e) = is_plain e.name

abbrev pub all_plain : List (Option Entry) → Bool
all_plain [] = true
all_plain (e ∷ rest) = plain_entry e && all_plain rest

abbrev pub IsBelow : FilePath → FilePath → Type 0
IsBelow p t = (rest : FilePath) × (t ≡ p ++ rest)

pushed-IsBelow :
    (p t : FilePath) (s : String) (here up : Bool)
    → not up ≡ true
    → IsBelow p t
    → IsBelow p (if here then t else if up then parent t else t ++ s ∷ [])
pushed-IsBelow p t s true up plain h = h
pushed-IsBelow p t s false true plain h = ground (arith, plain)
pushed-IsBelow p t s false false plain (rest, e) =
    (rest ++ s ∷ [], ap (λ x. x ++ s ∷ []) e ∙ append_assoc p rest (s ∷ []))

join-IsBelow :
    (p t : FilePath) (name : List String)
    → is_plain name ≡ true
    → IsBelow p t
    → IsBelow p (join t name)
join-IsBelow p t [] plain h = h
join-IsBelow p t (s ∷ rest) plain h =
    join-IsBelow p (push t s) rest (ground (arith, plain))
      (pushed-IsBelow p t s (str_eq s "" || str_eq s ".") (str_eq s "..") (ground (arith, plain)) h)

module _ (root q : FilePath) where
  -- A path at or below the database.
  abbrev pub z : FilePath
  z = root ++ (data_at ++ q)

  abbrev pub dest : FilePath
  dest = root ++ temp_at

  pub away_below : (t : FilePath) → IsBelow dest t → strip t z ≡ none
  unfolding strip
  away_below t (rest, e) =
      subst (λ p. strip p z ≡ none) (sym (e ∙ append_assoc root temp_at rest))
        (strip-append_left root ("temp" ∷ rest) ("node_1" ∷ q))

  -- Neither is a temporary file beside a path below the destination.
  temp_away :
      (t : FilePath) → IsBelow dest t → (s : String) → strip (parent t ++ temp_name s ∷ []) z ≡ none
  temp_away t ([], e) s =
      subst (λ p. strip (parent p ++ temp_name s ∷ []) z ≡ none) (sym (e ∙ append-nil dest))
        (subst (λ d. strip (d ++ temp_name s ∷ []) z ≡ none) (sym (parent-append root "temp"))
          (strip-temp_name root s "node_1" q refl))
  temp_away t (n ∷ rest, e) s = away_below (parent t ++ temp_name s ∷ []) (
    parent (n ∷ rest) ++ temp_name s ∷ [],
    ap (λ p. parent p ++ temp_name s ∷ []) e
        ∙ ap (λ p. p ++ temp_name s ∷ []) (parent-append_right dest n rest)
        ∙ append_assoc dest (parent (n ∷ rest)) (temp_name s ∷ []),
  )

  pub not_on : (t : FilePath) → strip t z ≡ none → strip t z ≢ some []
  not_on t h = ground (arith, h)

  module _ (t : FilePath) (below : IsBelow dest t) where
    touch-At : (time : Time) → Keeping (at z) (touch t time)
    unfolding touch
    touch-At time = Keeping-wrapped (at z) _ _ (chtimes-At z t (not_on t (away_below t below)) time)

    make_dir-At : (e : Error) → Keeping (at z) (make_dir t e)
    unfolding make_dir
    make_dir-At e =
        Keeping-if (at z) (is_not_exist e) _ _
          (Keeping-wrapped (at z) _ _ (mkdir-At z t (not_on t (away_below t below))))
          (Keeping-raise (at z) _ _)

    discard-At : (tmp : FilePath) → strip tmp z ≡ none → Keeping (at z) (discard tmp)
    unfolding discard
    discard-At tmp h =
        Keeping-bind (at z) _ _ (Keeping-ignored (at z) _ (close-At z))
          (λ _. remove-At z tmp (not_on tmp h))

    temp_named : (tmp : FilePath) → IsTemp (parent t) tmp → strip tmp z ≡ none
    temp_named tmp h = subst (λ p. strip p z ≡ none) (sym h.1) (temp_away t below h.0)

    atomic_write-At : (body : Reader) → Keeping (at z) (atomic_write t body)
    unfolding atomic_write
    atomic_write-At body =
        Keeping-bind_on (at z) {P = IsTemp (parent t)} _ _
          (λ w. Ensures-wrapped _ _ w (
            create_temp-At z (parent t)
              (λ s. not_on (parent t ++ temp_name s ∷ []) (temp_away t below s)) w))
          (λ tmp h. Keeping-deferred (at z) _ _ (discard-At tmp (temp_named tmp h)) (
            Keeping-bind (at z) _ _
              (Keeping-wrapped (at z) _ _ (copy-At z tmp (not_on tmp (temp_named tmp h)) body))
              (λ _.
                Keeping-wrapped (at z) _ _
                  (rename-At z tmp t (temp_named tmp h) (away_below t below)))))

    extract_as-At : (f : TypeFlag) (e : Entry) → Keeping (at z) (extract_as f t e)
    unfolding extract_as
    extract_as-At type_dir e =
        Keeping-bind (at z) _ _
          (Keeping-recover (at z) _ _
            (Keeping-bind (at z) _ _ (stat-At z t) (λ _. Keeping-pure (at z) _)) make_dir-At)
          (λ _. touch-At e.mod_time)
    extract_as-At type_reg e =
        Keeping-bind (at z) _ _ (Keeping-wrapped (at z) _ _ (atomic_write-At e.body))
          (λ _. touch-At e.mod_time)
    extract_as-At type_other e = Keeping-pure (at z) _

  extract-At : (e : Entry) → is_plain e.name ≡ true → Keeping (at z) (extract dest e)
  unfolding extract
  extract-At e plain =
      extract_as-At (join dest e.name)
        (join-IsBelow dest dest e.name plain ([], sym (append-nil dest))) e.typeflag e

  pub extract_all-At :
      (broken : Bool) (entries : List (Option Entry))
      → all_plain entries ≡ true
      → Keeping (at z) (extract_all dest broken entries)
  unfolding extract_all
  extract_all-At true [] plain = Keeping-raise (at z) _ _
  extract_all-At false [] plain = Keeping-pure (at z) _
  extract_all-At true (none ∷ rest) plain = extract_all-At true rest plain
  extract_all-At false (none ∷ rest) plain = extract_all-At false rest plain
  extract_all-At true (some e ∷ rest) plain =
      Keeping-bind (at z) _ _ (extract-At e (ground (arith, plain)))
        (λ _. extract_all-At true rest (ground (arith, plain)))
  extract_all-At false (some e ∷ rest) plain =
      Keeping-bind (at z) _ _ (extract-At e (ground (arith, plain)))
        (λ _. extract_all-At false rest (ground (arith, plain)))
