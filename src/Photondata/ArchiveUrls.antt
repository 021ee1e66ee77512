-- ===== src/Photondata/ArchiveUrls.antt =====
-- internal/photondata/archive.go: the URL that an archive is downloaded from.
use photon_container.Base.{
  String, ◌<>◌, ◌≡◌, refl, sym, ap, ◌∙◌, true, false, Option, some, none, List, [], ◌∷◌, ◌++◌,
  append_assoc, append-nil, str_eq, str_eq-append,
}
use text.Mathlib.TextLemmas.{nil-append, append-nil as text-append-nil, append_assoc as text_assoc}
use photon_container.Os.Files.{parent-append}
use photon_container.Photondata.Archive.{
  ParsedUrl, Archive, new_archive, name, url, slashed, clean_from, drop_empty, last_or, base,
  cleaned, dir, of_url,
}

-- Elements that cleaning a path keeps.
abbrev pub IsPlain : String → Type 0
IsPlain s = (str_eq s "" ≡ false) × (str_eq s "." ≡ false) × (str_eq s ".." ≡ false)

abbrev pub ArePlain : List String → Type 0
ArePlain [] = Unit {0}
ArePlain (s ∷ p) = IsPlain s × ArePlain p

clean_from-plain : (p q : List String) → ArePlain q → clean_from true p q ≡ p ++ q
clean_from-plain p [] h = sym (append-nil p)
clean_from-plain p (s ∷ q) h =
    rw h.0.0
      (rw h.0.1 (rw h.0.2 (clean_from-plain (p ++ s ∷ []) q h.1 ∙ append_assoc p (s ∷ []) q)))

drop_empty-plain : (q : List String) → ArePlain q → drop_empty q ≡ q
drop_empty-plain [] h = refl
drop_empty-plain (s ∷ q) h = rw h.0.0 (ap (λ r. s ∷ r) (drop_empty-plain q h.1))

last_or-append : (d n : String) (q : List String) → last_or d (q ++ n ∷ []) ≡ n
last_or-append d n [] = refl
last_or-append d n (s ∷ q) = last_or-append s n q

ArePlain-append : (q : List String) (n : String) → ArePlain q → IsPlain n → ArePlain (q ++ n ∷ [])
ArePlain-append [] n h k = (k, tt)
ArePlain-append (s ∷ q) n h k = (h.0, ArePlain-append q n h.1 k)

slashed-append :
    (s n : String) (q : List String) → slashed (s ∷ (q ++ n ∷ [])) ≡ slashed (s ∷ q) <> "/" <> n
slashed-append s n [] = refl
slashed-append s n (t ∷ q) =
    ap (λ x. s <> "/" <> x) (slashed-append t n q)
    ∙ (ap (λ x. s <> x) (sym (text_assoc "/" (slashed (t ∷ q)) ("/" <> n)))
        ∙ sym (text_assoc s ("/" <> slashed (t ∷ q)) ("/" <> n)))

-- A part that may be missing, with its delimiter before it or after it.
abbrev before : String → Option String → String
before mark none = ""
before mark (some x) = mark <> x

abbrev after : Option String → String → String
after none mark = ""
after (some x) mark = x <> mark

-- The URL as a text, with all of its parts.
abbrev pub printed : ParsedUrl → String
printed u =
    u.scheme
    <> "://"
    <> after u.user "@"
    <> u.host
    <> u.escaped_path
    <> before "?" u.raw_query
    <> before "#" u.fragment

module _ (scheme host s n : String) (q : List String) (plain : ArePlain (s ∷ q))
    (last : IsPlain n) where
  abbrev pub parsed : ParsedUrl
  parsed = record {
    scheme = scheme;
    user = none;
    host = host;
    path = "" ∷ s ∷ (q ++ n ∷ []);
    escaped_path = slashed ("" ∷ s ∷ (q ++ n ∷ []));
    raw_query = none;
    fragment = none;
  }

  dir-parsed : dir ("" ∷ s ∷ (q ++ n ∷ [])) ≡ "/" <> slashed (s ∷ q)
  unfolding dir
  dir-parsed =
      ap cleaned (parent-append ("" ∷ s ∷ q) n)
      ∙ ap (λ p. "/" <> slashed p) (clean_from-plain [] (s ∷ q) plain)

  base-parsed : base ("" ∷ s ∷ (q ++ n ∷ [])) ≡ n
  unfolding base
  base-parsed =
      rw (drop_empty-plain (s ∷ (q ++ n ∷ [])) (plain.0, ArePlain-append q n plain.1 last))
        (last_or-append s n q)

  of_url-parsed :
      of_url parsed
      ≡ record { base_url = scheme <> "://" <> host <> "/" <> slashed (s ∷ q); archive_name = n }
  unfolding of_url
  of_url-parsed =
      rw dir-parsed (rw (str_eq-append "/" (slashed (s ∷ q)) "." refl) (rw base-parsed refl))

  joined :
      (x t : String)
      → (scheme <> "://" <> host <> "/" <> x) <> t ≡ scheme <> "://" <> host <> "/" <> (x <> t)
  joined x t =
      text_assoc scheme ("://" <> host <> "/" <> x) t
      ∙ ap (λ y. scheme <> y)
          (text_assoc "://" (host <> "/" <> x) t
            ∙ ap (λ y. "://" <> y)
                (text_assoc host ("/" <> x) t ∙ ap (λ y. host <> y) (text_assoc "/" x t)))

  printed-parsed : printed parsed ≡ scheme <> "://" <> host <> "/" <> slashed (s ∷ (q ++ n ∷ []))
  printed-parsed =
      ap (λ x. scheme <> "://" <> x)
        (nil-append _
          ∙ ap (λ x. host <> x)
              (text-append-nil _ ∙ nil-append ("/" <> slashed (s ∷ (q ++ n ∷ [])))))

  url-parsed : (scheme <> "://" <> host <> "/" <> slashed (s ∷ q)) <> "/" <> n ≡ printed parsed
  url-parsed =
      joined (slashed (s ∷ q)) ("/" <> n)
      ∙ ap (λ x. scheme <> "://" <> host <> "/" <> x) (sym (slashed-append s n q))
      ∙ sym printed-parsed

  -- An archive is downloaded from the URL that it was made of, if that one has a scheme, a host and
  -- a path of two or more elements, none of them empty, "." or "..", and nothing else: no user
  -- information, no escapes in the path, no query and no fragment. If the text is the one of such a
  -- URL and is parsed to it, then `NewArchive` without options reports no error, the name of the
  -- archive is the last element, and its `URL` is the text.
  pub url-new_archive :
      (parse : String → Option ParsedUrl) (text : String)
      → parse text ≡ some parsed
      → printed parsed ≡ text
      → (a : Archive) × (new_archive parse text [] ≡ some a) × (name a ≡ n) × (url a ≡ text)
  unfolding new_archive
  url-new_archive parse text found written =
      (_, rw (found, new_archive) (ap some of_url-parsed), refl, url-parsed ∙ written)
